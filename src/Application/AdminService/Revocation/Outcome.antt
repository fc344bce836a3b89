-- ===== src/Application/AdminService/Revocation/Outcome.antt =====
-- `revokeLicense` and `terminateLicenseSessions` for every pattern of failing calls.
use keyzori.Prelude.{ℕ, ◌≡◌, ◌⊎◌, inl, inr, refl, String, Option, some, subst, sym, ◌∙◌}
use keyzori.Domain.Entities.{License, revoked, manual_revocation}
use keyzori.Domain.LicenseStatus.{derive_license_status}
use keyzori.Domain.Errors.{Failure, ok}
use keyzori.Infrastructure.Redis.{Redis}
use keyzori.Infrastructure.Database.{Database}
use keyzori.Infrastructure.LicenseRepository.{
  find_by_id, write_invalidating, raise_session_revision,
}
use keyzori.Infrastructure.LicenseRepository.Revisions.{
  Advances, invalidating-Reached, raise-Reached,
}
use keyzori.Application.Exec.{World}
use keyzori.Application.Exec.Laws.{Ends, lift-Ends, pure-Ends, gets-Ends, bind-Ends, capture-Ends}
use keyzori.Application.AdminService.{ManagedLicense}
use keyzori.Application.AdminService.Steps.{
  require_license-Ends, write_and_reread-Ends, cleanup-Ends,
}
use keyzori.Application.AdminService.Revocation.{
  revoke_license, terminate_license_sessions, revocation,
}

-- The license is revoked by an operator, and of the next revision.
abbrev pub RevokedFrom : String → ℕ → Database → Database → License → Type 0
RevokedFrom id now db db' l =
    Advances id db db' l
    × ((derive_license_status l now).status ≡ revoked)
    × ((derive_license_status l now).reason ≡ manual_revocation)

same_license : {l m : License} → some l ≡ some m → l ≡ m
same_license h = cc

revocation-RevokedFrom :
    (id text : String) (license l : License) (now : ℕ) (db db' : Database)
    → write_invalidating id (revocation license text now) now db ≡ ok (tt, db')
    → find_by_id id db' ≡ some l
    → RevokedFrom id now db db' l
unfolding derive_license_status
revocation-RevokedFrom id text license l now db db' h found =
    let (row, (was, written, stored, advanced)) =
      invalidating-Reached id (revocation license text now) now db db' h in
    subst (RevokedFrom id now db db') (same_license (sym stored ∙ found)) (advanced, refl, refl)

raised-Advances :
    (id : String) (l : License) (now : ℕ) (db db' : Database)
    → raise_session_revision id now db ≡ ok (tt, db')
    → find_by_id id db' ≡ some l
    → Advances id db db' l
raised-Advances id l now db db' h found =
    let (row, (was, written, stored, advanced)) = raise-Reached id now db db' h in
    subst (Advances id db db') (same_license (sym stored ∙ found)) advanced

-- What the license is after a write that reached it.
revocation-Reached :
    (id text : String) (license : License) (now : ℕ) (db db' : Database)
    → write_invalidating id (revocation license text now) now db ≡ ok (tt, db')
    → (l : License) × RevokedFrom id now db db' l
unfolding derive_license_status
revocation-Reached id text license now db db' h =
    let (row, (was, written, stored, advanced)) =
      invalidating-Reached id (revocation license text now) now db db' h in
    (_, (advanced, refl, refl))

module _ (redis : Redis) (sha256 : String → String) where
  abbrev pub Revoked : String → World redis → ManagedLicense → World redis → Type 0
  Revoked id w m v =
      RevokedFrom id w.now w.db v.db m.license
      × (m.status ≡ revoked)
      × (m.status_reason ≡ manual_revocation)

  -- Nothing has changed, or all of the revocation has.
  abbrev pub WholeRevocation : String → World redis → Failure → World redis → Type 0
  WholeRevocation id w e v = (v.db ≡ w.db) ⊎ ((l : License) × RevokedFrom id w.now w.db v.db l)

  -- Whichever calls fail, `revokeLicense` leaves no license half revoked. Where it returns, the license
  -- is stored as revoked by an operator, with the next session revision and a later version, and the
  -- answer says so. Where it throws, the database is as it was, or the license is stored just so.
  pub revoke_license_lem :
      (id : String) (reason : Option String) (w : World redis)
      → Ends (Revoked id w) (WholeRevocation id w) (revoke_license redis sha256 id reason) w
  unfolding revoke_license
  revoke_license_lem id reason w = bind-Ends _ _ _ _ _ (
      require_license-Ends redis sha256 _ _ _ _
        (λ license rest found. bind-Ends _ _ _ _ _ (
          lift-Ends _ _ _ _
            (λ text valid. bind-Ends _ _ _ _ _ (
              gets-Ends _ _ _ _ (
                bind-Ends _ _ _ _ _ (
                  write_and_reread-Ends redis sha256 _ _ _ _ _
                    (λ l db more written stored.
                      let whole =
                        revocation-RevokedFrom id text license l w.now w.db db written stored in
                      bind-Ends _ _ _ _ _ (
                        cleanup-Ends redis sha256 _ _ _ _ _ (λ r others s. bind-Ends _ _ _ _ _ (
                          capture-Ends _ _ _ _
                            (λ _ _. pure-Ends _ _ _ _ (whole, whole.1, whole.2))))))
                    (λ e db more either. elim either [
                      | inl same ↦ inl same
                      | inr written ↦ inr (revocation-Reached id text license w.now w.db db written)
                    ])))))
            (λ e h. inl refl)))
        (λ e rest. inl refl))

  abbrev pub Terminated : String → World redis → ℕ → World redis → Type 0
  Terminated id w n v = (l : License) × Advances id w.db v.db l

  abbrev pub WholeTermination : String → World redis → Failure → World redis → Type 0
  WholeTermination id w e v = (v.db ≡ w.db) ⊎ ((l : License) × Advances id w.db v.db l)

  -- Whichever calls fail: where `terminateLicenseSessions` returns, the license has the next session
  -- revision and a later version; where it throws, so it has, or the database is as it was.
  pub terminate_license_sessions_lem :
      (id : String) (w : World redis)
      → Ends
          (Terminated id w)
          (WholeTermination id w)
          (terminate_license_sessions redis sha256 id)
          w
  unfolding terminate_license_sessions
  terminate_license_sessions_lem id w = bind-Ends _ _ _ _ _ (
      require_license-Ends redis sha256 _ _ _ _
        (λ license rest found. bind-Ends _ _ _ _ _ (
          gets-Ends _ _ _ _ (
            bind-Ends _ _ _ _ _ (
              write_and_reread-Ends redis sha256 _ _ _ _ _
                (λ l db more written stored. bind-Ends _ _ _ _ _ (
                  cleanup-Ends redis sha256 _ _ _ _ _ (λ r others s. bind-Ends _ _ _ _ _ (
                    capture-Ends _ _ _ _ (λ _ _.
                      pure-Ends _ _ _ _ (l, raised-Advances id l w.now w.db db written stored))))))
                (λ e db more either. elim either [
                  | inl same ↦ inl same
                  | inr written ↦
                      let (row, (was, h, stored, advanced)) =
                        raise-Reached id w.now w.db db written in
                      inr (_, advanced)
                ])))))
        (λ e rest. inl refl))
