-- ===== src/Application/AdminService/Revocation/Aftermath.antt =====
-- What the end of a license's sessions means for the clients that hold them: AdminService.ts against
-- LicenseService.ts.
use keyzori.Prelude.{ℕ, ◌+◌, ◌≤◌, ◌≡◌, refl, subst, String, some, arith}
use keyzori.Domain.Entities.{License, LicenseWithAllowlists}
use keyzori.Domain.Errors.{ok}
use keyzori.Infrastructure.Redis.{Redis}
use keyzori.Infrastructure.Database.{Database}
use keyzori.Infrastructure.LicenseRepository.{
  find_by_id, find_by_id_with_allowlists, with_allowlists,
}
use keyzori.Infrastructure.LicenseRepository.Revisions.{Advances, find_by_id-id}
use keyzori.Infrastructure.MeterRepository.{Draws}
use keyzori.Infrastructure.SessionRepository.{SessionBinding, ResolvedSession, refresh_session}
use keyzori.Application.Exec.{World}
use keyzori.Application.Exec.Laws.{Ends, Outcome-mono}
use keyzori.Application.LicenseService.{send_heartbeat, consume_usage, session_ttl_seconds}
use keyzori.Application.LicenseService.Policy.{binding, ConsumeUsageInput}
use keyzori.Application.LicenseService.Steps.{Kept}
use keyzori.Application.LicenseService.Sessions.{Alive, StoredAs, InForce, heartbeat_lem}
use keyzori.Application.LicenseService.Consumption.{Consumed, consume_usage_lem}

module _ (redis : Redis) (sha256 : String → String) where
  -- The token's session, if Redis has one, is of the license and at most of the revision.
  abbrev pub SessionUpTo : String → ℕ → String → SessionBinding → World redis → Type 0
  SessionUpTo id revision token b w =
      (resolved : ResolvedSession)
      → (refresh_session redis sha256 token b session_ttl_seconds w.sessions).0 ≡ ok (some resolved)
      → (resolved.license_id ≡ id) × (resolved.session_revision ≤ revision)

  -- The license of an identifier is the one that a service loads with its lists.
  stored_revision :
      (id : String) (db : Database) (l m : License) (license : LicenseWithAllowlists)
      → find_by_id id db ≡ some l
      → find_by_id id db ≡ some m
      → find_by_id_with_allowlists m.id db ≡ some license
      → license.session_revision ≡ l.session_revision
  stored_revision id db l m license found looked listed =
      let same : m ≡ l = cc in
      let named : m.id ≡ id = find_by_id-id id db m looked in
      let e : find_by_id_with_allowlists m.id db ≡ some (with_allowlists l db) =
        rw (named, found) refl in
      let given : license ≡ with_allowlists l db = cc in rw given refl

  outdated :
      (id : String) (old l : License) (token : String) (b : SessionBinding) (w : World redis)
      (resolved : ResolvedSession) (license : LicenseWithAllowlists)
      → find_by_id id w.db ≡ some l
      → l.session_revision ≡ old.session_revision + 1
      → (resolved.license_id ≡ id) × (resolved.session_revision ≤ old.session_revision)
      → StoredAs resolved.license_id w.db license
      → InForce license resolved.session_revision b w.now
      → ⊥
  outdated id old l token b w resolved license found raised (of_id, up) (m, looked, listed) force =
      let looked' = subst (λ i. find_by_id i w.db ≡ some m) of_id looked in
      let same = stored_revision id w.db l m license found looked' listed in
      let in_force = force.0 in absurd (omega arith)

  -- Once the sessions of a license have been invalidated, a client whose session is of a revision
  -- from before can neither send a heartbeat nor draw units: whichever calls fail, both throw, and
  -- leave the database as it is. (Redis may still have the session.)
  pub invalidated_refused :
      (id : String) (before : Database) (l : License) (w : World redis)
      → (advanced : Advances id before w.db l) → (token device_id ip : String)
      → ((b : SessionBinding)
          → binding ip device_id ≡ ok b
          → SessionUpTo id advanced.0.session_revision token b w)
      → Ends (λ _ _. ⊥) (Kept w.db) (send_heartbeat redis sha256 token device_id ip) w
        × ((raw : ConsumeUsageInput) (draws : Draws)
            → Ends
                (λ _ _. ⊥)
                (Kept w.db)
                (consume_usage redis sha256 token device_id ip raw draws)
                w)
  invalidated_refused id before l w (old, was, found, raised, later) token device_id ip up = (
    Outcome-mono (Alive redis sha256 token device_id ip w) (Kept w.db) _ _
        (λ result v alive.
          let (b, bound, resolved, refreshed, license, stored, force, _, _) = alive in
          outdated id old l token b w resolved license found raised (up b bound resolved refreshed)
            stored force)
        (λ e v kept. kept) _ _ (heartbeat_lem redis sha256 token device_id ip w),
    λ raw draws.
        Outcome-mono (Consumed redis sha256 token device_id ip raw draws w) (Kept w.db) _ _
          (λ result v consumed.
            let (b, bound, license, eligible, drawn) = consumed in
            let (valid, resolved, refreshed, stored, force) = eligible in
            outdated id old l token b w resolved license found raised
              (up b bound resolved refreshed) stored force)
          (λ e v kept. kept) _ _ (consume_usage_lem redis sha256 token device_id ip raw draws w),
  )
