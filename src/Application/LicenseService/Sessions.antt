-- ===== src/Application/LicenseService/Sessions.antt =====
-- `heartbeat` for every pattern of failing calls, and the steps that it shares with `consume`.
use keyzori.Prelude.{
  ℕ, ◌≡◌, ◌≢◌, ◌∙◌, ap, refl, String, List, Bool, false, not, eqb, Option, none, some, arith,
}
use keyzori.Domain.Entities.{License, LicenseWithAllowlists}
use keyzori.Domain.Errors.{Failure, internal, ok}
use keyzori.Infrastructure.Redis.{Redis}
use keyzori.Infrastructure.Database.{Database}
use keyzori.Infrastructure.LicenseRepository.{find_by_id, find_by_id_with_allowlists}
use keyzori.Infrastructure.SessionRepository.{SessionBinding, ResolvedSession, refresh_session}
use keyzori.Application.Exec.{World, raise}
use keyzori.Application.Exec.Laws.{
  Ends, query-Ends, script-Ends, lift-Ends, if-Ends, pure-Ends, raise-Ends, gets-Ends, bind-Ends,
  option-Ends, try_catch-Ends, capture-Ends,
}
use keyzori.Application.LicenseService.Policy.{binding, assert_active, assert_allowed}
use keyzori.Application.LicenseService.{
  require_found, require_active_session_license, refreshed_session, send_heartbeat,
  remove_session_best_effort, LicenseSessionResult, session_ttl_seconds,
}
use keyzori.Application.LicenseService.Steps.{Kept, found_or-Ends, removal-Ends, touch-Ends}

-- The stored license has the revision, is active and permits the binding.
abbrev pub InForce : LicenseWithAllowlists → ℕ → SessionBinding → ℕ → Type 0
InForce license revision b now =
    (license.session_revision ≡ revision)
    × (assert_active license.license now ≡ ok tt)
    × (assert_allowed license b ≡ ok tt)

-- The license of a session, as the database has it.
abbrev pub StoredAs : String → Database → LicenseWithAllowlists → Type 0
StoredAs license_id db license =
    (l : License) × (find_by_id license_id db ≡ some l)
    × (find_by_id_with_allowlists l.id db ≡ some license)

nothing : {A : Type 0} {a : A} → none ≢ some a
nothing h = cc

equal_unless : {a b : ℕ} → not (eqb a b) ≡ false → a ≡ b
equal_unless h = ground arith

module _ (redis : Redis) (sha256 : String → String) where
  module _ {A : Type 0} (P : A → World redis → Type 0) (Q : Failure → World redis → Type 0) where
    dropped-Ends :
        (token : String) (b : SessionBinding) (e : Failure) (w : World redis)
        → ((rest : List Bool) (s : redis.Store) (e : Failure)
            → Q e (record w { faults = rest; sessions = s }))
        → Ends (λ _. Ends P Q (raise e)) Q (remove_session_best_effort redis sha256 token b) w
    dropped-Ends token b e w throws =
        removal-Ends redis sha256 _ _ _ _ _ (λ rest s. raise-Ends _ _ _ _ (throws rest s e))

  module _ (P : LicenseWithAllowlists → World redis → Type 0)
      (Q : Failure → World redis → Type 0) where
    require_found-Ends :
        (revision : ℕ) (token : String) (b : SessionBinding) (found : Option LicenseWithAllowlists)
        (w : World redis)
        → ((license : LicenseWithAllowlists)
            → found ≡ some license
            → InForce license revision b w.now
            → P license w)
        → ((rest : List Bool) (s : redis.Store) (e : Failure)
            → Q e (record w { faults = rest; sessions = s }))
        → Ends P Q (require_found redis sha256 revision token b found) w
    unfolding require_found
    require_found-Ends revision token b none w returns throws =
        bind-Ends _ _ _ _ _ (dropped-Ends P Q _ _ _ _ throws)
    require_found-Ends revision token b (some license) w returns throws =
        if-Ends P Q (not (eqb license.session_revision revision)) _ _ w
          (λ other. bind-Ends _ _ _ _ _ (dropped-Ends P Q _ _ _ _ throws))
          (λ same. bind-Ends _ _ _ _ _ (
            gets-Ends _ _ _ _ (
              bind-Ends _ _ _ _ _ (
                try_catch-Ends _ _ _ _ _ (
                  bind-Ends _ _ _ _ _ (
                    lift-Ends _ _ _ _
                      (λ _ is_active.
                        lift-Ends _ _ _ _
                          (λ _ is_allowed.
                            pure-Ends _ _ _ _
                              (returns license refl (equal_unless same, is_active, is_allowed)))
                          (λ e h. bind-Ends _ _ _ _ _ (dropped-Ends _ _ _ _ _ _ throws)))
                      (λ e h. bind-Ends _ _ _ _ _ (dropped-Ends _ _ _ _ _ _ throws))))))))

    pub require_active-Ends :
        (license_id : String) (revision : ℕ) (token : String) (b : SessionBinding) (w : World redis)
        → ((license : LicenseWithAllowlists) (rest : List Bool)
            → StoredAs license_id w.db license
            → InForce license revision b w.now
            → P license (record w { faults = rest }))
        → ((rest : List Bool) (s : redis.Store) (e : Failure)
            → Q e (record w { faults = rest; sessions = s }))
        → Ends P Q (require_active_session_license redis sha256 license_id revision token b) w
    unfolding require_active_session_license
    require_active-Ends license_id revision token b w returns throws = bind-Ends _ _ _ _ _ (
        query-Ends _ _ _ _
          (λ rest.
            option-Ends P Q (find_by_id license_id w.db) _ _ (record w { faults = rest })
              (λ missing.
                require_found-Ends _ _ b none _ (λ license there. absurd (nothing there)) throws)
              (λ l there. bind-Ends _ _ _ _ _ (
                query-Ends _ _ _ _
                  (λ rest'.
                    require_found-Ends _ _ _ _ _
                      (λ license found in_force. returns license rest' (l, there, found) in_force)
                      throws)
                  (λ rest'. throws rest' w.sessions internal))))
          (λ rest. throws rest w.sessions internal))

  module _ (P : ResolvedSession → World redis → Type 0) (Q : Failure → World redis → Type 0) where
    pub refreshed_session-Ends :
        (token : String) (b : SessionBinding) (w : World redis)
        → ((resolved : ResolvedSession) (rest : List Bool) (s : redis.Store)
            → (refresh_session redis sha256 token b session_ttl_seconds w.sessions).0
              ≡ ok (some resolved)
            → P resolved (record w { faults = rest; sessions = s }))
        → ((rest : List Bool) (s : redis.Store) (e : Failure)
            → Q e (record w { faults = rest; sessions = s }))
        → Ends P Q (refreshed_session redis sha256 token b) w
    unfolding refreshed_session
    refreshed_session-Ends token b w returns throws = bind-Ends _ _ _ _ _ (
        script-Ends _ _ _ _
          (λ rest s. bind-Ends _ _ _ _ _ (
            lift-Ends _ _ _ _
              (λ answer h.
                found_or-Ends redis sha256 _ _ _ _ _
                  (λ resolved there. returns resolved rest s (h ∙ ap ok there)) (throws rest s _))
              (λ e h. throws rest s e)))
          (λ rest. throws rest w.sessions internal))

  -- What a heartbeat has found when it returns.
  abbrev pub Alive :
      String → String → String → World redis → LicenseSessionResult → World redis → Type 0
  Alive token device_id ip w result v =
      (b : SessionBinding) × (binding ip device_id ≡ ok b)
      × (resolved : ResolvedSession) × ((refresh_session redis sha256 token b session_ttl_seconds
            w.sessions).0
          ≡ ok (some resolved))
      × (license : LicenseWithAllowlists) × StoredAs resolved.license_id w.db license
      × InForce license resolved.session_revision b w.now
      × (result.license_type ≡ license.type)
      × (result.session_token ≡ token)

  -- Whichever calls fail, a heartbeat either throws and leaves the database as it was, or returns the
  -- given token, where Redis has a session of the token and the binding, and the database has the
  -- session's license, of the revision that the session was registered for, active at the time of the
  -- request, with the binding on its lists where it has any.
  pub heartbeat_lem :
      (token device_id ip : String) (w : World redis)
      → Ends
          (Alive token device_id ip w)
          (Kept w.db)
          (send_heartbeat redis sha256 token device_id ip)
          w
  unfolding send_heartbeat
  heartbeat_lem token device_id ip w = bind-Ends _ _ _ _ _ (
      lift-Ends _ _ _ _
        (λ b bound. bind-Ends _ _ _ _ _ (
          refreshed_session-Ends _ _ _ _ _
            (λ resolved _ _ refreshed. bind-Ends _ _ _ _ _ (
              require_active-Ends _ _ _ _ _ _ _
                (λ license _ stored in_force. bind-Ends _ _ _ _ _ (
                  touch-Ends redis sha256 _ _ _ _ _ (λ _ _. bind-Ends _ _ _ _ _ (
                    capture-Ends _ _ _ _ (λ _ _.
                      pure-Ends _ _ _ _
                        (b, bound, resolved, refreshed, license, stored, in_force, refl, refl))))))
                (λ _ _ _. refl)))
            (λ _ _ _. refl)))
        (λ e h. refl))
