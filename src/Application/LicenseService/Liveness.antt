-- ===== src/Application/LicenseService/Liveness.antt =====
-- Activation where no call fails.
use keyzori.Prelude.{
  ℕ, ◌≡◌, refl, String, [], true, false, not, ◌&&◌, eqb, Option, none, some, is_some, arith,
}
use keyzori.Domain.Entities.{License, LicenseWithAllowlists, RegisteredDevice, JsonObject}
use keyzori.Domain.Errors.{ok}
use keyzori.Infrastructure.Redis.{Redis}
use keyzori.Infrastructure.Database.{Database}
use keyzori.Infrastructure.LicenseRepository.{find_by_license_key_with_allowlists}
use keyzori.Infrastructure.DeviceRepository.{
  find_license_admission_policy, find_registered_device, is_trial,
}
use keyzori.Infrastructure.SessionRepository.{SessionBinding, registered, register_session}
use keyzori.Application.Activity.{ActivityEventType}
use keyzori.Application.Exec.{World, Exec}
use keyzori.Application.Exec.Laws.{
  Ends, Outcome-mono, pure-Ends, gets-Ends, bind-Ends, set_pending-Ends, try_catch-Ends,
  capture-Ends,
}
use keyzori.Application.Exec.Faultless.{
  query-Runs, script-Runs, transaction-Runs, capture-Runs, lift-Runs,
}
use keyzori.Application.LicenseService.Policy.{binding, assert_active, assert_allowed}
use keyzori.Application.LicenseService.{
  activate, activate_found, admit_activation, admit_locked, admit_device, admit_new_device,
  register_new_device, start_trial, rejecting, session_ttl_seconds,
}
use keyzori.Application.LicenseService.Steps.{touch-Ends, found_or-some}

eqb_refl : (n : ℕ) → eqb n n ≡ true
eqb_refl n = ground arith

module _ (redis : Redis) (sha256 : String → String) where
  -- A registered device asks for a session of a license in force, whose trial, if it is one, has
  -- started, and Redis has room for the session.
  pub record Welcome (license : LicenseWithAllowlists) (b : SessionBinding) (token given : String)
      (db : Database) (sessions : redis.Store) (now : ℕ) : Type 0 where
    pub policy : find_license_admission_policy license.id db ≡ some license
    pub in_force : assert_active license.license now ≡ ok tt
    pub allowed : assert_allowed license b ≡ ok tt
    pub device : RegisteredDevice
    pub known : find_registered_device license.id b.ip b.device_id db ≡ some device
    pub started : (is_trial license.type && not (is_some license.trial_started_at)) ≡ false
    pub room :
        (register_session redis sha256 license.id license.session_revision b session_ttl_seconds
          license.max_sessions token sessions).0
        ≡ registered given

  abbrev Admitted :
      World redis → LicenseWithAllowlists → String → LicenseWithAllowlists → World redis → Type 0
  Admitted w license given a v = (v.faults ≡ []) × (a ≡ license) × (v.pending ≡ some given)

  module _ (license : LicenseWithAllowlists) (b : SessionBinding)
      (token given row_id : String) where
    admit_device-Runs :
        (w : World redis)
        → w.faults ≡ []
        → Welcome license b token given w.db w.sessions w.now
        → Ends
            (Admitted w license given)
            (λ _ _. ⊥)
            (admit_device redis sha256 license b token row_id)
            w
    unfolding admit_device admit_new_device register_new_device start_trial
    admit_device-Runs w h welcome = bind-Ends _ _ _ _ _ (
        query-Runs _ _ _ _ h (
          rw welcome.known (
            bind-Ends _ _ _ _ _ (
              pure-Ends _ _ _ _ (
                bind-Ends _ _ _ _ _ (
                  script-Runs _ _ _ _ h (
                    rw welcome.room (
                      bind-Ends _ _ _ _ _ (
                        pure-Ends _ _ _ _ (
                          bind-Ends _ _ _ _ _ (
                            set_pending-Ends _ _ _ _ (
                              bind-Ends _ _ _ _ _ (
                                rw welcome.started (
                                  pure-Ends _ _ _ _ (
                                    bind-Ends _ _ _ _ _ (
                                      pure-Ends _ _ _ _
                                        (pure-Ends _ _ _ _ (h, refl, refl))))))))))))))))))

    admit_locked-Runs :
        (w : World redis)
        → w.faults ≡ []
        → Welcome license b token given w.db w.sessions w.now
        → Ends
            (Admitted w license given)
            (λ _ _. ⊥)
            (admit_locked redis sha256 license b token row_id)
            w
    unfolding admit_locked
    admit_locked-Runs w h welcome = bind-Ends _ _ _ _ _ (
        query-Runs _ _ _ _ h (
          rw welcome.policy (
            bind-Ends _ _ _ _ _ (
              rw (eqb_refl license.session_revision) (
                pure-Ends _ _ _ _ (
                  bind-Ends _ _ _ _ _ (
                    gets-Ends _ _ _ _ (
                      bind-Ends _ _ _ _ _ (
                        lift-Runs _ _ _ _ _ welcome.in_force (
                          bind-Ends _ _ _ _ _ (
                            lift-Runs _ _ _ _ _ welcome.allowed
                              (admit_device-Runs w h welcome))))))))))))

    admit_activation-Runs :
        (w : World redis)
        → w.faults ≡ []
        → Welcome license b token given w.db w.sessions w.now
        → Ends
            (λ r _. (r.0 ≡ license) × (r.1 ≡ given))
            (λ _ _. ⊥)
            (admit_activation redis sha256 license b token row_id)
            w
    unfolding admit_activation
    admit_activation-Runs w h welcome = bind-Ends _ _ _ _ _ (
        set_pending-Ends _ _ _ _ (
          bind-Ends _ _ _ _ _ (
            try_catch-Ends _ _ _ _ _ (
              transaction-Runs _ _ _ _ (
                Outcome-mono (Admitted (record w { pending = none }) license given) (λ _ _. ⊥) _ _
                  (λ a v (safe, same, pending). (
                    safe,
                    bind-Ends _ _ _ _ _ (
                        touch-Ends redis sha256 _ _ _ _ _ (λ _ _. bind-Ends _ _ _ _ _ (
                          gets-Ends _ _ _ _ (
                            bind-Ends _ _ _ _ _ (
                              found_or-some redis sha256 _ _ _ _ given _ pending
                                (pure-Ends _ _ _ _ (same, refl))))))),
                  ))
                  (λ e v never. absurd never) _ _
                  (admit_locked-Runs (record w { pending = none }) h welcome))))))

    activate_found-Runs :
        (w : World redis)
        → w.faults ≡ []
        → Welcome license b token given w.db w.sessions w.now
        → Ends
            (λ r _. r.session_token ≡ given)
            (λ _ _. ⊥)
            (activate_found redis sha256 (some license) b token row_id)
            w
    unfolding activate_found
    activate_found-Runs w h welcome = bind-Ends _ _ _ _ _ (
        capture-Runs _ _ _ _ h (λ _. bind-Ends _ _ _ _ _ (
          pure-Ends _ _ _ _ (
            bind-Ends _ _ _ _ _ (
              Outcome-mono (λ r _. (r.0 ≡ license) × (r.1 ≡ given)) (λ _ _. ⊥) _ _
                (λ r v (same, token_given).
                  bind-Ends _ _ _ _ _ (capture-Ends _ _ _ _ (λ _ _. pure-Ends _ _ _ _ token_given)))
                (λ e v never. absurd never) _ _ (admit_activation-Runs _ h welcome))))))

  rejecting-Runs :
      {A : Type 0}
      → (P : A → World redis → Type 0) → (type : ActivityEventType) → (license : Option License)
      → (b : SessionBinding) → (details : JsonObject) → (m : Exec redis A) → (w : World redis)
      → Ends P (λ _ _. ⊥) m w
      → Ends P (λ _ _. ⊥) (rejecting type license b details m) w
  unfolding rejecting
  rejecting-Runs P type license b details m w h =
      try_catch-Ends _ _ _ _ _
        (Outcome-mono P (λ _ _. ⊥) _ _ (λ a v h. h) (λ e v never. absurd never) _ _ h)

  -- If no call fails, an activation returns the session that Redis registered: where the key is of a
  -- license in force which permits the binding, the device is registered with it, a trial has started,
  -- and the license has room for the session.
  pub activate_returns :
      (license_key device_id ip token given row_id : String) (b : SessionBinding)
      (license : LicenseWithAllowlists) (w : World redis)
      → w.faults ≡ []
      → binding ip device_id ≡ ok b
      → find_by_license_key_with_allowlists sha256 license_key w.db ≡ some license
      → Welcome license b token given w.db w.sessions w.now
      → Ends
          (λ r _. r.session_token ≡ given)
          (λ _ _. ⊥)
          (activate redis sha256 license_key device_id ip token row_id)
          w
  unfolding activate
  activate_returns license_key device_id ip token given row_id b license w h bound found welcome =
      bind-Ends _ _ _ _ _ (
        lift-Runs _ _ _ _ _ bound (
          bind-Ends _ _ _ _ _ (
            rejecting-Runs _ _ _ _ _ _ _ (
              query-Runs _ _ _ _ h (
                rw found (
                  rejecting-Runs _ _ _ _ _ _ _
                    (activate_found-Runs license b token given row_id w h welcome)))))))
