-- ===== src/Application/LicenseService/Admission.antt =====
-- The admission of a device under the registration lock, for every pattern of failing calls.
use keyzori.Prelude.{
  ap, ℕ, ◌≡◌, refl, String, List, Bool, not, ◌&&◌, Option, none, some, is_some, arith,
}
use keyzori.Domain.Entities.{LicenseType, LicenseWithAllowlists, RegisteredDevice}
use keyzori.Domain.Errors.{Failure, internal, ok}
use keyzori.Infrastructure.Redis.{Redis}
use keyzori.Infrastructure.Database.{Database}
use keyzori.Infrastructure.DeviceRepository.{
  is_trial, find_license_admission_policy, find_registered_device, get_license_device_usage,
}
use keyzori.Infrastructure.SessionRepository.{
  SessionBinding, SessionRegistrationResult, registered, limit_reached, register_session,
}
use keyzori.Application.Exec.{World, pure, raise}
use keyzori.Application.Exec.Laws.{
  Ends, Committed, Restored, query-Ends, script-Ends, write-Ends, lift-Ends, if-Ends, pure-Ends,
  raise-Ends, gets-Ends, set_pending-Ends, bind-Ends,
}
use keyzori.Application.LicenseService.Steps.{Kept, by_test, found_or-Ends}
use keyzori.Application.LicenseService.Policy.{assert_active, assert_allowed, check_limits}
use keyzori.Application.LicenseService.{
  admit_locked, admit_device, same_revision, start_trial, admit_new_device, register_new_device,
  registered_token,
}

-- The device is registered, or its registration is within the limits.
abbrev pub Admissible :
    LicenseWithAllowlists → SessionBinding → Database → Option RegisteredDevice → Type 0
Admissible current b db (some existing) = Unit {0}
Admissible current b db none =
    check_limits current (get_license_device_usage current.id b.ip b.device_id db) ≡ ok tt

-- The license in force permits the binding at a time.
abbrev pub Permits : LicenseWithAllowlists → SessionBinding → ℕ → Database → Type 0
Permits current b now db =
    (assert_active current.license now ≡ ok tt)
    × (assert_allowed current b ≡ ok tt)
    × Admissible current b db (find_registered_device current.id b.ip b.device_id db)

-- The license in force has the revision that was looked up, its type, and permits the binding.
abbrev pub Granted : LicenseWithAllowlists → SessionBinding → ℕ → Database → LicenseType → Type 0
Granted license b now db type =
    (current : LicenseWithAllowlists) × (find_license_admission_policy license.id db ≡ some current)
    × (current.session_revision ≡ license.session_revision)
    × Permits current b now db
    × (type ≡ current.type)

module _ (redis : Redis) (sha256 : String → String) where
  register-token :
      (id : String) (revision : ℕ) (b : SessionBinding) (ttl maximum : ℕ) (token given : String)
      (s : redis.Store)
      → (register_session redis sha256 id revision b ttl maximum token s).0 ≡ registered given
      → given ≡ token
  unfolding register_session
  register-token id revision b ttl maximum token given s h = ground arith

  module _ (P : String → World redis → Type 0) (Q : Failure → World redis → Type 0) where
    registered_token-Ends :
        (answer : SessionRegistrationResult) (w : World redis)
        → ((given : String) → answer ≡ registered given → P given w)
        → ((e : Failure) → Q e w)
        → Ends P Q (registered_token redis sha256 answer) w
    registered_token-Ends (registered given) w returns throws =
        pure-Ends _ _ _ _ (returns given refl)
    registered_token-Ends limit_reached w returns throws = raise-Ends _ _ _ _ (throws _)

  module _ (P : LicenseWithAllowlists → World redis → Type 0)
      (Q : Failure → World redis → Type 0) where
    same_revision-Ends :
        (license : LicenseWithAllowlists) (policy : Option LicenseWithAllowlists) (w : World redis)
        → ((current : LicenseWithAllowlists)
            → policy ≡ some current
            → current.session_revision ≡ license.session_revision
            → P current w)
        → ((e : Failure) → Q e w)
        → Ends P Q (same_revision redis sha256 license policy) w
    unfolding pure raise
    same_revision-Ends license none w returns throws = throws _
    same_revision-Ends license (some current) w returns throws =
        if-Ends _ _ _ _ _ _ (λ same. returns current refl (by_test same)) (λ other. throws _)

    start_trial-Ends :
        (current : LicenseWithAllowlists) (w : World redis)
        → ((rest : List Bool) (db : Database) (a : LicenseWithAllowlists)
            → a.type ≡ current.type
            → P a (record w { faults = rest; db = db }))
        → ((rest : List Bool) (db : Database) (e : Failure)
            → Q e (record w { faults = rest; db = db }))
        → Ends P Q (start_trial redis sha256 current) w
    unfolding start_trial
    start_trial-Ends current w returns throws =
        if-Ends P Q (is_trial current.type && not (is_some current.trial_started_at)) _ _ w
          (λ unstarted. bind-Ends _ _ _ _ _ (
            gets-Ends _ _ _ _ (
              bind-Ends _ _ _ _ _ (
                write-Ends _ _ _ _
                  (λ rest db started h. bind-Ends _ _ _ _ _ (
                    found_or-Ends redis sha256 _ _ _ _ _
                      (λ at h. pure-Ends _ _ _ _ (returns rest db _ refl))
                      (throws rest db internal)))
                  (λ rest e. throws rest w.db e)))))
          (λ started. pure-Ends _ _ _ _ (returns w.faults w.db current refl))

  module _ (P : Unit {0} → World redis → Type 0) (Q : Failure → World redis → Type 0) where
    admit_new_device-Ends :
        (current : LicenseWithAllowlists) (b : SessionBinding) (existing : Option RegisteredDevice)
        (w : World redis)
        → (Admissible current b w.db existing
            → (rest : List Bool) → P tt (record w { faults = rest }))
        → ((rest : List Bool) (e : Failure) → Q e (record w { faults = rest }))
        → Ends P Q (admit_new_device redis sha256 current b existing) w
    unfolding admit_new_device
    admit_new_device-Ends current b (some existing) w returns throws =
        pure-Ends _ _ _ _ (returns tt w.faults)
    admit_new_device-Ends current b none w returns throws = bind-Ends _ _ _ _ _ (
        query-Ends _ _ _ _
          (λ rest. lift-Ends _ _ _ _ (λ _ h. returns h rest) (λ e h. throws rest e))
          (λ rest. throws rest internal))

    register_new_device-Ends :
        (current : LicenseWithAllowlists) (b : SessionBinding) (row_id : String)
        (existing : Option RegisteredDevice) (w : World redis)
        → ((rest : List Bool) (db : Database) → P tt (record w { faults = rest; db = db }))
        → ((rest : List Bool) (db : Database) (e : Failure)
            → Q e (record w { faults = rest; db = db }))
        → Ends P Q (register_new_device redis sha256 current b row_id existing) w
    unfolding register_new_device
    register_new_device-Ends current b row_id (some existing) w returns throws =
        pure-Ends _ _ _ _ (returns w.faults w.db)
    register_new_device-Ends current b row_id none w returns throws = bind-Ends _ _ _ _ _ (
        gets-Ends _ _ _ _ (
          bind-Ends _ _ _ _ _ (
            write-Ends _ _ _ _ (λ rest db device h. pure-Ends _ _ _ _ (returns rest db))
              (λ rest e. throws rest w.db e))))

  abbrev pub Admits :
      LicenseWithAllowlists
      → SessionBinding
      → String
      → World redis
      → LicenseWithAllowlists
      → World redis
      → Type 0
  Admits license b token w admitted v =
      (v.pending ≡ some token) × Granted license b w.now w.db admitted.type

  -- A device that the license in force permits is admitted.
  admit_device-Ends :
      (license : LicenseWithAllowlists) (b : SessionBinding) (token row_id : String)
      (w : World redis) (current : LicenseWithAllowlists) (rest : List Bool)
      → find_license_admission_policy license.id w.db ≡ some current
      → current.session_revision ≡ license.session_revision
      → assert_active current.license w.now ≡ ok tt
      → assert_allowed current b ≡ ok tt
      → Ends
          (Committed (Admits license b token w) (Kept w.db) w.db)
          (Restored (Kept w.db) w.db)
          (admit_device redis sha256 current b token row_id)
          (record w { faults = rest })
  unfolding admit_device
  admit_device-Ends license b token row_id w current rest found same is_active is_allowed =
      bind-Ends _ _ _ _ _ (
        query-Ends _ _ _ _
          (λ _. bind-Ends _ _ _ _ _ (
            admit_new_device-Ends _ _ _ _ _ _
              (λ admissible _. bind-Ends _ _ _ _ _ (
                script-Ends _ _ _ _
                  (λ _ s. bind-Ends _ _ _ _ _ (
                    registered_token-Ends _ _ _ _
                      (λ given g. bind-Ends _ _ _ _ _ (
                        set_pending-Ends _ _ _ _ (
                          bind-Ends _ _ _ _ _ (
                            start_trial-Ends _ _ _ _
                              (λ _ db admitted same_type. bind-Ends _ _ _ _ _ (
                                register_new_device-Ends _ _ _ _ _ _ _
                                  (λ _ db'. pure-Ends _ _ _ _ (
                                    (λ _. (
                                      ap some (register-token _ _ _ _ _ _ _ _ g),
                                      (
                                        current,
                                        found,
                                        same,
                                        (is_active, is_allowed, admissible),
                                        same_type,
                                      ),
                                    )),
                                    λ _. refl,
                                  ))
                                  (λ _ _ e. (λ _. refl, λ _. refl))))
                              (λ _ _ e. (λ _. refl, λ _. refl))))))
                      (λ e. (λ _. refl, λ _. refl))))
                  (λ _. (λ _. refl, λ _. refl))))
              (λ _ e. (λ _. refl, λ _. refl))))
          (λ _. (λ _. refl, λ _. refl)))

  pub admit_locked-Ends :
      (license : LicenseWithAllowlists) (b : SessionBinding) (token row_id : String)
      (w : World redis)
      → Ends
          (Committed (Admits license b token w) (Kept w.db) w.db)
          (Restored (Kept w.db) w.db)
          (admit_locked redis sha256 license b token row_id)
          w
  unfolding admit_locked
  admit_locked-Ends license b token row_id w = bind-Ends _ _ _ _ _ (
      query-Ends _ _ _ _
        (λ rest. bind-Ends _ _ _ _ _ (
          same_revision-Ends _ _ license _ _
            (λ current found same. bind-Ends _ _ _ _ _ (
              gets-Ends _ _ _ _ (
                bind-Ends _ _ _ _ _ (
                  lift-Ends _ _ _ _
                    (λ _ is_active. bind-Ends _ _ _ _ _ (
                      lift-Ends _ _ _ _
                        (λ _ is_allowed.
                          admit_device-Ends license b token row_id w current rest found same
                            is_active is_allowed)
                        (λ e h. (λ _. refl, λ _. refl))))
                    (λ e h. (λ _. refl, λ _. refl))))))
            (λ e. (λ _. refl, λ _. refl))))
        (λ rest. (λ _. refl, λ _. refl)))
