-- ===== src/Application/LicenseService/Activation.antt =====
-- `activate` for every pattern of failing calls: what it leaves when it throws, and what it has checked
-- when it returns.
use keyzori.Prelude.{◌≡◌, refl, String, Option, none, some}
use keyzori.Domain.Entities.{LicenseWithAllowlists}
use keyzori.Domain.Errors.{Failure, internal, ok}
use keyzori.Infrastructure.Redis.{Redis}
use keyzori.Infrastructure.Database.{Database}
use keyzori.Infrastructure.LicenseRepository.{find_by_license_key_with_allowlists}
use keyzori.Infrastructure.SessionRepository.{SessionBinding}
use keyzori.Application.Exec.{World}
use keyzori.Application.Exec.Laws.{
  Ends, Outcome-mono, query-Ends, lift-Ends, pure-Ends, raise-Ends, gets-Ends, set_pending-Ends,
  bind-Ends, option-Ends, try_catch-Ends, transaction-Ends, capture-Ends,
}
use keyzori.Application.LicenseService.Policy.{binding}
use keyzori.Application.LicenseService.{
  drop_pending, admit_activation, activate_found, activate, LicenseSessionResult,
}
use keyzori.Application.LicenseService.Steps.{
  Kept, found_or-Ends, found_or-some, removal-Ends, touch-Ends, rejecting-Ends,
}
use keyzori.Application.LicenseService.Admission.{Granted, Admits, admit_locked-Ends}

module _ (redis : Redis) (sha256 : String → String) where
  dropped-Ends :
      (P : LicenseWithAllowlists → World redis → Type 0) (b : SessionBinding) (e : Failure)
      (w : World redis) (db : Database)
      → w.db ≡ db
      → Ends P (Kept db) (drop_pending redis sha256 b e) w
  unfolding drop_pending
  dropped-Ends P b e w db h = bind-Ends _ _ _ _ _ (
      gets-Ends _ _ _ _ (
        bind-Ends _ _ _ _ _ (
          option-Ends _ (Kept db) w.pending _ _ w
            (λ missing. pure-Ends _ _ _ _ (raise-Ends _ _ _ _ h))
            (λ token there. removal-Ends redis sha256 _ _ _ _ _ (λ _ _. raise-Ends _ _ _ _ h)))))

  admit_activation-Ends :
      (license : LicenseWithAllowlists) (b : SessionBinding) (token row_id : String)
      (w : World redis)
      → Ends
          (λ admission v. Granted license b w.now w.db admission.0.type × (admission.1 ≡ token))
          (Kept w.db)
          (admit_activation redis sha256 license b token row_id)
          w
  unfolding admit_activation
  admit_activation-Ends license b token row_id w = bind-Ends _ _ _ _ _ (
      set_pending-Ends _ _ _ _ (
        bind-Ends _ _ _ _ _ (
          try_catch-Ends _ _ _ _ _ (
            Outcome-mono (Admits redis sha256 license b token (record w { pending = none }))
              (Kept w.db) _ _
              (λ admitted v (pending, granted). bind-Ends _ _ _ _ _ (
                touch-Ends redis sha256 _ _ _ _ _ (λ _ _. bind-Ends _ _ _ _ _ (
                  gets-Ends _ _ _ _ (
                    bind-Ends _ _ _ _ _ (
                      found_or-some redis sha256 _ _ internal v.pending token _ pending
                        (pure-Ends _ _ _ _ (granted, refl))))))))
              (λ e v kept. dropped-Ends _ b e v _ kept) _ _
              (transaction-Ends _ _ _ _ (
                admit_locked-Ends redis sha256 license b token row_id
                  (record w { pending = none })))))))

  abbrev FoundActive :
      Option LicenseWithAllowlists
      → SessionBinding
      → String
      → World redis
      → LicenseSessionResult
      → World redis
      → Type 0
  FoundActive found b token w result v =
      (license : LicenseWithAllowlists) × (found ≡ some license)
      × Granted license b w.now w.db result.license_type
      × (result.session_token ≡ token)

  activate_found-Ends :
      (found : Option LicenseWithAllowlists) (b : SessionBinding) (token row_id : String)
      (w : World redis)
      → Ends
          (FoundActive found b token w)
          (Kept w.db)
          (activate_found redis sha256 found b token row_id)
          w
  unfolding activate_found
  activate_found-Ends found b token row_id w = bind-Ends _ _ _ _ _ (
      capture-Ends _ _ _ _ (λ _ _. bind-Ends _ _ _ _ _ (
        found_or-Ends redis sha256 _ _ _ _ _
          (λ license there. bind-Ends _ _ _ _ _ (
            Outcome-mono
              (λ admission v. Granted license b w.now w.db admission.0.type × (admission.1 ≡ token))
              (Kept w.db) _ _
              (λ admission v (granted, given).
                bind-Ends _ _ _ _ _ (
                  capture-Ends _ _ _ _ (λ _ _. pure-Ends _ _ _ _ (license, there, granted, given))))
              (λ e v kept. kept) _ _ (admit_activation-Ends license b token row_id _)))
          refl)))

  -- What a call of `activate` has found when it returns.
  abbrev pub Activated :
      String → String → String → String → World redis → LicenseSessionResult → World redis → Type 0
  Activated license_key device_id ip token w result v =
      (b : SessionBinding) × (binding ip device_id ≡ ok b)
      × (license : LicenseWithAllowlists) × (find_by_license_key_with_allowlists sha256 license_key
            w.db
          ≡ some license)
      × Granted license b w.now w.db result.license_type
      × (result.session_token ≡ token)

  -- Whichever calls fail, `activate` either throws and leaves the database as it was, or returns the
  -- given token for the license with the key, where the policy read under the lock has that license's
  -- revision, is active at the time of the request, lists the binding where it lists any, and, for a
  -- device that is not registered, has room for it.
  pub activate_lem :
      (license_key device_id ip token row_id : String) (w : World redis)
      → Ends
          (Activated license_key device_id ip token w)
          (Kept w.db)
          (activate redis sha256 license_key device_id ip token row_id)
          w
  unfolding activate
  activate_lem license_key device_id ip token row_id w = bind-Ends _ _ _ _ _ (
      lift-Ends _ _ _ _
        (λ b bound. bind-Ends _ _ _ _ _ (
          rejecting-Ends _ _ _ _ _ _ _ _ (
            query-Ends _ _ _ _
              (λ _. rejecting-Ends _ _ _ _ _ _ _ _ (
                Outcome-mono
                  (FoundActive (find_by_license_key_with_allowlists sha256 license_key w.db) b token
                    w)
                  (Kept w.db) _ _
                  (λ result v (license, found, granted, given).
                    (b, bound, license, found, granted, given))
                  (λ e v kept. kept) _ _ (activate_found-Ends _ b token row_id _)))
              (λ _. refl))))
        (λ e h. refl))
