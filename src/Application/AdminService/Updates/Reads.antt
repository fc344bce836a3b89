-- ===== src/Application/AdminService/Updates/Reads.antt =====
-- The checks of `updateLicense` of AdminService.ts, which change nothing.
use keyzori.Prelude.{String, List, Bool, not, ◌&&◌, ◌||◌, Option, none, some, is_some}
use keyzori.Domain.Host.{Host}
use keyzori.Domain.Entities.{
  License, LicenseType, same_type, lifetime, subscription, metered, trial, LicenseTypeDrafts,
  LicenseMeter, NewLicenseMeter, StripeSubscriptionLink,
}
use keyzori.Domain.Errors.{Failure}
use keyzori.Infrastructure.Redis.{Redis}
use keyzori.Application.Exec.{World, pure}
use keyzori.Application.Exec.Laws.{
  Ends, query-Ends, lift-Ends, pure-Ends, gets-Ends, bind-Ends, if-Ends, raise_if-Ends,
}
use keyzori.Application.AdminService.TypeConfig.{UpdateLicenseInput, TypeConfig}
use keyzori.Application.AdminService.TypeConfig.Checks.{Fits, Configured-Fits, updates}
use keyzori.Application.AdminService.Updates.{
  Limits, check_customer, check_limits_given, check_fields, metered_drafts, stripe_link,
  target_config,
}

-- Which drafts come with the settings does not matter.
Fits-drafts :
    (t : LicenseType) (c : TypeConfig) (drafts : LicenseTypeDrafts)
    → Fits t c
    → Fits t (record c { type_drafts = drafts })
Fits-drafts lifetime c drafts h = h
Fits-drafts subscription c drafts h = h
Fits-drafts metered c drafts h = h
Fits-drafts trial c drafts h = h

module _ (redis : Redis) (sha256 : String → String) (host : Host) (stripe_configured : Bool) where
  -- Another pattern of faults to come.
  abbrev pub Anywhere : {A : Type 0} → (A → World redis → Type 0) → World redis → Type 0
  Anywhere {A} P w = (a : A) (rest : List Bool) → P a (record w { faults = rest })

  module _ (P : Unit {0} → World redis → Type 0) (Q : Failure → World redis → Type 0) where
    pub check_customer-Ends :
        (id : Option String) (w : World redis)
        → Anywhere P w
        → Anywhere Q w
        → Ends P Q (check_customer redis sha256 host stripe_configured id) w
    unfolding check_customer
    check_customer-Ends none w returns throws = pure-Ends _ _ _ _ (returns tt w.faults)
    check_customer-Ends (some id) w returns throws = bind-Ends _ _ _ _ _ (
        query-Ends _ _ _ _
          (λ rest. raise_if-Ends (P tt) Q _ _ _ (λ _. throws _ rest) (λ _. returns tt rest))
          (λ rest. throws _ rest))

  module _ (P : Limits → World redis → Type 0) (Q : Failure → World redis → Type 0) where
    pub check_limits_given-Ends :
        (input : UpdateLicenseInput) (w : World redis)
        → Anywhere P w
        → Anywhere Q w
        → Ends P Q (check_limits_given redis sha256 host stripe_configured input) w
    unfolding check_limits_given
    check_limits_given-Ends input w returns throws = bind-Ends _ _ _ _ _ (
        lift-Ends _ _ _ _
          (λ _ _. bind-Ends _ _ _ _ _ (
            lift-Ends _ _ _ _
              (λ _ _. bind-Ends _ _ _ _ _ (
                lift-Ends _ _ _ _ (λ _ _. pure-Ends _ _ _ _ (returns _ w.faults))
                  (λ e _. throws e w.faults)))
              (λ e _. throws e w.faults)))
          (λ e _. throws e w.faults))

  module _ (P : List NewLicenseMeter → World redis → Type 0)
      (Q : Failure → World redis → Type 0) where
    pub check_fields-Ends :
        (input : UpdateLicenseInput) (target : LicenseType) (w : World redis)
        → Anywhere P w
        → Anywhere Q w
        → Ends P Q (check_fields redis sha256 host stripe_configured input target) w
    unfolding check_fields
    check_fields-Ends input target w returns throws = bind-Ends _ _ _ _ _ (
        raise_if-Ends _ _ _ _ _ (λ _. throws _ w.faults)
          (λ _. bind-Ends _ _ _ _ _ (
            raise_if-Ends _ _ _ _ _ (λ _. throws _ w.faults)
              (λ _. bind-Ends _ _ _ _ _ (
                lift-Ends _ _ _ _
                  (λ meters _. bind-Ends _ _ _ _ _ (
                    raise_if-Ends _ _ _ _ _ (λ _. throws _ w.faults)
                      (λ _. pure-Ends _ _ _ _ (returns meters w.faults))))
                  (λ e _. throws e w.faults))))))

  module _ (P : LicenseTypeDrafts → World redis → Type 0) (Q : Failure → World redis → Type 0) where
    metered_drafts-Ends :
        (id : String) (current : List LicenseMeter) (new : List NewLicenseMeter)
        (drafts : LicenseTypeDrafts) (w : World redis)
        → Anywhere P w
        → Anywhere Q w
        → Ends P Q (metered_drafts redis sha256 host stripe_configured id current new drafts) w
    unfolding metered_drafts
    metered_drafts-Ends id current new drafts w returns throws = bind-Ends _ _ _ _ _ (
        query-Ends _ _ _ _
          (λ rest. bind-Ends _ _ _ _ _ (
            lift-Ends _ _ _ _
              (λ _ _. bind-Ends _ _ _ _ _ (
                raise_if-Ends _ _ _ _ _ (λ _. throws _ rest)
                  (λ _. pure-Ends _ _ _ _ (returns _ rest))))
              (λ e _. throws e rest)))
          (λ rest. throws _ rest))

  module _ (P : Option StripeSubscriptionLink → World redis → Type 0)
      (Q : Failure → World redis → Type 0) where
    pub stripe_link-Ends :
        (id : String) (target : LicenseType) (input : UpdateLicenseInput) (w : World redis)
        → Anywhere P w
        → Anywhere Q w
        → Ends P Q (stripe_link redis sha256 host stripe_configured id target input) w
    unfolding stripe_link
    stripe_link-Ends id target input w returns throws =
        if-Ends P Q
          (stripe_configured && (not (same_type target subscription) || is_some input.expires_at)) _
          _ w
          (λ _. bind-Ends _ _ _ _ _ (
            query-Ends _ _ _ _
              (λ rest. bind-Ends _ _ _ _ _ (
                raise_if-Ends _ _ _ _ _ (λ _. throws _ rest)
                  (λ _. pure-Ends _ _ _ _ (returns _ rest))))
              (λ rest. throws _ rest)))
          (λ _. pure-Ends _ _ _ _ (returns none w.faults))

  module _ (P : TypeConfig → World redis → Type 0) (Q : Failure → World redis → Type 0) where
    pub target_config-Ends :
        (id : String) (current : License) (input : UpdateLicenseInput) (target : LicenseType)
        (meters : List LicenseMeter) (new : List NewLicenseMeter) (w : World redis)
        → ((c : TypeConfig) (rest : List Bool) → Fits target c → P c (record w { faults = rest }))
        → Anywhere Q w
        → Ends P Q
            (target_config redis sha256 host stripe_configured id current input target meters new)
            w
    unfolding target_config
    target_config-Ends id current input target meters new w returns throws = bind-Ends _ _ _ _ _ (
        gets-Ends _ _ _ _ (
          bind-Ends _ _ _ _ _ (
            lift-Ends _ _ _ _
              (λ c made.
                let fits =
                  (Configured-Fits host w.now target c (updates current input _ _ made)).0 in
                bind-Ends _ _ _ _ _ (
                  if-Ends (λ drafts v. Ends P Q (pure (record c { type_drafts = drafts })) v) Q
                    (same_type target metered) _ _ w
                    (λ _.
                      metered_drafts-Ends _ _ _ _ _ _ _
                        (λ drafts rest.
                          pure-Ends _ _ _ _ (returns _ rest (Fits-drafts target c drafts fits)))
                        throws)
                    (λ _. pure-Ends _ _ _ _ (
                      pure-Ends _ _ _ _
                        (returns _ w.faults (Fits-drafts target c c.type_drafts fits))))))
              (λ e _. throws e w.faults))))
