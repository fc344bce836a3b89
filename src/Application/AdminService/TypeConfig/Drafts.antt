-- ===== src/Application/AdminService/TypeConfig/Drafts.antt =====
-- A license keeps the settings of a type that it leaves, for its return (AdminService.ts).
use keyzori.Prelude.{
  ℕ, ◌≤◌, ◌<◌, ◌≡◌, ◌≢◌, refl, ◌∙◌, sym, Bool, true, none, some, arith, String, List,
}
use keyzori.Domain.Host.{Host}
use keyzori.Domain.Entities.{
  License, LicenseType, lifetime, subscription, metered, trial, LicenseTypeDrafts,
}
use keyzori.Domain.Errors.{ok, max_license_limit}
use keyzori.Application.AdminService.Validation.{validate_integer, future_date}
use keyzori.Application.AdminService.TypeConfig.{
  UpdateLicenseInput, TypeConfig, update_type_config, with_current_draft, update_subscription,
  update_trial, chosen_expiry, config,
}

module _ (host : Host) where
  -- What a license has of the drafts of the other types.
  update-keeps-trial :
      (t : LicenseType) (license : License) (input : UpdateLicenseInput) (changed : Bool)
      (drafts : LicenseTypeDrafts) (now : ℕ) (c : TypeConfig)
      → t ≢ trial
      → update_type_config host license input t changed drafts now ≡ ok c
      → c.type_drafts.trial_draft ≡ drafts.trial_draft
  unfolding update_type_config update_subscription
  update-keeps-trial lifetime license input changed drafts now c other h = ground arith
  update-keeps-trial metered license input changed drafts now c other h = ground arith
  update-keeps-trial subscription license input changed drafts now c other h = ground arith
  update-keeps-trial trial license input changed drafts now c other h = absurd (other refl)

  update-keeps-expiry :
      (t : LicenseType) (license : License) (input : UpdateLicenseInput) (changed : Bool)
      (drafts : LicenseTypeDrafts) (now : ℕ) (c : TypeConfig)
      → t ≢ subscription
      → update_type_config host license input t changed drafts now ≡ ok c
      → c.type_drafts.subscription_draft ≡ drafts.subscription_draft
  unfolding update_type_config update_trial
  update-keeps-expiry lifetime license input changed drafts now c other h = ground arith
  update-keeps-expiry metered license input changed drafts now c other h = ground arith
  update-keeps-expiry trial license input changed drafts now c other h = ground arith
  update-keeps-expiry subscription license input changed drafts now c other h = absurd (other refl)

  draft_after_trial :
      (t : LicenseType) (license : License) (names : List String)
      → t ≢ trial
      → license.type ≡ t
      → (with_current_draft license names).trial_draft ≡ license.type_drafts.trial_draft
  unfolding with_current_draft
  draft_after_trial lifetime license names other h = ground arith
  draft_after_trial metered license names other h = ground arith
  draft_after_trial subscription license names other h = ground arith
  draft_after_trial trial license names other h = absurd (other refl)

  own_trial_draft :
      (license : License) (names : List String)
      → license.type ≡ trial
      → (with_current_draft license names).trial_draft
        ≡ some (record { duration_minutes = license.trial_duration_minutes })
  unfolding with_current_draft
  own_trial_draft license names h = ground arith

  own_subscription_draft :
      (license : License) (names : List String)
      → license.type ≡ subscription
      → (with_current_draft license names).subscription_draft
        ≡ some (record { expires_at = license.expires_at })
  unfolding with_current_draft
  own_subscription_draft license names h = ground arith

  draft_after_subscription :
      (t : LicenseType) (license : License) (names : List String)
      → t ≢ subscription
      → license.type ≡ t
      → (with_current_draft license names).subscription_draft
        ≡ license.type_drafts.subscription_draft
  unfolding with_current_draft
  draft_after_subscription lifetime license names other h = ground arith
  draft_after_subscription metered license names other h = ground arith
  draft_after_subscription trial license names other h = ground arith
  draft_after_subscription subscription license names other h = absurd (other refl)

  -- A trial without a given duration takes its draft's.
  from_trial_draft :
      (license : License) (input : UpdateLicenseInput) (drafts : LicenseTypeDrafts)
      (minutes now : ℕ)
      → input.trial_duration_minutes ≡ none
      → drafts.trial_draft ≡ some (record { duration_minutes = minutes })
      → 1 ≤ minutes
      → minutes ≤ max_license_limit
      → update_trial license input true drafts now
        ≡ ok (
            config none minutes
              (some now)
              (record drafts { trial_draft = some (record { duration_minutes = minutes }) }))
  unfolding update_trial validate_integer
  from_trial_draft license input drafts minutes now nothing draft low high =
      rw (nothing, draft) (ground arith)

  -- A subscription without a given expiry takes its draft's, if that lies ahead.
  from_subscription_draft :
      (license : License) (input : UpdateLicenseInput) (drafts : LicenseTypeDrafts) (date now : ℕ)
      → input.expires_at ≡ none
      → drafts.subscription_draft ≡ some (record { expires_at = some date })
      → now < date
      → update_subscription host license input true drafts now
        ≡ ok (
            config
              (some date)
              0
              none
              (record drafts { subscription_draft = some (record { expires_at = some date }) }))
  unfolding update_subscription chosen_expiry future_date
  from_subscription_draft license input drafts date now nothing draft later =
      rw (nothing, draft) (ground arith)

-- A license `before` is converted to the type `t` with the settings `c`, and is then `after`, which
-- has the drafts that it was given.
pub record Converted (host : Host) (before after : License) (t : LicenseType) : Type 0 where
  pub input : UpdateLicenseInput
  pub names : List String
  pub time : ℕ
  pub settings : TypeConfig
  pub made :
      update_type_config host before input t true (with_current_draft before names) time
      ≡ ok settings
  pub type_of : after.type ≡ t
  pub trial_kept : after.type_drafts.trial_draft ≡ settings.type_drafts.trial_draft
  pub subscription_kept :
      after.type_drafts.subscription_draft ≡ settings.type_drafts.subscription_draft

module _ (host : Host) (before after : License) (t : LicenseType) where
  -- A trial that is converted to another type and comes back later, without a new duration, has its
  -- duration again, and starts anew. (The duration is one that the service accepts.)
  pub trial_restored :
      Converted host before after t
      → before.type ≡ trial
      → t ≢ trial
      → 1 ≤ before.trial_duration_minutes
      → before.trial_duration_minutes ≤ max_license_limit
      → (input : UpdateLicenseInput) (names : List String) (now : ℕ)
      → input.trial_duration_minutes ≡ none
      → (d : TypeConfig) × (update_type_config host after input trial true
            (with_current_draft after names)
            now
          ≡ ok d)
        × (d.trial_duration_minutes ≡ before.trial_duration_minutes)
        × (d.trial_started_at ≡ some now)
  unfolding update_type_config
  trial_restored conv was other low high input names now nothing =
      let kept =
        update-keeps-trial host t before conv.input true (with_current_draft before conv.names)
          conv.time conv.settings other conv.made in
      let drafted = draft_after_trial host t after names other conv.type_of in
      let own = own_trial_draft host before conv.names was in
      (
        _,
        from_trial_draft host after input (with_current_draft after names)
            before.trial_duration_minutes now nothing (drafted ∙ conv.trial_kept ∙ kept ∙ own) low
            high,
        refl,
        refl,
      )

  -- A subscription that is converted to another type and comes back, without a new expiry, has its
  -- expiry again, as long as that lies ahead.
  pub subscription_restored :
      Converted host before after t
      → before.type ≡ subscription
      → t ≢ subscription
      → (input : UpdateLicenseInput) (names : List String) (date now : ℕ) → input.expires_at ≡ none
      → before.expires_at ≡ some date
      → now < date
      → (d : TypeConfig) × (update_type_config host after input subscription true
            (with_current_draft after names)
            now
          ≡ ok d)
        × (d.expires_at ≡ before.expires_at)
  unfolding update_type_config
  subscription_restored conv was other input names date now nothing expiry later =
      let kept =
        update-keeps-expiry host t before conv.input true (with_current_draft before conv.names)
          conv.time conv.settings other conv.made in
      let drafted = draft_after_subscription host t after names other conv.type_of in
      let own = own_subscription_draft host before conv.names was in
      (
        _,
        from_subscription_draft host after input (with_current_draft after names) date now nothing
            (drafted ∙ conv.subscription_kept ∙ kept ∙ own ∙ rw expiry refl) later,
        sym expiry,
      )
