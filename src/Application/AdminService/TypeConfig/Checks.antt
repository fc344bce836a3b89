-- ===== src/Application/AdminService/TypeConfig/Checks.antt =====
-- What the settings of a type are worth that AdminService.ts makes.
use keyzori.Prelude.{
  ℕ, ◌≤◌, ◌<◌, ◌≡◌, Bool, true, is_some, Option, none, some, arith, List, refl, pos, negsuc,
}
use keyzori.Domain.Host.{Host}
use keyzori.Domain.Entities.{
  License, LicenseType, lifetime, subscription, metered, trial, LicenseTypeDrafts, NewLicenseMeter,
}
use keyzori.Domain.Errors.{ok, max_license_limit, >>=-eq-ok}
use keyzori.Infrastructure.Database.{type_checks}
use keyzori.Application.AdminService.Validation.{
  Number, whole, not_whole, validate_integer, future_date,
}
use keyzori.Application.AdminService.TypeConfig.{
  CreateLicenseInput, UpdateLicenseInput, TypeConfig, create_type_config, update_type_config,
  create_subscription, create_trial, create_metered, create_lifetime, update_subscription,
  update_trial, required_number, chosen_duration,
}

-- The expiry belongs to a subscription, and the duration, within the limit, to a trial.
abbrev pub Fits : LicenseType → TypeConfig → Type 0
Fits subscription c = (is_some c.expires_at ≡ true) × (c.trial_duration_minutes ≡ 0)
Fits trial c =
    (c.expires_at ≡ none)
    × (1 ≤ c.trial_duration_minutes)
    × (c.trial_duration_minutes ≤ max_license_limit)
Fits _ c = (c.expires_at ≡ none) × (c.trial_duration_minutes ≡ 0)

pub validate_integer-bounds :
    (n : Number) (minimum m : ℕ)
    → validate_integer n minimum ≡ ok m
    → (minimum ≤ m) × (m ≤ max_license_limit) × (n ≡ whole (pos m))
unfolding validate_integer
validate_integer-bounds not_whole minimum m h = absurd cc
validate_integer-bounds (whole (pos n)) minimum m h = ground arith
validate_integer-bounds (whole (negsuc n)) minimum m h = absurd cc

pub future_date-lt :
    (date : Option ℕ) (now t : ℕ) → future_date date now ≡ ok t → (now < t) × (date ≡ some t)
unfolding future_date
future_date-lt none now t h = absurd cc
future_date-lt (some d) now t h = ground arith

-- Settings that fit their type pass the checks of the licenses' table.
Fits-type_checks :
    (t : LicenseType) (c : TypeConfig)
    → Fits t c
    → type_checks t c.expires_at c.trial_duration_minutes ≡ true
Fits-type_checks lifetime c h = refl
Fits-type_checks metered c h = refl
Fits-type_checks subscription c h = h.0
Fits-type_checks trial c h = ground arith

module _ (host : Host) (now : ℕ) where
  create_subscription-Fits :
      (input : CreateLicenseInput) (meters : List NewLicenseMeter) (c : TypeConfig)
      → create_subscription host input meters now ≡ ok c
      → Fits subscription c
  unfolding create_subscription
  create_subscription-Fits input meters c h = ground arith

  create_trial-Fits :
      (input : CreateLicenseInput) (meters : List NewLicenseMeter) (c : TypeConfig)
      → create_trial input meters ≡ ok c
      → Fits trial c
  unfolding create_trial
  create_trial-Fits input meters c h =
      let (minutes, valid, rest) = >>=-eq-ok _ _ h in
      let (low, high, _) = validate_integer-bounds _ 1 minutes valid in ground arith

  create_metered-Fits :
      (input : CreateLicenseInput) (meters : List NewLicenseMeter) (c : TypeConfig)
      → create_metered input meters ≡ ok c
      → Fits metered c
  unfolding create_metered
  create_metered-Fits input meters c h = ground arith

  create_lifetime-Fits :
      (input : CreateLicenseInput) (meters : List NewLicenseMeter) (c : TypeConfig)
      → create_lifetime input meters ≡ ok c
      → Fits lifetime c
  unfolding create_lifetime
  create_lifetime-Fits input meters c h = ground arith

  create-Fits :
      (t : LicenseType) (input : CreateLicenseInput) (meters : List NewLicenseMeter)
      (c : TypeConfig)
      → create_type_config host (record input { type = t }) meters now ≡ ok c
      → Fits t c
  unfolding create_type_config
  create-Fits lifetime input meters c h = create_lifetime-Fits _ _ c h
  create-Fits metered input meters c h = create_metered-Fits _ _ c h
  create-Fits subscription input meters c h = create_subscription-Fits _ _ c h
  create-Fits trial input meters c h = create_trial-Fits _ _ c h

  update_trial-Fits :
      (current : License) (input : UpdateLicenseInput) (changed : Bool) (drafts : LicenseTypeDrafts)
      (c : TypeConfig)
      → update_trial current input changed drafts now ≡ ok c
      → Fits trial c
  unfolding update_trial
  update_trial-Fits current input changed drafts c h =
      let (chosen, given, rest) =
        >>=-eq-ok
          (required_number (chosen_duration current input.trial_duration_minutes changed drafts)) _
          h in
      let (minutes, valid, more) = >>=-eq-ok (validate_integer chosen 1) _ rest in
      let (low, high, _) = validate_integer-bounds _ 1 minutes valid in ground arith

  update_subscription-Fits :
      (current : License) (input : UpdateLicenseInput) (changed : Bool) (drafts : LicenseTypeDrafts)
      (c : TypeConfig)
      → update_subscription host current input changed drafts now ≡ ok c
      → Fits subscription c
  unfolding update_subscription
  update_subscription-Fits current input changed drafts c h = ground arith

  update-Fits :
      (t : LicenseType) (current : License) (input : UpdateLicenseInput) (changed : Bool)
      (drafts : LicenseTypeDrafts) (c : TypeConfig)
      → update_type_config host current input t changed drafts now ≡ ok c
      → Fits t c
  unfolding update_type_config
  update-Fits lifetime current input changed drafts c h = ground arith
  update-Fits metered current input changed drafts c h = ground arith
  update-Fits subscription current input changed drafts c h =
      update_subscription-Fits current input changed drafts c h
  update-Fits trial current input changed drafts c h =
      update_trial-Fits current input changed drafts c h

-- What `createTypeConfig` or `updateTypeConfig` returned for a type.
pub data Configured (host : Host) (now : ℕ) (t : LicenseType) (c : TypeConfig) : Type 0 where
  creates :
      (input : CreateLicenseInput) (meters : List NewLicenseMeter)
      → create_type_config host (record input { type = t }) meters now ≡ ok c
      → Configured host now t c
  updates :
      (current : License) (input : UpdateLicenseInput) (changed : Bool) (drafts : LicenseTypeDrafts)
      → update_type_config host current input t changed drafts now ≡ ok c
      → Configured host now t c

-- Whatever settings `createTypeConfig` or `updateTypeConfig` return for a type fit it: a subscription
-- has an expiry, a trial a duration from one minute to the integer limit, and no other type has either
-- of them; and so they pass the checks of the licenses' table.
pub Configured-Fits :
    (host : Host) (now : ℕ) (t : LicenseType) (c : TypeConfig)
    → Configured host now t c
    → Fits t c × (type_checks t c.expires_at c.trial_duration_minutes ≡ true)
Configured-Fits host now t c (creates input meters h) =
    let fits = create-Fits host now t input meters c h in (fits, Fits-type_checks t c fits)
Configured-Fits host now t c (updates current input changed drafts h) =
    let fits = update-Fits host now t current input changed drafts c h in
    (fits, Fits-type_checks t c fits)
