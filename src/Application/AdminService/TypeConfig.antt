-- ===== src/Application/AdminService/TypeConfig.antt =====
-- The settings of a license's type and its drafts, of AdminService.ts.
pub mod Checks
pub mod Drafts
use keyzori.Prelude.{
  ℕ, String, List, [], ◌∷◌, Bool, true, false, not, ◌||◌, Option, none, some, is_some, or_else,
  if◌then◌else◌, map, pos,
}
use keyzori.Domain.Text.{is_empty}
use keyzori.Domain.Sorting.{sort_texts}
use keyzori.Domain.Host.{Host}
use keyzori.Domain.Entities.{
  License, LicenseType, lifetime, subscription, metered, trial, LicenseTypeDrafts, JsonObject,
  NewLicenseMeter,
}
use keyzori.Domain.Errors.{Result, ok, err, invalid, throw_if, ◌>>◌, ◌>>=◌}
use keyzori.Infrastructure.LicenseRepository.Editing.{has_meters}
use keyzori.Application.AdminService.Validation.{
  Number, whole, validate_integer, future_date, parse_future_date, CreateMeterInput,
}

pub record CreateLicenseInput : Type 0 where
  pub customer_id : String
  pub type : LicenseType
  pub max_ips : Option Number
  pub max_devices : Option Number
  pub max_sessions : Option Number
  pub trial_duration_minutes : Option Number
  pub metadata : Option JsonObject
  pub expires_at : Option String
  pub meters : Option (List CreateMeterInput)

-- A field of `expires_at` that is `some none` is null.
pub record UpdateLicenseInput : Type 0 where
  pub customer_id : Option String
  pub type : Option LicenseType
  pub max_ips : Option Number
  pub max_devices : Option Number
  pub max_sessions : Option Number
  pub trial_duration_minutes : Option Number
  pub metadata : Option JsonObject
  pub expires_at : Option (Option String)
  pub meters : Option (List CreateMeterInput)
  pub unlink_stripe : Option Bool

-- What `createTypeConfig` and `updateTypeConfig` return; the first gives no start.
pub record TypeConfig : Type 0 where
  pub expires_at : Option ℕ
  pub trial_duration_minutes : ℕ
  pub trial_started_at : Option ℕ
  pub type_drafts : LicenseTypeDrafts

abbrev pub no_drafts : LicenseTypeDrafts
no_drafts = record {
  lifetime_draft = none;
  subscription_draft = none;
  metered_draft = none;
  trial_draft = none;
}

-- A text that JavaScript takes for true.
abbrev pub filled : Option String → Option String
filled none = none
filled (some text) = if is_empty text then none else some text

abbrev pub config : Option ℕ → ℕ → Option ℕ → LicenseTypeDrafts → TypeConfig
config expires_at minutes started_at drafts = record {
  expires_at = expires_at;
  trial_duration_minutes = minutes;
  trial_started_at = started_at;
  type_drafts = drafts;
}

abbrev pub names_of : List NewLicenseMeter → List String
names_of meters = map (λ m. m.name) meters

-- The error of a missing text.
abbrev pub required : Option String → Result String
required none = err invalid
required (some text) = ok text

unfoldable pub create_subscription :
    Host → CreateLicenseInput → List NewLicenseMeter → ℕ → Result TypeConfig
create_subscription host input meters now = do
  text ← required (filled input.expires_at)
  throw_if (is_some input.trial_duration_minutes) invalid
  throw_if (has_meters meters) invalid
  date ← parse_future_date host text now
  ok (
      config (some date) 0 none
        (record no_drafts { subscription_draft = some (record { expires_at = some date }) }))

unfoldable pub create_trial : CreateLicenseInput → List NewLicenseMeter → Result TypeConfig
create_trial input meters = do
  duration ← validate_integer (or_else input.trial_duration_minutes (whole (pos 0))) 1
  throw_if (is_some (filled input.expires_at)) invalid
  throw_if (has_meters meters) invalid
  ok (
      config none duration none
        (record no_drafts { trial_draft = some (record { duration_minutes = duration }) }))

unfoldable pub create_metered : CreateLicenseInput → List NewLicenseMeter → Result TypeConfig
create_metered input meters = do
  throw_if (not (has_meters meters)) invalid
  throw_if (is_some (filled input.expires_at) || is_some input.trial_duration_minutes) invalid
  ok (
      config none 0 none (record no_drafts {
        metered_draft = some (record { meter_names = sort_texts (names_of meters) });
      }))

unfoldable pub create_lifetime : CreateLicenseInput → List NewLicenseMeter → Result TypeConfig
create_lifetime input meters = do
  throw_if
      (is_some (filled input.expires_at)
        || is_some input.trial_duration_minutes
        || has_meters meters)
      invalid
  ok (config none 0 none (record no_drafts { lifetime_draft = some JsonObject.end }))

-- `createTypeConfig`.
unfoldable pub create_type_config :
    Host → CreateLicenseInput → List NewLicenseMeter → ℕ → Result TypeConfig
create_type_config host input meters now = elim input.type [
  | subscription ↦ create_subscription host input meters now
  | trial ↦ create_trial input meters
  | metered ↦ create_metered input meters
  | lifetime ↦ create_lifetime input meters
]

-- `drafts.subscription?.expiresAt`.
abbrev pub drafted_expiry : LicenseTypeDrafts → Option ℕ
drafted_expiry drafts = elim drafts.subscription_draft [ none ↦ none | some d ↦ d.expires_at ]

-- The time that `new Date` reads from a draft's text is the draft's.
abbrev pub from_draft : Option ℕ → ℕ → Result (Option ℕ)
from_draft none now = ok none
from_draft (some draft) now = do date ← future_date (some draft) now; ok (some date)

-- The expiry of a subscription: that which is given, the current one, or the draft's.
unfoldable pub chosen_expiry :
    Host → License → Option String → Bool → LicenseTypeDrafts → ℕ → Result (Option ℕ)
chosen_expiry host current (some text) type_changed drafts now = do
  date ← parse_future_date host text now
  ok (some date)
chosen_expiry host current none false drafts now = ok current.expires_at
chosen_expiry host current none true drafts now = from_draft (drafted_expiry drafts) now

abbrev pub given_expiry : Option (Option String) → Option String
given_expiry (some text) = filled text
given_expiry none = none

abbrev pub is_null : Option (Option String) → Bool
is_null (some none) = true
is_null _ = false

abbrev pub required_time : Option ℕ → Result ℕ
required_time none = err invalid
required_time (some t) = ok t

unfoldable pub update_subscription :
    Host → License → UpdateLicenseInput → Bool → LicenseTypeDrafts → ℕ → Result TypeConfig
update_subscription host current input type_changed drafts now = do
  throw_if (is_null input.expires_at) invalid
  chosen ← chosen_expiry host current (given_expiry input.expires_at) type_changed drafts now
  date ← required_time chosen
  ok (
      config (some date) 0 none
        (record drafts { subscription_draft = some (record { expires_at = some date }) }))

abbrev pub drafted_duration : LicenseTypeDrafts → Option Number
drafted_duration drafts = elim drafts.trial_draft [
  | none ↦ none
  | some d ↦ some (whole (pos d.duration_minutes))
]

-- The duration of a trial: that which is given, the draft's, or the current one.
abbrev pub chosen_duration : License → Option Number → Bool → LicenseTypeDrafts → Option Number
chosen_duration current (some n) type_changed drafts = some n
chosen_duration current none true drafts = drafted_duration drafts
chosen_duration current none false drafts = some (whole (pos current.trial_duration_minutes))

abbrev pub required_number : Option Number → Result Number
required_number none = err invalid
required_number (some n) = ok n

unfoldable pub update_trial :
    License → UpdateLicenseInput → Bool → LicenseTypeDrafts → ℕ → Result TypeConfig
update_trial current input type_changed drafts now = do
  chosen ←
      required_number (chosen_duration current input.trial_duration_minutes type_changed drafts)
  duration ← validate_integer chosen 1
  ok (
      config none duration (if type_changed then some now else current.trial_started_at)
        (record drafts { trial_draft = some (record { duration_minutes = duration }) }))

-- `updateTypeConfig`.
unfoldable pub update_type_config :
    Host
    → License
    → UpdateLicenseInput
    → LicenseType
    → Bool
    → LicenseTypeDrafts
    → ℕ
    → Result TypeConfig
update_type_config host current input subscription type_changed drafts now =
    update_subscription host current input type_changed drafts now
update_type_config host current input trial type_changed drafts now =
    update_trial current input type_changed drafts now
update_type_config host current input lifetime type_changed drafts now = ok (
    config none 0 none
      (record drafts { lifetime_draft = some (or_else drafts.lifetime_draft JsonObject.end) }))
update_type_config host current input metered type_changed drafts now = ok (
    config none 0 none (record drafts {
      metered_draft = some (or_else drafts.metered_draft (record { meter_names = [] }));
    }))

-- `withCurrentDraft`.
unfoldable pub with_current_draft : License → List String → LicenseTypeDrafts
with_current_draft license names = elim license.type [
  | subscription ↦ record license.type_drafts {
    subscription_draft = some (record { expires_at = license.expires_at });
  }
  | trial ↦ record license.type_drafts {
    trial_draft = some (record { duration_minutes = license.trial_duration_minutes });
  }
  | metered ↦ record license.type_drafts {
    metered_draft = some (record { meter_names = sort_texts names });
  }
  | lifetime ↦ record license.type_drafts { lifetime_draft = some JsonObject.end }
]
