-- ===== src/Domain/Entities.antt =====
-- apps/server/src/domain/entities.ts: the records of the licensing database. A date is its number of
-- milliseconds since 1970, a nullable field is an option.
use keyzori.Prelude.{ℕ, String, Bool, true, false, Option, List, ℤ}

pub data LicenseType : Type 0 where
  lifetime subscription metered trial : LicenseType

abbrev pub same_type : LicenseType → LicenseType → Bool
same_type lifetime lifetime = true
same_type subscription subscription = true
same_type metered metered = true
same_type trial trial = true
same_type _ _ = false

-- A JSON number is kept as its text.
mutual
  pub data JsonValue : Type 0 where
    null : JsonValue
    boolean : Bool → JsonValue
    number : String → JsonValue
    string : String → JsonValue
    array : JsonArray → JsonValue
    object : JsonObject → JsonValue

  pub data JsonArray : Type 0 where
    nil : JsonArray
    cons : JsonValue → JsonArray → JsonArray

  pub data JsonObject : Type 0 where
    end : JsonObject
    field : String → JsonValue → JsonObject → JsonObject

pub record Customer : Type 0 where
  pub id : String
  pub email : String
  pub name : String
  pub metadata : JsonObject
  pub created_at : ℕ
  pub updated_at : ℕ

-- The time of the ISO text.
pub record SubscriptionTypeDraft : Type 0 where
  pub expires_at : Option ℕ

pub record TrialTypeDraft : Type 0 where
  pub duration_minutes : ℕ

pub record MeteredTypeDraft : Type 0 where
  pub meter_names : List String

pub record LicenseTypeDrafts : Type 0 where
  pub lifetime_draft : Option JsonObject
  pub subscription_draft : Option SubscriptionTypeDraft
  pub metered_draft : Option MeteredTypeDraft
  pub trial_draft : Option TrialTypeDraft

-- The columns that a license and its stored row share.
pub record LicenseColumns : Type 0 where
  pub id : String
  pub key_prefix : String
  pub customer_id : String
  pub type : LicenseType
  pub max_ips : ℕ
  pub max_devices : ℕ
  pub max_sessions : ℕ
  pub session_revision : ℕ
  pub trial_duration_minutes : ℕ
  pub trial_started_at : Option ℕ
  pub metadata : JsonObject
  pub expires_at : Option ℕ
  pub type_drafts : LicenseTypeDrafts
  pub manual_revoked_at : Option ℕ
  pub manual_revocation_reason : Option String
  pub created_at : ℕ
  pub updated_at : ℕ

pub record License : Type 0 where
  pub columns : LicenseColumns
  pub open columns use *
  pub billing_revoked_at : Option ℕ

pub record NewLicenseMeter : Type 0 where
  pub name : String
  pub balance : ℕ
  pub reason : String

pub record NewLicense : Type 0 where
  pub license_key : String
  pub customer_id : String
  pub type : LicenseType
  pub max_ips : ℕ
  pub max_devices : ℕ
  pub max_sessions : ℕ
  pub trial_duration_minutes : ℕ
  pub trial_started_at : Option ℕ
  pub metadata : JsonObject
  pub expires_at : Option ℕ
  pub type_drafts : LicenseTypeDrafts
  pub meters : List NewLicenseMeter

pub data LicenseStatus : Type 0 where
  active expired revoked : LicenseStatus

-- `null` is the reason `no_reason`.
pub data LicenseStatusReason : Type 0 where
  manual_revocation billing_revocation subscription_expired trial_expired no_reason :
      LicenseStatusReason

pub record EffectiveLicenseStatus : Type 0 where
  pub status : LicenseStatus
  pub reason : LicenseStatusReason

pub record IpAllowlistEntry : Type 0 where
  pub id : String
  pub license_id : String
  pub ip : String
  pub created_at : ℕ

pub record DeviceAllowlistEntry : Type 0 where
  pub id : String
  pub license_id : String
  pub device_id : String
  pub created_at : ℕ

pub record RegisteredDevice : Type 0 where
  pub id : String
  pub license_id : String
  pub ip : String
  pub device_id : String
  pub created_at : ℕ
  pub last_seen_at : ℕ

pub data MeterLedgerKind : Type 0 where
  create consume top_up adjustment archive : MeterLedgerKind

pub record LicenseMeter : Type 0 where
  pub id : String
  pub license_id : String
  pub name : String
  pub balance : ℕ
  pub archived_at : Option ℕ
  pub created_at : ℕ
  pub updated_at : ℕ

pub record UsageLedgerEntry : Type 0 where
  pub id : String
  pub license_id : String
  pub meter_id : String
  pub event_id : String
  pub kind : MeterLedgerKind
  pub delta : ℤ
  pub balance_before : ℕ
  pub balance_after : ℕ
  pub reason : Option String
  pub created_at : ℕ

-- The license with its allow lists (repositories/ILicenseRepository.ts).
pub record LicenseWithAllowlists : Type 0 where
  pub license : License
  pub open license use *
  pub allowed_ips : List IpAllowlistEntry
  pub allowed_devices : List DeviceAllowlistEntry

pub record StripeSubscriptionLink : Type 0 where
  pub id : String
  pub license_id : String
  pub subscription_id : String
  pub stripe_customer_id : String
  pub status : String
  pub paid_through : Option ℕ
  pub cancel_at_period_end : Bool
  pub price_id : Option String
  pub billing_revoked_at : Option ℕ
  pub last_synced_at : Option ℕ
  pub last_error : Option String
  pub created_at : ℕ
  pub updated_at : ℕ
