-- ===== src/Application/AdminService.antt =====
-- apps/server/src/application/services/AdminService.ts: what operators do with customers, licenses,
-- allow lists, devices and meters. Here are the steps that its methods share, the modules below have
-- the methods. A method's random keys and identifiers are arguments.
pub mod Validation
pub mod TypeConfig
pub mod Customers
pub mod Licenses
pub mod Updates
pub mod Revocation
pub mod Access
pub mod Devices
pub mod Meters
pub mod Steps
use keyzori.Prelude.{ℕ, String, Bool, true, false, Option, none, some}
use keyzori.Domain.Entities.{
  License, JsonObject, JsonValue, LicenseType, lifetime, subscription, metered, trial,
  LicenseStatus, LicenseStatusReason,
}
use keyzori.Domain.LicenseStatus.{derive_license_status}
use keyzori.Domain.Errors.{Failure, internal, not_found_error, invalid_request, license_invalid}
use keyzori.Infrastructure.Redis.{Redis}
use keyzori.Infrastructure.Database.{Database, Transaction}
use keyzori.Infrastructure.LicenseRepository.{find_by_id}
use keyzori.Infrastructure.SessionRepository.{remove_all_sessions}
use keyzori.Application.Activity.{
  ActivityEvent, ActivityEventType, ActivityReason, license_updated, operator, success,
}
use keyzori.Application.Exec.{
  Exec, pure, raise, gets, query, write, script, try_catch, ◌>>=◌, ◌>>◌, capture,
}

-- A license with its status. (The session revision is hidden from operators.)
pub record ManagedLicense : Type 0 where
  pub license : License
  pub status : LicenseStatus
  pub status_reason : LicenseStatusReason

pub record ManagedRevealedLicense : Type 0 where
  pub managed_license : ManagedLicense
  pub license_key : String

abbrev pub managed : License → ℕ → ManagedLicense
managed license now = record {
  license = license;
  status = (derive_license_status license now).status;
  status_reason = (derive_license_status license now).reason;
}

-- What an operator did to a license, or to something of it.
abbrev pub license_event :
    ActivityEventType → License → Option ActivityReason → JsonObject → ActivityEvent
license_event type license reason details = record {
  type = type;
  source = operator;
  outcome = success;
  reason = reason;
  license_id = some license.id;
  customer_id = some license.customer_id;
  key_prefix = some license.key_prefix;
  ip = none;
  device_id = none;
  details = details;
}

abbrev pub text_field : String → String → JsonObject → JsonObject
text_field name text rest = JsonObject.field name (JsonValue.string text) rest

abbrev pub type_text : LicenseType → String
type_text lifetime = "lifetime"
type_text subscription = "subscription"
type_text metered = "metered"
type_text trial = "trial"

abbrev pub customer_not_found : Failure
customer_not_found = not_found_error invalid_request

abbrev pub license_not_found : Failure
license_not_found = not_found_error license_invalid

-- The details of a clean-up.
abbrev pub cleanup_details : ℕ × Bool → JsonObject
cleanup_details (removed, failed) =
    JsonObject.field "cleanupFailed" (JsonValue.boolean failed) JsonObject.end

module _ (redis : Redis) (sha256 : String → String) where
  abbrev pub present_or : {A : Type 0} → Failure → Option A → Exec redis A
  present_or e none = raise e
  present_or e (some a) = pure a

  -- `requireLicense`.
  unfoldable pub require_license : String → Exec redis License
  require_license id = do found ← query (find_by_id id); present_or license_not_found found

  -- `findById` after a write; a license that is not there is an error.
  unfoldable pub reread : String → Exec redis License
  reread id = do found ← query (find_by_id id); present_or internal found

  -- A method of the license repository that writes, and then reads the license again.
  unfoldable pub write_and_reread : String → Transaction (Unit {0}) → Exec redis License
  write_and_reread id t = do write t; reread id

  -- `removeSessionsBestEffort`: how many sessions were removed, and whether the removal failed.
  unfoldable pub remove_sessions_best_effort : String → Option ℕ → Exec redis (ℕ × Bool)
  remove_sessions_best_effort id minimum =
      try_catch
        (do removed ← script (remove_all_sessions redis sha256 id minimum); pure (removed, false))
        (λ _. pure (0, true))

  -- `captureLicenseUpdate`.
  abbrev pub capture_license_update : License → String → JsonObject → Exec redis (Unit {0})
  capture_license_update license action details =
      capture (license_event license_updated license none (text_field "action" action details))
