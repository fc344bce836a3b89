-- ===== src/Application/AdminService/Licenses.antt =====
-- The creation, the listing, the deletion and the key rotation of licenses, of AdminService.ts.
pub mod Created
use keyzori.Prelude.{
  ℕ, String, List, [], ◌∷◌, Bool, true, false, not, Option, none, some, is_some, or_else, map, pos,
}
use keyzori.Domain.Text.{concat}
use keyzori.Domain.Host.{Host}
use keyzori.Domain.Entities.{License, NewLicense, NewLicenseMeter, JsonObject}
use keyzori.Infrastructure.Redis.{Redis}
use keyzori.Domain.Errors.{ok}
use keyzori.Infrastructure.Database.{Database}
use keyzori.Infrastructure.MeterRepository.{Draws}
use keyzori.Infrastructure.CustomerRepository.{find_customer}
use keyzori.Infrastructure.LicenseRepository.{delete, rotate_key}
use keyzori.Infrastructure.LicenseRepository.Creation.{store_license, find_all_licenses}
use keyzori.Application.Activity.{license_created, license_deleted, license_key_rotated}
use keyzori.Application.Exec.{Exec, pure, lift, gets, query, write, ◌>>=◌, ◌>>◌, raise_if, capture}
use keyzori.Application.AdminService.{
  ManagedLicense, ManagedRevealedLicense, managed, license_event, text_field, type_text,
  customer_not_found, cleanup_details, require_license, remove_sessions_best_effort,
}
use keyzori.Application.AdminService.Validation.{whole, validate_integer, validate_meters}
use keyzori.Application.AdminService.TypeConfig.{CreateLicenseInput, TypeConfig, create_type_config}

-- `licenseKey()`, of the random text.
abbrev pub new_license_key : String → String
new_license_key random = concat "lic_" random

abbrev pub license_data :
    CreateLicenseInput → String → ℕ → ℕ → ℕ → TypeConfig → List NewLicenseMeter → NewLicense
license_data input random max_ips max_devices max_sessions type_config meters = record {
  license_key = new_license_key random;
  customer_id = input.customer_id;
  type = input.type;
  max_ips = max_ips;
  max_devices = max_devices;
  max_sessions = max_sessions;
  trial_duration_minutes = type_config.trial_duration_minutes;
  trial_started_at = none;
  metadata = or_else input.metadata JsonObject.end;
  expires_at = type_config.expires_at;
  type_drafts = type_config.type_drafts;
  meters = meters;
}

module _ (redis : Redis) (sha256 : String → String) (host : Host) where
  -- The checks of `createLicense`, and the license that they make.
  unfoldable pub checked_license : CreateLicenseInput → String → Exec redis NewLicense
  checked_license input random = do
    max_ips ← lift (validate_integer (or_else input.max_ips (whole (pos 0))) 0)
    max_devices ← lift (validate_integer (or_else input.max_devices (whole (pos 0))) 0)
    max_sessions ← lift (validate_integer (or_else input.max_sessions (whole (pos 0))) 0)
    meters ← lift (validate_meters (or_else input.meters []))
    now ← gets (λ w. w.now)
    type_config ← lift (create_type_config host input meters now)
    pure (license_data input random max_ips max_devices max_sessions type_config meters)

  unfoldable pub create_license :
      CreateLicenseInput → String → String → (ℕ → Draws) → Exec redis ManagedRevealedLicense
  create_license input random id draw = do
    customer ← query (find_customer input.customer_id)
    raise_if (not (is_some customer)) customer_not_found
    new ← checked_license input random
    now ← gets (λ w. w.now)
    license ← write (store_license sha256 new id draw now)
    capture (
        license_event license_created license none
          (text_field "licenseType" (type_text license.type) JsonObject.end))
    pure (record { managed_license = managed license now; license_key = new.license_key })

  unfoldable pub list_licenses : Exec redis (List ManagedLicense)
  list_licenses = do
    now ← gets (λ w. w.now)
    all ← query find_all_licenses
    pure (map (λ l. managed l now) all)

  unfoldable pub get_license : String → Exec redis ManagedLicense
  get_license id = do
    license ← require_license redis sha256 id
    now ← gets (λ w. w.now)
    pure (managed license now)

  unfoldable pub delete_license : String → Exec redis (Unit {0})
  delete_license id = do
    license ← require_license redis sha256 id
    write (λ db. ok (tt, delete id db))
    cleanup ← remove_sessions_best_effort redis sha256 id none
    capture (license_event license_deleted license none (cleanup_details cleanup))

  -- The event carries the customer of the license before, and the prefix of the new key.
  unfoldable pub rotate_license_key : String → String → Exec redis ManagedRevealedLicense
  rotate_license_key id random = do
    current ← require_license redis sha256 id
    now ← gets (λ w. w.now)
    rotated ← write (rotate_key sha256 id (new_license_key random) (some current.updated_at) now)
    cleanup ← remove_sessions_best_effort redis sha256 id (some rotated.session_revision)
    capture (record (license_event license_key_rotated rotated none (cleanup_details cleanup)) {
      license_id = some id;
      customer_id = some current.customer_id;
    })
    pure (record { managed_license = managed rotated now; license_key = new_license_key random })
