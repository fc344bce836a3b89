-- ===== src/Infrastructure/DeviceRepository.antt =====
-- apps/server/src/infrastructure/repositories/DrizzleDeviceRepository.ts: the registered devices of a
-- license, and the policy that admits them. `withLicenseRegistrationLock` runs its operation in a
-- transaction that holds the lock of the license.
use keyzori.Prelude.{
  ℕ, suc, ◌+◌, String, List, [], ◌∷◌, Bool, true, false, not, ◌&&◌, ◌==◌, Option, none, some,
  is_some, ltb, if◌then◌else◌, find, select, update, remove, any, length, map,
}
use keyzori.Domain.Entities.{LicenseType, trial, LicenseWithAllowlists, RegisteredDevice}
use keyzori.Domain.Errors.{ok, internal, throw_if, ◌>>◌}
use keyzori.Infrastructure.Database.{Database, StoredLicense, Transaction, license_exists}
use keyzori.Infrastructure.LicenseRepository.{
  has_id, find_by_id_with_allowlists, write_licenses, bump_revision, set_columns, next_updated_at,
}

pub record LicenseDeviceUsage : Type 0 where
  pub unique_ips : ℕ
  pub unique_devices : ℕ
  pub ip_registered : Bool
  pub device_registered : Bool

-- The row is locked against updates; the answer is that of the license's repository.
abbrev pub find_license_admission_policy : String → Database → Option LicenseWithAllowlists
find_license_admission_policy license_id db = find_by_id_with_allowlists license_id db

-- `incrementLicenseSessionRevision`: the new revision, if there is a row.
unfoldable pub increment_license_session_revision : String → ℕ → Database → Option ℕ × Database
increment_license_session_revision license_id now db = (
  elim (find (has_id license_id) db.licenses) [
    | none ↦ none
    | some row ↦ some (row.session_revision + 1)
  ],
  write_licenses (has_id license_id) (bump_revision now) db,
)

abbrev pub is_trial : LicenseType → Bool
is_trial trial = true
is_trial _ = false

-- `id = … and type = 'trial' and trial_started_at is null`
abbrev pub trial_unset : String → StoredLicense → Bool
trial_unset license_id row =
    has_id license_id row && is_trial row.type && not (is_some row.trial_started_at)

abbrev pub start_row : ℕ → ℕ → StoredLicense → StoredLicense
start_row started_at now row =
    set_columns
      (record row.columns {
        trial_started_at = some started_at;
        updated_at = next_updated_at now row.columns;
      })
      row

-- `startTrialIfUnset`: the start, if it was set.
unfoldable pub start_trial_if_unset : String → ℕ → ℕ → Database → Option ℕ × Database
start_trial_if_unset license_id started_at now db = (
  elim (find (trial_unset license_id) db.licenses) [ none ↦ none | some row ↦ some started_at ],
  write_licenses (trial_unset license_id) (start_row started_at now) db,
)

abbrev pub is_device : String → String → String → RegisteredDevice → Bool
is_device license_id ip device_id d =
    d.license_id == license_id && d.ip == ip && d.device_id == device_id

-- `findRegisteredDevice`.
abbrev pub find_registered_device : String → String → String → Database → Option RegisteredDevice
find_registered_device license_id ip device_id db =
    find (is_device license_id ip device_id) db.devices

abbrev pub touch_row : ℕ → RegisteredDevice → RegisteredDevice
touch_row seen_at d = record d { last_seen_at = seen_at }

abbrev pub new_device : String → String → String → String → ℕ → RegisteredDevice
new_device license_id ip device_id id now = record {
  id = id;
  license_id = license_id;
  ip = ip;
  device_id = device_id;
  created_at = now;
  last_seen_at = now;
}

-- `registerDevice`: the insert, or on a conflict with the unique key the update of the row.
unfoldable pub register_device :
    String → String → String → String → ℕ → Transaction RegisteredDevice
register_device license_id ip device_id id now db =
    elim (find (is_device license_id ip device_id) db.devices) [
      | some d ↦ ok (
        touch_row now d,
        record db {
          devices = update (is_device license_id ip device_id) (touch_row now) db.devices;
        },
      )
      | none ↦ do
        throw_if (not (license_exists license_id db)) internal
        throw_if (any (λ d. d.id == id) db.devices) internal
        ok (
          new_device license_id ip device_id id now,
          record db { devices = new_device license_id ip device_id id now ∷ db.devices },
        )
    ]

-- `touchDevice`.
unfoldable pub touch_device : String → ℕ → Database → Database
touch_device id seen_at db = record db {
  devices = update (λ d. d.id == id) (touch_row seen_at) db.devices;
}

-- `count(distinct …)`.
unfoldable pub count_distinct : List String → ℕ
count_distinct [] = 0
count_distinct (x ∷ xs) =
    let rest = count_distinct xs in if any (λ y. y == x) xs then rest else suc rest

abbrev pub devices_of : String → Database → List RegisteredDevice
devices_of license_id db = select (λ d. d.license_id == license_id) db.devices

abbrev pub ips_of : String → Database → List String
ips_of license_id db = map (λ d. d.ip) (devices_of license_id db)

abbrev pub device_ids_of : String → Database → List String
device_ids_of license_id db = map (λ d. d.device_id) (devices_of license_id db)

-- `getLicenseDeviceUsage`.
unfoldable pub get_license_device_usage : String → String → String → Database → LicenseDeviceUsage
get_license_device_usage license_id ip device_id db = record {
  unique_ips = count_distinct (ips_of license_id db);
  unique_devices = count_distinct (device_ids_of license_id db);
  ip_registered = any (λ d. d.license_id == license_id && d.ip == ip) db.devices;
  device_registered = any (λ d. d.license_id == license_id && d.device_id == device_id) db.devices;
}

-- `delete … where p returning`: the count of removed rows.
abbrev pub remove_devices : (RegisteredDevice → Bool) → Database → ℕ × Database
remove_devices p db = (length (select p db.devices), record db { devices = remove p db.devices })

unfoldable pub reset_registered_devices : String → Database → ℕ × Database
reset_registered_devices license_id db = remove_devices (λ d. d.license_id == license_id) db

unfoldable pub remove_registrations_by_ip : String → String → Database → ℕ × Database
remove_registrations_by_ip license_id ip db =
    remove_devices (λ d. d.license_id == license_id && d.ip == ip) db

unfoldable pub remove_registrations_by_device : String → String → Database → ℕ × Database
remove_registrations_by_device license_id device_id db =
    remove_devices (λ d. d.license_id == license_id && d.device_id == device_id) db

unfoldable pub remove_registered_device : String → String → Database → Bool × Database
remove_registered_device license_id id db =
    let (count, left) = remove_devices (λ d. d.license_id == license_id && d.id == id) db in
    (ltb 0 count, left)
