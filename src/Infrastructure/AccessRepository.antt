-- ===== src/Infrastructure/AccessRepository.antt =====
-- apps/server/src/infrastructure/repositories/DrizzleAccessRepository.ts: the allow lists, and what the
-- activation attempts on a license came from. The rows that the query of `activity_events` gives are
-- an argument, and so are the random identifiers.
pub mod Attempts
pub mod Listed
use keyzori.Prelude.{
  ℕ, String, List, [], ◌∷◌, Bool, not, ◌&&◌, ◌==◌, Option, none, some, find, select, remove, any,
  length, ltb,
}
use keyzori.Domain.Entities.{IpAllowlistEntry, DeviceAllowlistEntry, RegisteredDevice}
use keyzori.Domain.Errors.{ok, internal, throw_if, ◌>>◌}
use keyzori.Domain.Host.{Host}
use keyzori.Infrastructure.Database.{Database, Transaction, license_exists}
use keyzori.Infrastructure.DeviceRepository.{devices_of}
use Attempts.{AttemptRow, AccessAttemptIdentifier, summarize_attempts}

pub record AccessRecords : Type 0 where
  pub allowed_ips : List IpAllowlistEntry
  pub allowed_devices : List DeviceAllowlistEntry
  pub registered_devices : List RegisteredDevice
  pub attempted_ips : List AccessAttemptIdentifier
  pub attempted_devices : List AccessAttemptIdentifier

-- `getAccessRecords`.
unfoldable pub get_access_records : Host → List AttemptRow → String → Database → AccessRecords
get_access_records host attempts license_id db = record {
  allowed_ips = select (λ e. e.license_id == license_id) db.ip_entries;
  allowed_devices = select (λ e. e.license_id == license_id) db.device_entries;
  registered_devices = devices_of license_id db;
  attempted_ips = summarize_attempts host (λ row. row.ip) attempts;
  attempted_devices = summarize_attempts host (λ row. row.device_id) attempts;
}

abbrev pub allows_ip : String → String → IpAllowlistEntry → Bool
allows_ip license_id ip e = e.license_id == license_id && e.ip == ip

abbrev pub new_ip_entry : String → String → String → ℕ → IpAllowlistEntry
new_ip_entry license_id ip id now = record {
  id = id;
  license_id = license_id;
  ip = ip;
  created_at = now;
}

-- `addAllowedIp`: the new entry, or on a conflict the entry of the address.
unfoldable pub add_allowed_ip : String → String → String → ℕ → Transaction IpAllowlistEntry
add_allowed_ip license_id ip id now db = elim (find (allows_ip license_id ip) db.ip_entries) [
  | some entry ↦ ok (entry, db)
  | none ↦ do
    throw_if (any (λ e. e.id == id) db.ip_entries) internal
    throw_if (not (license_exists license_id db)) internal
    ok (
      new_ip_entry license_id ip id now,
      record db { ip_entries = new_ip_entry license_id ip id now ∷ db.ip_entries },
    )
]

-- `removeAllowedIp`: whether a row was removed.
unfoldable pub remove_allowed_ip : String → String → Database → Bool × Database
remove_allowed_ip license_id ip db = (
  ltb 0 (length (select (allows_ip license_id ip) db.ip_entries)),
  record db { ip_entries = remove (allows_ip license_id ip) db.ip_entries },
)

abbrev pub allows_device : String → String → DeviceAllowlistEntry → Bool
allows_device license_id device_id e = e.license_id == license_id && e.device_id == device_id

abbrev pub new_device_entry : String → String → String → ℕ → DeviceAllowlistEntry
new_device_entry license_id device_id id now = record {
  id = id;
  license_id = license_id;
  device_id = device_id;
  created_at = now;
}

-- `addAllowedDevice`.
unfoldable pub add_allowed_device : String → String → String → ℕ → Transaction DeviceAllowlistEntry
add_allowed_device license_id device_id id now db =
    elim (find (allows_device license_id device_id) db.device_entries) [
      | some entry ↦ ok (entry, db)
      | none ↦ do
        throw_if (any (λ e. e.id == id) db.device_entries) internal
        throw_if (not (license_exists license_id db)) internal
        ok (
          new_device_entry license_id device_id id now,
          record db {
            device_entries = new_device_entry license_id device_id id now ∷ db.device_entries;
          },
        )
    ]

-- `removeAllowedDevice`.
unfoldable pub remove_allowed_device : String → String → Database → Bool × Database
remove_allowed_device license_id device_id db = (
  ltb 0 (length (select (allows_device license_id device_id) db.device_entries)),
  record db { device_entries = remove (allows_device license_id device_id) db.device_entries },
)
