-- ===== src/Tests/Licenses.antt =====
-- LicenseService.ts on a small database and a store in memory.
use keyzori.Prelude.{
  ◌≡◌, ◌==◌, ◌+◌, some, refl, arith, find, any, update, select, [], ◌∷◌, String, true, false, none,
}
use keyzori.Application.Exec.{World}
use keyzori.Application.Exec.Laws.{Ends}
use keyzori.Domain.Entities.{LicenseWithAllowlists, RegisteredDevice, metered}
use keyzori.Infrastructure.Database.{Database, StoredLicense}
use keyzori.Infrastructure.LicenseRepository.{
  with_allowlists, increment_session_revision, raise_session_revision, find_license, write_licenses,
  bump_revision, rotate_key, rotated_row, license_key_prefix, matches_version, has_id,
  to_domain_license,
}
use keyzori.Infrastructure.LicenseRepository.Rotation.{rotate_key_lem}
use keyzori.Infrastructure.LicenseRepository.Revisions.{Advances, increments, Invalidation-Advances}
use keyzori.Infrastructure.DeviceRepository.{
  register_device, new_device, get_license_device_usage, count_distinct,
}
use keyzori.Infrastructure.SessionRepository.{SessionBinding}
use keyzori.Application.LicenseService.Policy.{ConsumeUsageInput, check_limits}
use keyzori.Application.LicenseService.{activate, send_heartbeat, consume_usage}
use keyzori.Application.LicenseService.Sessions.{Alive, heartbeat_lem}
use keyzori.Application.LicenseService.Consumption.{Consumed, consume_usage_lem}
use keyzori.Application.LicenseService.Limits.{WithinLimits, register-WithinLimits}
use keyzori.Application.LicenseService.Steps.{Kept}
use keyzori.Application.LicenseService.Activation.{Activated, activate_lem}
use keyzori.Tests.Status.{columns_of}
use keyzori.Tests.Memory.{Memory, memory}
use keyzori.Tests.Meters.{small, draws_of}

abbrev pub hash : String → String
hash s = s

abbrev pub empty_memory : Memory
empty_memory = record { value = λ k. none; set = λ k. [] }

-- The eighth call of the request fails.
abbrev pub morning : World memory
morning = record {
  db = small;
  sessions = empty_memory;
  activity = [];
  faults = false ∷ false ∷ false ∷ false ∷ false ∷ false ∷ false ∷ true ∷ [];
  pending = none;
  now = 5;
}

activate_lem_example :
    Ends
      (Activated memory hash "h1" "laptop" "10.0.0.1" "t1" morning)
      (Kept small)
      (activate memory hash "h1" "laptop" "10.0.0.1" "t1" "d1")
      morning
activate_lem_example = activate_lem memory hash "h1" "laptop" "10.0.0.1" "t1" "d1" morning

heartbeat_lem_example :
    Ends
      (Alive memory hash "t1" "laptop" "10.0.0.1" morning)
      (Kept small)
      (send_heartbeat memory hash "t1" "laptop" "10.0.0.1")
      morning
heartbeat_lem_example = heartbeat_lem memory hash "t1" "laptop" "10.0.0.1" morning

abbrev pub three_exports : ConsumeUsageInput
three_exports = record { meter = "exports"; units = 3; event_id = "ev" }

consume_usage_lem_example :
    Ends
      (Consumed memory hash "t1" "laptop" "10.0.0.1" three_exports (draws_of "e1") morning)
      (Kept small)
      (consume_usage memory hash "t1" "laptop" "10.0.0.1" three_exports (draws_of "e1"))
      morning
consume_usage_lem_example =
    consume_usage_lem memory hash "t1" "laptop" "10.0.0.1" three_exports (draws_of "e1") morning

abbrev pub stored : StoredLicense
stored = record { columns = columns_of metered; key_hash = "h1" }

abbrev pub the_license : LicenseWithAllowlists
the_license = with_allowlists (to_domain_license stored none) small

abbrev pub laptop : SessionBinding
laptop = record { ip = "10.0.0.1"; device_id = "laptop" }

abbrev pub laptop_row : RegisteredDevice
laptop_row = new_device "l1" "10.0.0.1" "laptop" "d1" 5

register-WithinLimits_example :
    WithinLimits the_license (record small { devices = laptop_row ∷ [] })
register-WithinLimits_example =
    register-WithinLimits the_license laptop "d1" 5 small
      (record small { devices = laptop_row ∷ [] }) laptop_row
      (unfold count_distinct select in omega arith, unfold count_distinct select in omega arith)
      (unfold find in refl)
      (unfold check_limits get_license_device_usage count_distinct any select in refl)
      (unfold register_device find any in refl)

abbrev pub bumped : Database
bumped = write_licenses (has_id "l1") (bump_revision 7) small

Invalidation-Advances_example :
    Advances "l1" small bumped (to_domain_license (bump_revision 7 stored) none)
Invalidation-Advances_example =
    Invalidation-Advances "l1" small bumped (to_domain_license (bump_revision 7 stored) none) (
      increments 7 (
        unfold increment_session_revision raise_session_revision find_license find any update in
        refl))

abbrev rekeyed : StoredLicense
rekeyed = rotated_row "h2" (license_key_prefix "h2") 7 stored

rotate_key_lem_example :
    (find_license (λ r. r.key_hash == "h2") (record small { licenses = rekeyed ∷ [] })
      ≡ some (to_domain_license rekeyed none))
    × ((row : StoredLicense) × (find (matches_version "l1" none) small.licenses ≡ some row)
        × (rekeyed.session_revision ≡ row.session_revision + 1))
rotate_key_lem_example =
    rotate_key_lem hash "l1" "h2" none 7 small (record small { licenses = rekeyed ∷ [] })
      (to_domain_license rekeyed none) (unfold any in (refl, tt))
      (unfold rotate_key find any update in refl)
