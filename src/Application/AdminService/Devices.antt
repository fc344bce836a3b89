-- ===== src/Application/AdminService/Devices.antt =====
-- The removal of registered devices, of AdminService.ts: each under the registration lock, with the
-- end of the license's sessions.
pub mod Removal
use keyzori.Prelude.{ℕ, String, Bool, ltb, Option, none, some, if◌then◌else◌}
use keyzori.Domain.Host.{Host}
use keyzori.Domain.Entities.{License}
use keyzori.Domain.Errors.{ok}
use keyzori.Infrastructure.Redis.{Redis}
use keyzori.Infrastructure.Database.{Database}
use keyzori.Infrastructure.DeviceRepository.{
  remove_registrations_by_ip, remove_registrations_by_device, reset_registered_devices,
  increment_license_session_revision,
}
use keyzori.Application.Exec.{Exec, pure, lift, gets, write, when, transaction, ◌>>=◌, ◌>>◌}
use keyzori.Application.AdminService.{
  require_license, remove_sessions_best_effort, capture_license_update,
}
use keyzori.Application.AdminService.Access.{required_ip}
use keyzori.Application.AdminService.Revocation.{removed_details}
use keyzori.Application.AdminService.Validation.{device_id_text}

module _ (redis : Redis) (sha256 : String → String) where
  unfoldable pub raise_revision_if : Bool → String → Exec redis (Option ℕ)
  raise_revision_if needed id = do
    now ← gets (λ w. w.now)
    if needed then write (λ db. ok (increment_license_session_revision id now db)) else pure none

  -- What the lock holds for: the removal, and the next revision if a row was removed.
  unfoldable pub removal_locked : String → (Database → ℕ × Database) → Exec redis (ℕ × Option ℕ)
  removal_locked id removal = transaction do
    count ← write (λ db. ok (removal db))
    revision ← raise_revision_if (ltb 0 count) id
    pure (count, revision)

  -- The end of a removal: the clean-up and the event, if a row was removed.
  unfoldable pub finish_removal : License → String → String → ℕ × Option ℕ → Exec redis ℕ
  finish_removal license id action (count, revision) = do
    when (ltb 0 count) (do
      remove_sessions_best_effort redis sha256 id revision
      capture_license_update redis sha256 license action (removed_details count))
    pure count

  unfoldable pub remove_registered_ip : Host → String → String → Exec redis ℕ
  remove_registered_ip host id value = do
    license ← require_license redis sha256 id
    ip ← lift (required_ip host value)
    result ← removal_locked id (remove_registrations_by_ip id ip)
    finish_removal license id "remove_registered_ip" result

  unfoldable pub remove_license_device : String → String → Exec redis ℕ
  remove_license_device id value = do
    license ← require_license redis sha256 id
    device_id ← lift (device_id_text value)
    result ← removal_locked id (remove_registrations_by_device id device_id)
    finish_removal license id "remove_registered_device" result

  -- The revision is raised even if no device was registered.
  unfoldable pub reset_locked : String → Exec redis (ℕ × Option ℕ)
  reset_locked id = transaction do
    now ← gets (λ w. w.now)
    count ← write (λ db. ok (reset_registered_devices id db))
    revision ← write (λ db. ok (increment_license_session_revision id now db))
    pure (count, revision)

  unfoldable pub reset_license_devices : String → Exec redis ℕ
  reset_license_devices id = do
    license ← require_license redis sha256 id
    result ← reset_locked id
    remove_sessions_best_effort redis sha256 id result.1
    capture_license_update redis sha256 license "reset_registered_devices"
        (removed_details result.0)
    pure result.0
