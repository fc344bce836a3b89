-- ===== src/Application/AdminService/Access.antt =====
-- The allow lists of licenses, of AdminService.ts. The rows of the activation attempts that the query
-- of the activity's table finds for a license are `attempts`.
use keyzori.Prelude.{ℕ, String, List, Bool, not, ltb, length, none, some}
use keyzori.Domain.Host.{Host}
use keyzori.Domain.IpAddress.{normalize_ip_address}
use keyzori.Domain.Entities.{IpAllowlistEntry, DeviceAllowlistEntry, JsonObject}
use keyzori.Domain.Errors.{Result, ok, err, invalid}
use keyzori.Infrastructure.Redis.{Redis}
use keyzori.Infrastructure.Database.{Database}
use keyzori.Infrastructure.AccessRepository.Attempts.{AttemptRow}
use keyzori.Infrastructure.AccessRepository.{
  AccessRecords, get_access_records, add_allowed_ip, remove_allowed_ip, add_allowed_device,
  remove_allowed_device,
}
use keyzori.Application.Exec.{Exec, pure, lift, gets, query, write, when, ◌>>=◌, ◌>>◌}
use keyzori.Application.AdminService.{require_license, capture_license_update, text_field}
use keyzori.Application.AdminService.Validation.{device_id_text}

-- The warning is a text of its own; here it is given or not, as the restriction is.
pub record AllowlistChange (A : Type 0) : Type 0 where
  pub entry : A
  pub restriction_enabled : Bool
  pub warned : Bool

abbrev pub allowlist_change : {A : Type 0} → A → ℕ → AllowlistChange A
allowlist_change entry listed = record {
  entry = entry;
  restriction_enabled = not (ltb 0 listed);
  warned = not (ltb 0 listed);
}

-- A valid address in its one spelling.
unfoldable pub required_ip : Host → String → Result String
required_ip host value = elim (normalize_ip_address host value) [
  | none ↦ err invalid
  | some ip ↦ ok ip
]

module _ (redis : Redis) (sha256 : String → String) (host : Host)
    (attempts : String → List AttemptRow) where
  abbrev pub access_of : String → Database → AccessRecords
  access_of id db = get_access_records host (attempts id) id db

  unfoldable pub get_license_access : String → Exec redis AccessRecords
  get_license_access id = do require_license redis sha256 id; query (access_of id)

  unfoldable pub allow_license_ip :
      String → String → String → Exec redis (AllowlistChange IpAllowlistEntry)
  allow_license_ip id value entry_id = do
    license ← require_license redis sha256 id
    ip ← lift (required_ip host value)
    before ← query (access_of id)
    now ← gets (λ w. w.now)
    entry ← write (add_allowed_ip id ip entry_id now)
    capture_license_update redis sha256 license "allow_ip" (text_field "ip" ip JsonObject.end)
    pure (allowlist_change entry (length before.allowed_ips))

  unfoldable pub remove_license_allowed_ip : String → String → Exec redis Bool
  remove_license_allowed_ip id value = do
    license ← require_license redis sha256 id
    ip ← lift (required_ip host value)
    removed ← write (λ db. ok (remove_allowed_ip id ip db))
    when removed (capture_license_update redis sha256 license "remove_allowed_ip" JsonObject.end)
    pure removed

  unfoldable pub allow_license_device :
      String → String → String → Exec redis (AllowlistChange DeviceAllowlistEntry)
  allow_license_device id value entry_id = do
    license ← require_license redis sha256 id
    device_id ← lift (device_id_text value)
    before ← query (access_of id)
    now ← gets (λ w. w.now)
    entry ← write (add_allowed_device id device_id entry_id now)
    capture_license_update redis sha256 license "allow_device"
        (text_field "deviceId" device_id JsonObject.end)
    pure (allowlist_change entry (length before.allowed_devices))

  unfoldable pub remove_license_allowed_device : String → String → Exec redis Bool
  remove_license_allowed_device id value = do
    license ← require_license redis sha256 id
    device_id ← lift (device_id_text value)
    removed ← write (λ db. ok (remove_allowed_device id device_id db))
    when removed
        (capture_license_update redis sha256 license "remove_allowed_device" JsonObject.end)
    pure removed
