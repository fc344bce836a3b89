-- ===== src/Application/LicenseService/Policy.antt =====
-- The checks of apps/server/src/application/services/LicenseService.ts that read a license and a
-- request, and call nothing.
use keyzori.Prelude.{ℕ, String, List, [], ◌∷◌, Bool, false, not, ◌&&◌, ◌||◌, ◌==◌, ltb, leb, any}
use keyzori.Domain.Text.{text_length, trim, is_empty}
use keyzori.Domain.Entities.{
  License, LicenseStatus, active, expired, revoked, LicenseWithAllowlists,
}
use keyzori.Domain.LicenseStatus.{derive_license_status}
use keyzori.Domain.Errors.{
  Result, ok, err, domain_error, invalid, license_revoked, license_expired, ip_not_allowed,
  device_not_allowed, ip_registration_limit, device_registration_limit, max_license_limit, throw_if,
  ◌>>◌,
}
use keyzori.Infrastructure.DeviceRepository.{LicenseDeviceUsage}
use keyzori.Infrastructure.SessionRepository.{SessionBinding}

-- `!text || text.length > max`
abbrev pub out_of_length : ℕ → String → Bool
out_of_length maximum text = is_empty text || ltb maximum (text_length text)

-- `binding`.
unfoldable pub binding : String → String → Result SessionBinding
binding ip device_id = do
  let normalized = trim device_id
  throw_if (out_of_length 128 normalized) invalid
  ok (record { ip = trim ip; device_id = normalized })

pub record ConsumeUsageInput : Type 0 where
  pub meter : String
  pub units : ℕ
  pub event_id : String

abbrev pub normalized_input : ConsumeUsageInput → ConsumeUsageInput
normalized_input input = record {
  meter = trim input.meter;
  units = input.units;
  event_id = trim input.event_id;
}

-- `validateUsageInput`; a number of units is a natural number here.
unfoldable pub validate_usage_input : ConsumeUsageInput → Result (Unit {0})
validate_usage_input input = do
  throw_if (out_of_length 128 input.meter) invalid
  throw_if (ltb input.units 1 || ltb max_license_limit input.units) invalid
  throw_if (out_of_length 128 input.event_id) invalid
  ok tt

-- What `assertActive` throws at a status.
abbrev pub status_check : LicenseStatus → Result (Unit {0})
status_check revoked = err (domain_error 403 license_revoked)
status_check expired = err (domain_error 403 license_expired)
status_check active = ok tt

unfoldable pub assert_active : License → ℕ → Result (Unit {0})
assert_active license now = status_check (derive_license_status license now).status

-- `list.length > 0 && !list.some(…)`
abbrev pub restricts : {A : Type 0} → List A → Bool → Bool
restricts [] listed = false
restricts (x ∷ xs) listed = not listed

unfoldable pub assert_allowed : LicenseWithAllowlists → SessionBinding → Result (Unit {0})
assert_allowed license binding = do
  throw_if (restricts license.allowed_ips (any (λ e. e.ip == binding.ip) license.allowed_ips))
      (domain_error 403 ip_not_allowed)
  throw_if
      (restricts license.allowed_devices
        (any (λ e. e.device_id == binding.device_id) license.allowed_devices))
      (domain_error 403 device_not_allowed)
  ok tt

-- The registration limits of `admitActivation`.
unfoldable pub check_limits : LicenseWithAllowlists → LicenseDeviceUsage → Result (Unit {0})
check_limits current usage = do
  throw_if
      (ltb 0 current.max_ips && not usage.ip_registered && leb current.max_ips usage.unique_ips)
      (domain_error 403 ip_registration_limit)
  throw_if
      (ltb 0 current.max_devices
        && not usage.device_registered
        && leb current.max_devices usage.unique_devices)
      (domain_error 403 device_registration_limit)
  ok tt
