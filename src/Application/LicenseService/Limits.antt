-- ===== src/Application/LicenseService/Limits.antt =====
-- The registration limits that `admitActivation` of LicenseService.ts keeps.
use keyzori.Prelude.{
  ℕ, ◌<◌, ◌≤◌, ◌≡◌, refl, String, List, [], ◌∷◌, Bool, ◌&&◌, ◌==◌, none, map, select, any, arith,
  eq_iff,
}
use keyzori.Domain.Entities.{LicenseWithAllowlists, RegisteredDevice}
use keyzori.Domain.Errors.{ok}
use keyzori.Infrastructure.Database.{Database}
use keyzori.Infrastructure.DeviceRepository.{
  find_registered_device, get_license_device_usage, register_device, count_distinct, ips_of,
  device_ids_of,
}
use keyzori.Infrastructure.SessionRepository.{SessionBinding}
use keyzori.Application.LicenseService.Policy.{check_limits}

-- A value is listed where a selected row has it.
any-map-select :
    {A : Type 0} (p : A → Bool) (f : A → String) (x : String) (xs : List A)
    → any (λ y. y == x) (map f (select p xs)) ≡ any (λ a. p a && f a == x) xs
unfolding any select
any-map-select p f x [] = refl
any-map-select p f x (a ∷ xs) = ground (arith, any-map-select p f x xs)

-- What a limit on distinct values allows.
abbrev pub WithinLimits : LicenseWithAllowlists → Database → Type 0
WithinLimits current db =
    (0 < current.max_ips → count_distinct (ips_of current.id db) ≤ current.max_ips)
    × (0 < current.max_devices → count_distinct (device_ids_of current.id db) ≤ current.max_devices)

-- The registration of a device that was not registered and passes `check_limits` keeps the distinct
-- addresses and the distinct devices of the license within its limits, where they were.
pub register-WithinLimits :
    (current : LicenseWithAllowlists) (b : SessionBinding) (row_id : String) (now : ℕ)
    (db db' : Database) (d : RegisteredDevice)
    → WithinLimits current db
    → find_registered_device current.id b.ip b.device_id db ≡ none
    → check_limits current (get_license_device_usage current.id b.ip b.device_id db) ≡ ok tt
    → register_device current.id b.ip b.device_id row_id now db ≡ ok (d, db')
    → WithinLimits current db'
unfolding check_limits get_license_device_usage register_device count_distinct select
register-WithinLimits current b row_id now db db' d within fresh allowed h = (
  λ limited. ground (
    arith,
    within.0 limited,
    any-map-select (λ e. e.license_id == current.id) (λ e. e.ip) b.ip db.devices,
    eq_iff current.id current.id,
  ),
  λ limited. ground (
    arith,
    within.1 limited,
    any-map-select (λ e. e.license_id == current.id) (λ e. e.device_id) b.device_id db.devices,
    eq_iff current.id current.id,
  ),
)
