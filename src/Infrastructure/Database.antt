-- ===== src/Infrastructure/Database.antt =====
-- apps/server/src/db/schema.ts: the licensing tables, each the list of its rows, and the inserts with
-- the schema's keys, foreign keys and ranges, whose violation PostgreSQL reports as an error.
-- SQL leaves the order of rows open: here a new row comes first.
use keyzori.Prelude.{
  ℕ, String, List, ◌∷◌, ◌==◌, ◌&&◌, ◌||◌, not, Bool, true, Option, is_some, any, ltb, leb,
}
use keyzori.Domain.Entities.{
  Customer, LicenseType, subscription, trial, LicenseColumns, LicenseMeter, UsageLedgerEntry,
  RegisteredDevice, IpAllowlistEntry, DeviceAllowlistEntry, StripeSubscriptionLink,
}
use keyzori.Domain.Errors.{Result, ok, internal, max_license_limit, throw_if, ◌>>◌}

-- A row of `licenses`. What billing revokes stands in `stripe_subscription_links`.
pub record StoredLicense : Type 0 where
  pub columns : LicenseColumns
  pub open columns use *
  pub key_hash : String

pub record Database : Type 0 where
  pub customers : List Customer
  pub licenses : List StoredLicense
  pub ip_entries : List IpAllowlistEntry
  pub device_entries : List DeviceAllowlistEntry
  pub devices : List RegisteredDevice
  pub meters : List LicenseMeter
  pub ledger : List UsageLedgerEntry
  pub stripe_links : List StripeSubscriptionLink

-- What `db.transaction` runs: a thrown error rolls the database back, so that none comes with it.
abbrev pub Transaction : Type 0 → Type 0
Transaction A = Database → Result (A × Database)

-- The foreign key of `licenses`.
abbrev pub customer_exists : String → Database → Bool
customer_exists id db = any (λ c. c.id == id) db.customers

-- What the checks ask of a license of a type.
abbrev pub type_checks : LicenseType → Option ℕ → ℕ → Bool
type_checks subscription expires_at minutes = is_some expires_at
type_checks trial expires_at minutes = ltb 0 minutes
type_checks _ expires_at minutes = true

-- The checks of `licenses`, and the range of its integer columns.
unfoldable pub meets_checks : LicenseColumns → Bool
meets_checks l =
    type_checks l.type l.expires_at l.trial_duration_minutes
    && leb l.max_ips max_license_limit
    && leb l.max_devices max_license_limit
    && leb l.max_sessions max_license_limit
    && leb l.trial_duration_minutes max_license_limit

-- `insert into licenses`.
unfoldable pub insert_license : StoredLicense → Database → Result Database
insert_license l db = do
  throw_if (not (customer_exists l.customer_id db)) internal
  throw_if (any (λ k. k.id == l.id) db.licenses) internal
  throw_if (any (λ k. k.key_hash == l.key_hash) db.licenses) internal
  throw_if (not (meets_checks l.columns)) internal
  ok (record db { licenses = l ∷ db.licenses })

-- The foreign key of a child table to `licenses`.
abbrev pub license_exists : String → Database → Bool
license_exists id db = any (λ l. l.id == id) db.licenses

abbrev pub same_meter : LicenseMeter → LicenseMeter → Bool
same_meter m n = n.id == m.id || (n.license_id == m.license_id && n.name == m.name)

-- `insert into license_meters`.
unfoldable pub insert_meter : LicenseMeter → Database → Result Database
insert_meter m db = do
  throw_if (not (license_exists m.license_id db)) internal
  throw_if (any (same_meter m) db.meters) internal
  throw_if (ltb max_license_limit m.balance) internal
  ok (record db { meters = m ∷ db.meters })

abbrev pub same_entry : UsageLedgerEntry → UsageLedgerEntry → Bool
same_entry e f = f.id == e.id || (f.license_id == e.license_id && f.event_id == e.event_id)

-- `insert into usage_ledger_entries`.
unfoldable pub insert_entry : UsageLedgerEntry → Database → Result Database
insert_entry e db = do
  throw_if (not (license_exists e.license_id db)) internal
  throw_if (not (any (λ m. m.id == e.meter_id) db.meters)) internal
  throw_if (any (same_entry e) db.ledger) internal
  ok (record db { ledger = e ∷ db.ledger })
