-- ===== src/Infrastructure/LicenseRepository.antt =====
-- apps/server/src/infrastructure/repositories/DrizzleLicenseRepository.ts: licenses and their keys.
-- `sha256` is Bun's hasher.
pub mod Revisions
pub mod Rotation
pub mod Creation
pub mod Editing
pub mod Versions
pub mod NewMeters
use keyzori.Prelude.{
  ◌||◌, ℕ, ◌+◌, String, Bool, not, ◌&&◌, ◌==◌, eqb, ltb, Option, none, some, or_else, if◌then◌else◌,
  find, select, update, remove, any,
}
use keyzori.Domain.Text.{text_start}
use keyzori.Domain.Entities.{
  License, LicenseColumns, LicenseType, LicenseTypeDrafts, LicenseWithAllowlists, JsonObject,
}
use keyzori.Domain.Errors.{
  ok, err, Failure, internal, conflict_error, invalid_request, throw_if, ◌>>◌, ◌>>=◌,
}
use keyzori.Infrastructure.Database.{
  Database, StoredLicense, Transaction, meets_checks, customer_exists,
}

-- `greatest(clock_timestamp(), updated_at + interval '1 millisecond')`
abbrev pub next_updated_at : ℕ → LicenseColumns → ℕ
next_updated_at now l = if ltb now (l.updated_at + 1) then l.updated_at + 1 else now

abbrev pub has_id : String → StoredLicense → Bool
has_id id l = l.id == id

-- The `billing_revoked_at` of the left join with `stripe_subscription_links`.
abbrev pub billing_revocation_of : String → Database → Option ℕ
billing_revocation_of id db = elim (find (λ k. k.license_id == id) db.stripe_links) [
  | none ↦ none
  | some link ↦ link.billing_revoked_at
]

abbrev pub to_domain_license : StoredLicense → Option ℕ → License
to_domain_license row billing = record { columns = row.columns; billing_revoked_at = billing }

unfoldable pub find_license : (StoredLicense → Bool) → Database → Option License
find_license p db = elim (find p db.licenses) [
  | none ↦ none
  | some row ↦ some (to_domain_license row (billing_revocation_of row.id db))
]

-- `findById`.
abbrev pub find_by_id : String → Database → Option License
find_by_id id db = find_license (has_id id) db

abbrev pub with_allowlists : License → Database → LicenseWithAllowlists
with_allowlists license db = record {
  license = license;
  allowed_ips = select (λ e. e.license_id == license.id) db.ip_entries;
  allowed_devices = select (λ e. e.license_id == license.id) db.device_entries;
}

abbrev pub add_allowlists : Option License → Database → Option LicenseWithAllowlists
add_allowlists none db = none
add_allowlists (some license) db = some (with_allowlists license db)

-- `findByIdWithAllowlists`, and `findLicenseAdmissionPolicy` of DrizzleDeviceRepository.ts.
abbrev pub find_by_id_with_allowlists : String → Database → Option LicenseWithAllowlists
find_by_id_with_allowlists id db = add_allowlists (find_by_id id db) db

-- `findByLicenseKeyWithAllowlists`.
abbrev pub find_by_license_key_with_allowlists :
    (String → String) → String → Database → Option LicenseWithAllowlists
find_by_license_key_with_allowlists sha256 license_key db =
    add_allowlists (find_license (λ l. l.key_hash == sha256 license_key) db) db

-- `update licenses set … where p returning`, on the columns; `none` if no row is found.
abbrev pub write_licenses :
    (StoredLicense → Bool) → (StoredLicense → StoredLicense) → Database → Database
write_licenses p f db = record db { licenses = update p f db.licenses }

-- A row that the update would leave against the checks of the table, or without its customer.
unfoldable pub breaks_checks :
    (StoredLicense → Bool) → (StoredLicense → StoredLicense) → Database → Bool
breaks_checks p f db =
    any (λ l. p l && not (meets_checks (f l).columns && customer_exists (f l).customer_id db))
      db.licenses

abbrev pub set_columns : LicenseColumns → StoredLicense → StoredLicense
set_columns columns row = record row { columns = columns }

abbrev pub bump_revision : ℕ → StoredLicense → StoredLicense
bump_revision now row =
    set_columns
      (record row.columns {
        session_revision = row.session_revision + 1;
        updated_at = next_updated_at now row.columns;
      })
      row

-- `findById` after an update; a license that is not there is an error.
abbrev pub reload : String → Transaction License
reload id db = elim (find_by_id id db) [ none ↦ err internal | some license ↦ ok (license, db) ]

-- The statement of `incrementSessionRevision`, with `firstOrThrow`.
unfoldable pub raise_session_revision : String → ℕ → Transaction (Unit {0})
raise_session_revision id now db = do
  throw_if (not (any (has_id id) db.licenses)) internal
  ok (tt, write_licenses (has_id id) (bump_revision now) db)

-- `incrementSessionRevision`.
unfoldable pub increment_session_revision : String → ℕ → Transaction License
unfolding raise_session_revision
increment_session_revision id now db = do
  raised ← raise_session_revision id now db
  reload id raised.1

-- The columns of `LicenseUpdate`; a field that is left out keeps its column.
pub record LicenseUpdate : Type 0 where
  pub customer_id : Option String
  pub type : Option LicenseType
  pub max_ips : Option ℕ
  pub max_devices : Option ℕ
  pub max_sessions : Option ℕ
  pub trial_duration_minutes : Option ℕ
  pub trial_started_at : Option (Option ℕ)
  pub metadata : Option JsonObject
  pub expires_at : Option (Option ℕ)
  pub type_drafts : Option LicenseTypeDrafts
  pub manual_revoked_at : Option (Option ℕ)
  pub manual_revocation_reason : Option (Option String)

abbrev pub apply_update : LicenseUpdate → LicenseColumns → LicenseColumns
apply_update u l = record l {
  customer_id = or_else u.customer_id l.customer_id;
  type = or_else u.type l.type;
  max_ips = or_else u.max_ips l.max_ips;
  max_devices = or_else u.max_devices l.max_devices;
  max_sessions = or_else u.max_sessions l.max_sessions;
  trial_duration_minutes = or_else u.trial_duration_minutes l.trial_duration_minutes;
  trial_started_at = or_else u.trial_started_at l.trial_started_at;
  metadata = or_else u.metadata l.metadata;
  expires_at = or_else u.expires_at l.expires_at;
  type_drafts = or_else u.type_drafts l.type_drafts;
  manual_revoked_at = or_else u.manual_revoked_at l.manual_revoked_at;
  manual_revocation_reason = or_else u.manual_revocation_reason l.manual_revocation_reason;
}

abbrev pub invalidating_row : LicenseUpdate → ℕ → StoredLicense → StoredLicense
invalidating_row u now row =
    set_columns
      (record (apply_update u row.columns) {
        session_revision = row.session_revision + 1;
        updated_at = next_updated_at now row.columns;
      })
      row

-- The statement of `updateWithSessionInvalidation`, with `firstOrThrow`.
unfoldable pub write_invalidating : String → LicenseUpdate → ℕ → Transaction (Unit {0})
write_invalidating id u now db = do
  throw_if (not (any (has_id id) db.licenses)) internal
  throw_if (breaks_checks (has_id id) (invalidating_row u now) db) internal
  ok (tt, write_licenses (has_id id) (invalidating_row u now) db)

-- `updateWithSessionInvalidation`.
unfoldable pub update_with_session_invalidation : String → LicenseUpdate → ℕ → Transaction License
unfolding write_invalidating
update_with_session_invalidation id u now db = do
  written ← write_invalidating id u now db
  reload id written.1

-- `licenseKeyPrefix`.
unfoldable pub license_key_prefix : String → String
license_key_prefix license_key = text_start 16 license_key

-- The columns of a license's row that a rotation writes.
abbrev pub rotated_row : String → String → ℕ → StoredLicense → StoredLicense
rotated_row key_hash prefix now row = record (bump_revision now row) {
  columns = record (bump_revision now row).columns { key_prefix = prefix };
  key_hash = key_hash;
}

-- `eq(id) and eq(updatedAt, expected)`, where an expected time is given.
abbrev pub matches_version : String → Option ℕ → StoredLicense → Bool
matches_version id none row = has_id id row
matches_version id (some expected) row = has_id id row && eqb row.updated_at expected

abbrev pub missing_row : Option ℕ → Failure
missing_row none = internal
missing_row (some expected) = conflict_error invalid_request

-- `rotateKey`; another license with the new hash breaks the unique key.
unfoldable pub rotate_key : (String → String) → String → String → Option ℕ → ℕ → Transaction License
rotate_key sha256 id license_key expected now db =
    let rotate = rotated_row (sha256 license_key) (license_key_prefix license_key) now in
    elim (find (matches_version id expected) db.licenses) [
      | none ↦ err (missing_row expected)
      | some row ↦ do
        throw_if (any (λ l. l.key_hash == sha256 license_key && not (l.id == id)) db.licenses)
            internal
        ok (
          to_domain_license (rotate row) (billing_revocation_of id db),
          write_licenses (matches_version id expected) rotate db,
        )
    ]

-- `delete`, with what the foreign keys cascade to: a row of the ledger goes with its license, and with
-- its meter.
unfoldable pub delete : String → Database → Database
delete id db = record db {
  licenses = remove (has_id id) db.licenses;
  ip_entries = remove (λ e. e.license_id == id) db.ip_entries;
  device_entries = remove (λ e. e.license_id == id) db.device_entries;
  devices = remove (λ d. d.license_id == id) db.devices;
  meters = remove (λ m. m.license_id == id) db.meters;
  ledger =
      remove
        (λ e. e.license_id == id || any (λ m. m.license_id == id && m.id == e.meter_id) db.meters)
        db.ledger;
  stripe_links = remove (λ k. k.license_id == id) db.stripe_links;
}
