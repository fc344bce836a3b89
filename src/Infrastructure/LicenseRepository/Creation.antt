-- ===== src/Infrastructure/LicenseRepository/Creation.antt =====
-- `create` and `findAll` of DrizzleLicenseRepository.ts. The random identifiers of a license and of its
-- meters are arguments: `draw i` are those of the meter at position `i`.
use keyzori.Prelude.{ℕ, suc, String, List, [], ◌∷◌, none, map}
use keyzori.Domain.Entities.{License, NewLicense, NewLicenseMeter, LicenseMeter}
use keyzori.Domain.Errors.{Result, ok, ◌>>=◌}
use keyzori.Infrastructure.Database.{
  Database, StoredLicense, Transaction, insert_license, insert_meter, insert_entry,
}
use keyzori.Infrastructure.MeterRepository.{Draws, new_meter, create_entry}
use keyzori.Infrastructure.LicenseRepository.{
  to_domain_license, billing_revocation_of, license_key_prefix,
}

-- The row that is inserted, with the defaults of its columns.
abbrev pub new_license : (String → String) → NewLicense → String → ℕ → StoredLicense
new_license sha256 input id now = record {
  columns = record {
    id = id;
    key_prefix = license_key_prefix input.license_key;
    customer_id = input.customer_id;
    type = input.type;
    max_ips = input.max_ips;
    max_devices = input.max_devices;
    max_sessions = input.max_sessions;
    session_revision = 0;
    trial_duration_minutes = input.trial_duration_minutes;
    trial_started_at = input.trial_started_at;
    metadata = input.metadata;
    expires_at = input.expires_at;
    type_drafts = input.type_drafts;
    manual_revoked_at = none;
    manual_revocation_reason = none;
    created_at = now;
    updated_at = now;
  };
  key_hash = sha256 input.license_key;
}

-- A meter of the new license, with its entry.
abbrev pub stored_meter : String → NewLicenseMeter → Draws → ℕ → LicenseMeter
stored_meter license_id m draws now = new_meter license_id m.name m.balance draws now

-- The rows of the meters.
unfoldable pub insert_meters :
    String → List NewLicenseMeter → (ℕ → Draws) → ℕ → ℕ → Database → Result Database
insert_meters license_id [] draw i now db = ok db
insert_meters license_id (m ∷ ms) draw i now db = do
  inserted ← insert_meter (stored_meter license_id m (draw i) now) db
  insert_meters license_id ms draw (suc i) now inserted

-- The entries of the meters in the ledger.
unfoldable pub insert_entries :
    String → List NewLicenseMeter → (ℕ → Draws) → ℕ → ℕ → Database → Result Database
insert_entries license_id [] draw i now db = ok db
insert_entries license_id (m ∷ ms) draw i now db = do
  let meter = stored_meter license_id m (draw i) now
  recorded ← insert_entry (create_entry license_id meter m.reason (draw i) now) db
  insert_entries license_id ms draw (suc i) now recorded

-- `create`; no billing revokes a new license.
unfoldable pub store_license :
    (String → String) → NewLicense → String → (ℕ → Draws) → ℕ → Transaction License
store_license sha256 input id draw now db = do
  let row = new_license sha256 input id now
  inserted ← insert_license row db
  metered ← insert_meters id input.meters draw 0 now inserted
  recorded ← insert_entries id input.meters draw 0 now metered
  ok (to_domain_license row none, recorded)

-- `findAll`; the query's order by time is left out.
unfoldable pub find_all_licenses : Database → List License
find_all_licenses db =
    map (λ row. to_domain_license row (billing_revocation_of row.id db)) db.licenses
