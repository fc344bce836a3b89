-- ===== src/Infrastructure/MeterRepository.antt =====
-- apps/server/src/infrastructure/repositories/DrizzleMeterRepository.ts. A transaction holds the
-- advisory lock of its license, so that those of one license run one after the other. The random
-- identifiers and the time that an operation takes are its arguments, and `sha256` is Bun's hasher.
pub mod Ledger
pub mod Posting
pub mod Consume
pub mod Adjust
pub mod Archive
pub mod Remaining
pub mod History
pub mod Changes
pub mod Consumed
pub mod Refused
pub mod Recorded
pub mod Idempotence
use keyzori.Prelude.{
  ℕ, zero, suc, ◌+◌, ◌-◌, String, List, [], ◌∷◌, Option, none, some, Bool, true, false, ◌&&◌, ◌||◌,
  not, ◌==◌, leb, eqb, if◌then◌else◌, is_some, find, select, update, any, length, ℤ, pos, negsuc,
  negate, int_eq, map,
}
use keyzori.Domain.Text.{is_empty, concat}
use keyzori.Domain.Entities.{
  LicenseMeter, UsageLedgerEntry, MeterLedgerKind, create, consume, top_up, adjustment, archive,
  LicenseType, lifetime, subscription, metered, trial,
}
use keyzori.Domain.Errors.{Result, ok, err, internal, max_license_limit, ◌>>=◌, ◌>>◌}
use keyzori.Infrastructure.Database.{
  Database, StoredLicense, Transaction, insert_meter, insert_entry,
}

pub data UsageConsumptionResult : Type 0 where
  consumed replayed : LicenseMeter → UsageLedgerEntry → UsageConsumptionResult
  conflict not_found archived exhausted : UsageConsumptionResult

pub data MeterAdjustmentResult : Type 0 where
  adjusted : LicenseMeter → UsageLedgerEntry → MeterAdjustmentResult
  not_found archived out_of_range : MeterAdjustmentResult

-- The `where` clauses of the queries.
abbrev pub of_license : String → LicenseMeter → Bool
of_license license_id m = m.license_id == license_id

abbrev pub named : String → String → LicenseMeter → Bool
named license_id name m = m.license_id == license_id && m.name == name

abbrev pub is_active : LicenseMeter → Bool
is_active m = not (is_some m.archived_at)

-- `operator:${crypto.randomUUID()}`
abbrev pub operator_event : String → String
operator_event uuid = concat "operator:" uuid

-- The query's order by name is left out.
unfoldable pub list_meters : String → Bool → Database → List LicenseMeter
list_meters license_id include_archived db =
    if include_archived
    then select (of_license license_id) db.meters
    else select (λ m. of_license license_id m && is_active m) db.meters

-- The random identifiers that a transaction draws: a meter's, an entry's and an operator event's.
pub record Draws : Type 0 where
  pub meter_id : String
  pub entry_id : String
  pub event_uuid : String

abbrev pub new_meter : String → String → ℕ → Draws → ℕ → LicenseMeter
new_meter license_id name balance draws now = record {
  id = draws.meter_id;
  license_id = license_id;
  name = name;
  balance = balance;
  archived_at = none;
  created_at = now;
  updated_at = now;
}

abbrev pub create_entry : String → LicenseMeter → String → Draws → ℕ → UsageLedgerEntry
create_entry license_id meter reason draws now = record {
  id = draws.entry_id;
  license_id = license_id;
  meter_id = meter.id;
  event_id = operator_event draws.event_uuid;
  kind = create;
  delta = pos meter.balance;
  balance_before = 0;
  balance_after = meter.balance;
  reason = some reason;
  created_at = now;
}

unfoldable pub create_meter : String → String → ℕ → String → Draws → ℕ → Transaction LicenseMeter
create_meter license_id name balance reason draws now db = do
  let meter = new_meter license_id name balance draws now
  inserted ← insert_meter meter db
  recorded ← insert_entry (create_entry license_id meter reason draws now) inserted
  ok (meter, recorded)

-- A metered license whose only active meter is the named one keeps it.
abbrev pub last_active : StoredLicense → String → Database → Option LicenseMeter
last_active license name db =
    let active_meters = select (λ m. of_license license.id m && is_active m) db.meters in
    elim license.type [
      | metered ↦
          if eqb (length active_meters) 1 then find (λ m. m.name == name) active_meters else none
      | _ ↦ none
    ]

abbrev pub archivable : String → String → LicenseMeter → Bool
archivable license_id name m = named license_id name m && is_active m

abbrev pub archive_row : ℕ → LicenseMeter → LicenseMeter
archive_row now m = record m { archived_at = some now; updated_at = now }

abbrev pub archive_entry : String → LicenseMeter → String → Draws → ℕ → UsageLedgerEntry
archive_entry license_id row reason draws now = record {
  id = draws.entry_id;
  license_id = license_id;
  meter_id = row.id;
  event_id = operator_event draws.event_uuid;
  kind = archive;
  delta = pos 0;
  balance_before = row.balance;
  balance_after = row.balance;
  reason = some reason;
  created_at = now;
}

-- The update of the meter, and its entry in the ledger.
unfoldable pub archive_active :
    String → String → String → Draws → ℕ → Transaction (Option LicenseMeter)
archive_active license_id name reason draws now db =
    let written = record db {
      meters = update (archivable license_id name) (archive_row now) db.meters;
    } in
    elim (find (archivable license_id name) db.meters) [
      | none ↦ ok (find (named license_id name) db.meters, db)
      | some row ↦ do
        recorded ← insert_entry (archive_entry license_id row reason draws now) written
        ok (some (archive_row now row), recorded)
    ]

unfoldable pub archive_meter :
    String → String → String → Draws → ℕ → Transaction (Option LicenseMeter)
archive_meter license_id name reason draws now db =
    elim (find (λ l. l.id == license_id) db.licenses) [
      | none ↦ ok (none, db)
      | some license ↦ elim (last_active license name db) [
        | some target ↦ ok (some target, db)
        | none ↦ archive_active license_id name reason draws now db
      ]
    ]

-- The entry of an event with the meter that its inner join finds.
unfoldable pub existing_usage :
    String
    → String
    → List UsageLedgerEntry
    → List LicenseMeter
    → Option (UsageLedgerEntry × LicenseMeter)
existing_usage license_id event_id [] meters = none
existing_usage license_id event_id (e ∷ es) meters =
    let rest = existing_usage license_id event_id es meters in
    if e.license_id == license_id && e.event_id == event_id
    then elim (find (λ m. m.id == e.meter_id) meters) [ some m ↦ some (e, m) | none ↦ rest ]
    else rest

abbrev pub is_consume : MeterLedgerKind → Bool
is_consume consume = true
is_consume _ = false

-- The answer to an event that the ledger has already.
unfoldable pub replay : UsageLedgerEntry × LicenseMeter → String → ℕ → UsageConsumptionResult
replay (entry, meter) meter_name units =
    if not (is_consume entry.kind)
      || not (int_eq entry.delta (negate units))
      || not (meter.name == meter_name)
    then conflict
    else replayed (record meter { balance = entry.balance_after }) entry

-- `id = meter.id and balance >= units`
abbrev pub covers : String → ℕ → LicenseMeter → Bool
covers meter_id units m = m.id == meter_id && leb units m.balance

abbrev pub consume_row : ℕ → ℕ → LicenseMeter → LicenseMeter
consume_row units now m = record m { balance = m.balance - units; updated_at = now }

-- The entry for the updated row.
abbrev pub consume_entry :
    String → String → LicenseMeter → ℕ → String → Draws → ℕ → UsageLedgerEntry
consume_entry license_id meter_id updated units event_id draws now = record {
  id = draws.entry_id;
  license_id = license_id;
  meter_id = meter_id;
  event_id = event_id;
  kind = consume;
  delta = negate units;
  balance_before = updated.balance + units;
  balance_after = updated.balance;
  reason = none;
  created_at = now;
}

-- The guarded update of the balance, and its entry in the ledger.
unfoldable pub consume_new :
    String → LicenseMeter → ℕ → String → Draws → ℕ → Transaction UsageConsumptionResult
consume_new license_id meter units event_id draws now db =
    let written = record db {
      meters = update (covers meter.id units) (consume_row units now) db.meters;
    } in
    elim (find (covers meter.id units) db.meters) [
      | none ↦ ok (exhausted, db)
      | some row ↦ do
        let updated = consume_row units now row
        let entry = consume_entry license_id meter.id updated units event_id draws now
        recorded ← insert_entry entry written
        ok (consumed updated entry, recorded)
    ]

-- An event that is new to the ledger.
unfoldable pub consume_fresh :
    String → String → ℕ → String → Draws → ℕ → Transaction UsageConsumptionResult
consume_fresh license_id meter_name units event_id draws now db =
    elim (find (named license_id meter_name) db.meters) [
      | none ↦ ok (not_found, db)
      | some meter ↦
          if is_some meter.archived_at
          then ok (archived, db)
          else consume_new license_id meter units event_id draws now db
    ]

unfoldable pub consume_units :
    (String → String)
    → String
    → String
    → ℕ
    → String
    → Draws
    → ℕ
    → Transaction UsageConsumptionResult
consume_units sha256 license_id meter_name units event_id draws now db =
    elim (existing_usage license_id (sha256 event_id) db.ledger db.meters) [
      | some found ↦ ok (replay found meter_name units, db)
      | none ↦ consume_fresh license_id meter_name units (sha256 event_id) draws now db
    ]

-- `delta > 0 ? balance <= MAX - delta : balance >= -delta`
abbrev pub in_bounds : ℤ → ℕ → Bool
in_bounds (pos zero) balance = leb 0 balance
in_bounds (pos (suc d)) balance = leb (balance + suc d) max_license_limit
in_bounds (negsuc d) balance = leb (suc d) balance

-- `balance + delta`, where it is not negative.
abbrev pub shift : ℕ → ℤ → ℕ
shift balance (pos d) = balance + d
shift balance (negsuc d) = balance - suc d

-- `balance - delta`, where it is not negative.
abbrev pub unshift : ℕ → ℤ → ℕ
unshift balance (pos d) = balance - d
unshift balance (negsuc d) = balance + suc d

abbrev pub adjustable : String → ℤ → LicenseMeter → Bool
adjustable meter_id delta m = m.id == meter_id && in_bounds delta m.balance

abbrev pub adjust_row : ℤ → ℕ → LicenseMeter → LicenseMeter
adjust_row delta now m = record m { balance = shift m.balance delta; updated_at = now }

-- The entry for the updated row.
abbrev pub adjust_entry :
    String → String → LicenseMeter → ℤ → String → MeterLedgerKind → Draws → ℕ → UsageLedgerEntry
adjust_entry license_id meter_id updated delta reason kind draws now = record {
  id = draws.entry_id;
  license_id = license_id;
  meter_id = meter_id;
  event_id = operator_event draws.event_uuid;
  kind = kind;
  delta = delta;
  balance_before = unshift updated.balance delta;
  balance_after = updated.balance;
  reason = some reason;
  created_at = now;
}

unfoldable pub adjust_found :
    String
    → LicenseMeter
    → ℤ
    → String
    → MeterLedgerKind
    → Draws
    → ℕ
    → Transaction MeterAdjustmentResult
adjust_found license_id meter delta reason kind draws now db =
    let written = record db {
      meters = update (adjustable meter.id delta) (adjust_row delta now) db.meters;
    } in
    elim (find (adjustable meter.id delta) db.meters) [
      | none ↦ ok (out_of_range, db)
      | some row ↦ do
        let updated = adjust_row delta now row
        let entry = adjust_entry license_id meter.id updated delta reason kind draws now
        recorded ← insert_entry entry written
        ok (adjusted updated entry, recorded)
    ]

unfoldable pub adjust :
    String → String → ℤ → String → MeterLedgerKind → Draws → ℕ → Transaction MeterAdjustmentResult
adjust license_id meter_name delta reason kind draws now db =
    elim (find (named license_id meter_name) db.meters) [
      | none ↦ ok (not_found, db)
      | some meter ↦
          if is_some meter.archived_at
          then ok (archived, db)
          else adjust_found license_id meter delta reason kind draws now db
    ]

-- Whether a meter's name passes the filter; no name, or an empty one, lets every meter pass.
abbrev pub is_chosen : Option String → String → Bool
is_chosen none name = true
is_chosen (some meter_name) name = is_empty meter_name || name == meter_name

-- The query's order by time is left out.
unfoldable pub list_ledger : String → Option String → Database → List UsageLedgerEntry
list_ledger license_id meter_name db =
    select
      (λ e.
        e.license_id == license_id
        && any (λ m. m.id == e.meter_id && is_chosen meter_name m.name) db.meters)
      db.ledger
