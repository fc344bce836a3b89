-- ===== src/Infrastructure/MeterRepository/History.antt =====
-- Any sequence of committed operations of DrizzleMeterRepository.ts, on any licenses.
use keyzori.Prelude.{ℕ, ◌≡◌, String, Option, ℤ}
use keyzori.Domain.Entities.{LicenseMeter, MeterLedgerKind}
use keyzori.Domain.Errors.{ok}
use keyzori.Infrastructure.Database.{Database}
use keyzori.Infrastructure.MeterRepository.Ledger.{IsConsistent}
use keyzori.Infrastructure.MeterRepository.{
  UsageConsumptionResult, MeterAdjustmentResult, Draws, create_meter, archive_meter, consume_units,
  adjust,
}
use keyzori.Infrastructure.MeterRepository.Consume.{consume-IsConsistent}
use keyzori.Infrastructure.MeterRepository.Adjust.{adjust-IsConsistent}
use keyzori.Infrastructure.MeterRepository.Archive.{create-IsConsistent, archive-IsConsistent}

-- A transaction that committed. One that threw left the database as it was.
pub data Step (sha256 : String → String) : Database → Database → Type 0 where
  creates :
      (license_id name : String) (balance : ℕ) (reason : String) (draws : Draws) (now : ℕ)
      (m : LicenseMeter) {db db' : Database}
      → create_meter license_id name balance reason draws now db ≡ ok (m, db')
      → Step sha256 db db'
  archives :
      (license_id name reason : String) (draws : Draws) (now : ℕ) (r : Option LicenseMeter)
      {db db' : Database}
      → archive_meter license_id name reason draws now db ≡ ok (r, db')
      → Step sha256 db db'
  consumes :
      (license_id meter_name : String) (units : ℕ) (event_id : String) (draws : Draws) (now : ℕ)
      (r : UsageConsumptionResult) {db db' : Database}
      → consume_units sha256 license_id meter_name units event_id draws now db ≡ ok (r, db')
      → Step sha256 db db'
  adjusts :
      (license_id meter_name : String) (delta : ℤ) (reason : String) (kind : MeterLedgerKind)
      (draws : Draws) (now : ℕ) (r : MeterAdjustmentResult) {db db' : Database}
      → adjust license_id meter_name delta reason kind draws now db ≡ ok (r, db')
      → Step sha256 db db'

pub data History (sha256 : String → String) (db : Database) : Database → Type 0 where
  start : History sha256 db db
  after : {d e : Database} → History sha256 db d → Step sha256 d e → History sha256 db e

Step-IsConsistent :
    {sha256 : String → String} {db db' : Database}
    → Step sha256 db db'
    → IsConsistent db
    → IsConsistent db'
Step-IsConsistent (creates license_id name balance reason draws now m h) c =
    create-IsConsistent license_id name balance reason draws now _ _ m c h
Step-IsConsistent (archives license_id name reason draws now r h) c =
    archive-IsConsistent license_id name reason draws now _ _ r c h
Step-IsConsistent {sha256} (consumes license_id meter_name units event_id draws now r h) c =
    consume-IsConsistent sha256 license_id meter_name units event_id draws now _ _ r c h
Step-IsConsistent (adjusts license_id meter_name delta reason kind draws now r h) c =
    adjust-IsConsistent license_id meter_name delta reason kind draws now _ _ r c h

-- Whatever meters are created, archived, consumed and adjusted in whatever order: every balance
-- stays the sum of the deltas that the ledger has for the meter, and at most the integer limit; the
-- identifiers of meters stay distinct; every entry's balances differ by its delta; and every entry
-- names a meter. (The database must be so at the start.)
pub History-IsConsistent :
    {sha256 : String → String} {db db' : Database}
    → IsConsistent db
    → History sha256 db db'
    → IsConsistent db'
History-IsConsistent c start = c
History-IsConsistent c (after h s) = Step-IsConsistent s (History-IsConsistent c h)
