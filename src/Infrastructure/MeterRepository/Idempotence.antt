-- ===== src/Infrastructure/MeterRepository/Idempotence.antt =====
-- `consume` of DrizzleMeterRepository.ts takes the units of an event once.
use keyzori.Prelude.{
  ℕ, zero, suc, ◌≤◌, ◌≡◌, ◌≢◌, ap, sym, find-update, refl, String, List, ◌∷◌, true, ◌==◌, eq_iff,
  arith, find, update, some, find-holds, int_eq, int_eq_refl, negate, ◌⊎◌,
}
use keyzori.Domain.Entities.{LicenseMeter, UsageLedgerEntry, MeterLedgerKind}
use keyzori.Domain.Errors.{ok}
use keyzori.Infrastructure.Database.{Database}
use keyzori.Infrastructure.MeterRepository.Ledger.{IsConsistent}
use keyzori.Infrastructure.MeterRepository.{
  Draws, consume_units, covers, consume_row, consume_entry, consumed, replayed, conflict, replay,
  existing_usage, named,
}
use keyzori.Infrastructure.MeterRepository.Consume.{consume-IsConsistent}
use keyzori.Infrastructure.MeterRepository.Recorded.{Kept, History-Kept}
use keyzori.Infrastructure.MeterRepository.History.{History}
use keyzori.Infrastructure.MeterRepository.Consumed.{consumed_exactly, find_row}

-- The consumed row is found by its identifier in the new table.
located :
    (row : LicenseMeter) (units now : ℕ) (ms : List LicenseMeter)
    → find (λ n. n.id == row.id) ms ≡ some row
    → units ≤ row.balance
    → find (λ n. n.id == row.id) (update (covers row.id units) (consume_row units now) ms)
      ≡ some (consume_row units now row)
located row units now ms h fits = ground (
  arith,
  eq_iff row.id row.id,
  find-update (λ (n : LicenseMeter). n.id == row.id) (covers row.id units) (consume_row units now)
      ms (λ n. refl),
)

existing_usage_self :
    (e : UsageLedgerEntry) (es : List UsageLedgerEntry) (ms : List LicenseMeter) (m : LicenseMeter)
    → find (λ n. n.id == e.meter_id) ms ≡ some m
    → existing_usage e.license_id e.event_id (e ∷ es) ms ≡ some (e, m)
unfolding existing_usage
existing_usage_self e es ms m h =
    ground (arith, eq_iff e.license_id e.license_id, eq_iff e.event_id e.event_id)

-- Just after the consumption its event is in the ledger.
consumed-Kept :
    (sha256 : String → String) (license_id meter_name : String) (units : ℕ) (event_id : String)
    (draws : Draws) (now : ℕ) (db db' : Database) (m : LicenseMeter) (e : UsageLedgerEntry)
    → IsConsistent db
    → consume_units sha256 license_id meter_name units event_id draws now db
      ≡ ok (consumed m e, db')
    → Kept license_id (sha256 event_id) e meter_name db'
consumed-Kept sha256 license_id meter_name units event_id draws now db db' m e c h =
    let (row, first, _, taken, em, ee, ed, _) =
      consumed_exactly sha256 license_id meter_name units event_id draws now db db' m e c h in
    let held = find-holds (named license_id meter_name) db.meters row first in
    let at_new =
      located row units now db.meters
        (find_row (named license_id meter_name) db.meters row c.distinct first) (omega arith) in
    let own =
      existing_usage_self (consume_entry license_id row.id m units (sha256 event_id) draws now)
        db.ledger (update (covers row.id units) (consume_row units now) db.meters)
        (consume_row units now row) at_new in
    (consume_row units now row, rw (ed, ee) own, ground (arith, eq_iff row.name meter_name))

-- The entry of a consumption answers a repeated request with what it answered first.
replay_same :
    (e : UsageLedgerEntry) (m : LicenseMeter) (name : String) (units : ℕ)
    → e.kind ≡ MeterLedgerKind.consume
    → e.delta ≡ negate units
    → m.name ≡ name
    → replay (e, m) name units ≡ replayed (record m { balance = e.balance_after }) e
unfolding replay
replay_same e m name units k d n =
    ground (arith, eq_iff m.name name, int_eq_refl (negate units), ap (int_eq e.delta) (sym d))

-- An event's units are taken once. After `consume` took them, and any meters were created, archived,
-- consumed from and adjusted in any order, the same request again, at any time, is answered by
-- `replayed` with the first entry and the balance that the first answer gave, and writes nothing.
pub consume_once :
    (sha256 : String → String) (license_id meter_name : String) (units : ℕ) (event_id : String)
    (draws draws' : Draws) (now now' : ℕ) (db db' later : Database) (m : LicenseMeter)
    (e : UsageLedgerEntry)
    → IsConsistent db
    → consume_units sha256 license_id meter_name units event_id draws now db
      ≡ ok (consumed m e, db')
    → History sha256 db' later
    → (n : LicenseMeter) × (consume_units sha256 license_id meter_name units event_id draws' now'
          later
        ≡ ok (replayed n e, later))
      × (n.balance ≡ m.balance)
      × (n.name ≡ m.name)
unfolding consume_units
consume_once sha256 license_id meter_name units event_id draws draws' now now' db db' later m e c h
      t =
    let (row, first, _, taken, em, ee, ed, _) =
      consumed_exactly sha256 license_id meter_name units event_id draws now db db' m e c h in
    let held = find-holds (named license_id meter_name) db.meters row first in
    let kept = consumed-Kept sha256 license_id meter_name units event_id draws now db db' m e c h in
    let consistent =
      consume-IsConsistent sha256 license_id meter_name units event_id draws now db db'
        (consumed m e) c h in
    let (n, found, name) =
      History-Kept license_id (sha256 event_id) e meter_name t consistent kept in
    (
      record n { balance = e.balance_after },
      ground (
        arith,
        replay_same e n meter_name units (ap (λ f. f.kind) ee) (ap (λ f. f.delta) ee) name,
      ),
      ap (λ f. f.balance_after) ee,
      ground (arith, eq_iff row.name meter_name),
    )

int_eq-negate : (m n : ℕ) → int_eq (negate m) (negate n) ≡ true → m ≡ n
unfolding negate
int_eq-negate zero zero h = refl
int_eq-negate zero (suc n) h = cc
int_eq-negate (suc m) zero h = cc
int_eq-negate (suc m) (suc n) h = ground arith

replay_other :
    (e : UsageLedgerEntry) (m : LicenseMeter) (name other : String) (units more : ℕ)
    → e.delta ≡ negate units
    → m.name ≡ name
    → (more ≢ units) ⊎ (other ≢ name)
    → replay (e, m) other more ≡ conflict
unfolding replay
replay_other e m name other units more d n differs = ground (
  arith,
  eq_iff m.name other,
  int_eq-negate units more,
  ap (λ delta. int_eq delta (negate more)) d,
)

-- A request that reuses the event of a consumption with other units or another meter is refused as
-- a conflict, at any later time, and writes nothing.
pub reuse_conflicts :
    (sha256 : String → String) (license_id meter_name other : String) (units more : ℕ)
    (event_id : String) (draws draws' : Draws) (now now' : ℕ) (db db' later : Database)
    (m : LicenseMeter) (e : UsageLedgerEntry)
    → IsConsistent db
    → consume_units sha256 license_id meter_name units event_id draws now db
      ≡ ok (consumed m e, db')
    → History sha256 db' later
    → (more ≢ units) ⊎ (other ≢ meter_name)
    → consume_units sha256 license_id other more event_id draws' now' later ≡ ok (conflict, later)
unfolding consume_units
reuse_conflicts sha256 license_id meter_name other units more event_id draws draws' now now' db db'
      later m e c h t differs =
    let (row, first, _, taken, em, ee, ed, _) =
      consumed_exactly sha256 license_id meter_name units event_id draws now db db' m e c h in
    let kept = consumed-Kept sha256 license_id meter_name units event_id draws now db db' m e c h in
    let consistent =
      consume-IsConsistent sha256 license_id meter_name units event_id draws now db db'
        (consumed m e) c h in
    let (n, found, name) =
      History-Kept license_id (sha256 event_id) e meter_name t consistent kept in
    ground (arith, replay_other e n meter_name other units more (ap (λ f. f.delta) ee) name differs)
