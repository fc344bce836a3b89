-- ===== src/Infrastructure/MeterRepository/Consumed.antt =====
-- What a consumption by `consume` of DrizzleMeterRepository.ts did.
use keyzori.Prelude.{
  ℕ, ◌+◌, ◌≡◌, ◌≢◌, sym, any-false-find, String, List, [], ◌∷◌, Bool, false, ◌==◌, eq_iff, arith,
  find, any, none, some, find-holds, inl, inr,
}
use keyzori.Domain.Entities.{LicenseMeter, UsageLedgerEntry}
use keyzori.Domain.Errors.{ok}
use keyzori.Infrastructure.Database.{Database, same_entry}
use keyzori.Infrastructure.MeterRepository.Ledger.{Distinct, IsConsistent}
use keyzori.Infrastructure.MeterRepository.{
  Draws, consume_units, covers, consume_row, consume_entry, consumed, replay, named,
}
use keyzori.Infrastructure.MeterRepository.Posting.{posted}
use keyzori.Infrastructure.MeterRepository.Consume.{
  consume_new-cases, consume_fresh-cases, consume-cases,
}

-- Where identifiers are distinct, a row that a query finds is the one of its identifier.
pub find_row :
    (p : LicenseMeter → Bool) (ms : List LicenseMeter) (m : LicenseMeter)
    → Distinct ms
    → find p ms ≡ some m
    → find (λ n. n.id == m.id) ms ≡ some m
unfolding find
find_row p [] m d e = cc
find_row p (x ∷ xs) m d e = ground (
  arith,
  eq_iff x.id m.id,
  eq_iff m.id x.id,
  eq_iff m.id m.id,
  find_row p xs m d.1,
  any-false-find (λ n. n.id == x.id) p xs m d.0,
)

-- The found rows are one: by name, and by identifier with enough units.
module _ (p q : LicenseMeter → Bool) (ms : List LicenseMeter) {m row : LicenseMeter}
    (d : Distinct ms) (first : find p ms ≡ some m) (second : find q ms ≡ some row)
    (same : row.id ≡ m.id) where
  row-eq : row ≡ m
  row-eq = ground (arith, find_row p ms m d first, rw same at (find_row q ms row d second))

replay-ne-consumed :
    (found : UsageLedgerEntry × LicenseMeter) (name : String) (units : ℕ) (m : LicenseMeter)
    (e : UsageLedgerEntry)
    → replay found name units ≢ consumed m e
unfolding replay
replay-ne-consumed (entry, meter) name units m e h = ground arith

-- A consumption that is answered by `consumed` found the active meter of the name with enough
-- units, took exactly the units from it, entered that in the ledger under the event, and changed
-- nothing else.
pub consumed_exactly :
    (sha256 : String → String) (license_id meter_name : String) (units : ℕ) (event_id : String)
    (draws : Draws) (now : ℕ) (db db' : Database) (m : LicenseMeter) (e : UsageLedgerEntry)
    → IsConsistent db
    → consume_units sha256 license_id meter_name units event_id draws now db
      ≡ ok (consumed m e, db')
    → (row : LicenseMeter) × (find (named license_id meter_name) db.meters ≡ some row)
      × (row.archived_at ≡ none)
      × (m.balance + units ≡ row.balance)
      × (m ≡ consume_row units now row)
      × (e ≡ consume_entry license_id row.id m units (sha256 event_id) draws now)
      × (db' ≡ posted (covers row.id units) (consume_row units now) e db)
      × (any (same_entry e) db.ledger ≡ false)
consumed_exactly sha256 license_id meter_name units event_id draws now db db' m e c h =
    elim (consume-cases sha256 license_id meter_name units event_id draws now db db' (consumed m e)
      h) [
        | inl (found, _, answer, _) ↦
            absurd (replay-ne-consumed found meter_name units m e (sym answer))
        | inr (_, fresh) ↦
            elim (consume_fresh-cases license_id meter_name units (sha256 event_id) draws now db db'
              (consumed m e) fresh) [
                | inl (_, refused) ↦ ground arith
                | inr (meter, named_meter, live, post) ↦
                    elim (consume_new-cases license_id meter units (sha256 event_id) draws now db
                      db' (consumed m e) post) [
                        | inl (bad, _, _) ↦ cc
                        | inr (row, found, (answer, e', has, new)) ↦
                            let held = find-holds (covers meter.id units) db.meters row found in
                            let one : row ≡ meter =
                              row-eq (named license_id meter_name) (covers meter.id units) db.meters
                                c.distinct named_meter found
                                (ground (arith, eq_iff row.id meter.id)) in
                            (meter, named_meter, live, ground arith, cc, cc, cc, cc)
                      ]
              ]
      ]
