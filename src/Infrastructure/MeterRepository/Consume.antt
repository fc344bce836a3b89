-- ===== src/Infrastructure/MeterRepository/Consume.antt =====
-- `consume` of DrizzleMeterRepository.ts: the guarded update, and that it keeps the ledger.
use keyzori.Prelude.{
  ℕ, ◌≡◌, refl, String, List, ◌∷◌, true, false, ◌==◌, eq_iff, arith, find, update, any, none, some,
  All-find, find-holds, any-update, negate, negate_parts, ◌⊎◌, Bool-cases, Option-cases, inl, inr,
  is_some,
}
use keyzori.Domain.Entities.{LicenseMeter, UsageLedgerEntry}
use keyzori.Domain.Errors.{ok}
use keyzori.Infrastructure.Database.{Database, same_entry}
use keyzori.Infrastructure.MeterRepository.Ledger.{
  credits, debits, IsBalanced, has_meter, IsConsistent,
}
use keyzori.Infrastructure.MeterRepository.{
  UsageConsumptionResult, Draws, consume_new, consume_fresh, consume_units, covers, consume_row,
  consume_entry, consumed, exhausted, replay, existing_usage, named,
}
use keyzori.Infrastructure.MeterRepository.Posting.{posted, posted-IsConsistent, insert_entry-eq-ok}

module _ (license_id : String) (meter : LicenseMeter) (units : ℕ) (event_id : String)
    (draws : Draws) (now : ℕ) (db db' : Database) (r : UsageConsumptionResult) where
  abbrev pub entry_of : LicenseMeter → UsageLedgerEntry
  entry_of row =
      consume_entry license_id meter.id (consume_row units now row) units event_id draws now

  abbrev pub Posts : LicenseMeter → Type 0
  Posts row =
      (r ≡ consumed (consume_row units now row) (entry_of row))
      × (db' ≡ posted (covers meter.id units) (consume_row units now) (entry_of row) db)
      × (has_meter db.meters (entry_of row) ≡ true)
      × (any (same_entry (entry_of row)) db.ledger ≡ false)

  posts :
      (row : LicenseMeter)
      → find (covers meter.id units) db.meters ≡ some row
      → consume_new license_id meter units event_id draws now db ≡ ok (r, db')
      → Posts row
  unfolding consume_new
  posts row e h = ground (
    arith,
    insert_entry-eq-ok (entry_of row)
        (record db { meters = update (covers meter.id units) (consume_row units now) db.meters })
        db',
    any-update (λ (m : LicenseMeter). m.id == meter.id) (covers meter.id units)
        (consume_row units now) db.meters (λ m. refl),
  )

  pub consume_new-cases :
      consume_new license_id meter units event_id draws now db ≡ ok (r, db')
      → ((r ≡ exhausted) × (db' ≡ db) × (find (covers meter.id units) db.meters ≡ none))
        ⊎ ((row : LicenseMeter) × (find (covers meter.id units) db.meters ≡ some row) × Posts row)
  unfolding consume_new
  consume_new-cases h = elim (Option-cases (find (covers meter.id units) db.meters)) [
    | inl e ↦ inl (ground arith)
    | inr (row, e) ↦ inr (row, e, posts row e h)
  ]

-- A row that covers the units is debited by the entry, and no other row is named by it: rows of one
-- identifier have one balance.
module _ (meter_id : String) (units now : ℕ) (e : UsageLedgerEntry) (es : List UsageLedgerEntry)
    (names : e.meter_id ≡ meter_id) (takes : e.delta ≡ negate units) where
  debit_hit :
      (m : LicenseMeter)
      → covers meter_id units m ≡ true
      → IsBalanced es m
      → IsBalanced (e ∷ es) (consume_row units now m)
  unfolding credits debits
  debit_hit m h b = ground (arith, eq_iff m.id meter_id, eq_iff e.meter_id m.id, negate_parts units)

  debit_miss :
      (row m : LicenseMeter)
      → covers meter_id units row ≡ true
      → IsBalanced es row
      → covers meter_id units m ≡ false
      → IsBalanced es m
      → IsBalanced (e ∷ es) m
  unfolding credits debits
  debit_miss row m hr br h b = ground (
    arith,
    eq_iff m.id meter_id,
    eq_iff row.id meter_id,
    eq_iff e.meter_id m.id,
    negate_parts units,
  )

-- A consumption keeps the meters consistent with their ledger.
consume_new-IsConsistent :
    (license_id : String) (meter : LicenseMeter) (units : ℕ) (event_id : String) (draws : Draws)
    (now : ℕ) (db db' : Database) (r : UsageConsumptionResult)
    → IsConsistent db
    → consume_new license_id meter units event_id draws now db ≡ ok (r, db')
    → IsConsistent db'
consume_new-IsConsistent license_id meter units event_id draws now db db' r c h =
    elim (consume_new-cases license_id meter units event_id draws now db db' r h) [
      | inl (_, e, _) ↦ rw e c
      | inr (row, found, (_, e, has, _)) ↦
          let held = find-holds _ db.meters row found in
          rw e (
            posted-IsConsistent _ _ _ db c (λ m. refl)
              (debit_hit meter.id units now _ db.ledger refl refl)
              (λ m.
                debit_miss meter.id units now _ db.ledger refl refl row m held
                  (All-find (IsBalanced db.ledger) _ db.meters row c.balanced found))
              (λ m _ fits. ground arith) (ground (arith, negate_parts units)) has)
    ]

-- How `consume_fresh` answers: it refuses and writes nothing, or it comes to the guarded update.
pub consume_fresh-cases :
    (license_id meter_name : String) (units : ℕ) (event_id : String) (draws : Draws) (now : ℕ)
    (db db' : Database) (r : UsageConsumptionResult)
    → consume_fresh license_id meter_name units event_id draws now db ≡ ok (r, db')
    → ((db' ≡ db)
        × ((r ≡ UsageConsumptionResult.not_found) ⊎ (r ≡ UsageConsumptionResult.archived)))
      ⊎ ((m : LicenseMeter) × (find (named license_id meter_name) db.meters ≡ some m)
          × (m.archived_at ≡ none)
          × (consume_new license_id m units event_id draws now db ≡ ok (r, db')))
unfolding consume_fresh
consume_fresh-cases license_id meter_name units event_id draws now db db' r h =
    elim (Option-cases (find (named license_id meter_name) db.meters)) [
      | inl e ↦ inl (ground arith)
      | inr (m, e) ↦ elim (Bool-cases (is_some m.archived_at)) [
        | inl gone ↦ inl (ground arith)
        | inr open_meter ↦ inr (m, e, ground arith, ground arith)
      ]
    ]

-- How `consume` answers: as the ledger recorded the event, or as to a new event.
pub consume-cases :
    (sha256 : String → String) (license_id meter_name : String) (units : ℕ) (event_id : String)
    (draws : Draws) (now : ℕ) (db db' : Database) (r : UsageConsumptionResult)
    → consume_units sha256 license_id meter_name units event_id draws now db ≡ ok (r, db')
    → ((found : UsageLedgerEntry × LicenseMeter) × (existing_usage license_id
            (sha256 event_id)
            db.ledger
            db.meters
          ≡ some found)
        × (r ≡ replay found meter_name units)
        × (db' ≡ db))
      ⊎ ((existing_usage license_id (sha256 event_id) db.ledger db.meters ≡ none)
          × (consume_fresh license_id meter_name units (sha256 event_id) draws now db
              ≡ ok (r, db')))
unfolding consume_units
consume-cases sha256 license_id meter_name units event_id draws now db db' r h =
    elim (Option-cases (existing_usage license_id (sha256 event_id) db.ledger db.meters)) [
      | inl e ↦ inr (e, ground arith)
      | inr (found, e) ↦ inl (found, e, ground arith, ground arith)
    ]

-- `consume` keeps the meters consistent with their ledger, whatever its answer.
pub consume-IsConsistent :
    (sha256 : String → String) (license_id meter_name : String) (units : ℕ) (event_id : String)
    (draws : Draws) (now : ℕ) (db db' : Database) (r : UsageConsumptionResult)
    → IsConsistent db
    → consume_units sha256 license_id meter_name units event_id draws now db ≡ ok (r, db')
    → IsConsistent db'
consume-IsConsistent sha256 license_id meter_name units event_id draws now db db' r c h =
    elim (consume-cases sha256 license_id meter_name units event_id draws now db db' r h) [
      | inl (_, _, _, e) ↦ rw e c
      | inr (_, fresh) ↦
          elim (consume_fresh-cases license_id meter_name units (sha256 event_id) draws now db db' r
            fresh) [
              | inl (e, _) ↦ rw e c
              | inr (m, _, _, post) ↦
                  consume_new-IsConsistent license_id m units (sha256 event_id) draws now db db' r c
                    post
            ]
    ]
