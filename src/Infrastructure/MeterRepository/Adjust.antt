-- ===== src/Infrastructure/MeterRepository/Adjust.antt =====
-- `adjust` of DrizzleMeterRepository.ts: the update within bounds, and that it keeps the ledger.
use keyzori.Prelude.{
  ℕ, zero, suc, ◌+◌, ◌≤◌, ◌≡◌, ◌≢◌, ap, refl, String, List, ◌∷◌, true, false, ◌==◌, eq_iff, arith,
  find, update, any, none, some, pos_part, neg_part, All-find, find-holds, any-update, ◌⊎◌,
  Bool-cases, ℤ, pos, negsuc, Option-cases, inl, inr, is_some,
}
use keyzori.Domain.Entities.{LicenseMeter, UsageLedgerEntry, MeterLedgerKind}
use keyzori.Domain.Errors.{ok, max_license_limit}
use keyzori.Infrastructure.Database.{Database, same_entry}
use keyzori.Infrastructure.MeterRepository.Ledger.{
  credits, debits, IsBalanced, has_meter, IsConsistent,
}
use keyzori.Infrastructure.MeterRepository.{
  MeterAdjustmentResult, Draws, adjusted, out_of_range, adjust_found, adjust, adjustable,
  adjust_row, adjust_entry, shift, unshift, in_bounds, named,
}
use keyzori.Infrastructure.MeterRepository.Posting.{
  same_balance, posted, posted-IsConsistent, insert_entry-eq-ok,
}

module _ (license_id : String) (meter : LicenseMeter) (delta : ℤ) (reason : String)
    (kind : MeterLedgerKind) (draws : Draws) (now : ℕ) (db db' : Database)
    (r : MeterAdjustmentResult) where
  abbrev pub entry_of : LicenseMeter → UsageLedgerEntry
  entry_of row =
      adjust_entry license_id meter.id (adjust_row delta now row) delta reason kind draws now

  abbrev pub Posts : LicenseMeter → Type 0
  Posts row =
      (r ≡ adjusted (adjust_row delta now row) (entry_of row))
      × (db' ≡ posted (adjustable meter.id delta) (adjust_row delta now) (entry_of row) db)
      × (has_meter db.meters (entry_of row) ≡ true)
      × (any (same_entry (entry_of row)) db.ledger ≡ false)

  posts :
      (row : LicenseMeter)
      → find (adjustable meter.id delta) db.meters ≡ some row
      → adjust_found license_id meter delta reason kind draws now db ≡ ok (r, db')
      → Posts row
  unfolding adjust_found
  posts row e h = ground (
    arith,
    insert_entry-eq-ok (entry_of row)
        (record db { meters = update (adjustable meter.id delta) (adjust_row delta now) db.meters })
        db',
    any-update (λ (m : LicenseMeter). m.id == meter.id) (adjustable meter.id delta)
        (adjust_row delta now) db.meters (λ m. refl),
  )

  pub adjust_found-cases :
      adjust_found license_id meter delta reason kind draws now db ≡ ok (r, db')
      → ((r ≡ out_of_range) × (db' ≡ db) × (find (adjustable meter.id delta) db.meters ≡ none))
        ⊎ ((row : LicenseMeter) × (find (adjustable meter.id delta) db.meters ≡ some row)
            × Posts row)
  unfolding adjust_found
  adjust_found-cases h = elim (Option-cases (find (adjustable meter.id delta) db.meters)) [
    | inl e ↦ inl (ground arith)
    | inr (row, e) ↦ inr (row, e, posts row e h)
  ]

-- A balance within the bounds of a delta moves by the delta, and stays in range.
shift-parts :
    (delta : ℤ) (balance : ℕ)
    → in_bounds delta balance ≡ true
    → shift balance delta + neg_part delta ≡ balance + pos_part delta
shift-parts (pos n) balance h = omega arith
shift-parts (negsuc n) balance h = ground arith

unshift-parts :
    (delta : ℤ) (balance : ℕ)
    → in_bounds delta balance ≡ true
    → unshift (shift balance delta) delta + pos_part delta ≡ shift balance delta + neg_part delta
unshift-parts (pos n) balance h = omega arith
unshift-parts (negsuc n) balance h = ground arith

shift-bounded :
    (delta : ℤ) (balance : ℕ)
    → in_bounds delta balance ≡ true
    → balance ≤ max_license_limit
    → shift balance delta ≤ max_license_limit
shift-bounded (pos zero) balance h b = ground arith
shift-bounded (pos (suc n)) balance h b = ground arith
shift-bounded (negsuc n) balance h b = ground arith

-- The adjusted rows take the delta, and no other row is named by the entry.
module _ (meter_id : String) (delta : ℤ) (now : ℕ) (e : UsageLedgerEntry)
    (es : List UsageLedgerEntry) (names : e.meter_id ≡ meter_id) (takes : e.delta ≡ delta) where
  adjust_hit :
      (m : LicenseMeter)
      → adjustable meter_id delta m ≡ true
      → IsBalanced es m
      → IsBalanced (e ∷ es) (adjust_row delta now m)
  unfolding credits debits
  adjust_hit m h b = ground (
    arith,
    eq_iff m.id meter_id,
    eq_iff e.meter_id m.id,
    shift-parts delta m.balance,
    ap pos_part takes,
    ap neg_part takes,
  )

  adjust_other : (m : LicenseMeter) → m.id ≢ meter_id → IsBalanced es m → IsBalanced (e ∷ es) m
  unfolding credits debits
  adjust_other m h b = ground (arith, eq_iff e.meter_id m.id)

  adjust_miss :
      (row m : LicenseMeter)
      → adjustable meter_id delta row ≡ true
      → IsBalanced es row
      → adjustable meter_id delta m ≡ false
      → IsBalanced es m
      → IsBalanced (e ∷ es) m
  adjust_miss row m hr br h b =
      adjust_other m
        (λ same.
          let bounds : in_bounds delta m.balance ≡ false = ground (arith, eq_iff m.id meter_id) in
          let balance : m.balance ≡ row.balance =
            same_balance es m row b br (ground (arith, eq_iff row.id meter_id)) in
          let at_row : in_bounds delta row.balance ≡ true = ground arith in
          cc (ap (in_bounds delta) balance))
        b

adjust_found-IsConsistent :
    (license_id : String) (meter : LicenseMeter) (delta : ℤ) (reason : String)
    (kind : MeterLedgerKind) (draws : Draws) (now : ℕ) (db db' : Database)
    (r : MeterAdjustmentResult)
    → IsConsistent db
    → adjust_found license_id meter delta reason kind draws now db ≡ ok (r, db')
    → IsConsistent db'
adjust_found-IsConsistent license_id meter delta reason kind draws now db db' r c h =
    elim (adjust_found-cases license_id meter delta reason kind draws now db db' r h) [
      | inl (_, e, _) ↦ rw e c
      | inr (row, found, (_, e, has, _)) ↦
          let held = find-holds (adjustable meter.id delta) db.meters row found in
          rw e (
            posted-IsConsistent _ _ _ db c (λ m. refl)
              (adjust_hit meter.id delta now _ db.ledger refl refl)
              (λ m.
                adjust_miss meter.id delta now _ db.ledger refl refl row m held
                  (All-find (IsBalanced db.ledger) _ db.meters row c.balanced found))
              (λ m hit. shift-bounded delta m.balance (ground arith))
              (unshift-parts delta row.balance (ground arith)) has)
    ]

-- How `adjust` answers: it refuses and writes nothing, or it comes to the guarded update.
pub adjust_cases :
    (license_id meter_name : String) (delta : ℤ) (reason : String) (kind : MeterLedgerKind)
    (draws : Draws) (now : ℕ) (db db' : Database) (r : MeterAdjustmentResult)
    → adjust license_id meter_name delta reason kind draws now db ≡ ok (r, db')
    → ((db' ≡ db) × ((r ≡ MeterAdjustmentResult.not_found) ⊎ (r ≡ MeterAdjustmentResult.archived)))
      ⊎ ((m : LicenseMeter) × (find (named license_id meter_name) db.meters ≡ some m)
          × (adjust_found license_id m delta reason kind draws now db ≡ ok (r, db')))
unfolding adjust
adjust_cases license_id meter_name delta reason kind draws now db db' r h =
    elim (Option-cases (find (named license_id meter_name) db.meters)) [
      | inl e ↦ inl (ground arith)
      | inr (m, e) ↦ elim (Bool-cases (is_some m.archived_at)) [
        | inl gone ↦ inl (ground arith)
        | inr open_meter ↦ inr (m, e, ground arith)
      ]
    ]

-- `adjust` keeps the meters consistent with their ledger, whatever its answer.
pub adjust-IsConsistent :
    (license_id meter_name : String) (delta : ℤ) (reason : String) (kind : MeterLedgerKind)
    (draws : Draws) (now : ℕ) (db db' : Database) (r : MeterAdjustmentResult)
    → IsConsistent db
    → adjust license_id meter_name delta reason kind draws now db ≡ ok (r, db')
    → IsConsistent db'
adjust-IsConsistent license_id meter_name delta reason kind draws now db db' r c h =
    elim (adjust_cases license_id meter_name delta reason kind draws now db db' r h) [
      | inl (e, _) ↦ rw e c
      | inr (m, _, found) ↦
          adjust_found-IsConsistent license_id m delta reason kind draws now db db' r c found
    ]
