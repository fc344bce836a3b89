-- ===== src/Infrastructure/LicenseRepository/NewMeters.antt =====
-- The meters that `create` and `update` of DrizzleLicenseRepository.ts insert, and the ledger.
mod Edited
use keyzori.Prelude.{
  ℕ, suc, ◌≡◌, refl, ap, ◌∙◌, sym, subst, String, List, [], ◌∷◌, Bool, false, find, any, arith,
  Option-cases, Bool-cases, eq_iff, is_some, ◌||◌, inl, inr,
}
use keyzori.Domain.Entities.{License, NewLicense, NewLicenseMeter, LicenseMeter, UsageLedgerEntry}
use keyzori.Domain.Errors.{ok, throw_if, invalid, internal, Failure, >>=-eq-ok}
use keyzori.Infrastructure.Database.{
  Database, StoredLicense, insert_license, insert_meter, insert_entry, same_entry,
}
use keyzori.Infrastructure.MeterRepository.{Draws, create_meter, create_entry, named}
use keyzori.Infrastructure.MeterRepository.Ledger.{IsConsistent}
use keyzori.Infrastructure.MeterRepository.Posting.{insert_entry-eq-ok}
use keyzori.Infrastructure.MeterRepository.Archive.{create-IsConsistent}
use keyzori.Infrastructure.LicenseRepository.{LicenseUpdate, has_id, matches_version, missing_row}
use keyzori.Infrastructure.LicenseRepository.Creation.{
  store_license, insert_meters, insert_entries, stored_meter, new_license,
}
use keyzori.Infrastructure.LicenseRepository.Editing.{
  LicenseUpdateOptions, edit_license, edit_type, add_new_meter, insert_new_meters, settle_stripe,
  write_license, out_of_date, conflicting, lacks_meter, has_meters,
}
use keyzori.Infrastructure.LicenseRepository.NewMeters.Edited.{
  SameMeters, SameMeters-IsConsistent, edit-IsConsistent,
}

-- Which meter is inserted does not depend on the ledger.
insert_meter-ledger :
    (m : LicenseMeter) (db d : Database) (es : List UsageLedgerEntry)
    → insert_meter m db ≡ ok d
    → (insert_meter m (record db { ledger = es }) ≡ ok (record d { ledger = es }))
      × (d.ledger ≡ db.ledger)
unfolding insert_meter
insert_meter-ledger m db d es h = ground arith

insert_meters-ledger :
    (id : String) (ms : List NewLicenseMeter) (draw : ℕ → Draws) (i now : ℕ) (db d : Database)
    (es : List UsageLedgerEntry)
    → insert_meters id ms draw i now db ≡ ok d
    → (insert_meters id ms draw i now (record db { ledger = es }) ≡ ok (record d { ledger = es }))
      × (d.ledger ≡ db.ledger)
unfolding insert_meters
insert_meters-ledger id [] draw i now db d es h =
    let e : db ≡ d = cc in
    (
      subst
          (λ x.
            insert_meters id [] draw i now (record db { ledger = es })
            ≡ ok (record x { ledger = es }))
          e refl,
      ap (λ x. x.ledger) (sym e),
    )
insert_meters-ledger id (m ∷ ms) draw i now db d es h =
    let (inserted, first, rest) =
      >>=-eq-ok (insert_meter (stored_meter id m (draw i) now) db) _ h in
    let (again, kept) = insert_meter-ledger (stored_meter id m (draw i) now) db inserted es first in
    let (others, left) = insert_meters-ledger id ms draw (suc i) now inserted d es rest in
    (rw again others, left ∙ kept)

entry_of_meter :
    (m : LicenseMeter) (e : UsageLedgerEntry) (db inserted : Database)
    → insert_meter m db ≡ ok inserted
    → e.meter_id ≡ m.id
    → e.license_id ≡ m.license_id
    → any (same_entry e) inserted.ledger ≡ false
    → insert_entry e inserted ≡ ok (record inserted { ledger = e ∷ inserted.ledger })
unfolding insert_meter insert_entry any
entry_of_meter m e db inserted first of_meter of_license fresh =
    ground (arith, eq_iff m.id e.meter_id)

-- An entry that is inserted once more meters are there can be inserted before them.
earlier_entry :
    (id : String) (ms : List NewLicenseMeter) (draw : ℕ → Draws) (i now : ℕ) (m : LicenseMeter)
    (e : UsageLedgerEntry) (db inserted d d' : Database)
    → insert_meter m db ≡ ok inserted
    → e.meter_id ≡ m.id
    → e.license_id ≡ m.license_id
    → insert_meters id ms draw i now inserted ≡ ok d
    → insert_entry e d ≡ ok d'
    → (insert_entry e inserted ≡ ok (record inserted { ledger = e ∷ inserted.ledger }))
      × (d' ≡ record d { ledger = e ∷ inserted.ledger })
earlier_entry id ms draw i now m e db inserted d d' first of_meter of_license rest entered =
    let (_, kept) = insert_meters-ledger id ms draw i now inserted d [] rest in
    let (_, written, fresh) = insert_entry-eq-ok e d d' entered in
    let fresh' = subst (λ es. any (same_entry e) es ≡ false) kept fresh in
    (
      entry_of_meter m e db inserted first of_meter of_license fresh',
      written ∙ ap (λ es. record d { ledger = e ∷ es }) kept,
    )

-- The meters of a new license, which are inserted before their entries.
insert_all-IsConsistent :
    (id : String) (ms : List NewLicenseMeter) (draw : ℕ → Draws) (i now : ℕ) (db d d' : Database)
    → IsConsistent db
    → insert_meters id ms draw i now db ≡ ok d
    → insert_entries id ms draw i now d ≡ ok d'
    → IsConsistent d'
unfolding insert_meters insert_entries create_meter
insert_all-IsConsistent id [] draw i now db d d' c h k =
    let e : db ≡ d' = cc in subst IsConsistent e c
insert_all-IsConsistent id (m ∷ ms) draw i now db d d' c h k =
    let meter = stored_meter id m (draw i) now in
    let entry = create_entry id meter m.reason (draw i) now in
    let (inserted, first, rest) = >>=-eq-ok (insert_meter meter db) _ h in
    let (recorded, entered, more) = >>=-eq-ok (insert_entry entry d) _ k in
    let (early, same) =
      earlier_entry id ms draw (suc i) now meter entry db inserted d recorded first refl refl rest
        entered in
    let made : create_meter id m.name m.balance m.reason (draw i) now db
        ≡ ok (meter, record inserted { ledger = entry ∷ inserted.ledger }) =
      rw (create_meter, first, early) refl in
    let own =
      create-IsConsistent id m.name m.balance m.reason (draw i) now db
        (record inserted { ledger = entry ∷ inserted.ledger }) meter c made in
    let (others, _) =
      insert_meters-ledger id ms draw (suc i) now inserted d (entry ∷ inserted.ledger) rest in
    insert_all-IsConsistent id ms draw (suc i) now _ _ d' own others
      (subst (λ x. insert_entries id ms draw (suc i) now x ≡ ok d') same more)

store-IsConsistent :
    (sha256 : String → String) (input : NewLicense) (id : String) (draw : ℕ → Draws) (now : ℕ)
    (db db' : Database) (l : License)
    → IsConsistent db
    → store_license sha256 input id draw now db ≡ ok (l, db')
    → IsConsistent db'
unfolding store_license insert_license
store-IsConsistent sha256 input id draw now db db' l c h =
    let row = new_license sha256 input id now in
    let (inserted, stored, rest) = >>=-eq-ok (insert_license row db) _ h in
    let (metered, meters, more) =
      >>=-eq-ok (insert_meters id input.meters draw 0 now inserted) _ rest in
    let (recorded, entries, last) =
      >>=-eq-ok (insert_entries id input.meters draw 0 now metered) _ more in
    let same : SameMeters db inserted = ground arith in
    let e : recorded ≡ db' = cc in
    subst IsConsistent e (
      insert_all-IsConsistent id input.meters draw 0 now inserted metered recorded
        (SameMeters-IsConsistent db inserted same c) meters entries)

-- A license that `create` stored, or an `update` that was written.
pub data Change (sha256 : String → String) (db db' : Database) : Type 0 where
  stores :
      (input : NewLicense) (id : String) (draw : ℕ → Draws) (now : ℕ) (l : License)
      → store_license sha256 input id draw now db ≡ ok (l, db')
      → Change sha256 db db'
  edits :
      (id : String) (u : LicenseUpdate) (options : LicenseUpdateOptions) (draw : ℕ → Draws)
      (now : ℕ)
      → edit_license id u options draw now db ≡ ok (tt, db')
      → Change sha256 db db'

-- A license that is created with its meters, or an update that gives a license new meters, keeps the
-- meters and the ledger consistent: every balance is the sum of its entries' deltas and at most the
-- integer limit, meters have distinct identifiers, every entry's balances differ by its delta, and
-- every entry names a meter. (The database must be so before.)
pub Change-IsConsistent :
    {sha256 : String → String} {db db' : Database}
    → IsConsistent db
    → Change sha256 db db'
    → IsConsistent db'
Change-IsConsistent {sha256} c (stores input id draw now l h) =
    store-IsConsistent sha256 input id draw now _ _ l c h
Change-IsConsistent c (edits id u options draw now h) =
    edit-IsConsistent id u options draw now _ _ c h
