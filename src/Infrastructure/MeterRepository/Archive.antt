-- ===== src/Infrastructure/MeterRepository/Archive.antt =====
-- `createMeter` and `archiveMeter` of DrizzleMeterRepository.ts keep the ledger.
use keyzori.Prelude.{
  ℕ, ◌≤◌, ◌≡◌, ap, sym, any-or_left, refl, String, List, [], ◌∷◌, true, false, ◌==◌, ◌&&◌, eq_iff,
  arith, find, update, any, All, Option, some, pos_part, neg_part, All-map, any-update, ◌⊎◌, ◌∙◌,
  pos, Option-cases, inl, inr,
}
use keyzori.Domain.Entities.{LicenseMeter, UsageLedgerEntry}
use keyzori.Domain.Errors.{>>=-eq-ok, ok, max_license_limit}
use keyzori.Infrastructure.Database.{Database, insert_meter, same_meter, same_entry}
use keyzori.Infrastructure.MeterRepository.Ledger.{
  credits, debits, IsBalanced, IsSound, has_meter, IsConsistent, unreferenced,
}
use keyzori.Infrastructure.MeterRepository.{
  Draws, new_meter, create_entry, create_meter, archive_active, archive_meter, archivable,
  archive_row, archive_entry, last_active,
}
use keyzori.Infrastructure.MeterRepository.Posting.{
  posted, posted-IsConsistent, insert_entry-eq-ok, insert_meter-eq-ok,
}

-- An entry names no row of the meters.
unnamed-IsBalanced :
    (e : UsageLedgerEntry) (es : List UsageLedgerEntry) (ms : List LicenseMeter)
    → any (λ m. m.id == e.meter_id) ms ≡ false
    → All (IsBalanced es) ms
    → All (IsBalanced (e ∷ es)) ms
unfolding credits debits any
unnamed-IsBalanced e es [] h b = tt
unnamed-IsBalanced e es (m ∷ ms) h b = (
  ground (arith, eq_iff e.meter_id m.id, eq_iff m.id e.meter_id),
  unnamed-IsBalanced e es ms (ground arith) b.1,
)

-- A new row of the meters with its first entry.
opened-IsConsistent :
    (m : LicenseMeter) (e : UsageLedgerEntry) (db : Database)
    → IsConsistent db
    → e.meter_id ≡ m.id
    → e.delta ≡ pos m.balance
    → IsSound e
    → any (same_meter m) db.meters ≡ false
    → m.balance ≤ max_license_limit
    → IsConsistent (record db { meters = m ∷ db.meters; ledger = e ∷ db.ledger })
unfolding credits debits any
opened-IsConsistent m e db c names adds sound new fits = record {
  balanced = (
    ground (
      arith,
      eq_iff e.meter_id m.id,
      unreferenced m.id db.meters db.ledger fresh c.referenced,
      ap pos_part adds,
      ap neg_part adds,
    ),
    unnamed-IsBalanced e db.ledger db.meters (rw names fresh) c.balanced,
  );
  bounded = (fits, c.bounded);
  distinct = (fresh, c.distinct);
  sound = (sound, c.sound);
  referenced = (
    ground (arith, eq_iff m.id e.meter_id),
    All-map (λ f. has_meter db.meters f ≡ true) (λ f. has_meter (m ∷ db.meters) f ≡ true) db.ledger
        (λ f h. ground arith) c.referenced,
  );
}
  where
    fresh : any (λ n. n.id == m.id) db.meters ≡ false
    fresh =
        any-or_left (λ n. n.id == m.id) (λ n. n.license_id == m.license_id && n.name == m.name)
          db.meters new

-- How `createMeter` commits: with a row and an entry that the tables did not have.
pub create-cases :
    (license_id name : String) (balance : ℕ) (reason : String) (draws : Draws) (now : ℕ)
    (db db' : Database) (m : LicenseMeter)
    → create_meter license_id name balance reason draws now db ≡ ok (m, db')
    → (m ≡ new_meter license_id name balance draws now)
      × (db' ≡ record db {
        meters = m ∷ db.meters;
        ledger = create_entry license_id m reason draws now ∷ db.ledger;
      })
      × (any (same_meter m) db.meters ≡ false)
      × (any (same_entry (create_entry license_id m reason draws now)) db.ledger ≡ false)
      × (m.balance ≤ max_license_limit)
unfolding create_meter
create-cases license_id name balance reason draws now db db' m h =
    let meter = new_meter license_id name balance draws now in
    let (d, first, rest) = >>=-eq-ok (insert_meter meter db) _ h in
    ground (
      arith,
      insert_meter-eq-ok meter db d first,
      insert_entry-eq-ok (create_entry license_id meter reason draws now) d db' (ground arith),
    )

-- A new meter starts with the balance that its first entry credits it with.
pub create-IsConsistent :
    (license_id name : String) (balance : ℕ) (reason : String) (draws : Draws) (now : ℕ)
    (db db' : Database) (m : LicenseMeter)
    → IsConsistent db
    → create_meter license_id name balance reason draws now db ≡ ok (m, db')
    → IsConsistent db'
create-IsConsistent license_id name balance reason draws now db db' m c h =
    let (_, e, new, _, fits) = create-cases license_id name balance reason draws now db db' m h in
    rw e (opened-IsConsistent m _ db c refl refl (omega arith) new fits)

-- An entry with no delta changes no account.
zero_delta :
    (e : UsageLedgerEntry) (es : List UsageLedgerEntry) (m : LicenseMeter)
    → e.delta ≡ pos 0
    → IsBalanced es m
    → IsBalanced (e ∷ es) m
unfolding credits debits
zero_delta e es m z b = ground (arith, ap pos_part z, ap neg_part z)

-- How `archive_active` commits: it writes nothing, or it archives the row that it found.
pub archive_active-cases :
    (license_id name reason : String) (draws : Draws) (now : ℕ) (db db' : Database)
    (r : Option LicenseMeter)
    → archive_active license_id name reason draws now db ≡ ok (r, db')
    → (db' ≡ db)
      ⊎ ((row : LicenseMeter) × (r ≡ some (archive_row now row))
          × (db'
              ≡ posted
                  (archivable license_id name)
                  (archive_row now)
                  (archive_entry license_id row reason draws now)
                  db)
          × (has_meter db.meters (archive_entry license_id row reason draws now) ≡ true)
          × (any (same_entry (archive_entry license_id row reason draws now)) db.ledger ≡ false))
unfolding archive_active
archive_active-cases license_id name reason draws now db db' r h =
    elim (Option-cases (find (archivable license_id name) db.meters)) [
      | inl e ↦ inl (ground arith)
      | inr (row, e) ↦
          let entry = archive_entry license_id row reason draws now in
          let written : Database = record db {
            meters = update (archivable license_id name) (archive_row now) db.meters;
          } in
          let posts = insert_entry-eq-ok entry written db' (ground arith) in
          let named_row =
            any-update (λ (m : LicenseMeter). m.id == row.id) (archivable license_id name)
              (archive_row now) db.meters (λ m. refl) in
          inr (row, ground arith, posts.1, sym named_row ∙ posts.0, posts.2)
    ]

archive_active-IsConsistent :
    (license_id name reason : String) (draws : Draws) (now : ℕ) (db db' : Database)
    (r : Option LicenseMeter)
    → IsConsistent db
    → archive_active license_id name reason draws now db ≡ ok (r, db')
    → IsConsistent db'
archive_active-IsConsistent license_id name reason draws now db db' r c h =
    elim (archive_active-cases license_id name reason draws now db db' r h) [
      | inl e ↦ rw e c
      | inr (row, _, e, has, _) ↦ rw e (
          posted-IsConsistent _ _ _ db c (λ m. refl) (λ m _. zero_delta _ _ m refl)
            (λ m _. zero_delta _ _ m refl) (λ m _ b. b) (omega arith) has)
    ]

-- How `archive_meter` commits.
pub archive_meter-cases :
    (license_id name reason : String) (draws : Draws) (now : ℕ) (db db' : Database)
    (r : Option LicenseMeter)
    → archive_meter license_id name reason draws now db ≡ ok (r, db')
    → (db' ≡ db) ⊎ (archive_active license_id name reason draws now db ≡ ok (r, db'))
unfolding archive_meter
archive_meter-cases license_id name reason draws now db db' r h =
    elim (Option-cases (find (λ l. l.id == license_id) db.licenses)) [
      | inl e ↦ inl (ground arith)
      | inr (license, e) ↦ elim (Option-cases (last_active license name db)) [
        | inl more ↦ inr (ground arith)
        | inr (target, last) ↦ inl (ground arith)
      ]
    ]

-- `archiveMeter` keeps the meters consistent with their ledger, whatever its answer.
pub archive-IsConsistent :
    (license_id name reason : String) (draws : Draws) (now : ℕ) (db db' : Database)
    (r : Option LicenseMeter)
    → IsConsistent db
    → archive_meter license_id name reason draws now db ≡ ok (r, db')
    → IsConsistent db'
archive-IsConsistent license_id name reason draws now db db' r c h =
    elim (archive_meter-cases license_id name reason draws now db db' r h) [
      | inl e ↦ rw e c
      | inr h' ↦ archive_active-IsConsistent license_id name reason draws now db db' r c h'
    ]
