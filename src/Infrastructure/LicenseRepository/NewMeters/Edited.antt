-- ===== src/Infrastructure/LicenseRepository/NewMeters/Edited.antt =====
-- What update of DrizzleLicenseRepository.ts does to the meters and to the ledger.
use keyzori.Prelude.{
  ℕ, suc, ◌≡◌, sym, subst, String, List, [], ◌∷◌, Bool, find, arith, Option-cases, Bool-cases,
  is_some, ◌||◌, inl, inr,
}
use keyzori.Domain.Entities.{NewLicenseMeter}
use keyzori.Domain.Errors.{ok, throw_if, invalid, internal, Failure, >>=-eq-ok}
use keyzori.Infrastructure.Database.{Database, StoredLicense}
use keyzori.Infrastructure.MeterRepository.{Draws, create_meter, named}
use keyzori.Infrastructure.MeterRepository.Ledger.{IsConsistent}
use keyzori.Infrastructure.MeterRepository.Archive.{create-IsConsistent}
use keyzori.Infrastructure.LicenseRepository.{LicenseUpdate, has_id, matches_version, missing_row}
use keyzori.Infrastructure.LicenseRepository.Editing.{
  LicenseUpdateOptions, edit_license, edit_type, add_new_meter, insert_new_meters, settle_stripe,
  write_license, out_of_date, conflicting, lacks_meter, has_meters,
}

-- The meters and the ledger of two databases are the same.
abbrev pub SameMeters : Database → Database → Type 0
SameMeters db db' = (db'.meters ≡ db.meters) × (db'.ledger ≡ db.ledger)

pub SameMeters-IsConsistent :
    (db db' : Database) → SameMeters db db' → IsConsistent db → IsConsistent db'
SameMeters-IsConsistent db db' (meters, ledger) c =
    let moved : IsConsistent (record db' { meters = db.meters; ledger = db.ledger }) = record {
      balanced = c.balanced;
      bounded = c.bounded;
      distinct = c.distinct;
      sound = c.sound;
      referenced = c.referenced;
    } in
    subst (λ ms. IsConsistent (record db' { meters = ms; ledger = db'.ledger })) (sym meters)
      (subst (λ es. IsConsistent (record db' { meters = db.meters; ledger = es })) (sym ledger)
        moved)

add_new_meter-IsConsistent :
    (id : String) (m : NewLicenseMeter) (draws : Draws) (now : ℕ) (db db' : Database)
    → IsConsistent db
    → add_new_meter id m draws now db ≡ ok db'
    → IsConsistent db'
unfolding add_new_meter
add_new_meter-IsConsistent id m draws now db db' c h =
    elim (Option-cases (find (named id m.name) db.meters)) [
      | inl new ↦
          let (created, made, rest) =
            >>=-eq-ok (create_meter id m.name m.balance m.reason draws now db)
              (λ created. ok created.1) (rw (add_new_meter, new) at h) in
          let e : created.1 ≡ db' = cc in
          subst IsConsistent e (
            create-IsConsistent id m.name m.balance m.reason draws now db created.1 created.0 c
              made)
      | inr (stored, there) ↦
          let h' = rw (add_new_meter, there) at h in
          let e : db ≡ db' = ground arith in subst IsConsistent e c
    ]

insert_new_meters-IsConsistent :
    (id : String) (ms : List NewLicenseMeter) (draw : ℕ → Draws) (i now : ℕ) (db db' : Database)
    → IsConsistent db
    → insert_new_meters id ms draw i now db ≡ ok db'
    → IsConsistent db'
unfolding insert_new_meters
insert_new_meters-IsConsistent id [] draw i now db db' c h =
    let e : db ≡ db' = cc in subst IsConsistent e c
insert_new_meters-IsConsistent id (m ∷ ms) draw i now db db' c h =
    let (added, first, rest) = >>=-eq-ok (add_new_meter id m (draw i) now db) _ h in
    insert_new_meters-IsConsistent id ms draw (suc i) now added db'
      (add_new_meter-IsConsistent id m (draw i) now db added c first) rest

settle_stripe-SameMeters :
    (id : String) (u : LicenseUpdate) (options : LicenseUpdateOptions) (db : Database)
    (settled : LicenseUpdate × Database)
    → settle_stripe id u options db ≡ ok settled
    → SameMeters db settled.1
unfolding settle_stripe
settle_stripe-SameMeters id u options db settled h = ground arith

write_license-SameMeters :
    (p : StoredLicense → Bool) (u : LicenseUpdate) (now : ℕ) (missing : Failure) (db db' : Database)
    → write_license p u now missing db ≡ ok (tt, db')
    → SameMeters db db'
unfolding write_license
write_license-SameMeters p u now missing db db' h = ground arith

module _ (id : String) (u : LicenseUpdate) (options : LicenseUpdateOptions) (draw : ℕ → Draws)
    (now : ℕ) (db db' : Database) where
  edit_type-IsConsistent :
      IsConsistent db → edit_type id u options draw now db ≡ ok (tt, db') → IsConsistent db'
  unfolding edit_type
  edit_type-IsConsistent c h = elim (Option-cases (find (has_id id) db.licenses)) [
    | inl missing ↦ absurd (ground arith)
    | inr (row, found) ↦
        let (_, current, rest) =
          >>=-eq-ok (throw_if (out_of_date options.expected_updated_at row) conflicting) _
            (rw (edit_type, found) at h) in
        let (inserted, added, more) =
          >>=-eq-ok (insert_new_meters id options.new_meters draw 0 now db) _ rest in
        let (_, active, last) =
          >>=-eq-ok (throw_if (lacks_meter id u.type inserted) invalid) _ more in
        let (settled, linked, end) = >>=-eq-ok (settle_stripe id u options inserted) _ last in
        SameMeters-IsConsistent settled.1 db'
          (write_license-SameMeters (has_id id) settled.0 now internal settled.1 db' end)
          (SameMeters-IsConsistent inserted settled.1
            (settle_stripe-SameMeters id u options inserted settled linked)
            (insert_new_meters-IsConsistent id options.new_meters draw 0 now db inserted c added))
  ]

  pub edit-IsConsistent :
      IsConsistent db → edit_license id u options draw now db ≡ ok (tt, db') → IsConsistent db'
  unfolding edit_license
  edit-IsConsistent c h = elim (Bool-cases (is_some u.type || has_meters options.new_meters)) [
    | inl typed ↦ edit_type-IsConsistent c (rw (edit_license, typed) at h)
    | inr plain ↦
        SameMeters-IsConsistent db db'
          (write_license-SameMeters (matches_version id options.expected_updated_at) u now
            (missing_row options.expected_updated_at) db db' (rw (edit_license, plain) at h))
          c
  ]
