-- ===== src/Infrastructure/LicenseRepository/Versions/Stale.antt =====
-- What an update of DrizzleLicenseRepository.ts answers for an old version, and what one that is written does.
use keyzori.Prelude.{
  ℕ, ◌≡◌, refl, ◌∙◌, suc, ap, String, Bool, true, false, eqb, is_some, ◌||◌, subst, List, [], ◌∷◌,
  some, find, any, update, eq_iff, arith, Option-cases, Bool-cases, inl, inr,
}
use keyzori.Domain.Entities.{LicenseMeter, NewLicenseMeter}
use keyzori.Domain.Errors.{ok, err, throw_if, invalid, internal, Failure, >>=-eq-ok}
use keyzori.Infrastructure.Database.{Database, StoredLicense, insert_meter, insert_entry}
use keyzori.Infrastructure.MeterRepository.{Draws, create_meter, named}
use keyzori.Infrastructure.LicenseRepository.{has_id, LicenseUpdate, matches_version, missing_row}
use keyzori.Infrastructure.LicenseRepository.Rotation.{UniqueIds}
use keyzori.Infrastructure.LicenseRepository.Editing.{
  LicenseUpdateOptions, edit_license, edit_type, add_new_meter, write_license, edited_row,
  insert_new_meters, settle_stripe, conflicting, has_meters, out_of_date, lacks_meter,
}

-- The row of the identifier has the version.
abbrev pub HasVersion : String → ℕ → Database → Type 0
HasVersion id v db =
    (row : StoredLicense) × (find (has_id id) db.licenses ≡ some row) × (row.updated_at ≡ v)

pub any-has_id :
    (id : String) (p : StoredLicense → Bool) (ls : List StoredLicense)
    → ((x : StoredLicense) → p x ≡ true → has_id id x ≡ true)
    → any (has_id id) ls ≡ false
    → any p ls ≡ false
unfolding any
any-has_id id p [] names h = refl
any-has_id id p (l ∷ ls) names h = ground (arith, any-has_id id p ls names, names l)

-- With distinct identifiers, only the row that the identifier finds can match.
pub no_match :
    (id : String) (expected : ℕ) (ls : List StoredLicense) (row : StoredLicense)
    → UniqueIds ls
    → find (has_id id) ls ≡ some row
    → eqb row.updated_at expected ≡ false
    → any (matches_version id (some expected)) ls ≡ false
unfolding find any
no_match id expected [] row u found other = absurd cc
no_match id expected (l ∷ ls) row u found other = elim (Bool-cases (has_id id l)) [
  | inl here ↦
      let named : l.id ≡ id = ground (arith, eq_iff l.id id) in
      let free : any (has_id id) ls ≡ false = subst (λ i. any (has_id i) ls ≡ false) named u.0 in
      ground
        (arith, any-has_id id (matches_version id (some expected)) ls (λ x h. ground arith) free)
  | inr there ↦ ground (arith, no_match id expected ls row u.1)
]

create_meter-licenses :
    (license_id name : String) (balance : ℕ) (reason : String) (draws : Draws) (now : ℕ)
    (db db' : Database) (m : LicenseMeter)
    → create_meter license_id name balance reason draws now db ≡ ok (m, db')
    → db'.licenses ≡ db.licenses
unfolding create_meter insert_meter insert_entry
create_meter-licenses license_id name balance reason draws now db db' m h = ground arith

add_new_meter-licenses :
    (license_id : String) (m : NewLicenseMeter) (draws : Draws) (now : ℕ) (db db' : Database)
    → add_new_meter license_id m draws now db ≡ ok db'
    → db'.licenses ≡ db.licenses
unfolding add_new_meter
add_new_meter-licenses license_id m draws now db db' h =
    elim (Option-cases (find (named license_id m.name) db.meters)) [
      | inl new ↦
          let (created, made, rest) =
            >>=-eq-ok (create_meter license_id m.name m.balance m.reason draws now db)
              (λ created. ok created.1) (rw (add_new_meter, new) at h) in
          let same =
            create_meter-licenses license_id m.name m.balance m.reason draws now db created.1
              created.0 made in
          let e : created.1 ≡ db' = cc in subst (λ d. d.licenses ≡ db.licenses) e same
      | inr (stored, there) ↦ let h' = rw (add_new_meter, there) at h in ground arith
    ]

insert_new_meters-licenses :
    (id : String) (ms : List NewLicenseMeter) (draw : ℕ → Draws) (i now : ℕ) (db db' : Database)
    → insert_new_meters id ms draw i now db ≡ ok db'
    → db'.licenses ≡ db.licenses
unfolding insert_new_meters
insert_new_meters-licenses id [] draw i now db db' h = ground arith
insert_new_meters-licenses id (m ∷ ms) draw i now db db' h =
    let (added, first, rest) = >>=-eq-ok (add_new_meter id m (draw i) now db) _ h in
    insert_new_meters-licenses id ms draw (suc i) now added db' rest
    ∙ add_new_meter-licenses id m (draw i) now db added first

settle_stripe-licenses :
    (id : String) (u : LicenseUpdate) (options : LicenseUpdateOptions) (db : Database)
    (settled : LicenseUpdate × Database)
    → settle_stripe id u options db ≡ ok settled
    → settled.1.licenses ≡ db.licenses
unfolding settle_stripe
settle_stripe-licenses id u options db settled h = ground arith

pub write_license-eq-ok :
    (p : StoredLicense → Bool) (u : LicenseUpdate) (now : ℕ) (missing : Failure) (db db' : Database)
    → write_license p u now missing db ≡ ok (tt, db')
    → db'.licenses ≡ update p (edited_row u now) db.licenses
unfolding write_license
write_license-eq-ok p u now missing db db' h = ground arith

module _ (id : String) (u : LicenseUpdate) (options : LicenseUpdateOptions) (draw : ℕ → Draws)
    (now : ℕ) (db : Database) where
  stale_type :
      (row : StoredLicense) (expected : ℕ)
      → find (has_id id) db.licenses ≡ some row
      → eqb row.updated_at expected ≡ false
      → options.expected_updated_at ≡ some expected
      → edit_type id u options draw now db ≡ err conflicting
  unfolding edit_type
  stale_type row expected found differs expects = ground arith

  stale_plain :
      (row : StoredLicense) (expected : ℕ)
      → UniqueIds db.licenses
      → find (has_id id) db.licenses ≡ some row
      → eqb row.updated_at expected ≡ false
      → write_license (matches_version id (some expected)) u now (missing_row (some expected)) db
        ≡ err conflicting
  unfolding write_license
  stale_plain row expected unique found differs =
      ground (arith, no_match id expected db.licenses row unique found differs)

  -- An update that expects a version which the row does not have is a conflict.
  pub stale_conflicts :
      (row : StoredLicense) (expected : ℕ)
      → UniqueIds db.licenses
      → find (has_id id) db.licenses ≡ some row
      → eqb row.updated_at expected ≡ false
      → options.expected_updated_at ≡ some expected
      → edit_license id u options draw now db ≡ err conflicting
  unfolding edit_license
  stale_conflicts row expected unique found differs expects =
      elim (Bool-cases (is_some u.type || has_meters options.new_meters)) [
        | inl typed ↦ rw typed (stale_type row expected found differs expects)
        | inr plain ↦ rw (plain, expects) (stale_plain row expected unique found differs)
      ]

  pub plain-eq-ok :
      (p : StoredLicense → Bool) (missing : Failure) (db' : Database)
      → write_license p u now missing db ≡ ok (tt, db')
      → any p db.licenses ≡ true
  unfolding write_license
  plain-eq-ok p missing db' h = ground arith

  pub type-eq-ok :
      (expected : ℕ) (db' : Database)
      → options.expected_updated_at ≡ some expected
      → edit_type id u options draw now db ≡ ok (tt, db')
      → (row : StoredLicense) × (find (has_id id) db.licenses ≡ some row)
        × (row.updated_at ≡ expected)
        × (w : LicenseUpdate) × (db'.licenses ≡ update (has_id id) (edited_row w now) db.licenses)
  unfolding edit_type
  type-eq-ok expected db' expects h = elim (Option-cases (find (has_id id) db.licenses)) [
    | inl missing ↦ ground arith
    | inr (row, found) ↦
        let (_, current, rest) =
          >>=-eq-ok (throw_if (out_of_date options.expected_updated_at row) conflicting) _
            (rw (edit_type, found) at h) in
        let (inserted, added, more) =
          >>=-eq-ok (insert_new_meters id options.new_meters draw 0 now db) _ rest in
        let (_, active, last) =
          >>=-eq-ok (throw_if (lacks_meter id u.type inserted) invalid) _ more in
        let (settled, linked, end) = >>=-eq-ok (settle_stripe id u options inserted) _ last in
        let same =
          settle_stripe-licenses id u options inserted settled linked
          ∙ insert_new_meters-licenses id options.new_meters draw 0 now db inserted added in
        let written = write_license-eq-ok (has_id id) settled.0 now internal settled.1 db' end in
        (
          row,
          found,
          ground arith,
          settled.0,
          written ∙ ap (λ ls. update (has_id id) (edited_row settled.0 now) ls) same,
        )
  ]
