-- ===== src/Infrastructure/LicenseRepository/Versions.antt =====
-- The version by which `update` of DrizzleLicenseRepository.ts notices a concurrent change.
mod Stale
use keyzori.Prelude.{
  ℕ, ◌≡◌, refl, ◌∙◌, sym, any-update, suc, ap, String, ◌==◌, Bool, true, false, eqb, is_some, ◌||◌,
  subst, List, [], ◌∷◌, some, find, find-update, find-holds, any, update, any-find-none, eq_iff,
  arith, Option-cases, Bool-cases, inl, inr,
}
use keyzori.Domain.Entities.{LicenseMeter, NewLicenseMeter, LicenseColumns}
use keyzori.Domain.Errors.{ok, err, throw_if, invalid, internal, Failure, >>=-eq-ok}
use keyzori.Infrastructure.Database.{Database, StoredLicense, insert_meter, insert_entry}
use keyzori.Infrastructure.MeterRepository.{Draws, create_meter, named}
use keyzori.Infrastructure.LicenseRepository.{
  has_id, next_updated_at, LicenseUpdate, matches_version, missing_row,
}
use keyzori.Infrastructure.LicenseRepository.Rotation.{UniqueIds}
use keyzori.Infrastructure.LicenseRepository.Editing.{
  LicenseUpdateOptions, edit_license, edit_type, add_new_meter, write_license, edited_row,
  insert_new_meters, settle_stripe, conflicting, has_meters, out_of_date, lacks_meter,
}
use keyzori.Infrastructure.LicenseRepository.Versions.Stale.{
  any-has_id, no_match, write_license-eq-ok, stale_conflicts, plain-eq-ok, type-eq-ok,
}

-- A write to rows of the identifier that reached the row of the version.
abbrev pub Wrote : String → ℕ → ℕ → Database → Database → Type 0
Wrote id now v db db' =
    (row : StoredLicense) × (find (has_id id) db.licenses ≡ some row)
    × (row.updated_at ≡ v)
    × (u : LicenseUpdate) × (p : StoredLicense → Bool) × (p row ≡ true)
    × (db'.licenses ≡ update p (edited_row u now) db.licenses)

UniqueIds-update :
    (p : StoredLicense → Bool) (f : StoredLicense → StoredLicense) (ls : List StoredLicense)
    → ((x : StoredLicense) → (f x).id ≡ x.id)
    → UniqueIds ls
    → UniqueIds (update p f ls)
unfolding update
UniqueIds-update p f [] same u = tt
UniqueIds-update p f (l ∷ ls) same u = (
  elim (Bool-cases (p l)) [
    | inl e ↦ rw (e, same l) (any-update (λ m. m.id == l.id) p f ls (λ m. rw (same m)) ∙ u.0)
    | inr e ↦ rw e (any-update (λ m. m.id == l.id) p f ls (λ m. rw (same m)) ∙ u.0)
  ],
  UniqueIds-update p f ls same u.1,
)

later_version : (now : ℕ) (l : LicenseColumns) → eqb (next_updated_at now l) l.updated_at ≡ false
later_version now l = ground arith

module _ (id : String) (u : LicenseUpdate) (options : LicenseUpdateOptions) (draw : ℕ → Draws)
    (now v : ℕ) (db db' : Database) where
  plain-Wrote :
      UniqueIds db.licenses
      → write_license (matches_version id (some v)) u now conflicting db ≡ ok (tt, db')
      → Wrote id now v db db'
  plain-Wrote unique h =
      let reached =
        plain-eq-ok id u options draw now db (matches_version id (some v)) conflicting db' h in
      let written = write_license-eq-ok (matches_version id (some v)) u now conflicting db db' h in
      elim (Option-cases (find (has_id id) db.licenses)) [
        | inl missing ↦
            let none_matches =
              any-has_id id (matches_version id (some v)) db.licenses (λ x m. ground arith)
                (any-find-none (has_id id) db.licenses missing) in
            absurd cc
        | inr (row, found) ↦ elim (Bool-cases (eqb row.updated_at v)) [
          | inl same ↦
              let own = find-holds (has_id id) db.licenses row found in
              (row, found, ground arith, u, matches_version id (some v), ground arith, written)
          | inr other ↦
              let none_matches = no_match id v db.licenses row unique found other in absurd cc
        ]
      ]

  edit-Wrote :
      UniqueIds db.licenses
      → options.expected_updated_at ≡ some v
      → edit_license id u options draw now db ≡ ok (tt, db')
      → Wrote id now v db db'
  unfolding edit_license
  edit-Wrote unique expects h =
      elim (Bool-cases (is_some u.type || has_meters options.new_meters)) [
        | inl typed ↦
            let (row, found, version, w, written) =
              type-eq-ok id u options draw now db v db' expects (rw (edit_license, typed) at h) in
            (
              row,
              found,
              version,
              w,
              has_id id,
              find-holds (has_id id) db.licenses row found,
              written,
            )
        | inr plain ↦ plain-Wrote unique (rw (edit_license, plain, expects) at h)
      ]

-- Of two updates that expect the same version of a license, the second is refused as a conflict once
-- the first has been written, whatever the two change and whatever the clock says: no update is lost.
-- (The identifiers of licenses are distinct.)
pub edit_conflicts :
    (id : String) (u u' : LicenseUpdate) (options options' : LicenseUpdateOptions)
    (draw draw' : ℕ → Draws) (now now' v : ℕ) (db db' : Database)
    → UniqueIds db.licenses
    → options.expected_updated_at ≡ some v
    → options'.expected_updated_at ≡ some v
    → edit_license id u options draw now db ≡ ok (tt, db')
    → edit_license id u' options' draw' now' db' ≡ err conflicting
edit_conflicts id u u' options options' draw draw' now now' v db db' unique expects expects' h =
    let (row, found, version, w, p, hit, written) =
      edit-Wrote id u options draw now v db db' unique expects h in
    let looked : find (has_id id) db'.licenses ≡ some (edited_row w now row) =
      ap (find (has_id id)) written
      ∙ find-update (has_id id) p (edited_row w now) db.licenses (λ x. refl)
      ∙ rw (found, hit) refl in
    let still =
      subst UniqueIds (sym written)
        (UniqueIds-update p (edited_row w now) db.licenses (λ x. refl) unique) in
    let moved : eqb (edited_row w now row).updated_at v ≡ false =
      subst (λ t. eqb (next_updated_at now row.columns) t ≡ false) version
        (later_version now row.columns) in
    stale_conflicts id u' options' draw' now' db' (edited_row w now row) v still looked moved
      expects'
