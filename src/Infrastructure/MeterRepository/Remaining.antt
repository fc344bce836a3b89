-- ===== src/Infrastructure/MeterRepository/Remaining.antt =====
-- `archiveMeter` of DrizzleMeterRepository.ts leaves a metered license a meter in use.
use keyzori.Prelude.{
  ℕ, suc, ◌≤◌, ◌≡◌, ◌≢◌, sym, refl, String, List, [], ◌∷◌, Bool, true, false, ◌==◌, ◌&&◌, eq_iff,
  arith, find, update, any, select, length, Option, none, some, find-holds, Option-cases,
  Bool-cases, inl, inr,
}
use keyzori.Domain.Entities.{LicenseMeter, metered}
use keyzori.Domain.Errors.{ok}
use keyzori.Infrastructure.Database.{Database, StoredLicense}
use keyzori.Infrastructure.MeterRepository.{
  Draws, archive_meter, archivable, archive_row, last_active, of_license, is_active, named,
}
use keyzori.Infrastructure.MeterRepository.Archive.{archive_active-cases}

-- The unique key of a meter's license and name.
abbrev pub UniqueNames : List LicenseMeter → Type 0
UniqueNames [] = Unit
UniqueNames (m ∷ ms) = (any (named m.license_id m.name) ms ≡ false) × UniqueNames ms

abbrev pub in_use : String → LicenseMeter → Bool
in_use license_id m = of_license license_id m && is_active m

module _ (license_id name : String) (now : ℕ) where
  abbrev after : List LicenseMeter → List LicenseMeter
  after ms = update (archivable license_id name) (archive_row now) ms

  length-after_same :
      (ms : List LicenseMeter)
      → any (named license_id name) ms ≡ false
      → length (select (in_use license_id) (after ms)) ≡ length (select (in_use license_id) ms)
  unfolding any select update
  length-after_same [] h = refl
  length-after_same (m ∷ ms) h = ground (arith, length-after_same ms)

  length-after :
      (ms : List LicenseMeter)
      → UniqueNames ms
      → length (select (in_use license_id) ms)
        ≤ suc (length (select (in_use license_id) (after ms)))
  unfolding any select update
  length-after [] u = omega arith
  length-after (m ∷ ms) u = elim (Bool-cases (named license_id name m)) [
    | inl hit ↦
        let same_license : m.license_id ≡ license_id =
          ground (arith, eq_iff m.license_id license_id) in
        let same_name : m.name ≡ name = ground (arith, eq_iff m.name name) in
        ground (arith, length-after_same ms (rw (same_license, same_name) at u.0))
    | inr other ↦ ground (arith, length-after ms u.1)
  ]

  any-select :
      (p : LicenseMeter → Bool) (ms : List LicenseMeter)
      → 1 ≤ length (select p ms)
      → any p ms ≡ true
  unfolding any select
  any-select p [] h = absurd (omega (arith, h))
  any-select p (m ∷ ms) h = ground (arith, any-select p ms)

  any-in_use :
      (ms : List LicenseMeter)
      → any (in_use license_id) ms ≡ true
      → 1 ≤ length (select (in_use license_id) ms)
  unfolding any select
  any-in_use [] h = absurd cc
  any-in_use (m ∷ ms) h = ground (arith, any-in_use ms)

  -- A meter that can be archived is among those in use, under its name.
  find-in_use :
      (ms : List LicenseMeter)
      → any (archivable license_id name) ms ≡ true
      → find (λ m. m.name == name) (select (in_use license_id) ms) ≢ none
  unfolding any select find
  find-in_use [] h e = absurd cc
  find-in_use (m ∷ ms) h e = ground (arith, find-in_use ms)

  update_missed :
      (ms : List LicenseMeter) → any (archivable license_id name) ms ≡ false → after ms ≡ ms
  unfolding any update
  update_missed [] h = refl
  update_missed (m ∷ ms) h = ground (arith, update_missed ms)

  last_active-ne_one :
      (license : StoredLicense) (db : Database)
      → license.type ≡ metered
      → any (archivable license.id name) db.meters ≡ true
      → find (λ m. m.name == name) (select (in_use license.id) db.meters) ≢ none
      → last_active license name db ≡ none
      → length (select (in_use license.id) db.meters) ≢ 1
  last_active-ne_one license db type hit there last one = there (ground (arith, rw type at last))

  -- With no last meter to keep, there is another one, or none has the name.
  after-in_use :
      (license : StoredLicense) (db : Database)
      → license.id ≡ license_id
      → license.type ≡ metered
      → UniqueNames db.meters
      → last_active license name db ≡ none
      → any (in_use license_id) db.meters ≡ true
      → any (in_use license_id) (after db.meters) ≡ true
  after-in_use license db same type u last h =
      elim (Bool-cases (any (archivable license_id name) db.meters)) [
        | inl hit ↦
            let there = find-in_use db.meters hit in
            let many = length (select (in_use license_id) db.meters) in
            let two : many ≢ 1 =
              rw (sym same)
                (last_active-ne_one license db type (rw same hit) (rw same there) last) in
            any-select (in_use license_id) (after db.meters)
              (omega (arith, two, any-in_use db.meters h, length-after db.meters u))
        | inr missed ↦ rw (update_missed db.meters missed) h
      ]

-- A metered license with a meter in use has one after `archiveMeter`, whatever its answer. (The names
-- of a license's meters are distinct, as the unique key of the table has it.)
pub archive_keeps_one :
    (license_id name reason : String) (draws : Draws) (now : ℕ) (db db' : Database)
    (r : Option LicenseMeter) (license : StoredLicense)
    → UniqueNames db.meters
    → find (λ l. l.id == license_id) db.licenses ≡ some license
    → license.type ≡ metered
    → any (in_use license_id) db.meters ≡ true
    → archive_meter license_id name reason draws now db ≡ ok (r, db')
    → any (in_use license_id) db'.meters ≡ true
unfolding archive_meter
archive_keeps_one license_id name reason draws now db db' r license u found type h run =
    elim (Option-cases (last_active license name db)) [
      | inr (target, last) ↦ ground arith
      | inl more ↦
          elim (archive_active-cases license_id name reason draws now db db' r (ground arith)) [
            | inl e ↦ rw e h
            | inr (row, _, e, _, _) ↦ rw e (
                after-in_use license_id name now license db
                  (ground (
                    arith,
                    eq_iff license.id license_id,
                    find-holds (λ l. l.id == license_id) db.licenses license found,
                  ))
                  type u more h)
          ]
    ]
