-- ===== src/Infrastructure/LicenseRepository/Rotation.antt =====
-- `rotateKey` of DrizzleLicenseRepository.ts and the look-up by key.
use keyzori.Prelude.{
  ℕ, ◌+◌, ◌≡◌, refl, String, List, [], ◌∷◌, Bool, true, false, not, ◌&&◌, ◌==◌, Option, none, some,
  find, any, update, eq_iff, arith, Bool-cases, Option-cases, inl, inr, find-holds,
}
use keyzori.Domain.Entities.{License}
use keyzori.Domain.Errors.{ok}
use keyzori.Infrastructure.Database.{Database, StoredLicense}
use keyzori.Infrastructure.LicenseRepository.{
  find_license, rotate_key, matches_version, rotated_row, to_domain_license, billing_revocation_of,
  license_key_prefix,
}

-- The primary key of the licenses.
abbrev pub UniqueIds : List StoredLicense → Type 0
UniqueIds [] = Unit
UniqueIds (l ∷ ls) = (any (λ m. m.id == l.id) ls ≡ false) × UniqueIds ls

module _ (p : StoredLicense → Bool) (f : StoredLicense → StoredLicense) (id hash : String)
    (names : (x : StoredLicense) → p x ≡ true → x.id ≡ id)
    (hashes : (x : StoredLicense) → (f x).key_hash ≡ hash) where
  listed :
      (ls : List StoredLicense) (row : StoredLicense)
      → find p ls ≡ some row
      → any (λ m. m.id == id) ls ≡ true
  unfolding find any
  listed [] row h = absurd cc
  listed (l ∷ ls) row h = ground (arith, listed ls row, names l, eq_iff l.id id)

  find-rehashed :
      (ls : List StoredLicense) (row : StoredLicense)
      → UniqueIds ls
      → find p ls ≡ some row
      → any (λ l. l.key_hash == hash && not (l.id == id)) ls ≡ false
      → find (λ l. l.key_hash == hash) (update p f ls) ≡ some (f row)
  unfolding find any update
  find-rehashed [] row u h free = absurd cc
  find-rehashed (l ∷ ls) row u h free = ground (
    arith,
    find-rehashed ls row u.1,
    hashes l,
    eq_iff (f l).key_hash hash,
    listed ls row,
    names l,
    eq_iff l.id id,
    u.0,
  )

matches-id :
    (id : String) (expected : Option ℕ) (x : StoredLicense)
    → matches_version id expected x ≡ true
    → x.id ≡ id
matches-id id none x h = ground (arith, eq_iff x.id id)
matches-id id (some v) x h = ground (arith, eq_iff x.id id)

-- After a rotation the new key finds the license that the rotation returned, which has the next
-- session revision. (The identifiers of licenses are distinct.)
pub rotate_key_lem :
    (sha256 : String → String) (id license_key : String) (expected : Option ℕ) (now : ℕ)
    (db db' : Database) (l : License)
    → UniqueIds db.licenses
    → rotate_key sha256 id license_key expected now db ≡ ok (l, db')
    → (find_license (λ r. r.key_hash == sha256 license_key) db' ≡ some l)
      × ((row : StoredLicense) × (find (matches_version id expected) db.licenses ≡ some row)
          × (l.session_revision ≡ row.session_revision + 1))
unfolding rotate_key find_license
rotate_key_lem sha256 id license_key expected now db db' l u h =
    elim (Option-cases (find (matches_version id expected) db.licenses)) [
      | inl missing ↦ ground arith
      | inr (row, found) ↦
          let f = rotated_row (sha256 license_key) (license_key_prefix license_key) now in
          let p = matches_version id expected in
          let named = matches-id id expected row (find-holds p db.licenses row found) in
          elim (Bool-cases
            (any (λ r. r.key_hash == sha256 license_key && not (r.id == id)) db.licenses)) [
              | inl taken ↦ ground arith
              | inr free ↦
                  let rehashed =
                    find-rehashed p f id (sha256 license_key) (matches-id id expected) (λ x. refl)
                      db.licenses row u found free in
                  let el : l ≡ to_domain_license (f row) (billing_revocation_of id db) =
                    ground arith in
                  let ed : db' ≡ record db { licenses = update p f db.licenses } = ground arith in
                  let looked : find_license (λ r. r.key_hash == sha256 license_key)
                        (record db { licenses = update p f db.licenses })
                      ≡ some (to_domain_license (f row) (billing_revocation_of id db)) =
                    rw (find_license, rehashed, named) refl in
                  (rw (el, ed) looked, (row, found, rw el refl))
            ]
    ]
