-- ===== src/Infrastructure/LicenseRepository/Revisions.antt =====
-- The session revisions that DrizzleLicenseRepository.ts raises.
use keyzori.Prelude.{
  ℕ, ◌+◌, ◌<◌, ◌≡◌, refl, sym, subst, ap, String, List, ◌==◌, some, find, find-update, find-holds,
  any-find, any-find-none, eq_iff, arith, Option-cases, inl, inr,
}
use keyzori.Domain.Entities.{License, LicenseColumns, RegisteredDevice}
use keyzori.Domain.Errors.{ok}
use keyzori.Infrastructure.Database.{Database, StoredLicense}
use keyzori.Infrastructure.LicenseRepository.{
  reload, has_id, find_license, find_by_id, LicenseUpdate, write_licenses, bump_revision,
  increment_session_revision, update_with_session_invalidation, raise_session_revision,
  write_invalidating, invalidating_row, next_updated_at, to_domain_license, billing_revocation_of,
}

-- The license after a change that invalidates its sessions: the same, found by its identifier, of the
-- next revision and a later version.
abbrev pub Advances : String → Database → Database → License → Type 0
Advances id db db' l =
    (old : License) × (find_by_id id db ≡ some old)
    × (find_by_id id db' ≡ some l)
    × (l.session_revision ≡ old.session_revision + 1)
    × (old.updated_at < l.updated_at)

-- A write to the row of an identifier is what the look-up then finds.
find_license-write :
    (id : String) (f : StoredLicense → StoredLicense) (db : Database) (row : StoredLicense)
    → ((x : StoredLicense) → (f x).id ≡ x.id)
    → find (has_id id) db.licenses ≡ some row
    → find_license (has_id id) (write_licenses (has_id id) f db)
      ≡ some (to_domain_license (f row) (billing_revocation_of id db))
unfolding find_license
find_license-write id f db row same h =
    let held = find-holds (has_id id) db.licenses row h in
    let named : row.id ≡ id = ground (arith, eq_iff row.id id) in
    rw
      (
        find_license,
        find-update (has_id id) (has_id id) f db.licenses (λ x. ap (λ i. i == id) (same x)),
        h,
        held,
        same row,
        named,
      )
      refl

next-lt : (now : ℕ) (l : LicenseColumns) → l.updated_at < next_updated_at now l
next-lt now l = ground arith

find_license-found :
    (id : String) (db : Database) (row : StoredLicense)
    → find (has_id id) db.licenses ≡ some row
    → find_license (has_id id) db ≡ some (to_domain_license row (billing_revocation_of id db))
unfolding find_license
find_license-found id db row h =
    let held = find-holds (has_id id) db.licenses row h in
    let named : row.id ≡ id = ground (arith, eq_iff row.id id) in rw (find_license, h, named) refl

-- The look-up finds a license of the identifier.
pub find_by_id-id :
    (id : String) (db : Database) (l : License) → find_by_id id db ≡ some l → l.id ≡ id
unfolding find_license
find_by_id-id id db l h = elim (Option-cases (find (has_id id) db.licenses)) [
  | inl missing ↦ let h' = rw (find_license, missing) at h in absurd cc
  | inr (row, found) ↦
      let held = find-holds (has_id id) db.licenses row found in
      let named : row.id ≡ id = ground (arith, eq_iff row.id id) in
      let e = find_license-found id db row found in
      let same : l ≡ to_domain_license row (billing_revocation_of id db) = cc in rw same named
]

-- A write that raises the revision of the row and its version, and keeps its identifier.
write-Advances :
    (id : String) (f : StoredLicense → StoredLicense) (db : Database) (row : StoredLicense)
    → ((x : StoredLicense) → (f x).id ≡ x.id)
    → find (has_id id) db.licenses ≡ some row
    → (f row).session_revision ≡ row.session_revision + 1
    → row.updated_at < (f row).updated_at
    → Advances id db
        (write_licenses (has_id id) f db)
        (to_domain_license (f row) (billing_revocation_of id db))
write-Advances id f db row same found raised later = (
  to_domain_license row (billing_revocation_of id db),
  find_license-found id db row found,
  find_license-write id f db row same found,
  raised,
  later,
)

-- The look-up after the write, where it was a license's.
reload-eq-ok :
    (id : String) (f : StoredLicense → StoredLicense) (db db' : Database) (row : StoredLicense)
    (l : License)
    → ((x : StoredLicense) → (f x).id ≡ x.id)
    → find (has_id id) db.licenses ≡ some row
    → reload id (write_licenses (has_id id) f db) ≡ ok (l, db')
    → (l ≡ to_domain_license (f row) (billing_revocation_of id db))
      × (db' ≡ write_licenses (has_id id) f db)
reload-eq-ok id f db db' row l same found h =
    let e = rw (reload, find_license-write id f db row same found) at h in (cc, cc)

invalidated-Advances :
    (id : String) (f : StoredLicense → StoredLicense) (db db' : Database) (row : StoredLicense)
    (l : License)
    → ((x : StoredLicense) → (f x).id ≡ x.id)
    → find (has_id id) db.licenses ≡ some row
    → (f row).session_revision ≡ row.session_revision + 1
    → row.updated_at < (f row).updated_at
    → reload id (write_licenses (has_id id) f db) ≡ ok (l, db')
    → Advances id db db' l
invalidated-Advances id f db db' row l same found raised later h =
    let (el, ed) = reload-eq-ok id f db db' row l same found h in
    rw (el, ed) (write-Advances id f db row same found raised later)

-- What a written statement found and left.
abbrev pub Reached :
    String → (StoredLicense → StoredLicense) → Database → Database → StoredLicense → Type 0
Reached id f db db' row =
    (find (has_id id) db.licenses ≡ some row)
    × (db' ≡ write_licenses (has_id id) f db)
    × (find_by_id id db' ≡ some (to_domain_license (f row) (billing_revocation_of id db)))
    × Advances id db db' (to_domain_license (f row) (billing_revocation_of id db))

reached :
    (id : String) (f : StoredLicense → StoredLicense) (db db' : Database) (row : StoredLicense)
    → ((x : StoredLicense) → (f x).id ≡ x.id)
    → ((x : StoredLicense) → (f x).session_revision ≡ x.session_revision + 1)
    → ((x : StoredLicense) → x.updated_at < (f x).updated_at)
    → find (has_id id) db.licenses ≡ some row
    → write_licenses (has_id id) f db ≡ db'
    → Reached id f db db' row
reached id f db db' row same raised later found written = (
  found,
  sym written,
  subst (λ d. find_by_id id d ≡ some (to_domain_license (f row) (billing_revocation_of id db)))
      written (find_license-write id f db row same found),
  subst (λ d. Advances id db d (to_domain_license (f row) (billing_revocation_of id db))) written
      (write-Advances id f db row same found (raised row) (later row)),
)

-- The statement of `incrementSessionRevision`, where it reached a row.
pub raise-Reached :
    (id : String) (now : ℕ) (db db' : Database)
    → raise_session_revision id now db ≡ ok (tt, db')
    → (row : StoredLicense) × Reached id (bump_revision now) db db' row
unfolding raise_session_revision
raise-Reached id now db db' h = elim (Option-cases (find (has_id id) db.licenses)) [
  | inl missing ↦ absurd (ground (arith, any-find-none (has_id id) db.licenses missing))
  | inr (row, found) ↦ (
    row,
    reached id (bump_revision now) db db' row (λ x. refl) (λ x. refl) (λ x. next-lt now x.columns)
        found (ground (arith, any-find (has_id id) db.licenses row found)),
  )
]

-- The statement of `updateWithSessionInvalidation`, where it reached a row.
pub invalidating-Reached :
    (id : String) (u : LicenseUpdate) (now : ℕ) (db db' : Database)
    → write_invalidating id u now db ≡ ok (tt, db')
    → (row : StoredLicense) × Reached id (invalidating_row u now) db db' row
unfolding write_invalidating
invalidating-Reached id u now db db' h = elim (Option-cases (find (has_id id) db.licenses)) [
  | inl missing ↦ absurd (ground (arith, any-find-none (has_id id) db.licenses missing))
  | inr (row, found) ↦ (
    row,
    reached id (invalidating_row u now) db db' row (λ x. refl) (λ x. refl)
        (λ x. next-lt now x.columns) found
        (ground (arith, any-find (has_id id) db.licenses row found)),
  )
]

increment-Advances :
    (id : String) (now : ℕ) (db db' : Database) (l : License)
    → increment_session_revision id now db ≡ ok (l, db')
    → Advances id db db' l
unfolding increment_session_revision raise_session_revision
increment-Advances id now db db' l h = elim (Option-cases (find (has_id id) db.licenses)) [
  | inl missing ↦ ground (arith, any-find-none (has_id id) db.licenses missing)
  | inr (row, found) ↦
      invalidated-Advances id (bump_revision now) db db' row l (λ x. refl) found refl
        (next-lt now row.columns) (ground (arith, any-find (has_id id) db.licenses row found))
]

update-Advances :
    (id : String) (u : LicenseUpdate) (now : ℕ) (db db' : Database) (l : License)
    → update_with_session_invalidation id u now db ≡ ok (l, db')
    → Advances id db db' l
unfolding update_with_session_invalidation write_invalidating
update-Advances id u now db db' l h = elim (Option-cases (find (has_id id) db.licenses)) [
  | inl missing ↦ ground (arith, any-find-none (has_id id) db.licenses missing)
  | inr (row, found) ↦
      invalidated-Advances id (invalidating_row u now) db db' row l (λ x. refl) found refl
        (next-lt now row.columns) (ground (arith, any-find (has_id id) db.licenses row found))
]

-- The row of a license that the look-up finds.
row_of :
    (id : String) (db : Database) (old : License)
    → find_by_id id db ≡ some old
    → (row : StoredLicense) × (find (has_id id) db.licenses ≡ some row)
unfolding find_license
row_of id db old h = elim (Option-cases (find (has_id id) db.licenses)) [
  | inl missing ↦ let h' = rw (find_license, missing) at h in absurd cc
  | inr found ↦ found
]

-- Where registered devices are removed, and the revision is raised with them.
pub bumped-Advances :
    (id : String) (now : ℕ) (db : Database) (devices : List RegisteredDevice) (old : License)
    → find_by_id id db ≡ some old
    → (l : License) × Advances id db
        (write_licenses (has_id id) (bump_revision now) (record db { devices = devices }))
        l
unfolding find_license
bumped-Advances id now db devices old h =
    let (row, found) = row_of id db old h in
    (
      _,
      write-Advances id (bump_revision now) (record db { devices = devices }) row (λ x. refl) found
          refl (next-lt now row.columns),
    )

-- The changes that invalidate the sessions of a license.
pub data Invalidation (id : String) (db db' : Database) (l : License) : Type 0 where
  increments :
      (now : ℕ) → increment_session_revision id now db ≡ ok (l, db') → Invalidation id db db' l
  updates :
      (u : LicenseUpdate) (now : ℕ)
      → update_with_session_invalidation id u now db ≡ ok (l, db')
      → Invalidation id db db' l

-- Where `incrementSessionRevision` or `updateWithSessionInvalidation` returns a license, the license
-- was there before, the look-up by its identifier finds what was returned, its revision is the next
-- one, and its version is later than before, whatever the clock says.
pub Invalidation-Advances :
    (id : String) (db db' : Database) (l : License)
    → Invalidation id db db' l
    → Advances id db db' l
Invalidation-Advances id db db' l (increments now h) = increment-Advances id now db db' l h
Invalidation-Advances id db db' l (updates u now h) = update-Advances id u now db db' l h
