-- ===== src/Infrastructure/LicenseRepository/Editing.antt =====
-- `update`, `updateMeterDraft` and `startTrialIfUnset` of DrizzleLicenseRepository.ts, without the
-- query by which each of them reads the license again.
use keyzori.Prelude.{
  ℕ, suc, String, List, [], ◌∷◌, Bool, true, false, not, ◌&&◌, ◌||◌, ◌==◌, eqb, Option, none, some,
  is_some, if◌then◌else◌, find, any, remove,
}
use keyzori.Domain.Sorting.{sort_texts}
use keyzori.Domain.Entities.{
  LicenseType, same_type, subscription, metered, LicenseTypeDrafts, NewLicenseMeter,
  StripeSubscriptionLink,
}
use keyzori.Domain.Errors.{
  Result, ok, err, internal, invalid, conflict_error, invalid_request, throw_if, ◌>>◌, ◌>>=◌,
  Failure,
}
use keyzori.Infrastructure.Database.{Database, StoredLicense, Transaction}
use keyzori.Infrastructure.MeterRepository.{Draws, create_meter, named, of_license, is_active}
use keyzori.Infrastructure.LicenseRepository.{
  LicenseUpdate, apply_update, set_columns, next_updated_at, has_id, matches_version, missing_row,
  write_licenses, breaks_checks,
}
use keyzori.Infrastructure.DeviceRepository.{trial_unset, start_row}

pub record LicenseUpdateOptions : Type 0 where
  pub confirm_stripe_unlink : Bool
  pub expected_updated_at : Option ℕ
  pub manual_expires_at_update : Bool
  pub new_meters : List NewLicenseMeter

abbrev pub no_options : LicenseUpdateOptions
no_options = record {
  confirm_stripe_unlink = false;
  expected_updated_at = none;
  manual_expires_at_update = false;
  new_meters = [];
}

abbrev pub conflicting : Failure
conflicting = conflict_error invalid_request

-- A meter that the license has already is kept, if it is active and has the balance. (The names that
-- `insertNewMeters` has read or inserted are those of the table.)
unfoldable pub add_new_meter : String → NewLicenseMeter → Draws → ℕ → Database → Result Database
add_new_meter license_id m draws now db = elim (find (named license_id m.name) db.meters) [
  | some stored ↦ do
    throw_if (is_some stored.archived_at || not (eqb stored.balance m.balance)) conflicting
    ok db
  | none ↦ do created ← create_meter license_id m.name m.balance m.reason draws now db; ok created.1
]

-- `insertNewMeters`; `draw i` are the random identifiers of the meter at position `i`.
unfoldable pub insert_new_meters :
    String → List NewLicenseMeter → (ℕ → Draws) → ℕ → ℕ → Database → Result Database
insert_new_meters license_id [] draw i now db = ok db
insert_new_meters license_id (m ∷ ms) draw i now db = do
  added ← add_new_meter license_id m (draw i) now db
  insert_new_meters license_id ms draw (suc i) now added

abbrev pub link_of : String → Database → Option StripeSubscriptionLink
link_of id db = find (λ k. k.license_id == id) db.stripe_links

abbrev pub drop_stripe_link : String → Database → Database
drop_stripe_link id db = record db {
  stripe_links = remove (λ k. k.license_id == id) db.stripe_links;
}

abbrev pub is_type : LicenseType → Option LicenseType → Bool
is_type t none = false
is_type t (some u) = same_type t u

-- The drafts of a linked subscription, where both the drafts and the paid time are given.
abbrev pub paid_drafts : Option LicenseTypeDrafts → Option ℕ → Option LicenseTypeDrafts
paid_drafts (some drafts) (some paid) =
    some (record drafts { subscription_draft = some (record { expires_at = some paid }) })
paid_drafts drafts paid = drafts

-- What `update` does about the link with Stripe: the columns to write, and the database.
unfoldable pub settle_stripe :
    String → LicenseUpdate → LicenseUpdateOptions → Database → Result (LicenseUpdate × Database)
settle_stripe id u options db = elim (link_of id db) [
  | none ↦ ok (u, db)
  | some link ↦
      if is_type subscription u.type
      then (do
        throw_if options.manual_expires_at_update conflicting
        ok (
          record u { expires_at = none; type_drafts = paid_drafts u.type_drafts link.paid_through },
          db,
        ))
      else (do
        throw_if (not options.confirm_stripe_unlink) conflicting
        ok (u, drop_stripe_link id db))
]

abbrev pub edited_row : LicenseUpdate → ℕ → StoredLicense → StoredLicense
edited_row u now row =
    set_columns
      (record (apply_update u row.columns) { updated_at = next_updated_at now row.columns }) row

-- `update licenses set … where p`, with `firstOrThrow` or the conflict.
unfoldable pub write_license :
    (StoredLicense → Bool) → LicenseUpdate → ℕ → Failure → Transaction (Unit {0})
write_license p u now missing db = do
  throw_if (not (any p db.licenses)) missing
  throw_if (breaks_checks p (edited_row u now) db) internal
  ok (tt, write_licenses p (edited_row u now) db)

-- `locked.updatedAt.getTime() !== options.expectedUpdatedAt.getTime()`
abbrev pub out_of_date : Option ℕ → StoredLicense → Bool
out_of_date none row = false
out_of_date (some expected) row = not (eqb row.updated_at expected)

abbrev pub lacks_meter : String → Option LicenseType → Database → Bool
lacks_meter id type db =
    is_type metered type && not (any (λ m. of_license id m && is_active m) db.meters)

-- The branch of `update` with a type or with new meters.
unfoldable pub edit_type :
    String → LicenseUpdate → LicenseUpdateOptions → (ℕ → Draws) → ℕ → Transaction (Unit {0})
edit_type id u options draw now db = elim (find (has_id id) db.licenses) [
  | none ↦ err internal
  | some locked ↦ do
    throw_if (out_of_date options.expected_updated_at locked) conflicting
    inserted ← insert_new_meters id options.new_meters draw 0 now db
    throw_if (lacks_meter id u.type inserted) invalid
    settled ← settle_stripe id u options inserted
    write_license (has_id id) settled.0 now internal settled.1
]

abbrev pub has_meters : List NewLicenseMeter → Bool
has_meters [] = false
has_meters (m ∷ ms) = true

-- `update`.
unfoldable pub edit_license :
    String → LicenseUpdate → LicenseUpdateOptions → (ℕ → Draws) → ℕ → Transaction (Unit {0})
edit_license id u options draw now db =
    if is_some u.type || has_meters options.new_meters
    then edit_type id u options draw now db
    else write_license (matches_version id options.expected_updated_at) u now
        (missing_row options.expected_updated_at) db

abbrev pub draft_row : List String → ℕ → StoredLicense → StoredLicense
draft_row meter_names now row =
    set_columns
      (record row.columns {
        type_drafts = record row.type_drafts {
          metered_draft = some (record { meter_names = sort_texts meter_names });
        };
        updated_at = next_updated_at now row.columns;
      })
      row

-- `updateMeterDraft`.
unfoldable pub store_meter_draft : String → List String → ℕ → Transaction (Unit {0})
store_meter_draft id meter_names now db = do
  throw_if (not (any (has_id id) db.licenses)) internal
  ok (tt, write_licenses (has_id id) (draft_row meter_names now) db)

-- `startTrialIfUnset`.
unfoldable pub start_license_trial : String → ℕ → ℕ → Database → Database
start_license_trial id started_at now db =
    write_licenses (trial_unset id) (start_row started_at now) db
