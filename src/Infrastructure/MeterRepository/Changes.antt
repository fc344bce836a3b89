-- ===== src/Infrastructure/MeterRepository/Changes.antt =====
-- What a committed operation of DrizzleMeterRepository.ts can do to the tables.
use keyzori.Prelude.{ℕ, ◌≡◌, refl, String, ◌∷◌, Bool, false, any, Option, ℤ, inl, inr}
use keyzori.Domain.Entities.{LicenseMeter, UsageLedgerEntry, MeterLedgerKind}
use keyzori.Domain.Errors.{ok}
use keyzori.Infrastructure.Database.{Database, same_meter, same_entry}
use keyzori.Infrastructure.MeterRepository.{
  UsageConsumptionResult, MeterAdjustmentResult, Draws, new_meter, archive_meter, consume_units,
  adjust,
}
use keyzori.Infrastructure.MeterRepository.Posting.{posted}
use keyzori.Infrastructure.MeterRepository.Consume.{
  consume_new-cases, consume_fresh-cases, consume-cases,
}
use keyzori.Infrastructure.MeterRepository.Adjust.{adjust_cases, adjust_found-cases}
use keyzori.Infrastructure.MeterRepository.Archive.{
  archive_active-cases, archive_meter-cases, create-cases,
}
use keyzori.Infrastructure.MeterRepository.History.{Step, creates, archives, consumes, adjusts}

-- Nothing; an update that keeps identifiers and names, with an entry for an event that is new to
-- the ledger; or a new meter with such an entry.
pub data Change (db : Database) : Database → Type 0 where
  unchanged : Change db db
  posts :
      (p : LicenseMeter → Bool) (f : LicenseMeter → LicenseMeter) (e : UsageLedgerEntry)
      → ((m : LicenseMeter) → (f m).id ≡ m.id)
      → ((m : LicenseMeter) → (f m).name ≡ m.name)
      → any (same_entry e) db.ledger ≡ false
      → Change db (posted p f e db)
  opens :
      (m : LicenseMeter) (e : UsageLedgerEntry)
      → any (same_meter m) db.meters ≡ false
      → any (same_entry e) db.ledger ≡ false
      → Change db (record db { meters = m ∷ db.meters; ledger = e ∷ db.ledger })

consumes-Change :
    (sha256 : String → String) (license_id meter_name : String) (units : ℕ) (event_id : String)
    (draws : Draws) (now : ℕ) (db db' : Database) (r : UsageConsumptionResult)
    → consume_units sha256 license_id meter_name units event_id draws now db ≡ ok (r, db')
    → Change db db'
consumes-Change sha256 license_id meter_name units event_id draws now db db' r h =
    elim (consume-cases sha256 license_id meter_name units event_id draws now db db' r h) [
      | inl (_, _, _, e) ↦ rw e unchanged
      | inr (_, fresh) ↦
          elim (consume_fresh-cases license_id meter_name units (sha256 event_id) draws now db db' r
            fresh) [
              | inl (e, _) ↦ rw e unchanged
              | inr (m, _, _, post) ↦
                  elim (consume_new-cases license_id m units (sha256 event_id) draws now db db' r
                    post) [
                      | inl (_, e, _) ↦ rw e unchanged
                      | inr (row, _, (_, e, _, new)) ↦
                          rw e (posts _ _ _ (λ m. refl) (λ m. refl) new)
                    ]
            ]
    ]

adjusts-Change :
    (license_id meter_name : String) (delta : ℤ) (reason : String) (kind : MeterLedgerKind)
    (draws : Draws) (now : ℕ) (db db' : Database) (r : MeterAdjustmentResult)
    → adjust license_id meter_name delta reason kind draws now db ≡ ok (r, db')
    → Change db db'
adjusts-Change license_id meter_name delta reason kind draws now db db' r h =
    elim (adjust_cases license_id meter_name delta reason kind draws now db db' r h) [
      | inl (e, _) ↦ rw e unchanged
      | inr (m, _, found) ↦
          elim (adjust_found-cases license_id m delta reason kind draws now db db' r found) [
            | inl (_, e, _) ↦ rw e unchanged
            | inr (row, _, (_, e, _, new)) ↦ rw e (posts _ _ _ (λ m. refl) (λ m. refl) new)
          ]
    ]

archives-Change :
    (license_id name reason : String) (draws : Draws) (now : ℕ) (db db' : Database)
    (r : Option LicenseMeter)
    → archive_meter license_id name reason draws now db ≡ ok (r, db')
    → Change db db'
archives-Change license_id name reason draws now db db' r h =
    elim (archive_meter-cases license_id name reason draws now db db' r h) [
      | inl e ↦ rw e unchanged
      | inr h' ↦ elim (archive_active-cases license_id name reason draws now db db' r h') [
        | inl e ↦ rw e unchanged
        | inr (row, _, e, _, new) ↦ rw e (posts _ _ _ (λ m. refl) (λ m. refl) new)
      ]
    ]

pub Step-Change :
    {sha256 : String → String} {db db' : Database} → Step sha256 db db' → Change db db'
Step-Change (creates license_id name balance reason draws now m h) =
    let (_, e, new_meter, new_entry, _) =
      create-cases license_id name balance reason draws now _ _ m h in
    rw e (opens m _ new_meter new_entry)
Step-Change (archives license_id name reason draws now r h) =
    archives-Change license_id name reason draws now _ _ r h
Step-Change {sha256} (consumes license_id meter_name units event_id draws now r h) =
    consumes-Change sha256 license_id meter_name units event_id draws now _ _ r h
Step-Change (adjusts license_id meter_name delta reason kind draws now r h) =
    adjusts-Change license_id meter_name delta reason kind draws now _ _ r h
