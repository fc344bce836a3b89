-- ===== src/Infrastructure/MeterRepository/Refused.antt =====
-- What the answers of `consume` of DrizzleMeterRepository.ts other than `consumed` leave.
use keyzori.Prelude.{ℕ, ◌≡◌, ◌⊎◌, inl, inr, String}
use keyzori.Domain.Entities.{LicenseMeter, UsageLedgerEntry}
use keyzori.Domain.Errors.{ok}
use keyzori.Infrastructure.Database.{Database}
use keyzori.Infrastructure.MeterRepository.{UsageConsumptionResult, consumed, Draws, consume_units}
use keyzori.Infrastructure.MeterRepository.Consume.{
  consume_new-cases, consume_fresh-cases, consume-cases,
}

-- A consumption that is not answered by `consumed` writes nothing.
pub consume_inert :
    (sha256 : String → String) (license_id meter_name : String) (units : ℕ) (event_id : String)
    (draws : Draws) (now : ℕ) (db db' : Database) (r : UsageConsumptionResult)
    → consume_units sha256 license_id meter_name units event_id draws now db ≡ ok (r, db')
    → ((m : LicenseMeter) × (e : UsageLedgerEntry) × (r ≡ consumed m e)) ⊎ (db' ≡ db)
consume_inert sha256 license_id meter_name units event_id draws now db db' r h =
    elim (consume-cases sha256 license_id meter_name units event_id draws now db db' r h) [
      | inl (found, _, _, same) ↦ inr same
      | inr (_, fresh) ↦
          elim (consume_fresh-cases license_id meter_name units (sha256 event_id) draws now db db' r
            fresh) [
              | inl (same, _) ↦ inr same
              | inr (meter, _, _, post) ↦
                  elim (consume_new-cases license_id meter units (sha256 event_id) draws now db db'
                    r post) [
                      | inl (_, same, _) ↦ inr same
                      | inr (row, _, (answer, _, _, _)) ↦ inl (_, _, answer)
                    ]
            ]
    ]
