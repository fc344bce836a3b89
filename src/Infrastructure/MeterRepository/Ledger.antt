-- ===== src/Infrastructure/MeterRepository/Ledger.antt =====
-- The ledger as an account: what it credits and debits a meter with, and the invariant of the
-- meters with their ledger.
use keyzori.Prelude.{
  ℕ, ◌+◌, ◌≤◌, ◌≡◌, String, List, [], ◌∷◌, Bool, true, false, ◌==◌, eq_iff, if◌then◌else◌, arith,
  any, All, pos_part, neg_part,
}
use keyzori.Domain.Entities.{LicenseMeter, UsageLedgerEntry}
use keyzori.Domain.Errors.{max_license_limit}
use keyzori.Infrastructure.Database.{Database}

unfoldable pub credits : String → List UsageLedgerEntry → ℕ
credits id [] = 0
credits id (e ∷ es) = (if e.meter_id == id then pos_part e.delta else 0) + credits id es

unfoldable pub debits : String → List UsageLedgerEntry → ℕ
debits id [] = 0
debits id (e ∷ es) = (if e.meter_id == id then neg_part e.delta else 0) + debits id es

-- The balance of the meter is the sum of the deltas that the ledger has for it.
abbrev pub IsBalanced : List UsageLedgerEntry → LicenseMeter → Type 0
IsBalanced es m = m.balance + debits m.id es ≡ credits m.id es

-- The entry says what it did to the balance.
abbrev pub IsSound : UsageLedgerEntry → Type 0
IsSound e = e.balance_before + pos_part e.delta ≡ e.balance_after + neg_part e.delta

-- No later row has the identifier of the meter.
abbrev pub Distinct : List LicenseMeter → Type 0
Distinct [] = Unit
Distinct (m ∷ ms) = (any (λ n. n.id == m.id) ms ≡ false) × Distinct ms

abbrev pub has_meter : List LicenseMeter → UsageLedgerEntry → Bool
has_meter ms e = any (λ m. m.id == e.meter_id) ms

pub record IsConsistent (db : Database) : Type 0 where
  pub balanced : All (IsBalanced db.ledger) db.meters
  pub bounded : All (λ m. m.balance ≤ max_license_limit) db.meters
  pub distinct : Distinct db.meters
  pub sound : All IsSound db.ledger
  pub referenced : All (λ e. has_meter db.meters e ≡ true) db.ledger

-- A meter that no entry names has neither credits nor debits.
pub unreferenced :
    (id : String) (ms : List LicenseMeter) (es : List UsageLedgerEntry)
    → any (λ m. m.id == id) ms ≡ false
    → All (λ e. has_meter ms e ≡ true) es
    → (credits id es ≡ 0) × (debits id es ≡ 0)
unfolding credits debits
unreferenced id ms [] h r = (omega arith, omega arith)
unreferenced id ms (e ∷ es) h r = ground (arith, unreferenced id ms es h r.1, eq_iff e.meter_id id)
