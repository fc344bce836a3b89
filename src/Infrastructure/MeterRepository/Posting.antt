-- ===== src/Infrastructure/MeterRepository/Posting.antt =====
-- A write of DrizzleMeterRepository.ts that updates the meters and enters it in the ledger keeps the
-- two consistent, if the entry says what the update did.
use keyzori.Prelude.{
  ◌≤◌, ◌≡◌, List, [], ◌∷◌, Bool, true, false, ◌==◌, arith, update, any, All, All-update, All-map,
  any-update, Bool-cases, ◌∙◌, ap, inl, inr,
}
use keyzori.Domain.Entities.{LicenseMeter, UsageLedgerEntry}
use keyzori.Domain.Errors.{ok, max_license_limit}
use keyzori.Infrastructure.Database.{Database, insert_meter, insert_entry, same_meter, same_entry}
use keyzori.Infrastructure.MeterRepository.Ledger.{
  credits, debits, IsBalanced, IsSound, Distinct, has_meter, IsConsistent,
}

Distinct-update :
    (p : LicenseMeter → Bool) (f : LicenseMeter → LicenseMeter) (ms : List LicenseMeter)
    → ((m : LicenseMeter) → (f m).id ≡ m.id)
    → Distinct ms
    → Distinct (update p f ms)
unfolding update
Distinct-update p f [] h d = tt
Distinct-update p f (m ∷ ms) h d = (
  elim (Bool-cases (p m)) [
    | inl e ↦ rw (e, h m) (any-update (λ n. n.id == m.id) p f ms (λ n. rw (h n)) ∙ d.0)
    | inr e ↦ rw e (any-update (λ n. n.id == m.id) p f ms (λ n. rw (h n)) ∙ d.0)
  ],
  Distinct-update p f ms h d.1,
)

referenced-update :
    (p : LicenseMeter → Bool) (f : LicenseMeter → LicenseMeter) (ms : List LicenseMeter)
    (es : List UsageLedgerEntry)
    → ((m : LicenseMeter) → (f m).id ≡ m.id)
    → All (λ e. has_meter ms e ≡ true) es
    → All (λ e. has_meter (update p f ms) e ≡ true) es
referenced-update p f ms es h =
    All-map (λ e. has_meter ms e ≡ true) (λ e. has_meter (update p f ms) e ≡ true) es
      λ e r. any-update (λ m. m.id == e.meter_id) p f ms (λ m. rw (h m)) ∙ r

-- An update of the meters, and the entry for it.
module _ (p : LicenseMeter → Bool) (f : LicenseMeter → LicenseMeter) (e : UsageLedgerEntry)
    (db : Database) where
  abbrev pub posted : Database
  posted = record db { meters = update p f db.meters; ledger = e ∷ db.ledger }

  pub posted-IsConsistent :
      IsConsistent db
      → ((m : LicenseMeter) → (f m).id ≡ m.id)
      → ((m : LicenseMeter)
          → p m ≡ true
          → IsBalanced db.ledger m
          → IsBalanced (e ∷ db.ledger) (f m))
      → ((m : LicenseMeter) → p m ≡ false → IsBalanced db.ledger m → IsBalanced (e ∷ db.ledger) m)
      → ((m : LicenseMeter)
          → p m ≡ true
          → m.balance ≤ max_license_limit
          → (f m).balance ≤ max_license_limit)
      → IsSound e
      → has_meter db.meters e ≡ true
      → IsConsistent posted
  posted-IsConsistent c keeps hit miss fits sound meter = record {
    balanced =
        All-update (IsBalanced db.ledger) (IsBalanced (e ∷ db.ledger)) p f db.meters hit miss
          c.balanced;
    bounded =
        All-update (λ m. m.balance ≤ max_license_limit) (λ m. m.balance ≤ max_license_limit) p f
          db.meters fits (λ m _ h. h) c.bounded;
    distinct = Distinct-update p f db.meters keeps c.distinct;
    sound = (sound, c.sound);
    referenced = (
      any-update (λ m. m.id == e.meter_id) p f db.meters (λ m. rw (keeps m)) ∙ meter,
      referenced-update p f db.meters db.ledger keeps c.referenced,
    );
  }

pub insert_entry-eq-ok :
    (e : UsageLedgerEntry) (db db' : Database)
    → insert_entry e db ≡ ok db'
    → (has_meter db.meters e ≡ true)
      × (db' ≡ record db { ledger = e ∷ db.ledger })
      × (any (same_entry e) db.ledger ≡ false)
unfolding insert_entry
insert_entry-eq-ok e db db' h = ground arith

pub insert_meter-eq-ok :
    (m : LicenseMeter) (db db' : Database)
    → insert_meter m db ≡ ok db'
    → (any (same_meter m) db.meters ≡ false)
      × (m.balance ≤ max_license_limit)
      × (db' ≡ record db { meters = m ∷ db.meters })
unfolding insert_meter
insert_meter-eq-ok m db db' h = ground arith

-- Rows of one identifier have one balance.
pub same_balance :
    (es : List UsageLedgerEntry) (m n : LicenseMeter)
    → IsBalanced es m
    → IsBalanced es n
    → m.id ≡ n.id
    → m.balance ≡ n.balance
same_balance es m n b c e = omega (arith, ap (λ id. credits id es) e, ap (λ id. debits id es) e)
