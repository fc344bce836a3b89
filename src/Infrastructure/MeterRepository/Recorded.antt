-- ===== src/Infrastructure/MeterRepository/Recorded.antt =====
-- An event that the ledger has for a license stays in it.
use keyzori.Prelude.{
  ◌≡◌, subst, any-or_left, find-update, refl, String, List, [], ◌∷◌, Bool, true, false, ◌==◌, ◌&&◌,
  eq_iff, if◌then◌else◌, arith, find, update, any, All, some,
}
use keyzori.Domain.Entities.{LicenseMeter, UsageLedgerEntry}
use keyzori.Infrastructure.Database.{Database, same_entry}
use keyzori.Infrastructure.MeterRepository.Ledger.{has_meter, IsConsistent}
use keyzori.Infrastructure.MeterRepository.{existing_usage}
use keyzori.Infrastructure.MeterRepository.Changes.{Change, unchanged, posts, opens, Step-Change}
use keyzori.Infrastructure.MeterRepository.History.{History, start, after, History-IsConsistent}

-- The ledger's first entry for an event is for the event.
existing_usage-holds :
    (license_id event_id : String) (es : List UsageLedgerEntry) (ms : List LicenseMeter)
    (e : UsageLedgerEntry) (m : LicenseMeter)
    → existing_usage license_id event_id es ms ≡ some (e, m)
    → (e.license_id ≡ license_id)
      × (e.event_id ≡ event_id)
      × (find (λ n. n.id == e.meter_id) ms ≡ some m)
unfolding existing_usage
existing_usage-holds license_id event_id [] ms e m h = cc
existing_usage-holds license_id event_id (f ∷ es) ms e m h = ground (
  arith,
  eq_iff f.license_id license_id,
  eq_iff f.event_id event_id,
  existing_usage-holds license_id event_id es ms e m,
)

-- An event of the ledger bars another entry with it.
pub existing_usage-any :
    (license_id event_id : String) (es : List UsageLedgerEntry) (ms : List LicenseMeter)
    (r : UsageLedgerEntry × LicenseMeter)
    → existing_usage license_id event_id es ms ≡ some r
    → any (λ f. f.license_id == license_id && f.event_id == event_id) es ≡ true
unfolding existing_usage any
existing_usage-any license_id event_id [] ms r h = cc
existing_usage-any license_id event_id (f ∷ es) ms r h =
    ground (arith, existing_usage-any license_id event_id es ms r)

-- A new entry that passed the unique key is for another event.
new_entry-other :
    (g : UsageLedgerEntry) (license_id event_id : String) (es : List UsageLedgerEntry)
    → any (same_entry g) es ≡ false
    → any (λ f. f.license_id == license_id && f.event_id == event_id) es ≡ true
    → (g.license_id == license_id && g.event_id == event_id) ≡ false
unfolding any
new_entry-other g license_id event_id [] h k = cc
new_entry-other g license_id event_id (f ∷ es) h k = ground (
  arith,
  eq_iff g.license_id license_id,
  eq_iff g.event_id event_id,
  eq_iff f.license_id license_id,
  eq_iff f.event_id event_id,
  eq_iff f.license_id g.license_id,
  eq_iff f.event_id g.event_id,
  new_entry-other g license_id event_id es,
)

existing_usage-update :
    (p : LicenseMeter → Bool) (f : LicenseMeter → LicenseMeter) (license_id event_id : String)
    (es : List UsageLedgerEntry) (ms : List LicenseMeter) (e : UsageLedgerEntry) (m : LicenseMeter)
    → ((m : LicenseMeter) → (f m).id ≡ m.id)
    → existing_usage license_id event_id es ms ≡ some (e, m)
    → existing_usage license_id event_id es (update p f ms) ≡ some (e, if p m then f m else m)
unfolding existing_usage
existing_usage-update p f license_id event_id [] ms e m keeps h = cc
existing_usage-update p f license_id event_id (g ∷ es) ms e m keeps h = ground (
  arith,
  existing_usage-update p f license_id event_id es ms e m keeps,
  find-update (λ n. n.id == g.meter_id) p f ms (λ n. rw (keeps n)),
)

existing_usage-open :
    (n : LicenseMeter) (license_id event_id : String) (es : List UsageLedgerEntry)
    (ms : List LicenseMeter)
    → any (λ m. m.id == n.id) ms ≡ false
    → All (λ e. has_meter ms e ≡ true) es
    → existing_usage license_id event_id es (n ∷ ms) ≡ existing_usage license_id event_id es ms
unfolding existing_usage find
existing_usage-open n license_id event_id [] ms h r = refl
existing_usage-open n license_id event_id (g ∷ es) ms h r = ground (
  arith,
  existing_usage-open n license_id event_id es ms h r.1,
  eq_iff n.id g.meter_id,
  λ (same : n.id ≡ g.meter_id). subst (λ id. any (λ m. m.id == id) ms ≡ false) same h,
)

-- The event is in the ledger with its entry, for a meter of the name.
abbrev pub Kept : String → String → UsageLedgerEntry → String → Database → Type 0
Kept license_id event_id e name db =
    (m : LicenseMeter) × (existing_usage license_id event_id db.ledger db.meters ≡ some (e, m))
    × (m.name ≡ name)

Change-Kept :
    {db db' : Database} (license_id event_id : String) (e : UsageLedgerEntry) (name : String)
    → Change db db'
    → IsConsistent db
    → Kept license_id event_id e name db
    → Kept license_id event_id e name db'
unfolding existing_usage
Change-Kept license_id event_id e name unchanged c k = k
Change-Kept {db} license_id event_id e name (posts p f g keeps names new) c (m, found, same) = (
  if p m then f m else m,
  ground (
    arith,
    new_entry-other g license_id event_id db.ledger new
        (existing_usage-any license_id event_id db.ledger db.meters (e, m) found),
    existing_usage-update p f license_id event_id db.ledger db.meters e m keeps found,
  ),
  ground (arith, names m),
)
Change-Kept {db} license_id event_id e name (opens n g fresh new) c (m, found, same) = (
  m,
  ground (
    arith,
    new_entry-other g license_id event_id db.ledger new
        (existing_usage-any license_id event_id db.ledger db.meters (e, m) found),
    existing_usage-open n license_id event_id db.ledger db.meters
        (any-or_left (λ k. k.id == n.id) (λ k. k.license_id == n.license_id && k.name == n.name)
          db.meters fresh)
        c.referenced,
  ),
  same,
)

pub History-Kept :
    {sha256 : String → String} {db db' : Database} (license_id event_id : String)
    (e : UsageLedgerEntry) (name : String)
    → History sha256 db db'
    → IsConsistent db
    → Kept license_id event_id e name db
    → Kept license_id event_id e name db'
History-Kept license_id event_id e name start c k = k
History-Kept license_id event_id e name (after h s) c k =
    Change-Kept license_id event_id e name (Step-Change s) (History-IsConsistent c h)
      (History-Kept license_id event_id e name h c k)
