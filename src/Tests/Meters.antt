-- ===== src/Tests/Meters.antt =====
-- DrizzleMeterRepository.ts on a small database.
use keyzori.Prelude.{
  select, true, ◌+◌, false, ◌≡◌, refl, arith, none, some, [], ◌∷◌, String, inl, update, find, any,
}
use keyzori.Domain.Entities.{LicenseMeter, UsageLedgerEntry, metered, JsonObject}
use keyzori.Domain.Errors.{ok}
use keyzori.Infrastructure.Database.{Database, same_entry, insert_entry}
use keyzori.Infrastructure.MeterRepository.{
  Draws, consume_units, consumed, replayed, conflict, existing_usage, named, consume_row,
  consume_entry, covers, create_entry, new_meter, consume_fresh, consume_new, archive_meter,
}
use keyzori.Infrastructure.MeterRepository.Remaining.{in_use, archive_keeps_one}
use keyzori.Infrastructure.MeterRepository.Posting.{posted}
use keyzori.Infrastructure.MeterRepository.Ledger.{IsConsistent, credits, debits}
use keyzori.Infrastructure.MeterRepository.History.{
  History, start, after, consumes, History-IsConsistent,
}
use keyzori.Infrastructure.MeterRepository.Consumed.{consumed_exactly}
use keyzori.Infrastructure.MeterRepository.Idempotence.{consume_once, reuse_conflicts}
use keyzori.Tests.Status.{columns_of}

abbrev pub draws_of : String → Draws
draws_of x = record { meter_id = "m1"; entry_id = x; event_uuid = x }

abbrev exports : LicenseMeter
exports = new_meter "l1" "exports" 10 (draws_of "e0") 1

abbrev pub small : Database
small = record {
  customers =
      record {
        id = "c1";
        email = "ada@example.com";
        name = "Ada";
        metadata = JsonObject.end;
        created_at = 1;
        updated_at = 1;
      }
      ∷ [];
  licenses = record { columns = columns_of metered; key_hash = "h1" } ∷ [];
  ip_entries = [];
  device_entries = [];
  devices = [];
  meters = exports ∷ [];
  ledger = create_entry "l1" exports "start" (draws_of "e0") 1 ∷ [];
  stripe_links = [];
}

pub small-IsConsistent : IsConsistent small
unfolding credits debits any
small-IsConsistent = record {
  balanced = omega arith;
  bounded = omega arith;
  distinct = (refl, tt);
  sound = omega arith;
  referenced = (refl, tt);
}

abbrev hash : String → String
hash s = s

abbrev three_left : LicenseMeter
three_left = consume_row 7 5 exports

abbrev seven_taken : UsageLedgerEntry
seven_taken = consume_entry "l1" "m1" three_left 7 "ev" (draws_of "e1") 5

abbrev spent : Database
spent = record small { meters = three_left ∷ []; ledger = seven_taken ∷ small.ledger }

spends :
    consume_units hash "l1" "exports" 7 "ev" (draws_of "e1") 5 small
    ≡ ok (consumed three_left seven_taken, spent)
unfolding consume_units consume_fresh consume_new insert_entry existing_usage find update any
spends = refl

abbrev history : History hash small spent
history = after start (consumes "l1" "exports" 7 "ev" (draws_of "e1") 5 _ spends)

History-IsConsistent_example : IsConsistent spent
History-IsConsistent_example = History-IsConsistent small-IsConsistent history

consumed_exactly_example :
    (row : LicenseMeter) × (find (named "l1" "exports") small.meters ≡ some row)
    × (row.archived_at ≡ none)
    × (three_left.balance + 7 ≡ row.balance)
    × (three_left ≡ consume_row 7 5 row)
    × (seven_taken ≡ consume_entry "l1" row.id three_left 7 "ev" (draws_of "e1") 5)
    × (spent ≡ posted (covers row.id 7) (consume_row 7 5) seven_taken small)
    × (any (same_entry seven_taken) small.ledger ≡ false)
consumed_exactly_example =
    consumed_exactly hash "l1" "exports" 7 "ev" (draws_of "e1") 5 small spent three_left seven_taken
      small-IsConsistent spends

consume_once_example :
    (n : LicenseMeter) × (consume_units hash "l1" "exports" 7 "ev" (draws_of "e2") 9 spent
      ≡ ok (replayed n seven_taken, spent))
    × (n.balance ≡ three_left.balance)
    × (n.name ≡ three_left.name)
consume_once_example =
    consume_once hash "l1" "exports" 7 "ev" (draws_of "e1") (draws_of "e2") 5 9 small spent spent
      three_left seven_taken small-IsConsistent spends start

reuse_conflicts_example :
    consume_units hash "l1" "exports" 2 "ev" (draws_of "e2") 9 spent ≡ ok (conflict, spent)
reuse_conflicts_example =
    reuse_conflicts hash "l1" "exports" "exports" 7 2 "ev" (draws_of "e1") (draws_of "e2") 5 9 small
      spent spent three_left seven_taken small-IsConsistent spends start (inl (omega arith))

archive_keeps_one_example : any (in_use "l1") small.meters ≡ true
archive_keeps_one_example =
    archive_keeps_one "l1" "exports" "unused" (draws_of "e1") 5 small small (some exports)
      (record { columns = columns_of metered; key_hash = "h1" }) (unfold any in (refl, tt))
      (unfold find in refl) refl (unfold any in refl) (unfold archive_meter find select in refl)
