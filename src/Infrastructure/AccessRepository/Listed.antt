-- ===== src/Infrastructure/AccessRepository/Listed.antt =====
-- The allow list of addresses of a license, as DrizzleAccessRepository.ts stores it, is a set.
use keyzori.Prelude.{
  ℕ, ◌≡◌, sym, ap, subst, ◌∙◌, String, List, [], ◌∷◌, Bool, true, not, ◌&&◌, ◌||◌, ◌==◌, some, find,
  any, remove, any-find, eq_iff, arith, Bool-cases, Option-cases, inl, inr,
}
use keyzori.Domain.Entities.{IpAllowlistEntry}
use keyzori.Domain.Errors.{Result, ok, ◌>>=◌, >>=-eq-ok}
use keyzori.Infrastructure.Database.{Database}
use keyzori.Infrastructure.AccessRepository.{add_allowed_ip, remove_allowed_ip, allows_ip}

-- An operation on the list.
pub data ListChange : Type 0 where
  adds : String → String → ℕ → ListChange
  removes : String → ListChange

abbrev pub apply_change : String → ListChange → Database → Result Database
apply_change id (adds ip entry_id now) db = do
  added ← add_allowed_ip id ip entry_id now db
  ok added.1
apply_change id (removes ip) db = let (removed, left) = remove_allowed_ip id ip db in ok left

unfoldable pub apply_changes : String → List ListChange → Database → Result Database
apply_changes id [] db = ok db
apply_changes id (c ∷ cs) db = do next ← apply_change id c db; apply_changes id cs next

-- The specification: a set of addresses.
abbrev pub change_set : ListChange → (String → Bool) → String → Bool
change_set (adds ip entry_id now) set x = ip == x || set x
change_set (removes ip) set x = not (ip == x) && set x

unfoldable pub change_sets : List ListChange → (String → Bool) → String → Bool
change_sets [] set x = set x
change_sets (c ∷ cs) set x = change_sets cs (change_set c set) x

-- The set that the rows stand for.
abbrev pub listed : String → Database → String → Bool
listed id db x = any (allows_ip id x) db.ip_entries

any-remove :
    (id other ip x : String) (es : List IpAllowlistEntry)
    → any (allows_ip other x) (remove (allows_ip id ip) es)
      ≡ (not (id == other && ip == x) && any (allows_ip other x) es)
unfolding any remove
any-remove id other ip x [] = ground arith
any-remove id other ip x (e ∷ es) = ground (
  arith,
  any-remove id other ip x es,
  eq_iff e.license_id id,
  eq_iff e.license_id other,
  eq_iff e.ip ip,
  eq_iff e.ip x,
  eq_iff id other,
  eq_iff ip x,
)

already_listed :
    (id other ip x : String) (db : Database) (e : IpAllowlistEntry)
    → find (allows_ip id ip) db.ip_entries ≡ some e
    → listed other db x ≡ ((id == other && ip == x) || listed other db x)
already_listed id other ip x db e h =
    let here = any-find (allows_ip id ip) db.ip_entries e h in
    elim (Bool-cases (id == other && ip == x)) [
      | inr differs ↦ ground arith
      | inl same ↦
          let ids : id ≡ other = ground (arith, eq_iff id other) in
          let ips : ip ≡ x = ground (arith, eq_iff ip x) in
          let there : listed other db x ≡ true =
            subst (λ o. listed o db x ≡ true) ids (subst (λ i. listed id db i ≡ true) ips here) in
          ground arith
    ]

add-listed :
    (id other ip x entry_id : String) (now : ℕ) (db db' : Database) (e : IpAllowlistEntry)
    → add_allowed_ip id ip entry_id now db ≡ ok (e, db')
    → listed other db' x ≡ ((id == other && ip == x) || listed other db x)
unfolding add_allowed_ip any
add-listed id other ip x entry_id now db db' e h =
    elim (Option-cases (find (allows_ip id ip) db.ip_entries)) [
      | inl missing ↦ ground arith
      | inr (old, there) ↦
          let h' = rw (add_allowed_ip, there) at h in
          let same : db ≡ db' = ground arith in
          subst (λ d. listed other d x ≡ ((id == other && ip == x) || listed other db x)) same
            (already_listed id other ip x db old there)
    ]

change-listed :
    (id x : String) (c : ListChange) (db db' : Database)
    → apply_change id c db ≡ ok db'
    → listed id db' x ≡ change_set c (listed id db) x
unfolding remove_allowed_ip
change-listed id x (adds ip entry_id now) db db' h =
    let (added, made, rest) = >>=-eq-ok (add_allowed_ip id ip entry_id now db) _ h in
    let own = add-listed id id ip x entry_id now db added.1 added.0 made in
    let same : added.1 ≡ db' = cc in ground (arith, eq_iff id id)
change-listed id x (removes ip) db db' h =
    let own = any-remove id id ip x db.ip_entries in ground (arith, eq_iff id id)

change_sets-cong :
    (cs : List ListChange) (set set' : String → Bool) (x : String)
    → ((y : String) → set y ≡ set' y)
    → change_sets cs set x ≡ change_sets cs set' x
unfolding change_sets
change_sets-cong [] set set' x h = h x
change_sets-cong (adds ip entry_id now ∷ cs) set set' x h =
    change_sets-cong cs _ _ x (λ y. ap (λ b. ip == y || b) (h y))
change_sets-cong (removes ip ∷ cs) set set' x h =
    change_sets-cong cs _ _ x (λ y. ap (λ b. not (ip == y) && b) (h y))

-- Whatever addresses are added to the allow list of a license and removed from it, in whatever order,
-- with additions of listed and removals of unlisted addresses among them: the rows stand for the set
-- that these changes make of the set that they stood for.
pub apply_changes-listed :
    (id : String) (cs : List ListChange) (db db' : Database)
    → apply_changes id cs db ≡ ok db'
    → (x : String) → listed id db' x ≡ change_sets cs (listed id db) x
unfolding apply_changes change_sets
apply_changes-listed id [] db db' h x =
    let same : db ≡ db' = cc in ap (λ d. listed id d x) (sym same)
apply_changes-listed id (c ∷ cs) db db' h x =
    let (next, first, rest) = >>=-eq-ok (apply_change id c db) _ h in
    apply_changes-listed id cs next db' rest x
    ∙ change_sets-cong cs _ _ x (λ y. change-listed id y c db next first)
