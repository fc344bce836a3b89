-- ===== src/Infrastructure/Redis.antt =====
-- What the session scripts use of Redis, a service that is not part of the repository: its commands
-- on string and set keys, with the answers that its documentation promises while no key expires.
use keyzori.Prelude.{
  ℕ, suc, leb, ◌<◌, ◌≡◌, ◌≢◌, String, List, [], ◌∷◌, Bool, false, ◌==◌, ◌||◌, ◌&&◌, not, Option,
  none, some, if◌then◌else◌, length,
}
use keyzori.Domain.Decimal.{show_decimal}

unfoldable pub elem : String → List String → Bool
elem x [] = false
elem x (y ∷ ys) = y == x || elem x ys

pub record Redis : Type 1 where
  -- The keys with their values.
  pub Store : Type 0
  -- GET key, SMEMBERS key.
  pub get : Store → String → Option String
  pub members : Store → String → List String
  -- SET key value EX ttl, DEL key, EXPIRE key ttl, SADD key member, SREM key member.
  pub set_ex : String → String → ℕ → Store → Store
  pub del : String → Store → Store
  pub expire : String → ℕ → Store → Store
  pub sadd : String → String → Store → Store
  pub srem : String → String → Store → Store
  -- The scripts' Lua: whether `tonumber(text)` is a number, and one that is not below the other.
  pub reaches : String → ℕ → Bool
  pub reaches-show : (n m : ℕ) → reaches (show_decimal n) m ≡ leb m n
  pub get-set_ex :
      (k j v : String) (ttl : ℕ) (s : Store)
      → 0 < ttl
      → get (set_ex k v ttl s) j ≡ (if k == j then some v else get s j)
  pub members-set_ex :
      (k j v : String) (ttl : ℕ) (s : Store) → k ≢ j → members (set_ex k v ttl s) j ≡ members s j
  pub get-del : (k j : String) (s : Store) → get (del k s) j ≡ (if k == j then none else get s j)
  pub members-del :
      (k j : String) (s : Store) → members (del k s) j ≡ (if k == j then [] else members s j)
  pub get-expire : (k j : String) (ttl : ℕ) (s : Store) → 0 < ttl → get (expire k ttl s) j ≡ get s j
  pub members-expire :
      (k j : String) (ttl : ℕ) (s : Store) → 0 < ttl → members (expire k ttl s) j ≡ members s j
  pub get-sadd : (k j m : String) (s : Store) → k ≢ j → get (sadd k m s) j ≡ get s j
  pub elem-sadd :
      (k j m x : String) (s : Store)
      → elem x (members (sadd k m s) j) ≡ ((k == j && m == x) || elem x (members s j))
  pub card-sadd :
      (k m : String) (s : Store)
      → length (members (sadd k m s) k)
        ≡ (if elem m (members s k) then length (members s k) else suc (length (members s k)))
  pub get-srem : (k j m : String) (s : Store) → k ≢ j → get (srem k m s) j ≡ get s j
  pub elem-srem :
      (k j m x : String) (s : Store)
      → elem x (members (srem k m s) j) ≡ (elem x (members s j) && not (k == j && m == x))
