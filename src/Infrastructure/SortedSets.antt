-- ===== src/Infrastructure/SortedSets.antt =====
-- What the rate limiter's script uses of Redis's sorted sets, a service that is not part of the
-- repository, with the answers that its documentation promises while no key expires.
use keyzori.Prelude.{
  ℕ, suc, ◌<◌, ◌≤◌, ◌≡◌, String, List, [], Bool, false, leb, eqb, Option, none, some, ℤ, pos,
  negsuc, length, remove, any,
}

pub record Scored : Type 0 where
  pub score : ℕ
  pub member : String

-- A score from 0 to the maximum.
abbrev pub at_most : ℤ → Scored → Bool
at_most (pos maximum) e = leb e.score maximum
at_most (negsuc n) e = false

pub record SortedSets : Type 1 where
  pub Store : Type 0
  -- The members of a key's set with their scores, and the first of them (ZRANGE key 0 0 WITHSCORES).
  pub entries : Store → String → List Scored
  pub first : Store → String → Option Scored
  -- ZREMRANGEBYSCORE key 0 maximum, ZADD key score member, EXPIRE key ttl.
  pub zremrangebyscore : String → ℤ → Store → Store
  pub zadd : String → ℕ → String → Store → Store
  pub expire : String → ℕ → Store → Store
  pub entries-zremrangebyscore :
      (k : String) (maximum : ℤ) (s : Store)
      → entries (zremrangebyscore k maximum s) k ≡ remove (at_most maximum) (entries s k)
  pub length-zadd :
      (k m : String) (score : ℕ) (s : Store)
      → length (entries (zadd k score m s) k) ≤ suc (length (entries s k))
  pub entries-expire :
      (k : String) (ttl : ℕ) (s : Store) → 0 < ttl → entries (expire k ttl s) k ≡ entries s k
  pub first-none : (k : String) (s : Store) → first s k ≡ none → entries s k ≡ []
  pub first-some :
      (k : String) (s : Store) (e : Scored)
      → first s k ≡ some e
      → any (λ f. eqb f.score e.score) (entries s k) ≡ Bool.true
