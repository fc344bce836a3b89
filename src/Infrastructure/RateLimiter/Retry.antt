-- ===== src/Infrastructure/RateLimiter/Retry.antt =====
-- What the rate limiter of ratelimit.ts promises: the limit, and the time after which to come back.
use keyzori.Prelude.{
  ℕ, ◌+◌, ◌*◌, ◌-◌, ◌<◌, ◌≤◌, ◌≡◌, refl, ap, ◌∙◌, String, List, [], ◌∷◌, Bool, true, false, leb,
  eqb, length, remove, any, difference, arith, leb→le, Bool-cases, Option-cases, inl, inr,
}
use keyzori.Domain.Text.{concat}
use keyzori.Domain.Decimal.{show_decimal}
use keyzori.Infrastructure.SortedSets.{SortedSets, Scored, at_most}
use keyzori.Infrastructure.RateLimiter.{consume_request, window_ms, retry_after, whole_seconds}

length-remove : (p : Scored → Bool) (es : List Scored) → length (remove p es) ≤ length es
unfolding remove
length-remove p [] = omega arith
length-remove p (e ∷ es) = ground (arith, length-remove p es)

-- A removal that an entry meets takes one at least.
length-remove-any :
    (p q : Scored → Bool) (es : List Scored)
    → ((e : Scored) → q e ≡ true → p e ≡ true)
    → any q es ≡ true
    → length (remove p es) < length es
unfolding remove any
length-remove-any p q [] h here = absurd cc
length-remove-any p q (e ∷ es) h here =
    ground (arith, length-remove p es, length-remove-any p q es h, h e)

seconds_enough : (ms : ℕ) → ms ≤ whole_seconds ms * 1000
seconds_enough ms = ground arith

-- A request of that time is out of the window.
expired :
    (e : Scored) (t now : ℕ)
    → e.score ≡ t
    → t + window_ms ≤ now
    → at_most (difference now window_ms) e ≡ true
expired e t now h late = ground arith

below : (a b : ℕ) → leb a b ≡ false → b < a
below a b h = ground arith

module _ (redis : SortedSets) (key : String) (limit : ℕ) where
  abbrev pub count : redis.Store → ℕ
  count s = length (redis.entries s key)

  abbrev pub purged : ℕ → redis.Store → redis.Store
  purged now s = redis.zremrangebyscore key (difference now window_ms) s

  count-purged : (now : ℕ) (s : redis.Store) → count (purged now s) ≤ count s
  count-purged now s =
      let e = redis.entries-zremrangebyscore key (difference now window_ms) s in
      let fewer = length-remove (at_most (difference now window_ms)) (redis.entries s key) in
      rw e fewer

  -- A request leaves the set of a key within the limit.
  pub count-consume :
      (now : ℕ) (uuid : String) (s : redis.Store)
      → count s ≤ limit
      → count (consume_request redis key limit now uuid s).1 ≤ limit
  unfolding consume_request
  count-consume now uuid s h = elim (Bool-cases (leb limit (count (purged now s)))) [
    | inl full ↦
        let same = redis.entries-expire key 60 (purged now s) (omega arith) in
        rw (consume_request, full) (omega (arith, ap length same, count-purged now s))
    | inr room ↦
        let added =
          redis.zadd key now (concat (show_decimal now) (concat ":" uuid)) (purged now s) in
        let same = redis.entries-expire key 60 added (omega arith) in
        let more =
          redis.length-zadd key (concat (show_decimal now) (concat ":" uuid)) now (purged now s) in
        rw (consume_request, room) (omega (arith, ap length same, below _ _ room))
  ]

  -- What a refused request left.
  refused :
      (now : ℕ) (uuid : String) (s : redis.Store)
      → (consume_request redis key limit now uuid s).0.allowed ≡ false
      → (limit ≤ count (purged now s))
        × (redis.entries (consume_request redis key limit now uuid s).1 key
            ≡ redis.entries (purged now s) key)
        × ((consume_request redis key limit now uuid s).0.retry_after_seconds
            ≡ retry_after (redis.first (purged now s) key) now)
  unfolding consume_request
  refused now uuid s h = elim (Bool-cases (leb limit (count (purged now s)))) [
    | inl full ↦ (
      leb→le limit (count (purged now s)) full,
      rw (consume_request, full) (redis.entries-expire key 60 (purged now s) (omega arith)),
      rw (consume_request, full) refl,
    )
    | inr room ↦ let h' = rw (consume_request, room) at h in absurd cc
  ]

  -- A request that finds room is let in.
  let_in :
      (now : ℕ) (uuid : String) (s : redis.Store)
      → count (purged now s) < limit
      → (consume_request redis key limit now uuid s).0.allowed ≡ true
  unfolding consume_request
  let_in now uuid s room = elim (Bool-cases (leb limit (count (purged now s)))) [
    | inl full ↦ let le = leb→le limit (count (purged now s)) full in absurd (omega arith)
    | inr free ↦ rw (consume_request, free) refl
  ]

  -- The request that comes back is let in.
  retry_let_in :
      (now later : ℕ) (uuid uuid' : String) (s : redis.Store)
      → 0 < limit
      → count s ≤ limit
      → (consume_request redis key limit now uuid s).0.allowed ≡ false
      → now + (consume_request redis key limit now uuid s).0.retry_after_seconds * 1000 ≤ later
      → (consume_request redis key limit later uuid'
          (consume_request redis key limit now uuid s).1).0.allowed
        ≡ true
  retry_let_in now later uuid uuid' s positive within shut late =
      let (full, same, retry) = refused now uuid s shut in
      let after = (consume_request redis key limit now uuid s).1 in
      let cleared = redis.entries-zremrangebyscore key (difference later window_ms) after in
      let few = count-purged now s in
      elim (Option-cases (redis.first (purged now s) key)) [
        | inl nothing ↦
            let empty = redis.first-none key (purged now s) nothing in
            let zero_left = ap length empty in absurd (omega arith)
        | inr (oldest, there) ↦
            let held = redis.first-some key (purged now s) oldest there in
            let wait : (consume_request redis key limit now uuid s).0.retry_after_seconds
                ≡ whole_seconds (oldest.score + window_ms - now) =
              retry ∙ rw there refl in
            let enough = seconds_enough (oldest.score + window_ms - now) in
            let out : (e : Scored)
                → eqb e.score oldest.score ≡ true
                → at_most (difference later window_ms) e ≡ true =
              λ e h. expired e oldest.score later (ground arith) (omega arith) in
            let fewer =
              length-remove-any (at_most (difference later window_ms))
                (λ f. eqb f.score oldest.score) (redis.entries (purged now s) key) out held in
            let_in later uuid' after (rw (cleared, same) (omega arith))
      ]

  -- If the set of a key is within the limit, a request that is refused says after how many seconds to
  -- come back: a request that comes then, or later, is let in, if no other has come in between. Both
  -- leave the set within the limit.
  pub retry_allowed :
      (now later : ℕ) (uuid uuid' : String) (s : redis.Store)
      → 0 < limit
      → count s ≤ limit
      → (consume_request redis key limit now uuid s).0.allowed ≡ false
      → now + (consume_request redis key limit now uuid s).0.retry_after_seconds * 1000 ≤ later
      → ((consume_request redis key limit later uuid'
            (consume_request redis key limit now uuid s).1).0.allowed
          ≡ true)
        × (count (consume_request redis key limit now uuid s).1 ≤ limit)
        × (count
              (consume_request redis key limit later uuid'
                (consume_request redis key limit now uuid s).1).1
            ≤ limit)
  retry_allowed now later uuid uuid' s positive within shut late =
      let kept = count-consume now uuid s within in
      let after = (consume_request redis key limit now uuid s).1 in
      (
        retry_let_in now later uuid uuid' s positive within shut late,
        kept,
        count-consume later uuid' after kept,
      )
