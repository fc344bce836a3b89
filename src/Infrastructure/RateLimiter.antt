-- ===== src/Infrastructure/RateLimiter.antt =====
-- apps/server/src/plugins/ratelimit.ts: a sliding window of a minute in a sorted set of Redis. The
-- random part of a member is an argument.
pub mod Retry
use keyzori.Prelude.{
  ℕ, ◌+◌, ◌-◌, ◌/◌, String, List, [], Bool, true, false, ltb, leb, Option, none, some, length,
  difference, if◌then◌else◌,
}
use keyzori.Domain.Text.{concat}
use keyzori.Domain.Decimal.{show_decimal}
use keyzori.Infrastructure.SortedSets.{SortedSets, Scored}

-- WINDOW_MS and WINDOW_EXPIRY_SECONDS.
abbrev pub window_ms : ℕ
window_ms = 60000

abbrev pub window_expiry_seconds : ℕ
window_expiry_seconds = 60

pub record RateLimitResult : Type 0 where
  pub allowed : Bool
  pub retry_after_seconds : ℕ

-- `math.max(1, math.ceil(ms / 1000))`; no time, or less, is a second.
abbrev pub whole_seconds : ℕ → ℕ
whole_seconds ms = if ltb ms 1 then 1 else (ms + 999) / 1000

-- `retryAfter`, for the oldest request.
abbrev pub retry_after : Option Scored → ℕ → ℕ
retry_after none now = 1
retry_after (some oldest) now = whole_seconds (oldest.score + window_ms - now)

module _ (redis : SortedSets) where
  -- The script, and `consume`.
  unfoldable pub consume_request :
      String → ℕ → ℕ → String → redis.Store → RateLimitResult × redis.Store
  consume_request key limit now uuid s =
      let purged = redis.zremrangebyscore key (difference now window_ms) s in
      let member = concat (show_decimal now) (concat ":" uuid) in
      if leb limit (length (redis.entries purged key))
      then (
        record { allowed = false; retry_after_seconds = retry_after (redis.first purged key) now },
        redis.expire key window_expiry_seconds purged,
      )
      else (
        record { allowed = true; retry_after_seconds = 0 },
        redis.expire key window_expiry_seconds (redis.zadd key now member purged),
      )
