-- ===== src/Tests/Limits.antt =====
-- The rate limiter on sorted sets in memory, and what is kept of an event.
use keyzori.Prelude.{
  ◌≡◌, ◌↔◌, ◌≤◌, refl, arith, String, List, [], ◌∷◌, ◌==◌, true, false, none, some, remove, any,
  eqb, Option, if◌then◌else◌, eq_iff,
}
use keyzori.Domain.Entities.{JsonObject, JsonValue}
use keyzori.Application.Activity.{ActivityEvent, license_revoked, operator, success, operator_text}
use keyzori.Application.ActivityService.{sanitize_details, capture_event}
use keyzori.Application.ActivityService.Clean.{
  IsClean, IsRecorded, stored_or_none, sanitize_details_lem, capture_event_lem,
}
use keyzori.Domain.Errors.{Result}
use keyzori.Infrastructure.SortedSets.{SortedSets, Scored, at_most}
use keyzori.Infrastructure.RateLimiter.{RateLimitResult, consume_request}
use keyzori.Infrastructure.RateLimiter.Retry.{count, retry_allowed}

abbrev head_of : List Scored → Option Scored
head_of [] = none
head_of (e ∷ es) = some e

head-none : (es : List Scored) → head_of es ≡ none → es ≡ []
head-none [] h = refl
head-none (e ∷ es) h = absurd cc

head-some :
    (es : List Scored) (e : Scored) → head_of es ≡ some e → any (λ f. eqb f.score e.score) es ≡ true
unfolding any
head-some [] e h = absurd cc
head-some (f ∷ fs) e h = let same : f ≡ e = cc in rw same (ground arith)

abbrev with_entries : String → List Scored → (String → List Scored) → String → List Scored
with_entries k es s j = if k == j then es else s j

same_key : (k : String) (es : List Scored) (s : String → List Scored) → with_entries k es s k ≡ es
same_key k es s = ground (arith, eq_iff k k)

abbrev lists : SortedSets
lists = record {
  Store = String → List Scored;
  entries = λ s k. s k;
  first = λ s k. head_of (s k);
  zremrangebyscore = λ k maximum s. with_entries k (remove (at_most maximum) (s k)) s;
  zadd = λ k score m s. with_entries k (record { score = score; member = m } ∷ s k) s;
  expire = λ k ttl s. s;
  entries-zremrangebyscore = λ k maximum s. same_key k (remove (at_most maximum) (s k)) s;
  length-zadd =
      λ k m score s. rw (same_key k (record { score = score; member = m } ∷ s k) s) (omega arith);
  entries-expire = λ k ttl s h. refl;
  first-none = λ k s h. head-none (s k) h;
  first-some = λ k s e h. head-some (s k) e h;
}

-- One request has been let in, and one is the limit.
abbrev busy : String → List Scored
busy k = record { score = 100000; member = "a" } ∷ []

refuses_second : (consume_request lists "ip" 1 130000 "u" busy).0.retry_after_seconds ≡ 30
unfolding consume_request remove
refuses_second = refl

refuses : (consume_request lists "ip" 1 130000 "u" busy).0.allowed ≡ false
unfolding consume_request remove
refuses = refl

abbrev once : RateLimitResult × (String → List Scored)
once = consume_request lists "ip" 1 130000 "u" busy

abbrev twice : RateLimitResult × (String → List Scored)
twice = consume_request lists "ip" 1 160000 "v" once.1

retry_allowed_example :
    (twice.0.allowed ≡ true) × (count lists "ip" 1 once.1 ≤ 1) × (count lists "ip" 1 twice.1 ≤ 1)
retry_allowed_example =
    retry_allowed lists "ip" 1 130000 160000 "u" "v" busy (omega arith) (omega arith) refuses
      (rw refuses_second (omega arith))

abbrev secret_details : JsonObject
secret_details =
    JsonObject.field "licenseKey" (JsonValue.string "x")
      (JsonObject.field "note" (JsonValue.string "key lic_abc") JsonObject.end)

sanitize_details_lem_example :
    IsClean (sanitize_details secret_details)
    × ((sanitize_details secret_details ≡ secret_details) ↔ IsClean secret_details)
sanitize_details_lem_example = sanitize_details_lem secret_details

abbrev an_event : ActivityEvent
an_event = record {
  type = license_revoked;
  source = operator;
  outcome = success;
  reason = some (operator_text "leaked sk_live_1");
  license_id = some "l1";
  customer_id = some "c1";
  key_prefix = some "lic_abcdefghijklmnop";
  ip = none;
  device_id = none;
  details = secret_details;
}

capture_event_lem_example :
    (e : ActivityEvent) × ((record_event : ActivityEvent → Result ActivityEvent)
      → capture_event record_event an_event ≡ stored_or_none (record_event e))
    × IsRecorded an_event e
capture_event_lem_example = capture_event_lem an_event
