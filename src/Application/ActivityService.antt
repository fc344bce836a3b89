-- ===== src/Application/ActivityService.antt =====
-- apps/server/src/application/services/ActivityService.ts: what of an event may be kept.
pub mod Secrets
pub mod Clean
use keyzori.Prelude.{
  ℕ, ◌*◌, String, Bool, true, false, ◌||◌, ltb, leb, Option, none, some, ℤ, pos, negsuc, difference,
  if◌then◌else◌,
}
use keyzori.Domain.Text.{text_start, is_empty}
use keyzori.Domain.Entities.{JsonValue, JsonArray, JsonObject}
use keyzori.Domain.Errors.{Result, ok, err, internal}
use keyzori.Application.Activity.{ActivityEvent, ActivityReason, error_code, operator_text}
use Secrets.{is_sensitive, is_sensitive_key}

abbrev pub redacted_text : String → String
redacted_text text = if is_sensitive text then "[REDACTED]" else text

unfoldable mutual
  -- `sanitizeValue`.
  pub sanitize_value : JsonValue → JsonValue
  sanitize_value JsonValue.null = JsonValue.null
  sanitize_value (JsonValue.boolean b) = JsonValue.boolean b
  sanitize_value (JsonValue.number n) = JsonValue.number n
  sanitize_value (JsonValue.string text) = JsonValue.string (redacted_text text)
  sanitize_value (JsonValue.array values) = JsonValue.array (sanitize_array values)
  sanitize_value (JsonValue.object fields) = JsonValue.object (sanitize_details fields)

  pub sanitize_array : JsonArray → JsonArray
  sanitize_array JsonArray.nil = JsonArray.nil
  sanitize_array (JsonArray.cons v vs) = JsonArray.cons (sanitize_value v) (sanitize_array vs)

  -- `sanitizeDetails`.
  pub sanitize_details : JsonObject → JsonObject
  sanitize_details JsonObject.end = JsonObject.end
  sanitize_details (JsonObject.field key value rest) =
      let others = sanitize_details rest in
      let kept = sanitize_value value in
      if is_sensitive_key key then others else JsonObject.field key kept others

-- `sanitizeReason`; an error's code is never hidden, and an empty text stays.
unfoldable pub sanitize_reason : Option ActivityReason → Option ActivityReason
sanitize_reason none = none
sanitize_reason (some (error_code c)) = some (error_code c)
sanitize_reason (some (operator_text text)) =
    some (operator_text (if is_empty text then text else redacted_text text))

abbrev pub prefix_start : Option String → Option String
prefix_start none = none
prefix_start (some key_prefix) = some (text_start 16 key_prefix)

-- The event that `capture` records.
unfoldable pub sanitized_event : ActivityEvent → ActivityEvent
sanitized_event event = record event {
  reason = sanitize_reason event.reason;
  key_prefix = prefix_start event.key_prefix;
  details = sanitize_details event.details;
}

-- `capture`, over the repository's `record`; an error is reported, and nothing is thrown.
unfoldable pub capture_event : {A : Type 0} → (ActivityEvent → Result A) → ActivityEvent → Option A
capture_event record_event event = elim (record_event (sanitized_event event)) [
  | ok stored ↦ some stored
  | err e ↦ none
]

-- The time up to which `pruneExpiredActivity` removes events; no days, or less, is an error.
unfoldable pub prune_before : ℤ → ℕ → Result ℤ
prune_before (negsuc n) now = err internal
prune_before (pos days) now =
    if ltb days 1 then err internal else ok (difference now (days * 24 * 60 * 60 * 1000))
