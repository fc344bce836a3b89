-- ===== src/Application/ActivityService/Clean.antt =====
-- What ActivityService.ts keeps of an event is free of secrets.
use Prim.Native.Char.{code}
use keyzori.Prelude.{
  ℕ, ◌-◌, ◌≤◌, ◌≡◌, ◌↔◌, refl, String, true, false, ap, arith, ltb, Bool-cases, inl, inr, Option,
  none, some,
}
use keyzori.Domain.Text.{is_empty, is_space, text_start, text_length}
use keyzori.Domain.Entities.{JsonValue, JsonArray, JsonObject}
use keyzori.Domain.Errors.{Result, ok, err}
use keyzori.Application.Activity.{ActivityEvent, ActivityReason, error_code, operator_text}
use keyzori.Application.ActivityService.Secrets.{
  is_sensitive, is_sensitive_key, has_secret, starts_secret, after_word, starts_with_space, is_uuid,
  fits_chars,
}
use keyzori.Application.ActivityService.{
  capture_event, redacted_text, prefix_start, sanitize_value, sanitize_array, sanitize_details,
  sanitize_reason, sanitized_event,
}

-- No text is a secret, and no field has the name of one, at any depth.
mutual
  pub IsCleanValue : JsonValue → Type 0
  IsCleanValue JsonValue.null = Unit
  IsCleanValue (JsonValue.boolean b) = Unit
  IsCleanValue (JsonValue.number n) = Unit
  IsCleanValue (JsonValue.string text) = is_sensitive text ≡ false
  IsCleanValue (JsonValue.array values) = IsCleanArray values
  IsCleanValue (JsonValue.object fields) = IsClean fields

  pub IsCleanArray : JsonArray → Type 0
  IsCleanArray JsonArray.nil = Unit
  IsCleanArray (JsonArray.cons v vs) = IsCleanValue v × IsCleanArray vs

  pub IsClean : JsonObject → Type 0
  IsClean JsonObject.end = Unit
  IsClean (JsonObject.field key value rest) =
      (is_sensitive_key key ≡ false) × IsCleanValue value × IsClean rest

-- The text that stands for a secret is none.
mark-clean : is_sensitive "[REDACTED]" ≡ false
unfolding is_sensitive has_secret starts_secret after_word starts_with_space is_uuid fits_chars
    is_space
mark-clean = refl

redacted-clean : (text : String) → is_sensitive (redacted_text text) ≡ false
redacted-clean text = elim (Bool-cases (is_sensitive text)) [
  | inl e ↦ rw e mark-clean
  | inr e ↦ rw e e
]

mutual
  unfolding sanitize_value IsClean

  value-IsClean : (v : JsonValue) → IsCleanValue (sanitize_value v)
  value-IsClean JsonValue.null = tt
  value-IsClean (JsonValue.boolean b) = tt
  value-IsClean (JsonValue.number n) = tt
  value-IsClean (JsonValue.string text) = redacted-clean text
  value-IsClean (JsonValue.array values) = array-IsClean values
  value-IsClean (JsonValue.object fields) = details-IsClean fields

  array-IsClean : (vs : JsonArray) → IsCleanArray (sanitize_array vs)
  array-IsClean JsonArray.nil = tt
  array-IsClean (JsonArray.cons v vs) = (value-IsClean v, array-IsClean vs)

  details-IsClean : (d : JsonObject) → IsClean (sanitize_details d)
  details-IsClean JsonObject.end = tt
  details-IsClean (JsonObject.field key value rest) = elim (Bool-cases (is_sensitive_key key)) [
    | inl e ↦ rw e (details-IsClean rest)
    | inr e ↦ rw e (e, value-IsClean value, details-IsClean rest)
  ]

mutual
  unfolding sanitize_value IsClean

  value-kept : (v : JsonValue) → IsCleanValue v → sanitize_value v ≡ v
  value-kept JsonValue.null h = refl
  value-kept (JsonValue.boolean b) h = refl
  value-kept (JsonValue.number n) h = refl
  value-kept (JsonValue.string text) h = rw h refl
  value-kept (JsonValue.array values) h = ap JsonValue.array (array-kept values h)
  value-kept (JsonValue.object fields) h = ap JsonValue.object (details-kept fields h)

  array-kept : (vs : JsonArray) → IsCleanArray vs → sanitize_array vs ≡ vs
  array-kept JsonArray.nil h = refl
  array-kept (JsonArray.cons v vs) h = rw (value-kept v h.0, array-kept vs h.1) refl

  details-kept : (d : JsonObject) → IsClean d → sanitize_details d ≡ d
  details-kept JsonObject.end h = refl
  details-kept (JsonObject.field key value rest) h =
      rw (h.0, value-kept value h.1, details-kept rest h.2) refl

unchanged-IsClean : (d : JsonObject) → sanitize_details d ≡ d → IsClean d
unchanged-IsClean d same = let clean = details-IsClean d in rw same at clean

-- The details that are recorded hold no secret at any depth, neither as a text nor under the name of
-- one. Details are recorded as they are if and only if they hold none.
pub sanitize_details_lem :
    (d : JsonObject) → IsClean (sanitize_details d) × ((sanitize_details d ≡ d) ↔ IsClean d)
sanitize_details_lem d = (details-IsClean d, (unchanged-IsClean d, details-kept d))

text_start-bounded : (n : ℕ) (s : String) → text_length (text_start n s) ≤ n
unfolding text_start text_length
text_start-bounded n String.[] = omega arith
text_start-bounded n (String.◌∷◌ c s) = elim (Bool-cases (ltb (code c) 0x10000)) [
  | inl basic ↦ elim (Bool-cases (ltb n 1)) [
    | inl full ↦ rw (basic, full) (omega arith)
    | inr room ↦ rw (basic, room, basic) (ground (arith, text_start-bounded (n - 1) s))
  ]
  | inr wide ↦ elim (Bool-cases (ltb n 2)) [
    | inl full ↦ rw (wide, full) (omega arith)
    | inr room ↦ rw (wide, room, wide) (ground (arith, text_start-bounded (n - 2) s))
  ]
]

abbrev pub CleanReason : Option ActivityReason → Type 0
CleanReason none = Unit
CleanReason (some (error_code c)) = Unit
CleanReason (some (operator_text text)) = is_sensitive text ≡ false

abbrev pub ShortPrefix : Option String → Type 0
ShortPrefix none = Unit
ShortPrefix (some key_prefix) = text_length key_prefix ≤ 16

empty-clean : (text : String) → is_empty text ≡ true → is_sensitive text ≡ false
unfolding is_empty is_sensitive has_secret is_uuid fits_chars
empty-clean String.[] h = refl
empty-clean (String.◌∷◌ c s) h = absurd cc

reason-clean : (reason : Option ActivityReason) → CleanReason (sanitize_reason reason)
unfolding sanitize_reason
reason-clean none = tt
reason-clean (some (error_code c)) = tt
reason-clean (some (operator_text text)) = elim (Bool-cases (is_empty text)) [
  | inl e ↦ rw e (empty-clean text e)
  | inr e ↦ rw e (redacted-clean text)
]

prefix-short : (key_prefix : Option String) → ShortPrefix (prefix_start key_prefix)
prefix-short none = tt
prefix-short (some text) = text_start-bounded 16 text

-- What is recorded of an event: all that names the parties, and of the rest what holds no secret.
pub record IsRecorded (event e : ActivityEvent) : Type 0 where
  pub same_kind : (e.type ≡ event.type) × (e.source ≡ event.source) × (e.outcome ≡ event.outcome)
  pub same_parties : (e.license_id ≡ event.license_id) × (e.customer_id ≡ event.customer_id)
  pub same_device : (e.ip ≡ event.ip) × (e.device_id ≡ event.device_id)
  pub reason : CleanReason e.reason
  pub key_prefix : ShortPrefix e.key_prefix
  pub details : IsClean e.details

sanitized-IsRecorded : (event : ActivityEvent) → IsRecorded event (sanitized_event event)
unfolding sanitized_event
sanitized-IsRecorded event = record {
  same_kind = (refl, refl, refl);
  same_parties = (refl, refl);
  same_device = (refl, refl);
  reason = reason-clean event.reason;
  key_prefix = prefix-short event.key_prefix;
  details = details-IsClean event.details;
}

abbrev pub stored_or_none : {A : Type 0} → Result A → Option A
stored_or_none (ok stored) = some stored
stored_or_none (err e) = none

-- Whatever the repository does with an event that it is given, `capture` gives it one that agrees with
-- the input in type, source, outcome, license, customer, address and device, with no secret in an
-- operator's reason or, at any depth, in the details, and with at most 16 code units of a license's key.
-- The answer is what the repository stored, or none if it failed.
pub capture_event_lem :
    {A : Type 0} (event : ActivityEvent)
    → (e : ActivityEvent) × ((record_event : ActivityEvent → Result A)
        → capture_event record_event event ≡ stored_or_none (record_event e))
      × IsRecorded event e
unfolding capture_event
capture_event_lem event = (sanitized_event event, λ record_event. refl, sanitized-IsRecorded event)
