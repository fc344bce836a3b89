-- ===== src/Infrastructure/AccessRepository/Attempts.antt =====
-- `summarizeAttempts` of DrizzleAccessRepository.ts: the attempts by address, or by device.
pub mod Totals
use keyzori.Prelude.{
  eqb, ◌&&◌, ℕ, ◌+◌, ◌≡◌, refl, String, List, [], ◌∷◌, Bool, true, false, ◌==◌, ltb, leb, Option,
  none, some, if◌then◌else◌, arith, eq_iff, find, is_some,
}
use keyzori.Domain.Text.{is_empty}
use keyzori.Domain.Decimal.{read_number}
use keyzori.Domain.Entities.{JsonObject, JsonValue}
use keyzori.Domain.Host.{Host}
use keyzori.Domain.IpAddress.{split_parts}
use Prim.Native.Char.{code}

-- A row that the query selects.
pub record AttemptRow : Type 0 where
  pub ip : Option String
  pub device_id : Option String
  pub details : JsonObject
  pub created_at : ℕ

pub record AccessAttemptIdentifier : Type 0 where
  pub value : String
  pub attempt_count : ℕ
  pub first_attempted_at : ℕ
  pub last_attempted_at : ℕ

-- `details[name]`.
unfoldable pub get_field : String → JsonObject → Option JsonValue
get_field name JsonObject.end = none
get_field name (JsonObject.field k v rest) =
    let found = get_field name rest in if k == name then some v else found

abbrev pub at_least_one : ℕ → ℕ
at_least_one n = if ltb n 1 then 1 else n

-- Digits that are all 0.
unfoldable pub is_zeros : String → Bool
is_zeros String.[] = true
is_zeros (String.◌∷◌ c s) = eqb (code c) b'0' && is_zeros s

-- A JSON number in the text of `jsonb`, which has no exponent, that is whole and not negative.
unfoldable pub whole_number : String → Option ℕ
whole_number text =
    let (digits, fractions) = split_parts b'.' text in
    elim fractions [
      | [] ↦ read_number digits
      | fraction ∷ others ↦ if is_zeros fraction then read_number digits else none
    ]

-- `Math.max(1, storedCount)` of a whole number, or 1, as also for one that is negative.
unfoldable pub attempt_count_of : JsonObject → ℕ
attempt_count_of details = elim (get_field "attemptCount" details) [
  | some (JsonValue.number text) ↦ elim (whole_number text) [ none ↦ 1 | some n ↦ at_least_one n ]
  | _ ↦ 1
]

-- The stored time of the first attempt, or else the time of the row.
unfoldable pub first_attempt_of : Host → AttemptRow → ℕ
first_attempt_of host row = elim (get_field "firstAttemptedAt" row.details) [
  | some (JsonValue.string text) ↦ elim (host.parse_date text) [
    | none ↦ row.created_at
    | some t ↦ t
  ]
  | _ ↦ row.created_at
]

-- `!value`.
abbrev pub given_value : Option String → Option String
given_value none = none
given_value (some text) = if is_empty text then none else some text

abbrev pub first_summary : Host → String → AttemptRow → AccessAttemptIdentifier
first_summary host value row = record {
  value = value;
  attempt_count = attempt_count_of row.details;
  first_attempted_at = first_attempt_of host row;
  last_attempted_at = row.created_at;
}

abbrev pub merged : Host → AttemptRow → AccessAttemptIdentifier → AccessAttemptIdentifier
merged host row s = record s {
  attempt_count = s.attempt_count + attempt_count_of row.details;
  last_attempted_at = row.created_at;
  first_attempted_at =
      (if ltb (first_attempt_of host row) s.first_attempted_at
        then first_attempt_of host row
        else s.first_attempted_at);
}

-- The map with a row of a value; a new value comes last.
unfoldable pub add_attempt :
    Host → String → AttemptRow → List AccessAttemptIdentifier → List AccessAttemptIdentifier
add_attempt host value row [] = first_summary host value row ∷ []
add_attempt host value row (s ∷ ss) =
    let rest = add_attempt host value row ss in
    if s.value == value then merged host row s ∷ ss else s ∷ rest

unfoldable pub collect_attempts :
    Host
    → (AttemptRow → Option String)
    → List AttemptRow
    → List AccessAttemptIdentifier
    → List AccessAttemptIdentifier
collect_attempts host field [] summaries = summaries
collect_attempts host field (row ∷ rows) summaries =
    collect_attempts host field rows elim (given_value (field row)) [
      | none ↦ summaries
      | some value ↦ add_attempt host value row summaries
    ]

-- `sort` by the last attempt, the latest first, which keeps the order of equals.
unfoldable pub insert_latest :
    AccessAttemptIdentifier → List AccessAttemptIdentifier → List AccessAttemptIdentifier
insert_latest s [] = s ∷ []
insert_latest s (t ∷ ts) =
    let rest = insert_latest s ts in
    if leb t.last_attempted_at s.last_attempted_at then s ∷ t ∷ ts else t ∷ rest

unfoldable pub latest_first : List AccessAttemptIdentifier → List AccessAttemptIdentifier
latest_first [] = []
latest_first (s ∷ ss) = insert_latest s (latest_first ss)

-- `summarizeAttempts`.
unfoldable pub summarize_attempts :
    Host → (AttemptRow → Option String) → List AttemptRow → List AccessAttemptIdentifier
summarize_attempts host field rows = latest_first (collect_attempts host field rows [])
