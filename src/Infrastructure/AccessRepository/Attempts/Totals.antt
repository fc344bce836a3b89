-- ===== src/Infrastructure/AccessRepository/Attempts/Totals.antt =====
-- The counts of `summarizeAttempts` of DrizzleAccessRepository.ts.
use keyzori.Prelude.{
  ℕ, ◌+◌, ◌≡◌, ◌∙◌, String, List, [], ◌∷◌, Bool, false, ◌==◌, Option, none, some, if◌then◌else◌,
  arith, eq_iff, Option-cases, inl, inr,
}
use keyzori.Domain.Host.{Host}
use keyzori.Infrastructure.AccessRepository.Attempts.{
  AttemptRow, AccessAttemptIdentifier, add_attempt, collect_attempts, insert_latest, latest_first,
  summarize_attempts, attempt_count_of, given_value,
}

-- What a list of summaries counts for a value.
unfoldable pub counted : String → List AccessAttemptIdentifier → ℕ
counted value [] = 0
counted value (s ∷ ss) = (if s.value == value then s.attempt_count else 0) + counted value ss

abbrev pub names_value : String → Option String → Bool
names_value value none = false
names_value value (some text) = text == value

-- The attempts of the rows whose field has the value.
unfoldable pub attempted : (AttemptRow → Option String) → String → List AttemptRow → ℕ
attempted field value [] = 0
attempted field value (row ∷ rows) =
    (if names_value value (given_value (field row)) then attempt_count_of row.details else 0)
    + attempted field value rows

counted-insert :
    (value : String) (s : AccessAttemptIdentifier) (ss : List AccessAttemptIdentifier)
    → counted value (insert_latest s ss) ≡ counted value (s ∷ ss)
unfolding counted insert_latest
counted-insert value s [] = omega arith
counted-insert value s (t ∷ ts) = ground (arith, counted-insert value s ts)

counted-latest_first :
    (value : String) (ss : List AccessAttemptIdentifier)
    → counted value (latest_first ss) ≡ counted value ss
unfolding counted latest_first
counted-latest_first value [] = omega arith
counted-latest_first value (s ∷ ss) =
    counted-insert value s (latest_first ss) ∙ ground (arith, counted-latest_first value ss)

counted-add :
    (host : Host) (value x : String) (row : AttemptRow) (ss : List AccessAttemptIdentifier)
    → counted value (add_attempt host x row ss)
      ≡ (if x == value then attempt_count_of row.details else 0) + counted value ss
unfolding counted add_attempt
counted-add host value x row [] = omega arith
counted-add host value x row (s ∷ ss) =
    ground (arith, counted-add host value x row ss, eq_iff s.value x)

counted-collect :
    (host : Host) (field : AttemptRow → Option String) (value : String) (rows : List AttemptRow)
    (ss : List AccessAttemptIdentifier)
    → counted value (collect_attempts host field rows ss)
      ≡ attempted field value rows + counted value ss
unfolding collect_attempts attempted
counted-collect host field value [] ss = omega arith
counted-collect host field value (row ∷ rows) ss = elim (Option-cases (given_value (field row))) [
  | inl missing ↦ rw missing (omega (arith, counted-collect host field value rows ss))
  | inr (x, given) ↦ rw given (
      counted-collect host field value rows (add_attempt host x row ss)
      ∙ ground (arith, counted-add host value x row ss))
]

-- The summaries of the attempts on a license by address, or by device, lose no attempt and invent none:
-- for every value, what they count for it is the sum of what the rows with the value count.
pub summarize_attempts_lem :
    (host : Host) (field : AttemptRow → Option String) (rows : List AttemptRow) (value : String)
    → counted value (summarize_attempts host field rows) ≡ attempted field value rows
unfolding summarize_attempts counted
summarize_attempts_lem host field rows value =
    counted-latest_first value (collect_attempts host field rows [])
    ∙ counted-collect host field value rows []
    ∙ omega arith
