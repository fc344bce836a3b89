-- ===== src/Domain/Errors.antt =====
-- apps/server/src/domain/errors.ts and licenseLimits.ts. A thrown `DomainError` keeps its status
-- code and its code; the message texts are left out. `internal` is any other thrown error.
use keyzori.Prelude.{◌≡◌, refl, ℕ, Bool, true, false}

pub data ApiErrorCode : Type 0 where
  invalid_request rate_limited license_invalid license_revoked license_expired : ApiErrorCode
  ip_not_allowed device_not_allowed session_invalid_or_expired : ApiErrorCode
  concurrent_session_limit meter_not_found meter_archived meter_exhausted : ApiErrorCode
  usage_event_conflict ip_registration_limit device_registration_limit : ApiErrorCode
  internal_error : ApiErrorCode

pub data Failure : Type 0 where
  domain_error : ℕ → ApiErrorCode → Failure
  internal : Failure

-- `new NotFoundError(resource, code)`.
abbrev pub not_found_error : ApiErrorCode → Failure
not_found_error code = domain_error 404 code

-- `new ConflictError(message, code)`.
abbrev pub conflict_error : ApiErrorCode → Failure
conflict_error code = domain_error 409 code

-- `new DomainError(message)`, with the default status and code.
abbrev pub invalid : Failure
invalid = domain_error 400 invalid_request

-- The largest value of a four-byte PostgreSQL integer.
abbrev pub max_license_limit : ℕ
max_license_limit = 2147483647

-- What a call that may throw returns.
pub data Result {ℓ} (A : Type ℓ) : Type ℓ where
  ok : A → Result A
  err : Failure → Result A

module _ {ℓ κ} {A : Type ℓ} {B : Type κ} where
  infixl 5 ◌>>=◌ ◌>>◌
  -- `await` of a step and what follows it: an error skips the rest.
  abbrev pub ◌>>=◌ : Result A → (A → Result B) → Result B
  err failure >>= next = err failure
  ok value >>= next = next value

  abbrev pub ◌>>◌ : Result A → Result B → Result B
  step >> next = step >>= λ _. next

  -- A chain that returns: its first step did, and so did the rest from there.
  pub >>=-eq-ok :
      (step : Result A) (next : A → Result B) {b : B}
      → (step >>= next) ≡ ok b
      → (a : A) × (step ≡ ok a) × (next a ≡ ok b)
  >>=-eq-ok (err failure) next h = cc
  >>=-eq-ok (ok value) next h = (value, refl, h)

-- `if (test) throw error;`
abbrev pub throw_if : Bool → Failure → Result (Unit {0})
throw_if false failure = ok tt
throw_if true failure = err failure
