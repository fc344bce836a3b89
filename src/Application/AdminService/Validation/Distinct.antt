-- ===== src/Application/AdminService/Validation/Distinct.antt =====
-- What `validateMeters` of AdminService.ts lets pass.
use keyzori.Prelude.{
  ℕ, ◌≤◌, ◌≡◌, ◌↔◌, refl, sym, subst, String, List, [], ◌∷◌, false, ◌==◌, any, All, arith, pos,
  negsuc,
}
use keyzori.Domain.Text.{text_length, is_empty, trim}
use keyzori.Domain.Entities.{NewLicenseMeter}
use keyzori.Domain.Errors.{
  ok, max_license_limit, >>=-eq-ok, throw_if, conflict_error, invalid_request,
}
use keyzori.Application.AdminService.TypeConfig.Checks.{validate_integer-bounds}
use keyzori.Application.AdminService.Validation.{
  CreateMeterInput, Number, whole, not_whole, validate_meter, validate_after, validate_meters,
  bounded_text, meter_name, reason_text, validate_integer,
}

-- A text of 1 to `maximum` code units.
abbrev pub IsBounded : ℕ → String → Type 0
IsBounded maximum s = (is_empty s ≡ false) × (text_length s ≤ maximum)

abbrev pub IsValid : NewLicenseMeter → Type 0
IsValid m = IsBounded 128 m.name × (m.balance ≤ max_license_limit) × IsBounded 500 m.reason

-- No meter has one of the names, or the name of a later meter.
abbrev pub Fresh : List String → List NewLicenseMeter → Type 0
Fresh names [] = Unit
Fresh names (m ∷ ms) = (any (λ n. n == m.name) names ≡ false) × Fresh (m.name ∷ names) ms

-- The meters are those of the inputs, in their order: names and reasons without the spaces around them,
-- and the balances given.
abbrev pub AsGiven : List CreateMeterInput → List NewLicenseMeter → Type 0
AsGiven [] [] = Unit
AsGiven [] (m ∷ ms) = ⊥
AsGiven (i ∷ is) [] = ⊥
AsGiven (i ∷ is) (m ∷ ms) =
    ((m.name ≡ trim i.name) × (i.balance ≡ whole (pos m.balance)) × (m.reason ≡ trim i.reason))
    × AsGiven is ms

pub bounded_text-IsBounded :
    (maximum : ℕ) (value text : String)
    → bounded_text maximum value ≡ ok text
    → IsBounded maximum text
unfolding bounded_text
bounded_text-IsBounded maximum value text h = ground arith

-- A text is let through if and only if it is bounded without the spaces around it.
bounded_text_lem :
    (maximum : ℕ) (value : String)
    → IsBounded maximum (trim value)
    → bounded_text maximum value ≡ ok (trim value)
unfolding bounded_text
bounded_text_lem maximum value h = ground (arith, h.0, h.1)

bounded_text-trim :
    (maximum : ℕ) (value text : String) → bounded_text maximum value ≡ ok text → text ≡ trim value
unfolding bounded_text
bounded_text-trim maximum value text h = ground arith

validate_integer_lem : (n : ℕ) → n ≤ max_license_limit → validate_integer (whole (pos n)) 0 ≡ ok n
unfolding validate_integer
validate_integer_lem n h = ground arith

validate_integer-whole :
    (value : Number) (n : ℕ) → validate_integer value 0 ≡ ok n → value ≡ whole (pos n)
unfolding validate_integer
validate_integer-whole not_whole n h = absurd cc
validate_integer-whole (whole (negsuc k)) n h = absurd cc
validate_integer-whole (whole (pos k)) n h = ground arith

-- One meter is let through as it was given.
abbrev Taken : List String → CreateMeterInput → NewLicenseMeter → Type 0
Taken names i m =
    ((m.name ≡ trim i.name) × (i.balance ≡ whole (pos m.balance)) × (m.reason ≡ trim i.reason))
    × IsValid m
    × (any (λ n. n == m.name) names ≡ false)

validate_meter-Taken :
    (names : List String) (input : CreateMeterInput) (m : NewLicenseMeter)
    → validate_meter names input ≡ ok m
    → Taken names input m
unfolding validate_meter
validate_meter-Taken names input m h =
    let (name, named, rest) = >>=-eq-ok (meter_name input.name) _ h in
    let (_, fresh, more) =
      >>=-eq-ok (throw_if (any (λ n. n == name) names) (conflict_error invalid_request)) _ rest in
    let (balance, counted, last) = >>=-eq-ok (validate_integer input.balance 0) _ more in
    let (reason, given, end) = >>=-eq-ok (reason_text input.reason) _ last in
    let (_, high, _) = validate_integer-bounds input.balance 0 balance counted in
    let fit = bounded_text-IsBounded 128 input.name name named in
    let said = bounded_text-IsBounded 500 input.reason reason given in
    let named_as = bounded_text-trim 128 input.name name named in
    let said_as = bounded_text-trim 500 input.reason reason given in
    let counted_as = validate_integer-whole input.balance balance counted in ground arith

validate_meter_lem :
    (names : List String) (input : CreateMeterInput) (m : NewLicenseMeter)
    → Taken names input m
    → validate_meter names input ≡ ok m
unfolding validate_meter
validate_meter_lem names input m ((name, balance, reason), (named, high, said), fresh) =
    let named' = subst (IsBounded 128) name named in
    let said' = subst (IsBounded 500) reason said in
    rw
      (
        bounded_text_lem 128 input.name named',
        sym name,
        fresh,
        balance,
        validate_integer_lem m.balance high,
        bounded_text_lem 500 input.reason said',
        sym reason,
      )
      refl

validate_after-Taken :
    (names : List String) (inputs : List CreateMeterInput) (meters : List NewLicenseMeter)
    → validate_after names inputs ≡ ok meters
    → AsGiven inputs meters × All IsValid meters × Fresh names meters
unfolding validate_after
validate_after-Taken names [] [] h = (tt, tt, tt)
validate_after-Taken names [] (m ∷ ms) h = absurd cc
validate_after-Taken names (input ∷ inputs) [] h =
    let (first, valid, rest) = >>=-eq-ok (validate_meter names input) _ h in
    let (others, more, last) = >>=-eq-ok (validate_after (first.name ∷ names) inputs) _ rest in
    absurd cc
validate_after-Taken names (input ∷ inputs) (m ∷ ms) h =
    let (first, valid, rest) = >>=-eq-ok (validate_meter names input) _ h in
    let (others, more, last) = >>=-eq-ok (validate_after (first.name ∷ names) inputs) _ rest in
    let same : first ≡ m = cc in
    let valid' = rw same at valid in
    let more' : validate_after (m.name ∷ names) inputs ≡ ok ms =
      let tail : others ≡ ms = cc in cc in
    let (own, good, new) = validate_meter-Taken names input m valid' in
    let (given, all, fresh) = validate_after-Taken (m.name ∷ names) inputs ms more' in
    ((own, given), (good, all), (new, fresh))

validate_after_lem :
    (names : List String) (inputs : List CreateMeterInput) (meters : List NewLicenseMeter)
    → AsGiven inputs meters × All IsValid meters × Fresh names meters
    → validate_after names inputs ≡ ok meters
unfolding validate_after
validate_after_lem names [] [] h = refl
validate_after_lem names [] (m ∷ ms) h = absurd (h.0)
validate_after_lem names (input ∷ inputs) [] h = absurd (h.0)
validate_after_lem names (input ∷ inputs) (m ∷ ms) ((own, given), (good, all), (new, fresh)) =
    rw
      (
        validate_meter_lem names input m (own, good, new),
        validate_after_lem (m.name ∷ names) inputs ms (given, all, fresh),
      )
      refl

-- `validateMeters` lets meters pass if and only if they are those given, in order, with the names and
-- reasons trimmed and the balances as given, and names have 1 to 128 code units, no two of them the
-- same, balances are whole numbers up to the integer limit, and reasons have 1 to 500 code units.
pub validate_meters_lem :
    (inputs : List CreateMeterInput) (meters : List NewLicenseMeter)
    → (validate_meters inputs ≡ ok meters)
      ↔ (AsGiven inputs meters × All IsValid meters × Fresh [] meters)
validate_meters_lem inputs meters =
    (validate_after-Taken [] inputs meters, validate_after_lem [] inputs meters)
