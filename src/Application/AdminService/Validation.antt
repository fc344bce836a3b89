-- ===== src/Application/AdminService/Validation.antt =====
-- The checks of AdminService.ts on what an operator gives.
pub mod Distinct
use keyzori.Prelude.{
  ℕ, String, List, [], ◌∷◌, Bool, true, false, not, ◌&&◌, ◌||◌, ◌==◌, ltb, leb, eqb, any, ℤ, pos,
  negsuc, Option, none, some,
}
use Prim.Native.Char.{Char, code}
use keyzori.Domain.Text.{trim, is_empty, is_space}
use keyzori.Domain.Entities.{NewLicenseMeter}
use keyzori.Domain.Errors.{
  Result, ok, err, invalid, conflict_error, invalid_request, max_license_limit, throw_if, ◌>>◌,
  ◌>>=◌,
}
use keyzori.Domain.Host.{Host}
use keyzori.Application.LicenseService.Policy.{out_of_length}

-- A JavaScript number: one that `Number.isInteger` accepts, or another.
pub data Number : Type 0 where
  whole : ℤ → Number
  not_whole : Number

-- `validateInteger`, with the value that it lets pass.
unfoldable pub validate_integer : Number → ℕ → Result ℕ
validate_integer not_whole minimum = err invalid
validate_integer (whole (negsuc n)) minimum = err invalid
validate_integer (whole (pos n)) minimum = do
  throw_if (ltb n minimum || ltb max_license_limit n) invalid
  ok n

-- `delta` of `adjustLicenseMeter`.
unfoldable pub validate_delta : Number → Result ℤ
validate_delta not_whole = err invalid
validate_delta (whole (pos n)) = do
  throw_if (ltb n 1 || ltb max_license_limit n) invalid
  ok (pos n)
validate_delta (whole (negsuc n)) = do throw_if (leb max_license_limit n) invalid; ok (negsuc n)

-- A trimmed text of 1 to `maximum` code units.
unfoldable pub bounded_text : ℕ → String → Result String
bounded_text maximum value = do
  throw_if (out_of_length maximum (trim value)) invalid
  ok (trim value)

abbrev pub meter_name : String → Result String
meter_name value = bounded_text 128 value

abbrev pub device_id_text : String → Result String
device_id_text value = bounded_text 128 value

abbrev pub reason_text : String → Result String
reason_text value = bounded_text 500 value

abbrev pub customer_name : String → Result String
customer_name value = bounded_text 200 value

-- `[^\s@]`
abbrev pub address_char : Char → Bool
address_char c = not (is_space c) && not (eqb (code c) b'@')

-- `[^\s@]+$`
unfoldable pub address_tail : String → Bool
address_tail String.[] = true
address_tail (String.◌∷◌ c s) = address_char c && address_tail s

-- `[^\s@]*\.[^\s@]+$`: a dot with something after it. More dots may follow.
unfoldable pub dotted_tail : String → Bool
dotted_tail String.[] = false
dotted_tail (String.◌∷◌ c s) =
    let rest = dotted_tail s in
    address_char c && ((eqb (code c) b'.' && not (is_empty s) && address_tail s) || rest)

-- `[^\s@]+\.[^\s@]+$`
unfoldable pub domain_part : String → Bool
domain_part String.[] = false
domain_part (String.◌∷◌ c s) = address_char c && dotted_tail s

-- `[^\s@]*@[^\s@]+\.[^\s@]+$`
unfoldable pub address_rest : String → Bool
address_rest String.[] = false
address_rest (String.◌∷◌ c s) =
    let rest = address_rest s in (eqb (code c) b'@' && domain_part s) || (address_char c && rest)

-- `^[^\s@]+@[^\s@]+\.[^\s@]+$`
unfoldable pub is_address : String → Bool
is_address String.[] = false
is_address (String.◌∷◌ c s) = address_char c && address_rest s

-- `customerEmail`.
unfoldable pub customer_email : Host → String → Result String
customer_email host value = do
  let email = host.to_lower_case (trim value)
  throw_if (out_of_length 254 email || not (is_address email)) invalid
  ok email

-- `date.getTime() <= Date.now()`.
unfoldable pub future_date : Option ℕ → ℕ → Result ℕ
future_date none now = err invalid
future_date (some date) now = do throw_if (leb date now) invalid; ok date

-- `parseFutureDate`.
abbrev pub parse_future_date : Host → String → ℕ → Result ℕ
parse_future_date host value now = future_date (host.parse_date value) now

pub record CreateMeterInput : Type 0 where
  pub name : String
  pub balance : Number
  pub reason : String

-- One meter, after those of the names.
unfoldable pub validate_meter : List String → CreateMeterInput → Result NewLicenseMeter
validate_meter names m = do
  name ← meter_name m.name
  throw_if (any (λ n. n == name) names) (conflict_error invalid_request)
  balance ← validate_integer m.balance 0
  reason ← reason_text m.reason
  ok (record { name = name; balance = balance; reason = reason })

unfoldable pub validate_after : List String → List CreateMeterInput → Result (List NewLicenseMeter)
validate_after names [] = ok []
validate_after names (m ∷ ms) = do
  first ← validate_meter names m
  rest ← validate_after (first.name ∷ names) ms
  ok (first ∷ rest)

-- `validateMeters`.
abbrev pub validate_meters : List CreateMeterInput → Result (List NewLicenseMeter)
validate_meters meters = validate_after [] meters
