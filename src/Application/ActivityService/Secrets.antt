-- ===== src/Application/ActivityService/Secrets.antt =====
-- The regular expressions of apps/server/src/application/services/ActivityService.ts, as tests.
use Prim.Native.Char.{Char, code}
use keyzori.Prelude.{
  ℕ, ◌+◌, String, List, [], ◌∷◌, Bool, true, false, not, ◌&&◌, ◌||◌, ltb, leb, eqb, Option, none,
  some, is_some, if◌then◌else◌,
}
use keyzori.Domain.Text.{is_space}

-- The code of a character with the flag `i`, which takes an ASCII letter for its lower case.
abbrev pub folded : Char → ℕ
folded c = let n = code c in if leb b'A' n && leb n b'Z' then n + 32 else n

abbrev pub in_range : ℕ → ℕ → ℕ → Bool
in_range low high n = leb low n && leb n high

-- `[A-Za-z0-9]`
abbrev pub is_alphanumeric : Char → Bool
is_alphanumeric c = in_range b'a' b'z' (folded c) || in_range b'0' b'9' (code c)

-- The rest of the text after a prefix in lower case.
unfoldable pub after_word : String → String → Option String
after_word String.[] s = some s
after_word (String.◌∷◌ p ps) String.[] = none
after_word (String.◌∷◌ p ps) (String.◌∷◌ c s) =
    let rest = after_word ps s in if eqb (code p) (folded c) then rest else none

abbrev pub has_word : String → String → Bool
has_word word s = is_some (after_word word s)

-- `\s`, at the start of a text.
unfoldable pub starts_with_space : String → Bool
starts_with_space String.[] = false
starts_with_space (String.◌∷◌ c s) = is_space c

abbrev pub starts_bearer : String → Bool
starts_bearer s = elim (after_word "bearer" s) [ none ↦ false | some rest ↦ starts_with_space rest ]

-- `(?:lic_|sk_|whsec_|Bearer\s+)\S*`, at the start of a text.
unfoldable pub starts_secret : String → Bool
starts_secret s = has_word "lic_" s || has_word "sk_" s || has_word "whsec_" s || starts_bearer s

-- SENSITIVE_DETAIL_VALUE: a secret at the start, or after a character that is not alphanumeric.
unfoldable pub has_secret : Bool → String → Bool
has_secret boundary String.[] = false
has_secret boundary (String.◌∷◌ c s) =
    (boundary && starts_secret (String.◌∷◌ c s)) || has_secret (not (is_alphanumeric c)) s

-- The characters of a UUID.
pub data UuidChar : Type 0 where
  hex dash version variant : UuidChar

abbrev pub is_hex : ℕ → Bool
is_hex n = in_range b'0' b'9' n || in_range b'a' b'f' n

abbrev pub uuid_char : UuidChar → ℕ → Bool
uuid_char hex n = is_hex n
uuid_char dash n = eqb n b'-'
uuid_char version n = in_range b'1' b'8' n
uuid_char variant n = eqb n b'8' || eqb n b'9' || eqb n b'a' || eqb n b'b'

unfoldable pub fits_chars : List UuidChar → String → Bool
fits_chars [] String.[] = true
fits_chars [] (String.◌∷◌ c s) = false
fits_chars (k ∷ ks) String.[] = false
fits_chars (k ∷ ks) (String.◌∷◌ c s) = uuid_char k (folded c) && fits_chars ks s

-- UUID_DETAIL_VALUE.
unfoldable pub is_uuid : String → Bool
is_uuid s =
    fits_chars
      (hex ∷ hex ∷ hex ∷ hex ∷ hex ∷ hex ∷ hex ∷ hex ∷ dash ∷ hex ∷ hex ∷ hex ∷ hex ∷ dash ∷ version
        ∷ hex ∷ hex ∷ hex ∷ dash ∷ variant ∷ hex ∷ hex ∷ hex ∷ dash ∷ hex ∷ hex ∷ hex ∷ hex ∷ hex
        ∷ hex ∷ hex ∷ hex ∷ hex ∷ hex ∷ hex ∷ hex ∷ [])
      s

-- A string value that is to be hidden.
unfoldable pub is_sensitive : String → Bool
is_sensitive s = has_secret true s || is_uuid s

-- `.`: no line terminator, and one unit of UTF-16.
abbrev pub is_any_unit : Char → Bool
is_any_unit c =
    ltb (code c) 0x10000
    && not (eqb (code c) 10 || eqb (code c) 13 || eqb (code c) 0x2028 || eqb (code c) 0x2029)

-- `.?key`, at the start of a text.
unfoldable pub starts_key : String → Bool
starts_key String.[] = false
starts_key (String.◌∷◌ c s) = has_word "key" (String.◌∷◌ c s) || (is_any_unit c && has_word "key" s)

abbrev pub starts_named_key : String → String → Bool
starts_named_key word s = elim (after_word word s) [ none ↦ false | some rest ↦ starts_key rest ]

unfoldable pub starts_sensitive_key : String → Bool
starts_sensitive_key s =
    starts_named_key "license" s
    || starts_named_key "api" s
    || has_word "secret" s
    || has_word "token" s
    || has_word "authorization" s
    || has_word "password" s

-- SENSITIVE_DETAIL_KEY, anywhere in a key.
unfoldable pub is_sensitive_key : String → Bool
is_sensitive_key String.[] = false
is_sensitive_key (String.◌∷◌ c s) = starts_sensitive_key (String.◌∷◌ c s) || is_sensitive_key s
