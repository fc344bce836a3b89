-- ===== src/Domain/Decimal.antt =====
-- How JavaScript writes a whole number as text, and reads texts of decimal digits as numbers.
use Prim.Native.Char.{Char, code}
use Prim.Native.String.{[], ◌∷◌}
use keyzori.Prelude.{
  ℕ, zero, suc, ◌+◌, ◌-◌, ◌*◌, ◌/◌, ◌%◌, ◌<◌, ◌≡◌, refl, String, Bool, true, false, not, Option,
  none, some, arith, ltb, leb, eqb, if◌then◌else◌, ◌&&◌,
}

digit_char : ℕ → Char
digit_char zero = "0"
digit_char (suc zero) = "1"
digit_char (suc (suc zero)) = "2"
digit_char (suc (suc (suc zero))) = "3"
digit_char (suc (suc (suc (suc zero)))) = "4"
digit_char (suc (suc (suc (suc (suc zero))))) = "5"
digit_char (suc (suc (suc (suc (suc (suc zero)))))) = "6"
digit_char (suc (suc (suc (suc (suc (suc (suc zero))))))) = "7"
digit_char (suc (suc (suc (suc (suc (suc (suc (suc zero)))))))) = "8"
digit_char _ = "9"

-- A number below the fuel, before the digits that follow it.
write : ℕ → ℕ → String → String
write zero n rest = rest
write (suc fuel) n rest = elim (ltb n 10) [
  | true ↦ digit_char n ∷ rest
  | false ↦ write fuel (n / 10) (digit_char (n % 10) ∷ rest)
]

-- `String(n)`.
unfoldable pub show_decimal : ℕ → String
unfolding write digit_char
show_decimal n = write (suc n) n ""

read_digits : ℕ → String → Option ℕ
read_digits n [] = some n
read_digits n (c ∷ s) =
    if leb b'0' (code c) && leb (code c) b'9'
    then read_digits (n * 10 + (code c - b'0')) s
    else none

-- `Number(s)` on a text of digits; the empty text is 0. Any other text counts as not a number.
unfoldable pub read_number : String → Option ℕ
unfolding read_digits
read_number s = read_digits 0 s

below_ten : (d : ℕ) → d < 10 → code (digit_char d) ≡ b'0' + d
unfolding digit_char
below_ten zero h = refl
below_ten (suc zero) h = refl
below_ten (suc (suc zero)) h = refl
below_ten (suc (suc (suc zero))) h = refl
below_ten (suc (suc (suc (suc zero)))) h = refl
below_ten (suc (suc (suc (suc (suc zero))))) h = refl
below_ten (suc (suc (suc (suc (suc (suc zero)))))) h = refl
below_ten (suc (suc (suc (suc (suc (suc (suc zero))))))) h = refl
below_ten (suc (suc (suc (suc (suc (suc (suc (suc zero)))))))) h = refl
below_ten (suc (suc (suc (suc (suc (suc (suc (suc (suc zero))))))))) h = refl
below_ten (suc (suc (suc (suc (suc (suc (suc (suc (suc (suc n)))))))))) h = absurd (omega arith)

read_write :
    (fuel n : ℕ) (rest : String) → n < fuel → read_digits 0 (write fuel n rest) ≡ read_digits n rest
unfolding write read_digits
read_write zero n rest h = absurd (omega arith)
read_write (suc fuel) n rest h =
    ground (
      arith,
      below_ten n,
      below_ten (n % 10),
      read_write fuel (n / 10) (digit_char (n % 10) ∷ rest),
    )

-- A number is read back from its text.
pub read-show : (n : ℕ) → read_number (show_decimal n) ≡ some n
unfolding read_number show_decimal
read-show n = read_write (suc n) n "" (omega arith)

show_ten : show_decimal 2147 ≡ "2147"
unfolding show_decimal
show_ten = refl

-- No character of the text is the separator `|` of stored sessions.
unfoldable pub bar_free : String → Bool
bar_free [] = true
bar_free (c ∷ s) = not (eqb (code c) b'|') && bar_free s

digit_char-bar_free : (d : ℕ) → eqb (code (digit_char d)) b'|' ≡ false
unfolding digit_char
digit_char-bar_free zero = refl
digit_char-bar_free (suc zero) = refl
digit_char-bar_free (suc (suc zero)) = refl
digit_char-bar_free (suc (suc (suc zero))) = refl
digit_char-bar_free (suc (suc (suc (suc zero)))) = refl
digit_char-bar_free (suc (suc (suc (suc (suc zero))))) = refl
digit_char-bar_free (suc (suc (suc (suc (suc (suc zero)))))) = refl
digit_char-bar_free (suc (suc (suc (suc (suc (suc (suc zero))))))) = refl
digit_char-bar_free (suc (suc (suc (suc (suc (suc (suc (suc zero)))))))) = refl
digit_char-bar_free (suc (suc (suc (suc (suc (suc (suc (suc (suc n))))))))) = refl

write-bar_free :
    (fuel n : ℕ) (rest : String) → bar_free rest ≡ true → bar_free (write fuel n rest) ≡ true
unfolding write bar_free
write-bar_free zero n rest h = h
write-bar_free (suc fuel) n rest h = ground (
  arith,
  digit_char-bar_free n,
  digit_char-bar_free (n % 10),
  write-bar_free fuel (n / 10) (digit_char (n % 10) ∷ rest),
)

pub show-bar_free : (n : ℕ) → bar_free (show_decimal n) ≡ true
unfolding show_decimal bar_free
show-bar_free n = write-bar_free (suc n) n "" refl
