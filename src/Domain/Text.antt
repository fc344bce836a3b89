-- ===== src/Domain/Text.antt =====
-- What the server uses of JavaScript's strings. A string is a `String`; its `length` counts UTF-16
-- code units, so that a character outside the basic plane counts twice.
use Prim.Native.Char.{Char, code}
use keyzori.Prelude.{
  ℕ, ◌+◌, ◌-◌, Bool, true, false, ◌&&◌, ◌||◌, String, ltb, leb, eqb, if◌then◌else◌,
}

-- `s.length`.
unfoldable pub text_length : String → ℕ
text_length String.[] = 0
text_length (String.◌∷◌ c s) = (if ltb (code c) 0x10000 then 1 else 2) + text_length s

-- The white space and line terminators that `trim` removes.
unfoldable pub is_space : Char → Bool
is_space c =
    let n = code c in
    (leb 9 n && leb n 13)
    || eqb n 0x20
    || eqb n 0xa0
    || eqb n 0x1680
    || (leb 0x2000 n && leb n 0x200a)
    || eqb n 0x2028
    || eqb n 0x2029
    || eqb n 0x202f
    || eqb n 0x205f
    || eqb n 0x3000
    || eqb n 0xfeff

trim_start : String → String
trim_start String.[] = ""
trim_start (String.◌∷◌ c s) = let rest = trim_start s in if is_space c then rest else String.◌∷◌ c s

unfoldable pub is_empty : String → Bool
is_empty String.[] = true
is_empty (String.◌∷◌ c s) = false

trim_end : String → String
unfolding is_empty
trim_end String.[] = ""
trim_end (String.◌∷◌ c s) =
    let rest = trim_end s in if is_space c && is_empty rest then "" else String.◌∷◌ c rest

-- `s.trim()`.
unfoldable pub trim : String → String
unfolding trim_start trim_end is_space
trim s = trim_end (trim_start s)

-- `a + b` on strings, and Lua's `a .. b`.
abbrev pub concat : String → String → String
concat String.[] b = b
concat (String.◌∷◌ c a) b = String.◌∷◌ c (concat a b)

-- `s.slice(0, n)`, where it cuts no character in two; else that character is left out.
unfoldable pub text_start : ℕ → String → String
text_start n String.[] = ""
text_start n (String.◌∷◌ c s) =
    let units = if ltb (code c) 0x10000 then 1 else 2 in
    if ltb n units then "" else String.◌∷◌ c (text_start (n - units) s)
