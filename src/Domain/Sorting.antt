-- ===== src/Domain/Sorting.antt =====
-- JavaScript's `sort` of strings, which orders them by their UTF-16 code units.
use Prim.Native.Char.{code}
use keyzori.Prelude.{
  ℕ, ◌+◌, ◌-◌, ◌/◌, ◌%◌, String, List, [], ◌∷◌, Bool, true, false, ltb, eqb, if◌then◌else◌,
}

-- The code units of a string; a character outside the basic plane has two.
unfoldable pub code_units : String → List ℕ
code_units String.[] = []
code_units (String.◌∷◌ c s) =
    let n = code c in
    let rest = code_units s in
    if ltb n 0x10000
    then n ∷ rest
    else (0xd800 + (n - 0x10000) / 0x400) ∷ (0xdc00 + (n - 0x10000) % 0x400) ∷ rest

unfoldable pub units_before : List ℕ → List ℕ → Bool
units_before [] ys = true
units_before (x ∷ xs) [] = false
units_before (x ∷ xs) (y ∷ ys) =
    let rest = units_before xs ys in if ltb x y then true else if eqb x y then rest else false

-- `a <= b`.
unfoldable pub text_before : String → String → Bool
text_before a b = units_before (code_units a) (code_units b)

unfoldable pub insert_text : String → List String → List String
insert_text x [] = x ∷ []
insert_text x (y ∷ ys) =
    let rest = insert_text x ys in if text_before x y then x ∷ y ∷ ys else y ∷ rest

-- `[...texts].sort()`.
unfoldable pub sort_texts : List String → List String
sort_texts [] = []
sort_texts (x ∷ xs) = insert_text x (sort_texts xs)
