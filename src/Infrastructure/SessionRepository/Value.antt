-- ===== src/Infrastructure/SessionRepository/Value.antt =====
-- The text of a stored session, `licenseId|revision|hash`, and the parts that the scripts and
-- `resolvedSession` of RedisSessionRepository.ts cut from it.
use Prim.Native.Char.{Char, code}
use Prim.Native.String.{[], ◌∷◌}
use keyzori.Prelude.{ℕ, ◌≡◌, refl, String, true, Option, none, some, arith, eqb, if◌then◌else◌}
use keyzori.Domain.Text.{concat}
use keyzori.Domain.Decimal.{show_decimal, bar_free, show-bar_free}

-- `a .. "|" .. b`, and the template `${a}|${b}`.
abbrev pub join_bar : String → String → String
join_bar a b = concat a (concat "|" b)

abbrev add_first : Char → Option (String × String) → Option (String × String)
add_first c none = none
add_first c (some (a, b)) = some (c ∷ a, b)

-- What stands before and behind the first `|`: `string.find` with both calls of `string.sub`.
unfoldable pub cut : String → Option (String × String)
cut [] = none
cut (c ∷ s) = let rest = cut s in if eqb (code c) b'|' then some ("", s) else add_first c rest

-- What stands before and behind the last `|`: `lastIndexOf` with both calls of `slice`.
unfoldable pub last_cut : String → Option (String × String)
last_cut [] = none
last_cut (c ∷ s) =
    let here = if eqb (code c) b'|' then some ("", s) else none in
    elim (last_cut s) [ none ↦ here | some (a, b) ↦ some (c ∷ a, b) ]

pub cut-join_bar : (a b : String) → bar_free a ≡ true → cut (join_bar a b) ≡ some (a, b)
unfolding cut bar_free
cut-join_bar [] b h = refl
cut-join_bar (c ∷ a) b h = ground (arith, cut-join_bar a b)

last_cut-bar_free : (b : String) → bar_free b ≡ true → last_cut b ≡ none
unfolding last_cut bar_free
last_cut-bar_free [] h = refl
last_cut-bar_free (c ∷ b) h = ground (arith, last_cut-bar_free b)

pub last_cut-join_bar : (a b : String) → bar_free b ≡ true → last_cut (join_bar a b) ≡ some (a, b)
unfolding last_cut
last_cut-join_bar [] b h = rw (last_cut-bar_free b h)
last_cut-join_bar (c ∷ a) b h = rw (last_cut-join_bar a b h)

-- The value that `registerSession` stores.
unfoldable pub session_value : String → ℕ → String → String
session_value license_id revision hash = join_bar license_id (join_bar (show_decimal revision) hash)

-- `licenseId`, `revision` and the hash, where the value has both separators.
unfoldable pub session_parts : String → Option (String × String × String)
session_parts value = elim (cut value) [
  | none ↦ none
  | some (license_id, rest) ↦ elim (cut rest) [
    | none ↦ none
    | some (revision, hash) ↦ some (license_id, revision, hash)
  ]
]

-- A stored session is read back in its parts, if the license's identifier has no `|`.
pub parts-value :
    (license_id : String) (revision : ℕ) (hash : String)
    → bar_free license_id ≡ true
    → session_parts (session_value license_id revision hash)
      ≡ some (license_id, show_decimal revision, hash)
unfolding session_parts session_value
parts-value license_id revision hash h = ground (
  arith,
  cut-join_bar license_id (join_bar (show_decimal revision) hash) h,
  cut-join_bar (show_decimal revision) hash (show-bar_free revision),
)
