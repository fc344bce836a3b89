-- ===== src/Prelude/Lists.antt =====
-- Lists over the native numbers: the library's names, and lists read as tables of rows.
use Prim.Native.Nat.{ℕ, suc, ◌+◌}
use mathlib.Core.Path.{◌≡◌, refl}
use mathlib.Core.Bool.{Bool, true, false, ◌||◌}
use mathlib.Core.Option.{Option, none, some}
use mathlib.Core.List.{List, [], ◌∷◌, ◌++◌}
use native.Mathlib.Omega.{arith}
use mathlib.Core.Logic.{◌⊎◌, inl, inr}
use keyzori.Prelude.Tests.{if◌then◌else◌, Bool-cases}

module _ {ℓ} {A : Type ℓ} where
  abbrev pub length : List A → ℕ
  length [] = 0
  length (x ∷ xs) = suc (length xs)

  pub length-append : (xs ys : List A) → length (xs ++ ys) ≡ length xs + length ys
  length-append [] ys = omega arith
  length-append (x ∷ xs) ys = omega (arith, length-append xs ys)

  -- `select … where p limit 1`, and `Array.find`.
  unfoldable pub find : (A → Bool) → List A → Option A
  find p [] = none
  find p (x ∷ xs) = if p x then some x else find p xs

  -- `select … where p`, and `Array.filter`.
  unfoldable pub select : (A → Bool) → List A → List A
  select p [] = []
  select p (x ∷ xs) = let rest = select p xs in if p x then x ∷ rest else rest

  -- `delete … where p`.
  unfoldable pub remove : (A → Bool) → List A → List A
  remove p [] = []
  remove p (x ∷ xs) = let rest = remove p xs in if p x then rest else x ∷ rest

  -- `update … set f where p`.
  unfoldable pub update : (A → Bool) → (A → A) → List A → List A
  update p f [] = []
  update p f (x ∷ xs) = (if p x then f x else x) ∷ update p f xs

  -- `Array.some`.
  unfoldable pub any : (A → Bool) → List A → Bool
  any p [] = false
  any p (x ∷ xs) = p x || any p xs

  -- Every entry of the list satisfies `P`.
  abbrev pub All {κ} : (A → Type κ) → List A → Type κ
  All P [] = Unit
  All P (x ∷ xs) = P x × All P xs

module _ {ℓ κ} {A : Type ℓ} (P : A → Type κ) where
  -- What holds of all rows holds of the one that a query finds.
  pub All-find : (p : A → Bool) (xs : List A) (x : A) → All P xs → find p xs ≡ some x → P x
  unfolding find
  All-find p [] x h e = cc
  All-find p (y ∷ ys) x h e = ground (arith, All-find p ys x h.1)

module _ {ℓ κ ι} {A : Type ℓ} (P : A → Type κ) (Q : A → Type ι) where
  pub All-update :
      (p : A → Bool) (f : A → A) (xs : List A)
      → ((x : A) → p x ≡ true → P x → Q (f x))
      → ((x : A) → p x ≡ false → P x → Q x)
      → All P xs
      → All Q (update p f xs)
  unfolding update
  All-update p f [] hit miss h = tt
  All-update p f (x ∷ xs) hit miss h = (step (Bool-cases (p x)), All-update p f xs hit miss h.1)
    where
      step : (p x ≡ true) ⊎ (p x ≡ false) → Q (if p x then f x else x)
      step (inl e) = rw e (hit x e h.0)
      step (inr e) = rw e (miss x e h.0)

  pub All-map : (xs : List A) → ((x : A) → P x → Q x) → All P xs → All Q xs
  All-map [] g h = tt
  All-map (x ∷ xs) g h = (g x h.0, All-map xs g h.1)

module _ {ℓ} {A : Type ℓ} where
  -- A row that a query finds meets its test.
  pub find-holds : (p : A → Bool) (xs : List A) (x : A) → find p xs ≡ some x → p x ≡ true
  unfolding find
  find-holds p [] x e = cc
  find-holds p (y ∷ ys) x e = ground (arith, find-holds p ys x)

  -- An update that keeps what a test reads keeps the test's answer.
  pub any-update :
      (q p : A → Bool) (f : A → A) (xs : List A)
      → ((x : A) → q (f x) ≡ q x)
      → any q (update p f xs) ≡ any q xs
  unfolding any update
  any-update q p f [] h = refl
  any-update q p f (x ∷ xs) h = ground (arith, h x, any-update q p f xs h)

  pub any-find : (p : A → Bool) (xs : List A) (x : A) → find p xs ≡ some x → any p xs ≡ true
  unfolding find any
  any-find p [] x e = cc
  any-find p (y ∷ ys) x e = ground (arith, any-find p ys x)

  pub any-find-none : (p : A → Bool) (xs : List A) → find p xs ≡ none → any p xs ≡ false
  unfolding find any
  any-find-none p [] e = refl
  any-find-none p (y ∷ ys) e = ground (arith, any-find-none p ys)

  pub any-or_left :
      (p q : A → Bool) (xs : List A) → any (λ x. p x || q x) xs ≡ false → any p xs ≡ false
  unfolding any
  any-or_left p q [] h = refl
  any-or_left p q (x ∷ xs) h = ground (arith, any-or_left p q xs)

  pub any-false-find :
      (q p : A → Bool) (xs : List A) (x : A) → any q xs ≡ false → find p xs ≡ some x → q x ≡ false
  unfolding any find
  any-false-find q p [] x h e = cc
  any-false-find q p (y ∷ ys) x h e = ground (arith, any-false-find q p ys x)

  abbrev pub map_option {κ} : {B : Type κ} → (A → B) → Option A → Option B
  map_option f none = none
  map_option f (some a) = some (f a)

  -- A query on an updated table, where the update keeps what the query reads.
  pub find-update :
      (q p : A → Bool) (f : A → A) (xs : List A)
      → ((x : A) → q (f x) ≡ q x)
      → find q (update p f xs) ≡ map_option (λ x. if p x then f x else x) (find q xs)
  unfolding find update
  find-update q p f [] h = refl
  find-update q p f (x ∷ xs) h = ground (arith, h x, find-update q p f xs h)

  pub any-or_right :
      (p q : A → Bool) (xs : List A) → any (λ x. p x || q x) xs ≡ false → any q xs ≡ false
  unfolding any
  any-or_right p q [] h = refl
  any-or_right p q (x ∷ xs) h = ground (arith, any-or_right p q xs)
