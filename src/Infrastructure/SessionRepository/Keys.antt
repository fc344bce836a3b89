-- ===== src/Infrastructure/SessionRepository/Keys.antt =====
-- The keys of RedisSessionRepository.ts: a session's is never a license's set, and two sessions'
-- keys differ.
use Prim.Native.String.{[], ◌∷◌}
use Prim.Native.Char.{code}
use keyzori.Prelude.{ℕ, zero, suc, sym, ◌≡◌, ◌≢◌, ap, String, ◌==◌, eq_iff, arith}
use keyzori.Domain.Text.{concat}
use keyzori.Infrastructure.SessionRepository.{session_key, session_set}

concat_cancel : (p a b : String) → concat p a ≡ concat p b → a ≡ b
concat_cancel [] a b h = h
concat_cancel (c ∷ p) a b h = concat_cancel p a b cc

pub session_key-injective : (a b : String) → session_key a ≡ session_key b → a ≡ b
unfolding session_key
session_key-injective a b h = concat_cancel "license_session:" a b h

-- Two session keys are equal just when the tokens are.
pub session_key-eq : (a b : String) → (session_key a == session_key b) ≡ (a == b)
session_key-eq a b = ground (
  arith,
  eq_iff (session_key a) (session_key b),
  eq_iff a b,
  session_key-injective a b,
  λ (e : a ≡ b). ap session_key e,
)

code_at : ℕ → String → ℕ
code_at n [] = 0
code_at zero (c ∷ s) = code c
code_at (suc n) (c ∷ s) = code_at n s

-- The prefixes differ at their sixteenth character.
pub session_key-ne-set : (token license_id : String) → session_key token ≢ session_set license_id
unfolding session_key session_set code_at
session_key-ne-set token license_id h = absurd (omega (arith, ap (code_at 15) h))

pub session_set-ne-key : (license_id token : String) → session_set license_id ≢ session_key token
session_set-ne-key license_id token h = session_key-ne-set token license_id (sym h)
