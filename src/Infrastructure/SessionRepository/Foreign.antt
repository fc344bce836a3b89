-- ===== src/Infrastructure/SessionRepository/Foreign.antt =====
-- What others can do to a session of RedisSessionRepository.ts.
use keyzori.Prelude.{
  ℕ, ◌-◌, ◌^◌, ◌≤◌, ◌<◌, ◌≡◌, refl, ◌∙◌, String, true, false, ◌==◌, eq_iff, none, some, Option,
  List, [], ◌∷◌, All, map, arith, ◌⊎◌, inl, inr,
}
use keyzori.Domain.Text.{is_empty}
use keyzori.Domain.Decimal.{bar_free}
use keyzori.Domain.Errors.{ok, Result}
use keyzori.Infrastructure.Redis.{Redis}
use keyzori.Infrastructure.SessionRepository.{
  SessionBinding, registered, ResolvedSession, session_key, hash_binding, register_session,
  refresh_session, remove_session, matching,
}
use keyzori.Infrastructure.SessionRepository.Value.{session_value}
use keyzori.Infrastructure.SessionRepository.Refresh.{
  session_of, matching-value, get-registered, unmatched_inert, refresh-register,
}

-- A call of `refreshSession` or `removeSession`, by whoever holds the token and has the binding.
pub data Attempt : Type 0 where
  refreshes : String → SessionBinding → ℕ → Attempt
  removes : String → SessionBinding → Attempt

abbrev pub token_of : Attempt → String
token_of (refreshes token binding ttl) = token
token_of (removes token binding) = token

abbrev pub binding_of : Attempt → SessionBinding
binding_of (refreshes token binding ttl) = binding
binding_of (removes token binding) = binding

module _ (redis : Redis) (sha256 : String → String) where
  open redis use {Store, get}

  unfoldable pub attempt : Attempt → Store → Result (Option ResolvedSession) × Store
  attempt (refreshes token binding ttl) s = refresh_session redis sha256 token binding ttl s
  attempt (removes token binding) s = remove_session redis sha256 token binding s

  -- The answers to attempts one after the other, and what they leave.
  abbrev pub attempts : List Attempt → Store → List (Result (Option ResolvedSession)) × Store
  attempts [] s = ([], s)
  attempts (a ∷ tried) s =
      let (first, left) = attempt a s in
      let (others, last) = attempts tried left in (first ∷ others, last)

  -- An attempt for which no session is found leaves the store.
  unmatched :
      (a : Attempt) (s : Store)
      → matching (get s (session_key (token_of a))) (hash_binding redis sha256 (binding_of a))
        ≡ none
      → attempt a s ≡ (ok none, s)
  unfolding attempt
  unmatched (refreshes token binding ttl) s h =
      (unmatched_inert redis sha256 token binding ttl s h).0
  unmatched (removes token binding) s h = (unmatched_inert redis sha256 token binding 0 s h).1

  unknown_inert :
      (a : Attempt) (s : Store)
      → get s (session_key (token_of a)) ≡ none
      → attempt a s ≡ (ok none, s)
  unknown_inert a s h = unmatched a s (unfold matching in rw h refl)

  other_inert :
      (license_id : String) (revision : ℕ) (own : String) (a : Attempt) (s : Store)
      → bar_free license_id ≡ true
      → get s (session_key (token_of a)) ≡ some (session_value license_id revision own)
      → own == hash_binding redis sha256 (binding_of a) ≡ false
      → attempt a s ≡ (ok none, s)
  other_inert license_id revision own a s bars h other =
      let read =
        matching-value license_id revision own (hash_binding redis sha256 (binding_of a)) bars in
      unmatched a s (rw (h, read, other) refl)

  -- The attempt is not the owner's: its token has no session in the store, or it is the owner's token
  -- with a binding of another hash.
  abbrev pub IsForeign : String → SessionBinding → Store → Attempt → Type 0
  IsForeign token owner s a =
      (get s (session_key (token_of a)) ≡ none)
      ⊎ ((token_of a ≡ token)
          × (hash_binding redis sha256 owner == hash_binding redis sha256 (binding_of a) ≡ false))

  attempts_inert :
      (license_id : String) (revision : ℕ) (owner : SessionBinding) (token : String) (s : Store)
      (tried : List Attempt)
      → bar_free license_id ≡ true
      → get s (session_key token)
        ≡ some (session_value license_id revision (hash_binding redis sha256 owner))
      → All (IsForeign token owner s) tried
      → attempts tried s ≡ (map (λ a. ok none) tried, s)
  attempts_inert license_id revision owner token s [] bars h foreign = refl
  attempts_inert license_id revision owner token s (a ∷ tried) bars h (inl unknown, others) =
      let same = attempts_inert license_id revision owner token s tried bars h others in
      rw (unknown_inert a s unknown, same) refl
  attempts_inert license_id revision owner token s (a ∷ tried) bars h (inr (of, other), others) =
      let same = attempts_inert license_id revision owner token s tried bars h others in
      let stored : get s (session_key (token_of a))
          ≡ some (session_value license_id revision (hash_binding redis sha256 owner)) =
        rw of h in
      rw (other_inert license_id revision _ a s bars stored other, same) refl

  -- After a session has been registered, let others try any sequence of refreshes and removals, each with
  -- the session's token and a binding of another hash, or with a token that has no session. Each is
  -- answered with no session, the store is left as it was, and a refresh by the owner still gives the
  -- session that was registered. (The identifier of the license is not empty and has no `|`, and the
  -- revision is a safe integer.)
  pub mismatch_inert :
      (license_id : String) (revision : ℕ) (owner : SessionBinding) (ttl ttl' maximum : ℕ)
      (token t : String) (s : Store) (tried : List Attempt)
      → 0 < ttl
      → bar_free license_id ≡ true
      → is_empty license_id ≡ false
      → revision ≤ 2 ^ 53 - 1
      → (register_session redis sha256 license_id revision owner ttl maximum token s).0
        ≡ registered t
      → All
          (IsForeign token owner
            (register_session redis sha256 license_id revision owner ttl maximum token s).1)
          tried
      → (attempts tried
            (register_session redis sha256 license_id revision owner ttl maximum token s).1
          ≡ (
            map (λ a. ok none) tried,
            (register_session redis sha256 license_id revision owner ttl maximum token s).1,
          ))
        × ((refresh_session redis sha256 token owner ttl'
              (attempts tried
                (register_session redis sha256 license_id revision owner ttl maximum token
                  s).1).1).0
            ≡ ok (some (session_of license_id revision token)))
  mismatch_inert license_id revision owner ttl ttl' maximum token t s tried positive bars full safe
        h foreign =
      let after = (register_session redis sha256 license_id revision owner ttl maximum token s).1 in
      let stored =
        get-registered redis sha256 license_id revision owner ttl maximum token t s positive h in
      let inert = attempts_inert license_id revision owner token after tried bars stored foreign in
      let (_, gives) =
        refresh-register redis sha256 license_id revision owner owner ttl ttl' maximum token t s
          positive bars full safe h in
      let own = hash_binding redis sha256 owner in
      (inert, rw inert (gives ∙ ground (arith, eq_iff own own)))
