-- ===== src/Infrastructure/SessionRepository/Refresh.antt =====
-- `refreshSession` and `removeSession` of RedisSessionRepository.ts: a session answers to its own
-- binding, and to nothing once it is removed.
use keyzori.Prelude.{
  ℕ, ◌-◌, ◌^◌, ◌≤◌, ◌<◌, ◌≡◌, refl, String, Bool, true, false, ◌==◌, eq_iff, none, some,
  if◌then◌else◌, arith, Option-cases, inl, inr,
}
use keyzori.Domain.Text.{is_empty}
use keyzori.Domain.Decimal.{show_decimal, read-show, bar_free, show-bar_free}
use keyzori.Domain.Errors.{ok}
use keyzori.Infrastructure.Redis.{Redis}
use keyzori.Infrastructure.SessionRepository.{
  SessionBinding, registered, ResolvedSession, session_key, session_set, hash_binding, purge,
  register_session, refresh_session, remove_session, removed, matching, answer, resolved_session,
}
use keyzori.Infrastructure.SessionRepository.Value.{session_value, parts-value, last_cut-join_bar}
use keyzori.Infrastructure.SessionRepository.Keys.{session_set-ne-key}

abbrev pub session_of : String → ℕ → String → ResolvedSession
session_of license_id revision token = record {
  license_id = license_id;
  session_revision = revision;
  token = token;
}

-- A stored session is read by its own hash and by no other.
pub matching-value :
    (license_id : String) (revision : ℕ) (own hash : String)
    → bar_free license_id ≡ true
    → matching (some (session_value license_id revision own)) hash
      ≡ (if own == hash then some (license_id, show_decimal revision) else none)
unfolding matching
matching-value license_id revision own hash h =
    ground (arith, parts-value license_id revision own h)

answer-session :
    (license_id : String) (revision : ℕ) (token : String)
    → is_empty license_id ≡ false
    → revision ≤ 2 ^ 53 - 1
    → answer (some (license_id, show_decimal revision)) token
      ≡ ok (some (session_of license_id revision token))
unfolding answer resolved_session
answer-session license_id revision token h b = ground (
  arith,
  last_cut-join_bar license_id (show_decimal revision) (show-bar_free revision),
  read-show revision,
)

answer-if :
    (license_id : String) (revision : ℕ) (token : String) (same : Bool)
    → is_empty license_id ≡ false
    → revision ≤ 2 ^ 53 - 1
    → answer (if same then some (license_id, show_decimal revision) else none) token
      ≡ (if same then ok (some (session_of license_id revision token)) else ok none)
unfolding answer
answer-if license_id revision token true h b = answer-session license_id revision token h b
answer-if license_id revision token false h b = refl

module _ (redis : Redis) (sha256 : String → String) where
  open redis use {
    Store, get, members, set_ex, del, expire, sadd, srem, get-del, get-srem, get-expire, get-sadd,
    get-set_ex,
  }

  -- A registration that succeeds stores the session under its token.
  pub get-registered :
      (license_id : String) (revision : ℕ) (binding : SessionBinding) (ttl maximum : ℕ)
      (token t : String) (s : Store)
      → 0 < ttl
      → (register_session redis sha256 license_id revision binding ttl maximum token s).0
        ≡ registered t
      → get
          (register_session redis sha256 license_id revision binding ttl maximum token s).1
          (session_key token)
        ≡ some (session_value license_id revision (hash_binding redis sha256 binding))
  unfolding register_session
  get-registered license_id revision binding ttl maximum token t s positive h =
      let set = session_set license_id in
      let key = session_key token in
      let value = session_value license_id revision (hash_binding redis sha256 binding) in
      let p = purge redis sha256 set (show_decimal revision) (members s set) s in
      ground (
        arith,
        eq_iff key key,
        get-expire set key ttl (sadd set token (set_ex key value ttl p)) positive,
        get-sadd set key token (set_ex key value ttl p) (session_set-ne-key license_id token),
        get-set_ex key key value ttl p positive,
      )

  -- The session that a registration returned answers to a refresh with its token: with the binding's
  -- own hash the refresh gives the license and the revision that it was registered for, and with any
  -- other hash it gives no session. (The identifier of the license is not empty and has no `|`, and
  -- the revision is a safe integer.)
  pub refresh-register :
      (license_id : String) (revision : ℕ) (binding other : SessionBinding) (ttl ttl' maximum : ℕ)
      (token t : String) (s : Store)
      → 0 < ttl
      → bar_free license_id ≡ true
      → is_empty license_id ≡ false
      → revision ≤ 2 ^ 53 - 1
      → (register_session redis sha256 license_id revision binding ttl maximum token s).0
        ≡ registered t
      → (t ≡ token)
        × ((refresh_session redis sha256 token other ttl'
              (register_session redis sha256 license_id revision binding ttl maximum token s).1).0
            ≡ (if hash_binding redis sha256 binding == hash_binding redis sha256 other
                then ok (some (session_of license_id revision token))
                else ok none))
  unfolding refresh_session
  refresh-register license_id revision binding other ttl ttl' maximum token t s positive bars full
        safe h =
      (
        unfold register_session in ground arith,
        rw (get-registered license_id revision binding ttl maximum token t s positive h) (
            rw
              (matching-value license_id revision (hash_binding redis sha256 binding)
                (hash_binding redis sha256 other) bars)
              (answer-if license_id revision token _ full safe)),
      )

  -- Where the script finds no session, the store is left.
  pub unmatched_inert :
      (token : String) (binding : SessionBinding) (ttl : ℕ) (s : Store)
      → matching (get s (session_key token)) (hash_binding redis sha256 binding) ≡ none
      → (refresh_session redis sha256 token binding ttl s ≡ (ok none, s))
        × (remove_session redis sha256 token binding s ≡ (ok none, s))
  unfolding remove_session refresh_session answer
  unmatched_inert token binding ttl s h = (ground arith, ground arith)

  get-removed :
      (license_id token : String) (s : Store)
      → get (removed redis sha256 license_id token s) (session_key token) ≡ none
  get-removed license_id token s =
      let set = session_set license_id in
      let left = srem set token s in
      ground (
        arith,
        eq_iff (session_key token) (session_key token),
        get-del (session_key token) (session_key token) left,
        get-del (session_key token) (session_key token) (del set left),
      )

  remove-found :
      (token : String) (binding : SessionBinding) (r : ResolvedSession) (s : Store)
      → (remove_session redis sha256 token binding s).0 ≡ ok (some r)
      → get (remove_session redis sha256 token binding s).1 (session_key token) ≡ none
  unfolding remove_session
  remove-found token binding r s h =
      elim (Option-cases
        (matching (get s (session_key token)) (hash_binding redis sha256 binding))) [
          | inl e ↦ unfold answer in ground arith
          | inr ((license_id, revision), e) ↦
              rw (e, remove_session) (get-removed license_id token s)
        ]

  -- A removed session is gone: if the removal found one, no refresh and no other removal with its
  -- token finds one, whatever the binding, and they change nothing.
  pub remove_revokes :
      (token : String) (binding other : SessionBinding) (ttl : ℕ) (r : ResolvedSession) (s : Store)
      → (remove_session redis sha256 token binding s).0 ≡ ok (some r)
      → let after = (remove_session redis sha256 token binding s).1 in
        (refresh_session redis sha256 token other ttl after ≡ (ok none, after))
        × (remove_session redis sha256 token other after ≡ (ok none, after))
  remove_revokes token binding other ttl r s h =
      unmatched_inert token other ttl (remove_session redis sha256 token binding s).1
        (unfold matching in rw (remove-found token binding r s h))
