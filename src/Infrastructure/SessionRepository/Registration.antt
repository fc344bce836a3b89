-- ===== src/Infrastructure/SessionRepository/Registration.antt =====
-- `registerSession` of RedisSessionRepository.ts: the limit on sessions, and what it counts.
use keyzori.Prelude.{
  ℕ, ◌≤◌, ◌<◌, ◌≡◌, refl, subst, sym, String, List, [], ◌∷◌, true, false, not, ◌&&◌, ◌==◌, eq_iff,
  none, if◌then◌else◌, arith,
}
use keyzori.Domain.Decimal.{show_decimal}
use keyzori.Infrastructure.Redis.{Redis, elem}
use keyzori.Infrastructure.SessionRepository.{
  SessionBinding, registered, limit_reached, session_key, session_set, is_stale, hash_binding,
  scard, purge, register_session,
}
use keyzori.Infrastructure.SessionRepository.Value.{session_value}
use keyzori.Infrastructure.SessionRepository.Keys.{
  session_key-eq, session_key-ne-set, session_set-ne-key,
}

module _ (redis : Redis) (sha256 : String → String) where
  open redis use {
    Store, get, members, set_ex, del, expire, sadd, srem, get-del, get-srem, members-del, elem-srem,
    card-sadd, members-expire, members-set_ex,
  }

  abbrev drop_stale : String → String → String → Store → Store
  drop_stale license_id revision member s =
      if is_stale (get s (session_key member)) revision
      then srem (session_set license_id) member (del (session_key member) s)
      else s

  -- One round of the purge.
  get-drop_stale :
      (license_id revision member x : String) (s : Store)
      → get (drop_stale license_id revision member s) (session_key x) ≡ (
          if member == x && is_stale (get s (session_key x)) revision
          then none
          else get s (session_key x))
  get-drop_stale license_id revision member x s = ground (
    arith,
    eq_iff member x,
    session_key-eq member x,
    get-del (session_key member) (session_key x) s,
    get-srem (session_set license_id) (session_key x) member (del (session_key member) s)
        (session_set-ne-key license_id x),
  )

  -- The purge deletes the sessions of the listed members that are gone or of another revision.
  get-purge :
      (license_id revision x : String) (ms : List String) (s : Store)
      → get (purge redis sha256 (session_set license_id) revision ms s) (session_key x) ≡ (
          if elem x ms && is_stale (get s (session_key x)) revision
          then none
          else get s (session_key x))
  unfolding purge elem is_stale
  get-purge license_id revision x [] s = refl
  get-purge license_id revision x (member ∷ ms) s = ground (
    arith,
    get-drop_stale license_id revision member x s,
    get-purge license_id revision x ms (drop_stale license_id revision member s),
  )

  elem-drop_stale :
      (license_id revision member x : String) (s : Store)
      → elem x (members (drop_stale license_id revision member s) (session_set license_id)) ≡ (
          elem x (members s (session_set license_id))
          && not (member == x && is_stale (get s (session_key x)) revision))
  elem-drop_stale license_id revision member x s =
      let set = session_set license_id in
      ground (
        arith,
        eq_iff member x,
        eq_iff set set,
        eq_iff (session_key member) set,
        session_key-ne-set member license_id,
        elem-srem set set member x (del (session_key member) s),
        members-del (session_key member) set s,
      )

  -- The purge takes those members out of the license's set.
  elem-purge :
      (license_id revision x : String) (ms : List String) (s : Store)
      → elem x (
          members
            (purge redis sha256 (session_set license_id) revision ms s)
            (session_set license_id))
        ≡ (elem x (members s (session_set license_id))
            && not (elem x ms && is_stale (get s (session_key x)) revision))
  unfolding purge elem is_stale
  elem-purge license_id revision x [] s = ground arith
  elem-purge license_id revision x (member ∷ ms) s = ground (
    arith,
    get-drop_stale license_id revision member x s,
    elem-drop_stale license_id revision member x s,
    elem-purge license_id revision x ms (drop_stale license_id revision member s),
  )

  -- The set of the license after the purge of all its members.
  abbrev purged : String → ℕ → Store → Store
  purged license_id revision s =
      purge redis sha256 (session_set license_id) (show_decimal revision)
        (members s (session_set license_id)) s

  purged-live :
      (license_id : String) (revision : ℕ) (x : String) (s : Store)
      → elem x (members (purged license_id revision s) (session_set license_id)) ≡ true
      → is_stale (get (purged license_id revision s) (session_key x)) (show_decimal revision)
        ≡ false
  purged-live license_id revision x s h = ground (
    arith,
    elem-purge license_id (show_decimal revision) x (members s (session_set license_id)) s,
    get-purge license_id (show_decimal revision) x (members s (session_set license_id)) s,
  )

  -- With a limit on sessions, a registration that succeeds leaves at most that many sessions in the
  -- license's set.
  pub register-le-limit :
      (license_id : String) (revision : ℕ) (binding : SessionBinding) (ttl maximum : ℕ)
      (token t : String) (s : Store)
      → 0 < ttl
      → 0 < maximum
      → (register_session redis sha256 license_id revision binding ttl maximum token s).0
        ≡ registered t
      → scard redis sha256
          (register_session redis sha256 license_id revision binding ttl maximum token s).1
          (session_set license_id)
        ≤ maximum
  unfolding register_session
  register-le-limit license_id revision binding ttl maximum token t s positive limited h =
      let set = session_set license_id in
      let value = session_value license_id revision (hash_binding redis sha256 binding) in
      let p = purged license_id revision s in
      let stored = set_ex (session_key token) value ttl p in
      ground (
        arith,
        members-expire set set ttl (sadd set token stored) positive,
        card-sadd set token stored,
        members-set_ex (session_key token) set value ttl p (session_key-ne-set token license_id),
      )

  -- A registration is refused only at a limit that the license's current sessions reach: then it has
  -- one, the set has at least that many members, and each of them is a stored session of the
  -- license's current revision. It adds no session.
  pub register-refused :
      (license_id : String) (revision : ℕ) (binding : SessionBinding) (ttl maximum : ℕ)
      (token : String) (s : Store)
      → (register_session redis sha256 license_id revision binding ttl maximum token s).0
        ≡ limit_reached
      → let after =
          (register_session redis sha256 license_id revision binding ttl maximum token s).1 in
        (0 < maximum)
        × (maximum ≤ scard redis sha256 after (session_set license_id))
        × ((x : String)
            → elem x (members after (session_set license_id)) ≡ true
            → (is_stale (get after (session_key x)) (show_decimal revision) ≡ false)
              × (elem x (members s (session_set license_id)) ≡ true))
  unfolding register_session
  register-refused license_id revision binding ttl maximum token s h =
      let set = session_set license_id in
      let refused : (register_session redis sha256 license_id revision binding ttl maximum token
            s).1
          ≡ purged license_id revision s =
        ground arith in
      (
        ground arith,
        ground arith,
        λ x m.
            let left : elem x (members (purged license_id revision s) set) ≡ true =
              subst (λ t. elem x (members t set) ≡ true) refused m in
            (
              subst (λ t. is_stale (get t (session_key x)) (show_decimal revision) ≡ false)
                  (sym refused) (purged-live license_id revision x s left),
              ground (arith, elem-purge license_id (show_decimal revision) x (members s set) s),
            ),
      )
