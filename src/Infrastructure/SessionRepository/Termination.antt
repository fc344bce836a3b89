-- ===== src/Infrastructure/SessionRepository/Termination.antt =====
-- `removeAllSessions` of RedisSessionRepository.ts: which sessions it ends.
use keyzori.Prelude.{
  ℕ, ◌≡◌, refl, String, List, [], ◌∷◌, ◌&&◌, ◌==◌, eq_iff, Option, none, if◌then◌else◌, arith,
}
use keyzori.Infrastructure.Redis.{Redis, elem}
use keyzori.Infrastructure.SessionRepository.{
  session_key, session_set, should_remove, remove_member, remove_members, remove_all_sessions,
}
use keyzori.Infrastructure.SessionRepository.Keys.{session_key-eq, session_set-ne-key}

module _ (redis : Redis) (sha256 : String → String) where
  open redis use {Store, get, members, del, srem, get-del, get-srem}

  -- One round deletes the member's session, if it is to be removed.
  get-remove_member :
      (license_id : String) (minimum : Option ℕ) (member x : String) (s : Store) (n : ℕ)
      → get
          (remove_member redis sha256 (session_set license_id) minimum member (s, n)).0
          (session_key x)
        ≡ (if member == x && should_remove redis sha256 minimum (get s (session_key x))
            then none
            else get s (session_key x))
  unfolding remove_member
  get-remove_member license_id minimum member x s n =
      let set = session_set license_id in
      let key = session_key member in
      ground (
        arith,
        eq_iff member x,
        session_key-eq member x,
        get-srem set (session_key x) member s (session_set-ne-key license_id x),
        get-srem set (session_key x) member (del key s) (session_set-ne-key license_id x),
        get-srem set (session_key x) member (del key (srem set member s))
            (session_set-ne-key license_id x),
        get-del key (session_key x) s,
        get-del key (session_key x) (srem set member s),
      )

  get-remove_members :
      (license_id : String) (minimum : Option ℕ) (x : String) (ms : List String) (p : Store × ℕ)
      → get (remove_members redis sha256 (session_set license_id) minimum ms p).0 (session_key x)
        ≡ (if elem x ms && should_remove redis sha256 minimum (get p.0 (session_key x))
            then none
            else get p.0 (session_key x))
  unfolding remove_members elem
  get-remove_members license_id minimum x [] p = refl
  get-remove_members license_id minimum x (member ∷ ms) p =
      let q = remove_member redis sha256 (session_set license_id) minimum member p in
      ground (
        arith,
        get-remove_member license_id minimum member x p.0 p.1,
        get-remove_members license_id minimum x ms q,
      )

  -- After `removeAllSessions` a session of the license's set is gone if it was to be removed, and
  -- every other session, of this license or another, is as it was. Without a minimal revision all
  -- sessions of the set are to be removed; with one, those whose value has no readable revision or
  -- one below it.
  pub get-remove_all :
      (license_id : String) (minimum : Option ℕ) (x : String) (s : Store)
      → get (remove_all_sessions redis sha256 license_id minimum s).1 (session_key x) ≡ (
          if elem x (members s (session_set license_id))
            && should_remove redis sha256 minimum (get s (session_key x))
          then none
          else get s (session_key x))
  unfolding remove_all_sessions
  get-remove_all license_id minimum x s =
      let set = session_set license_id in
      let left = remove_members redis sha256 set minimum (members s set) (s, 0) in
      ground (
        arith,
        get-remove_members license_id minimum x (members s set) (s, 0),
        get-del set (session_key x) left.0,
        eq_iff set (session_key x),
        session_set-ne-key license_id x,
      )
