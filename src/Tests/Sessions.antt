-- ===== src/Tests/Sessions.antt =====
-- RedisSessionRepository.ts on a store in memory.
use keyzori.Prelude.{
  List, ◌∷◌, All, map, inl, inr, ◌≤◌, ◌<◌, ◌≡◌, refl, arith, none, some, [], String, true, false,
  if◌then◌else◌, ◌==◌, ◌&&◌,
}
use keyzori.Domain.Text.{is_empty}
use keyzori.Domain.Decimal.{show_decimal, bar_free, read_number}
use keyzori.Domain.Errors.{ok}
use keyzori.Infrastructure.Redis.{elem}
use keyzori.Infrastructure.SessionRepository.{
  SessionBinding, registered, limit_reached, register_session, refresh_session, remove_session,
  scard, session_set, session_key, hash_binding, purge, is_stale, matching, answer, binding_text,
  resolved_session, remove_all_sessions, should_remove,
}
use keyzori.Infrastructure.SessionRepository.Value.{session_value, session_parts, cut, last_cut}
use keyzori.Infrastructure.SessionRepository.Registration.{register-le-limit, register-refused}
use keyzori.Infrastructure.SessionRepository.Refresh.{session_of, refresh-register, remove_revokes}
use keyzori.Infrastructure.SessionRepository.Foreign.{
  Attempt, refreshes, removes, attempts, IsForeign, mismatch_inert,
}
use keyzori.Infrastructure.SessionRepository.Termination.{get-remove_all}
use keyzori.Tests.Memory.{Memory, memory, reads_at_least}

abbrev hash : String → String
hash s = s

abbrev empty_memory : Memory
empty_memory = record { value = λ k. none; set = λ k. [] }

abbrev laptop : SessionBinding
laptop = record { ip = "10.0.0.1"; device_id = "laptop" }

abbrev phone : SessionBinding
phone = record { ip = "10.0.0.2"; device_id = "phone" }

abbrev pub one_session : Memory
one_session = (register_session memory hash "l1" 3 laptop 45 1 "t1" empty_memory).1

registers : (register_session memory hash "l1" 3 laptop 45 1 "t1" empty_memory).0 ≡ registered "t1"
unfolding register_session purge
registers = refl

register-le-limit_example : scard memory hash one_session (session_set "l1") ≤ 1
register-le-limit_example =
    register-le-limit memory hash "l1" 3 laptop 45 1 "t1" "t1" empty_memory (omega arith)
      (omega arith) registers

refuses : (register_session memory hash "l1" 3 phone 45 1 "t2" one_session).0 ≡ limit_reached
unfolding register_session purge is_stale session_value session_parts cut session_key session_set
    elem show_decimal hash_binding binding_text
refuses = refl

register-refused_example :
    let later = (register_session memory hash "l1" 3 phone 45 1 "t2" one_session).1 in
    (0 < 1)
    × (1 ≤ scard memory hash later (session_set "l1"))
    × ((x : String)
        → elem x (later.set (session_set "l1")) ≡ true
        → (is_stale (later.value (session_key x)) (show_decimal 3) ≡ false)
          × (elem x (one_session.set (session_set "l1")) ≡ true))
register-refused_example = register-refused memory hash "l1" 3 phone 45 1 "t2" one_session refuses

refresh-register_example :
    (◌≡◌ {A = String} "t1" "t1")
    × ((refresh_session memory hash "t1" phone 45 one_session).0 ≡ (
        if hash_binding memory hash laptop == hash_binding memory hash phone
        then ok (some (session_of "l1" 3 "t1"))
        else ok none))
refresh-register_example =
    refresh-register memory hash "l1" 3 laptop phone 45 45 1 "t1" "t1" empty_memory (omega arith)
      (unfold bar_free in refl) (unfold is_empty in refl) (omega arith) registers

removal :
    (remove_session memory hash "t1" laptop one_session).0 ≡ ok (some (session_of "l1" 3 "t1"))
unfolding remove_session register_session purge is_stale session_value session_parts cut session_key
    session_set elem show_decimal hash_binding binding_text matching answer resolved_session
    last_cut read_number is_empty
removal = refl

remove_revokes_example :
    let later = (remove_session memory hash "t1" laptop one_session).1 in
    (refresh_session memory hash "t1" laptop 45 later ≡ (ok none, later))
    × (remove_session memory hash "t1" laptop later ≡ (ok none, later))
remove_revokes_example =
    remove_revokes memory hash "t1" laptop laptop 45 (session_of "l1" 3 "t1") one_session removal

-- Another device with the token, and a token that nobody has.
abbrev tried : List Attempt
tried = refreshes "t1" phone 45 ∷ removes "t1" phone ∷ removes "t9" laptop ∷ []

tried_by_others : All (IsForeign memory hash "t1" laptop one_session) tried
unfolding register_session purge session_key session_set elem hash_binding binding_text
tried_by_others = (inr (refl, refl), (inr (refl, refl), (inl refl, tt)))

mismatch_inert_example :
    (attempts memory hash tried one_session ≡ (map (λ a. ok none) tried, one_session))
    × ((refresh_session memory hash "t1" laptop 45 (attempts memory hash tried one_session).1).0
        ≡ ok (some (session_of "l1" 3 "t1")))
mismatch_inert_example =
    mismatch_inert memory hash "l1" 3 laptop 45 45 1 "t1" "t1" empty_memory tried (omega arith)
      (unfold bar_free in refl) (unfold is_empty in refl) (omega arith) registers tried_by_others

get-remove_all_example :
    (remove_all_sessions memory hash "l1" (some 4) one_session).1.value (session_key "t1") ≡ (
      if elem "t1" (one_session.set (session_set "l1"))
        && should_remove memory hash (some 4) (one_session.value (session_key "t1"))
      then none
      else one_session.value (session_key "t1"))
get-remove_all_example = get-remove_all memory hash "l1" (some 4) "t1" one_session

ends_old_revision : should_remove memory hash (some 4) (one_session.value (session_key "t1")) ≡ true
unfolding register_session purge session_value session_parts cut session_key session_set elem
    show_decimal hash_binding binding_text should_remove reads_at_least read_number
ends_old_revision = refl
