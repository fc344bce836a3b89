-- ===== src/Infrastructure/SessionRepository.antt =====
-- apps/server/src/infrastructure/repositories/RedisSessionRepository.ts: the Lua scripts, which Redis
-- runs one at a time, and the methods that call them. A new token is an argument, `sha256` is Bun's
-- hasher. The limits travel as decimal text, and are kept as numbers here.
pub mod Value
pub mod Keys
pub mod Registration
pub mod Refresh
pub mod Foreign
pub mod Termination
use Prim.Native.Char.{nul}
use keyzori.Prelude.{
  ℕ, ◌+◌, ◌-◌, ◌^◌, String, List, [], ◌∷◌, Bool, true, false, not, ◌&&◌, ◌||◌, ◌==◌, Option, none,
  some, if◌then◌else◌, ltb, leb, eqb, length, is_some,
}
use keyzori.Domain.Text.{concat, is_empty}
use keyzori.Domain.Decimal.{show_decimal, read_number}
use keyzori.Domain.Errors.{Result, ok, err, internal, ◌>>=◌}
use keyzori.Infrastructure.Redis.{Redis}
use Value.{join_bar, cut, last_cut, session_value, session_parts}

pub record SessionBinding : Type 0 where
  pub ip : String
  pub device_id : String

pub record ResolvedSession : Type 0 where
  pub license_id : String
  pub session_revision : ℕ
  pub token : String

pub data SessionRegistrationResult : Type 0 where
  registered : String → SessionRegistrationResult
  limit_reached : SessionRegistrationResult

-- SESSION_PREFIX and SESSION_SET_PREFIX.
unfoldable pub session_key : String → String
session_key token = concat "license_session:" token

unfoldable pub session_set : String → String
session_set license_id = concat "license_sessions:" license_id

-- `${binding.ip}\0${binding.deviceId}`; the NUL character is written out by its code.
unfoldable pub binding_text : SessionBinding → String
binding_text binding = concat binding.ip (String.◌∷◌ nul (binding.device_id))

abbrev pub revision_text : Option (String × String × String) → Option String
revision_text none = none
revision_text (some (license_id, revision, hash)) = some revision

-- `if not value or revision ~= ARGV[6]`
unfoldable pub is_stale : Option String → String → Bool
is_stale none revision = true
is_stale (some value) revision = elim (revision_text (session_parts value)) [
  | none ↦ true
  | some found ↦ not (found == revision)
]

-- The license and the revision of a value with both separators and this hash.
unfoldable pub matching : Option String → String → Option (String × String)
matching none hash = none
matching (some value) hash = elim (session_parts value) [
  | none ↦ none
  | some (license_id, revision, found) ↦ if found == hash then some (license_id, revision) else none
]

-- `resolvedSession(value, token)`, on `licenseId|revision`.
unfoldable pub resolved_session : String → String → Result ResolvedSession
resolved_session value token = elim (last_cut value) [
  | none ↦ err internal
  | some (license_id, revision) ↦ elim (read_number revision) [
    | none ↦ err internal
    | some n ↦
        if is_empty license_id || ltb (2 ^ 53 - 1) n
        then err internal
        else ok (record { license_id = license_id; session_revision = n; token = token })
  ]
]

-- What the methods make of a script's answer: a session, or `null`.
unfoldable pub answer : Option (String × String) → String → Result (Option ResolvedSession)
answer none token = ok none
answer (some (license_id, revision)) token = do
  session ← resolved_session (join_bar license_id revision) token
  ok (some session)

module _ (redis : Redis) (sha256 : String → String) where
  open redis use {Store, get, members, set_ex, del, expire, sadd, srem}

  -- SCARD.
  abbrev pub scard : Store → String → ℕ
  scard s key = length (members s key)

  unfoldable pub hash_binding : SessionBinding → String
  hash_binding binding = sha256 (binding_text binding)

  -- The loop of REGISTER_SESSION_SCRIPT: it drops the members whose session is gone or of another
  -- revision.
  unfoldable pub purge : String → String → List String → Store → Store
  purge set revision [] s = s
  purge set revision (member ∷ rest) s = purge set revision rest (
      if is_stale (get s (session_key member)) revision
      then srem set member (del (session_key member) s)
      else s)

  unfoldable pub register_session :
      String → ℕ → SessionBinding → ℕ → ℕ → String → Store → SessionRegistrationResult × Store
  register_session license_id revision binding ttl maximum token s =
      let set = session_set license_id in
      let purged = purge set (show_decimal revision) (members s set) s in
      let value = session_value license_id revision (hash_binding binding) in
      let written = expire set ttl (sadd set token (set_ex (session_key token) value ttl purged)) in
      if ltb 0 maximum && leb maximum (scard purged set)
      then (limit_reached, purged)
      else (registered token, written)

  -- What REFRESH_SESSION_SCRIPT writes for a session of the license.
  abbrev pub refreshed : String → String → ℕ → Store → Store
  refreshed license_id token ttl s =
      expire (session_set license_id) ttl
        (sadd (session_set license_id) token (expire (session_key token) ttl s))

  unfoldable pub refresh_session :
      String → SessionBinding → ℕ → Store → Result (Option ResolvedSession) × Store
  refresh_session token binding ttl s =
      let found = matching (get s (session_key token)) (hash_binding binding) in
      (
        answer found token,
        elim found [ none ↦ s | some (license_id, revision) ↦ refreshed license_id token ttl s ],
      )

  -- What REMOVE_SESSION_SCRIPT writes for a session of the license.
  abbrev pub removed : String → String → Store → Store
  removed license_id token s =
      let set = session_set license_id in
      let left = srem set token s in
      del (session_key token) (if eqb (scard left set) 0 then del set left else left)

  unfoldable pub remove_session :
      String → SessionBinding → Store → Result (Option ResolvedSession) × Store
  remove_session token binding s =
      let found = matching (get s (session_key token)) (hash_binding binding) in
      (
        answer found token,
        elim found [ none ↦ s | some (license_id, revision) ↦ removed license_id token s ],
      )

  -- `not revision or revision < minimumRevision`.
  abbrev pub below_minimum : Option String → ℕ → Bool
  below_minimum none minimum = true
  below_minimum (some text) minimum = not (redis.reaches text minimum)

  -- `shouldRemove` of REMOVE_ALL_SESSIONS_SCRIPT.
  unfoldable pub should_remove : Option ℕ → Option String → Bool
  should_remove none value = true
  should_remove (some minimum) none = false
  should_remove (some minimum) (some value) =
      below_minimum (revision_text (session_parts value)) minimum

  -- One round of REMOVE_ALL_SESSIONS_SCRIPT: the store and the count of removed sessions.
  unfoldable pub remove_member : String → Option ℕ → String → Store × ℕ → Store × ℕ
  remove_member set minimum member (s, count) =
      let key = session_key member in
      let value = get s key in
      let seen = if is_some value then s else srem set member s in
      if should_remove minimum value
      then (if is_some value
          then (srem set member (del key seen), count + 1)
          else (del key seen, count))
      else (seen, count)

  unfoldable pub remove_members : String → Option ℕ → List String → Store × ℕ → Store × ℕ
  remove_members set minimum [] state = state
  remove_members set minimum (member ∷ rest) state =
      remove_members set minimum rest (remove_member set minimum member state)

  unfoldable pub remove_all_sessions : String → Option ℕ → Store → ℕ × Store
  remove_all_sessions license_id minimum s =
      let set = session_set license_id in
      let (left, count) = remove_members set minimum (members s set) (s, 0) in
      (count, if eqb (scard left set) 0 then del set left else left)
