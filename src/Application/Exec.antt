-- ===== src/Application/Exec.antt =====
-- Methods that await calls of the database, of Redis and of the activity recorder. Each call may fail,
-- as the list of faults says; what it wrote before stays, unless a transaction rolls it back.
pub mod Laws
pub mod Faultless
use keyzori.Prelude.{ℕ, String, List, [], ◌∷◌, Bool, true, false, Option, none, some, if◌then◌else◌}
use keyzori.Domain.Errors.{Failure, internal, Result, ok, err}
use keyzori.Infrastructure.Redis.{Redis}
use keyzori.Infrastructure.Database.{Database, Transaction}
use keyzori.Application.Activity.{ActivityEvent}

-- What a method sees and changes. `pending` is its local variable `sessionToken`, and `now` the time
-- of the request, which each `new Date()` of it reads.
pub record World (redis : Redis) : Type 0 where
  pub db : Database
  pub sessions : redis.Store
  pub activity : List ActivityEvent
  pub faults : List Bool
  pub pending : Option String
  pub now : ℕ

abbrev pub Exec : Redis → Type 0 → Type 0
Exec redis A = World redis → Result A × World redis

module _ {redis : Redis} {A : Type 0} where
  unfoldable pub pure : A → Exec redis A
  pure a w = (ok a, w)

  unfoldable pub raise : Failure → Exec redis A
  raise e w = (err e, w)

  unfoldable pub lift : Result A → Exec redis A
  lift r w = (r, w)

  -- A value read from the state without a call.
  unfoldable pub gets : (World redis → A) → Exec redis A
  gets f w = (ok (f w), w)

  -- A call that leaves the process, and fails where the next fault says so.
  unfoldable pub call : (World redis → Result A × World redis) → Exec redis A
  call m w = elim w.faults [
    | [] ↦ m w
    | fault ∷ rest ↦
        if fault then (err internal, record w { faults = rest }) else m (record w { faults = rest })
  ]

  abbrev pub reading : (Database → A) → World redis → Result A × World redis
  reading f w = (ok (f w.db), w)

  -- A query.
  unfoldable pub query : (Database → A) → Exec redis A
  unfolding call
  query f = call (reading f)

  abbrev pub written : Result (A × Database) → World redis → Result A × World redis
  written (ok (a, db)) w = (ok a, record w { db = db })
  written (err e) w = (err e, w)

  -- A statement that writes.
  unfoldable pub write : Transaction A → Exec redis A
  unfolding call
  write t = call (λ w. written (t w.db) w)

  abbrev pub scripting : (redis.Store → A × redis.Store) → World redis → Result A × World redis
  scripting f w = let (a, s) = f w.sessions in (ok a, record w { sessions = s })

  -- A script that Redis runs.
  unfoldable pub script : (redis.Store → A × redis.Store) → Exec redis A
  unfolding call
  script f = call (scripting f)

  abbrev pub handled : (Failure → Exec redis A) → Result A → World redis → Result A × World redis
  handled handler (ok a) w = (ok a, w)
  handled handler (err e) w = handler e w

  -- `try { m } catch (e) { handler(e) }`
  unfoldable pub try_catch : Exec redis A → (Failure → Exec redis A) → Exec redis A
  try_catch m handler w = let (r, w') = m w in handled handler r w'

  abbrev pub rolled_back : Database → Result A → World redis → Result A × World redis
  rolled_back before (ok a) w = (ok a, w)
  rolled_back before (err e) w = (err e, record w { db = before })

  -- `db.transaction(m)`: an error of the body, or of the commit, restores the database.
  unfoldable pub transaction : Exec redis A → Exec redis A
  unfolding call
  transaction m w =
      let (r, w') = m w in let (r', w'') = call (λ v. (r, v)) w' in rolled_back w.db r' w''

module _ {redis : Redis} {A B : Type 0} where
  abbrev pub continue : Result A → (A → Exec redis B) → Exec redis B
  continue (ok a) f w = f a w
  continue (err e) f w = (err e, w)

  infixl 5 ◌>>=◌ ◌>>◌
  unfoldable pub ◌>>=◌ : Exec redis A → (A → Exec redis B) → Exec redis B
  ◌>>=◌ m f w = let (r, w') = m w in continue r f w'

  abbrev pub ◌>>◌ : Exec redis A → Exec redis B → Exec redis B
  m >> n = m >>= λ _. n

module _ {redis : Redis} where
  -- `if (test) throw error;`
  unfoldable pub raise_if : Bool → Failure → Exec redis (Unit {0})
  raise_if true e w = (err e, w)
  raise_if false e w = (ok tt, w)

  -- `if (test) await m;`
  abbrev pub when : Bool → Exec redis (Unit {0}) → Exec redis (Unit {0})
  when test m = if test then m else (λ w. (ok tt, w))

  -- `try { m } catch {}`
  unfoldable pub best_effort : Exec redis (Unit {0}) → Exec redis (Unit {0})
  unfolding try_catch pure
  best_effort m = try_catch m (λ _. pure tt)

  -- `this.capture(event)`, whose failures are swallowed.
  unfoldable pub capture : ActivityEvent → Exec redis (Unit {0})
  unfolding best_effort call
  capture event = best_effort (call (λ w. (ok tt, record w { activity = event ∷ w.activity })))

  -- `sessionToken = token;`
  unfoldable pub set_pending : Option String → Exec redis (Unit {0})
  set_pending token w = (ok tt, record w { pending = token })
