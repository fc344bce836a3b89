-- ===== src/Application/Exec/Laws.antt =====
-- What holds when a method of Application/Exec.antt ends: one predicate of what it returns, another of
-- what it throws, and a rule for each kind of step.
use keyzori.Prelude.{
  if◌then◌else◌, ◌≡◌, refl, String, List, [], ◌∷◌, Bool, true, false, Option, none, some,
}
use keyzori.Domain.Errors.{Failure, internal, Result, ok, err}
use keyzori.Infrastructure.Redis.{Redis}
use keyzori.Infrastructure.Database.{Database, Transaction}
use keyzori.Application.Activity.{ActivityEvent}
use keyzori.Application.Exec.{
  World, Exec, pure, raise, lift, gets, call, query, write, script, try_catch, transaction, ◌>>=◌,
  best_effort, capture, set_pending, raise_if, reading, written, scripting, handled, rolled_back,
  continue,
}

module _ {redis : Redis} {A : Type 0} where
  abbrev pub Outcome :
      (A → World redis → Type 0)
      → (Failure → World redis → Type 0)
      → Result A
      → World redis
      → Type 0
  Outcome P Q (ok a) w = P a w
  Outcome P Q (err e) w = Q e w

  -- `m` from `w` returns where `P` holds, or throws where `Q` holds.
  abbrev pub Ends :
      (A → World redis → Type 0)
      → (Failure → World redis → Type 0)
      → Exec redis A
      → World redis
      → Type 0
  Ends P Q m w = let (r, w') = m w in Outcome P Q r w'

module _ {redis : Redis} {A : Type 0} (P : A → World redis → Type 0)
    (Q : Failure → World redis → Type 0) where
  written-Outcome :
      (w : World redis) (r : Result (A × Database))
      → ((db : Database) (a : A) → r ≡ ok (a, db) → P a (record w { db = db }))
      → ((e : Failure) → Q e w)
      → let (r', w') = written r w in Outcome P Q r' w'
  written-Outcome w (ok (a, db)) writes fails = writes db a refl
  written-Outcome w (err e) writes fails = fails e

  handled-Outcome :
      (handler : Failure → Exec redis A) (r : Result A) (w : World redis)
      → Outcome P (λ e w'. Ends P Q (handler e) w') r w
      → let (r', w') = handled handler r w in Outcome P Q r' w'
  handled-Outcome handler (ok a) w h = h
  handled-Outcome handler (err e) w h = h

  -- A weaker claim on what a method throws or returns.
  pub Outcome-mono :
      (P' : A → World redis → Type 0) (Q' : Failure → World redis → Type 0)
      → ((a : A) (w : World redis) → P a w → P' a w)
      → ((e : Failure) (w : World redis) → Q e w → Q' e w)
      → (r : Result A) (w : World redis) → Outcome P Q r w
      → Outcome P' Q' r w
  Outcome-mono P' Q' returns throws (ok a) w h = returns a w h
  Outcome-mono P' Q' returns throws (err e) w h = throws e w h

  call_from-Ends :
      (m : World redis → Result A × World redis) (faults : List Bool) (w : World redis)
      → ((rest : List Bool) → let (r, w') = m (record w { faults = rest }) in Outcome P Q r w')
      → ((rest : List Bool) → Q internal (record w { faults = rest }))
      → Ends P Q (call m) (record w { faults = faults })
  unfolding call
  call_from-Ends m [] w runs fails = runs []
  call_from-Ends m (true ∷ rest) w runs fails = fails rest
  call_from-Ends m (false ∷ rest) w runs fails = runs rest

  -- A call runs or fails, with other faults to come.
  pub call-Ends :
      (m : World redis → Result A × World redis) (w : World redis)
      → ((rest : List Bool) → let (r, w') = m (record w { faults = rest }) in Outcome P Q r w')
      → ((rest : List Bool) → Q internal (record w { faults = rest }))
      → Ends P Q (call m) w
  call-Ends m w runs fails = call_from-Ends m w.faults w runs fails

  -- A query returns what it reads, or fails.
  pub query-Ends :
      (f : Database → A) (w : World redis)
      → ((rest : List Bool) → P (f w.db) (record w { faults = rest }))
      → ((rest : List Bool) → Q internal (record w { faults = rest }))
      → Ends P Q (query f) w
  unfolding query
  query-Ends f w reads fails = call-Ends (reading f) w reads fails

  -- A script leaves the database as it is.
  pub script-Ends :
      (f : redis.Store → A × redis.Store) (w : World redis)
      → ((rest : List Bool) (s : redis.Store)
          → P (f w.sessions).0 (record w { faults = rest; sessions = s }))
      → ((rest : List Bool) → Q internal (record w { faults = rest }))
      → Ends P Q (script f) w
  unfolding script
  script-Ends f w runs fails = call-Ends (scripting f) w (λ rest. runs rest (f w.sessions).1) fails

  -- A statement: what it wrote, or what its error left.
  pub write-Ends :
      (t : Transaction A) (w : World redis)
      → ((rest : List Bool) (db : Database) (a : A)
          → t w.db ≡ ok (a, db)
          → P a (record w { faults = rest; db = db }))
      → ((rest : List Bool) (e : Failure) → Q e (record w { faults = rest }))
      → Ends P Q (write t) w
  unfolding write
  write-Ends t w writes fails =
      call-Ends (λ w. written (t w.db) w) w
        (λ rest. written-Outcome (record w { faults = rest }) (t w.db) (writes rest) (fails rest))
        (λ rest. fails rest internal)

  -- A method that branches on a test.
  pub if-Ends :
      (test : Bool) (m n : Exec redis A) (w : World redis)
      → (test ≡ true → Ends P Q m w)
      → (test ≡ false → Ends P Q n w)
      → Ends P Q (if test then m else n) w
  if-Ends true m n w holds fails = holds refl
  if-Ends false m n w holds fails = fails refl

  pub pure-Ends : (a : A) (w : World redis) → P a w → Ends P Q (pure a) w
  unfolding pure
  pure-Ends a w h = h

  pub raise-Ends : (e : Failure) (w : World redis) → Q e w → Ends P Q (raise e) w
  unfolding raise
  raise-Ends e w h = h

  pub gets-Ends : (f : World redis → A) (w : World redis) → P (f w) w → Ends P Q (gets f) w
  unfolding gets
  gets-Ends f w h = h

  -- A value or an error that calls nothing.
  pub lift-Ends :
      (r : Result A) (w : World redis)
      → ((a : A) → r ≡ ok a → P a w)
      → ((e : Failure) → r ≡ err e → Q e w)
      → Ends P Q (lift r) w
  unfolding lift
  lift-Ends (ok a) w returns throws = returns a refl
  lift-Ends (err e) w returns throws = throws e refl

  -- What `try { m } catch (e) { handler(e) }` ends with.
  pub try_catch-Ends :
      (m : Exec redis A) (handler : Failure → Exec redis A) (w : World redis)
      → Ends P (λ e w'. Ends P Q (handler e) w') m w
      → Ends P Q (try_catch m handler) w
  unfolding try_catch
  try_catch-Ends m handler w h = handled-Outcome handler (m w).0 (m w).1 h

  pub rolled_back-Outcome :
      (before : Database) (r : Result A) (w : World redis)
      → Outcome P (λ e v. Q e (record v { db = before })) r w
      → let (r', w') = rolled_back before r w in Outcome P Q r' w'
  rolled_back-Outcome before (ok a) w h = h
  rolled_back-Outcome before (err e) w h = h

-- A body that returned, or threw, once the commit has been tried.
abbrev pub Committed :
    {redis : Redis} {A : Type 0}
    → (A → World redis → Type 0)
    → (Failure → World redis → Type 0)
    → Database
    → A
    → World redis
    → Type 0
Committed P Q before a w =
    ((rest : List Bool) → P a (record w { faults = rest }))
    × ((rest : List Bool) → Q internal (record w { faults = rest; db = before }))

abbrev pub Restored :
    {redis : Redis} → (Failure → World redis → Type 0) → Database → Failure → World redis → Type 0
Restored Q before e w =
    ((rest : List Bool) → Q e (record w { faults = rest; db = before }))
    × ((rest : List Bool) → Q internal (record w { faults = rest; db = before }))

module _ {redis : Redis} {A : Type 0} (P : A → World redis → Type 0)
    (Q : Failure → World redis → Type 0) where
  commit-Outcome :
      (before : Database) (r : Result A) (w : World redis)
      → Outcome (Committed P Q before) (Restored Q before) r w
      → Ends P (λ e v. Q e (record v { db = before })) (call (λ v. (r, v))) w
  commit-Outcome before (ok a) w (returns, fails) =
      call-Ends P (λ e v. Q e (record v { db = before })) (λ v. (ok a, v)) w returns fails
  commit-Outcome before (err e) w (throws, fails) =
      call-Ends P (λ e v. Q e (record v { db = before })) (λ v. (err e, v)) w throws fails

  -- A transaction keeps what its body wrote, or restores the database.
  pub transaction-Ends :
      (m : Exec redis A) (w : World redis)
      → Ends (Committed P Q w.db) (Restored Q w.db) m w
      → Ends P Q (transaction m) w
  unfolding transaction
  transaction-Ends m w h =
      let (r, w') = m w in
      let (r', w'') = call (λ v. (r, v)) w' in
      rolled_back-Outcome P Q w.db r' w'' (commit-Outcome w.db r w' h)

module _ {redis : Redis} {A B : Type 0} (P : A → World redis → Type 0)
    (Q : Failure → World redis → Type 0) where
  -- A method that branches on a value that may be missing.
  pub option-Ends :
      (value : Option B) (m : Exec redis A) (f : B → Exec redis A) (w : World redis)
      → (value ≡ none → Ends P Q m w)
      → ((b : B) → value ≡ some b → Ends P Q (f b) w)
      → Ends P Q (elim value [ none ↦ m | some b ↦ f b ]) w
  option-Ends none m f w missing there = missing refl
  option-Ends (some b) m f w missing there = there b refl

module _ {redis : Redis} {A B : Type 0} (P : B → World redis → Type 0)
    (Q : Failure → World redis → Type 0) where
  continue-Outcome :
      (f : A → Exec redis B) (r : Result A) (w : World redis)
      → Outcome (λ a v. Ends P Q (f a) v) Q r w
      → let (r', w') = continue r f w in Outcome P Q r' w'
  continue-Outcome f (ok a) w h = h
  continue-Outcome f (err e) w h = h

  -- A chain ends as its first step does, or as the rest does from there.
  pub bind-Ends :
      (m : Exec redis A) (f : A → Exec redis B) (w : World redis)
      → Ends (λ a v. Ends P Q (f a) v) Q m w
      → Ends P Q (m >>= f) w
  unfolding ◌>>=◌
  bind-Ends m f w h = let (r, w') = m w in continue-Outcome f r w' h

module _ {redis : Redis} (P : World redis → Type 0) (Q : Failure → World redis → Type 0) where
  -- What is done as well as it can be throws nothing.
  pub best_effort-Ends :
      (m : Exec redis (Unit {0})) (w : World redis)
      → Ends (λ a. P) (λ e. P) m w
      → Ends (λ a. P) Q (best_effort m) w
  unfolding best_effort pure
  best_effort-Ends m w h = try_catch-Ends (λ a. P) Q m (λ e. pure tt) w h

  pub raise_if-Ends :
      (test : Bool) (e : Failure) (w : World redis)
      → (test ≡ true → Q e w)
      → (test ≡ false → P w)
      → Ends (λ a. P) Q (raise_if test e) w
  unfolding raise_if
  raise_if-Ends true e w throws passes = throws refl
  raise_if-Ends false e w throws passes = passes refl

  pub set_pending-Ends :
      (token : Option String) (w : World redis)
      → P (record w { pending = token })
      → Ends (λ a. P) Q (set_pending token) w
  unfolding set_pending
  set_pending-Ends token w h = h

  -- Only the activity and the faults change.
  pub capture-Ends :
      (event : ActivityEvent) (w : World redis)
      → ((rest : List Bool) (activity : List ActivityEvent)
          → P (record w { faults = rest; activity = activity }))
      → Ends (λ a. P) Q (capture event) w
  unfolding capture
  capture-Ends event w h =
      best_effort-Ends (call (λ w. (ok tt, record w { activity = event ∷ w.activity }))) w (
        call-Ends (λ a. P) (λ e. P) (λ w. (ok tt, record w { activity = event ∷ w.activity })) w
          (λ rest. h rest (event ∷ w.activity)) (λ rest. h rest w.activity))
