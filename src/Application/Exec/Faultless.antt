-- ===== src/Application/Exec/Faultless.antt =====
-- What holds when a method of Application/Exec.antt ends, if none of its calls fails.
use keyzori.Prelude.{◌≡◌, List, [], ◌∷◌, Bool}
use keyzori.Domain.Errors.{Failure, Result, ok, err}
use keyzori.Infrastructure.Redis.{Redis}
use keyzori.Infrastructure.Database.{Database}
use keyzori.Application.Activity.{ActivityEvent}
use keyzori.Application.Exec.{
  World, Exec, call, lift, query, script, transaction, capture, reading, scripting, rolled_back,
}
use keyzori.Application.Exec.Laws.{Ends, Outcome, best_effort-Ends, rolled_back-Outcome}

module _ {redis : Redis} {A : Type 0} (P : A → World redis → Type 0)
    (Q : Failure → World redis → Type 0) where
  call_from-Runs :
      (m : World redis → Result A × World redis) (faults : List Bool) (w : World redis)
      → faults ≡ []
      → Ends P Q m (record w { faults = faults })
      → Ends P Q (call m) (record w { faults = faults })
  unfolding call
  call_from-Runs m [] w h runs = runs
  call_from-Runs m (f ∷ fs) w h runs = absurd cc

  -- Where no call is to fail, a call runs.
  pub call-Runs :
      (m : World redis → Result A × World redis) (w : World redis)
      → w.faults ≡ []
      → Ends P Q m w
      → Ends P Q (call m) w
  call-Runs m w h runs = call_from-Runs m w.faults w h runs

module _ {redis : Redis} {A : Type 0} (P : A → World redis → Type 0)
    (Q : Failure → World redis → Type 0) where
  pub query-Runs :
      (f : Database → A) (w : World redis) → w.faults ≡ [] → P (f w.db) w → Ends P Q (query f) w
  unfolding query
  query-Runs f w h reads = call-Runs P Q (reading f) w h reads

  pub script-Runs :
      (f : redis.Store → A × redis.Store) (w : World redis)
      → w.faults ≡ []
      → P (f w.sessions).0 (record w { sessions = (f w.sessions).1 })
      → Ends P Q (script f) w
  unfolding script
  script-Runs f w h runs = call-Runs P Q (scripting f) w h runs

  -- A check that passes.
  pub lift-Runs : (r : Result A) (a : A) (w : World redis) → r ≡ ok a → P a w → Ends P Q (lift r) w
  unfolding lift
  lift-Runs r a w h holds = rw h holds

  committed-Runs :
      (before : Database) (r : Result A) (w : World redis)
      → Outcome (λ a v. (v.faults ≡ []) × P a v) (λ _ _. ⊥) r w
      → let (r', w') = call (λ v. (r, v)) w in
        let (r'', w'') = rolled_back before r' w' in Outcome P Q r'' w''
  committed-Runs before (ok a) w (h, holds) =
      let (r', w') = call (λ v. (ok a, v)) w in
      rolled_back-Outcome P Q before r' w'
        (call-Runs P (λ e v. Q e (record v { db = before })) (λ v. (ok a, v)) w h holds)
  committed-Runs before (err e) w h = absurd h

  -- A body that returns is committed.
  pub transaction-Runs :
      (m : Exec redis A) (w : World redis)
      → Ends (λ a v. (v.faults ≡ []) × P a v) (λ _ _. ⊥) m w
      → Ends P Q (transaction m) w
  unfolding transaction
  transaction-Runs m w h = let (r, w') = m w in committed-Runs w.db r w' h

module _ {redis : Redis} (P : World redis → Type 0) (Q : Failure → World redis → Type 0) where
  pub capture-Runs :
      (event : ActivityEvent) (w : World redis)
      → w.faults ≡ []
      → ((activity : List ActivityEvent) → P (record w { activity = activity }))
      → Ends (λ a. P) Q (capture event) w
  unfolding capture
  capture-Runs event w h holds =
      best_effort-Ends P Q (call (λ v. (ok tt, record v { activity = event ∷ v.activity }))) w (
        call-Runs (λ a. P) (λ e. P) (λ v. (ok tt, record v { activity = event ∷ v.activity })) w h
          (holds (event ∷ w.activity)))
