-- ===== src/Application/LicenseService/Steps.antt =====
-- What the steps that the methods of LicenseService.ts share end with.
use keyzori.Prelude.{
  ℕ, ◌≡◌, ◌≢◌, refl, subst, String, List, Bool, true, Option, none, some, eqb, arith,
}
use keyzori.Domain.Entities.{License, JsonObject}
use keyzori.Domain.Errors.{Failure}
use keyzori.Infrastructure.Redis.{Redis}
use keyzori.Infrastructure.Database.{Database}
use keyzori.Infrastructure.DeviceRepository.{find_registered_device}
use keyzori.Infrastructure.SessionRepository.{SessionBinding}
use keyzori.Application.Activity.{ActivityEventType}
use keyzori.Application.Exec.{World, Exec, pure, raise}
use keyzori.Application.Exec.Laws.{
  Ends, Outcome-mono, query-Ends, script-Ends, write-Ends, lift-Ends, pure-Ends, raise-Ends,
  gets-Ends, bind-Ends, option-Ends, try_catch-Ends, best_effort-Ends, capture-Ends,
}
use keyzori.Application.LicenseService.{
  rejecting, touch_best_effort, remove_session_best_effort, found_or,
}

same_value : {a b : String} → some a ≡ some b → b ≡ a
same_value h = cc

no_value : {a : String} → none ≢ some a
no_value h = cc

pub by_test : {a b : ℕ} → eqb a b ≡ true → a ≡ b
by_test h = ground arith

-- The database is as it was.
abbrev pub Kept : {redis : Redis} → Database → Failure → World redis → Type 0
Kept db e w = w.db ≡ db

module _ (redis : Redis) (sha256 : String → String) where
  module _ {A : Type 0} (P : A → World redis → Type 0) (Q : Failure → World redis → Type 0) where
    pub found_or-Ends :
        (e : Failure) (found : Option A) (w : World redis)
        → ((a : A) → found ≡ some a → P a w)
        → Q e w
        → Ends P Q (found_or redis sha256 e found) w
    unfolding pure raise
    found_or-Ends e (some a) w returns throws = returns a refl
    found_or-Ends e none w returns throws = throws

  module _ (P : String → World redis → Type 0) (Q : Failure → World redis → Type 0) where
    -- A value that is there is returned.
    pub found_or-some :
        (e : Failure) (found : Option String) (a : String) (w : World redis)
        → found ≡ some a
        → P a w
        → Ends P Q (found_or redis sha256 e found) w
    found_or-some e (some a') a w h holds =
        pure-Ends _ _ _ _ (subst (λ given. P given w) (same_value h) holds)
    found_or-some e none a w h holds = absurd (no_value h)

  module _ (P : World redis → Type 0) (Q : Failure → World redis → Type 0) where
    pub removal-Ends :
        (token : String) (b : SessionBinding) (w : World redis)
        → ((rest : List Bool) (s : redis.Store) → P (record w { faults = rest; sessions = s }))
        → Ends (λ _. P) Q (remove_session_best_effort redis sha256 token b) w
    unfolding remove_session_best_effort
    removal-Ends token b w h = best_effort-Ends _ _ _ _ (
        bind-Ends _ _ _ _ _ (
          script-Ends _ _ _ _ (λ rest s. lift-Ends _ _ _ _ (λ _ _. h rest s) (λ _ _. h rest s))
            (λ rest. h rest w.sessions)))

    pub touch-Ends :
        (license_id : String) (b : SessionBinding) (w : World redis)
        → ((rest : List Bool) (db : Database) → P (record w { faults = rest; db = db }))
        → Ends (λ _. P) Q (touch_best_effort redis sha256 license_id b) w
    unfolding touch_best_effort
    touch-Ends license_id b w h = best_effort-Ends _ _ _ _ (
        bind-Ends _ _ _ _ _ (
          query-Ends _ _ _ _
            (λ rest. bind-Ends _ _ _ _ _ (
              gets-Ends _ _ _ _ (
                option-Ends (λ _. P) (λ _. P)
                  (find_registered_device license_id b.ip b.device_id w.db) _ _
                  (record w { faults = rest }) (λ missing. pure-Ends _ _ _ _ (h rest w.db))
                  (λ d there.
                    write-Ends _ _ _ _ (λ rest db _ _. h rest db) (λ rest _. h rest w.db)))))
            (λ rest. h rest w.db)))

module _ {redis : Redis} where
  pub rejecting-Ends :
      {A : Type 0}
      → (P : A → World redis → Type 0) → (type : ActivityEventType) → (license : Option License)
      → (b : SessionBinding) → (details : JsonObject) → (m : Exec redis A) → (db : Database)
      → (w : World redis) → Ends P (Kept db) m w
      → Ends P (Kept db) (rejecting type license b details m) w
  unfolding rejecting
  rejecting-Ends P type license b details m db w h = try_catch-Ends _ _ _ _ _ (
      Outcome-mono P (Kept db) _ _ (λ a v h. h)
        (λ e v kept. bind-Ends _ _ _ _ _ (capture-Ends _ _ _ _ (λ _ _. raise-Ends _ _ _ _ kept))) _
        _ h)
