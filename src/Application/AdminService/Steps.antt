-- ===== src/Application/AdminService/Steps.antt =====
-- What the steps that the methods of AdminService.ts share end with.
use keyzori.Prelude.{ℕ, ◌≡◌, ◌⊎◌, inl, inr, refl, String, List, Bool, Option, none, some}
use keyzori.Domain.Entities.{License}
use keyzori.Domain.Errors.{Failure, internal, ok}
use keyzori.Infrastructure.Redis.{Redis}
use keyzori.Infrastructure.Database.{Database, Transaction}
use keyzori.Infrastructure.LicenseRepository.{find_by_id}
use keyzori.Application.Exec.{World}
use keyzori.Application.Exec.Laws.{
  Ends, query-Ends, script-Ends, write-Ends, pure-Ends, raise-Ends, bind-Ends, try_catch-Ends,
}
use keyzori.Application.AdminService.{
  present_or, require_license, reread, write_and_reread, remove_sessions_best_effort,
  license_not_found,
}

module _ (redis : Redis) (sha256 : String → String) where
  module _ {A : Type 0} (P : A → World redis → Type 0) (Q : Failure → World redis → Type 0) where
    pub present_or-Ends :
        (e : Failure) (found : Option A) (w : World redis)
        → ((a : A) → found ≡ some a → P a w)
        → Q e w
        → Ends P Q (present_or redis sha256 e found) w
    present_or-Ends e (some a) w returns throws = pure-Ends _ _ _ _ (returns a refl)
    present_or-Ends e none w returns throws = raise-Ends _ _ _ _ throws

  module _ (P : License → World redis → Type 0) (Q : Failure → World redis → Type 0) where
    pub require_license-Ends :
        (id : String) (w : World redis)
        → ((l : License) (rest : List Bool)
            → find_by_id id w.db ≡ some l
            → P l (record w { faults = rest }))
        → ((e : Failure) (rest : List Bool) → Q e (record w { faults = rest }))
        → Ends P Q (require_license redis sha256 id) w
    unfolding require_license
    require_license-Ends id w returns throws = bind-Ends _ _ _ _ _ (
        query-Ends _ _ _ _
          (λ rest.
            present_or-Ends _ _ _ _ _ (λ l found. returns l rest found)
              (throws license_not_found rest))
          (λ rest. throws internal rest))

    -- The write may be made, and the reading after it fail.
    pub write_and_reread-Ends :
        (id : String) (t : Transaction (Unit {0})) (w : World redis)
        → ((l : License) (db : Database) (rest : List Bool)
            → t w.db ≡ ok (tt, db)
            → find_by_id id db ≡ some l
            → P l (record w { faults = rest; db = db }))
        → ((e : Failure) (db : Database) (rest : List Bool)
            → (db ≡ w.db) ⊎ (t w.db ≡ ok (tt, db))
            → Q e (record w { faults = rest; db = db }))
        → Ends P Q (write_and_reread redis sha256 id t) w
    unfolding write_and_reread reread
    write_and_reread-Ends id t w returns throws = bind-Ends _ _ _ _ _ (
        write-Ends _ _ _ _
          (λ rest db a written. bind-Ends _ _ _ _ _ (
            query-Ends _ _ _ _
              (λ more.
                present_or-Ends _ _ _ _ _ (λ l found. returns l db more written found)
                  (throws internal db more (inr written)))
              (λ more. throws internal db more (inr written))))
          (λ rest e. throws e w.db rest (inl refl)))

  module _ (P : ℕ × Bool → World redis → Type 0) (Q : Failure → World redis → Type 0) where
    pub cleanup-Ends :
        (id : String) (minimum : Option ℕ) (w : World redis)
        → ((r : ℕ × Bool) (rest : List Bool) (s : redis.Store)
            → P r (record w { faults = rest; sessions = s }))
        → Ends P Q (remove_sessions_best_effort redis sha256 id minimum) w
    unfolding remove_sessions_best_effort
    cleanup-Ends id minimum w h = try_catch-Ends _ _ _ _ _ (
        bind-Ends _ _ _ _ _ (
          script-Ends _ _ _ _ (λ rest s. pure-Ends _ _ _ _ (h _ rest s))
            (λ rest. pure-Ends _ _ _ _ (h _ rest w.sessions))))
