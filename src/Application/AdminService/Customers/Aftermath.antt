-- ===== src/Application/AdminService/Customers/Aftermath.antt =====
-- What the deletion of a customer means for the clients of the customer's licenses: AdminService.ts
-- against LicenseService.ts.
use keyzori.Prelude.{
  ℕ, ◌+◌, if◌then◌else◌, ◌≡◌, ◌≢◌, refl, ◌∙◌, subst, String, List, [], ◌∷◌, Bool, true, none, some,
  Option,
}
use keyzori.Domain.Host.{Host}
use keyzori.Domain.Entities.{License, LicenseWithAllowlists}
use keyzori.Domain.Errors.{Failure, Result, ok, err}
use keyzori.Infrastructure.Redis.{Redis}
use keyzori.Infrastructure.Database.{Database}
use keyzori.Infrastructure.LicenseRepository.{find_by_id}
use keyzori.Infrastructure.MeterRepository.{Draws}
use keyzori.Infrastructure.CustomerRepository.{drop_customer, licenses_of}
use keyzori.Infrastructure.CustomerRepository.Cascade.{among, dropped-gone}
use keyzori.Infrastructure.SessionRepository.{SessionBinding, ResolvedSession, refresh_session}
use keyzori.Application.Exec.{World, pure}
use keyzori.Application.Exec.Laws.{
  Outcome, Ends, Outcome-mono, bind-Ends, query-Ends, write-Ends, capture-Ends,
}
use keyzori.Application.AdminService.Steps.{present_or-Ends, cleanup-Ends}
use keyzori.Application.AdminService.Customers.{delete_customer, get_customer, clean_up_all}
use keyzori.Application.LicenseService.{send_heartbeat, consume_usage, session_ttl_seconds}
use keyzori.Application.LicenseService.Policy.{binding, ConsumeUsageInput}
use keyzori.Application.LicenseService.Steps.{Kept}
use keyzori.Application.LicenseService.Sessions.{Alive, StoredAs, heartbeat_lem}
use keyzori.Application.LicenseService.Consumption.{Consumed, consume_usage_lem}

-- What a method that returned ended with.
returned :
    {redis : Redis} {A : Type 0} (P : A → World redis → Type 0) (Q : Failure → World redis → Type 0)
    (r : Result A) (a : A) (w : World redis)
    → Outcome P Q r w
    → r ≡ ok a
    → P a w
returned P Q (ok b) a w h e = let same : b ≡ a = cc in subst (λ x. P x w) same h
returned P Q (err f) a w h e = absurd cc

not_found : {A : Type 0} {a : A} {found : Option A} → found ≡ none → found ≢ some a
not_found h e = cc

module _ (redis : Redis) (sha256 : String → String) (host : Host) where
  -- The clean-ups throw nothing, and change no table.
  clean_up_all-Ends :
      (P : ℕ → World redis → Type 0) (Q : Failure → World redis → Type 0) (ls : List License)
      (w : World redis)
      → ((failures : ℕ) (rest : List Bool) (s : redis.Store)
          → P failures (record w { faults = rest; sessions = s }))
      → Ends P Q (clean_up_all redis sha256 host ls) w
  unfolding clean_up_all pure
  clean_up_all-Ends P Q [] w h = h 0 w.faults w.sessions
  clean_up_all-Ends P Q (l ∷ ls) w h = bind-Ends _ _ _ _ _ (
      cleanup-Ends redis sha256 _ _ l.id none w (λ r rest s. bind-Ends _ _ _ _ _ (
        clean_up_all-Ends (λ failures v. P ((if r.1 then 1 else 0) + failures) v) Q ls
          (record w { faults = rest; sessions = s })
          (λ failures rest' s'. h ((if r.1 then 1 else 0) + failures) rest' s'))))

  -- A deletion that returns has dropped the customer; one that throws has kept the database.
  delete_customer-Ends :
      (id : String) (w : World redis)
      → Ends
          (λ _ v. v.db ≡ drop_customer id w.db)
          (Kept w.db)
          (delete_customer redis sha256 host id)
          w
  unfolding delete_customer get_customer
  delete_customer-Ends id w = bind-Ends _ _ _ _ _ (
      bind-Ends _ _ _ _ _ (
        query-Ends _ _ _ _
          (λ rest.
            present_or-Ends redis sha256 _ _ _ _ _
              (λ c found. bind-Ends _ _ _ _ _ (
                query-Ends _ _ _ _
                  (λ rest'. bind-Ends _ _ _ _ _ (
                    write-Ends _ _ _ _
                      (λ more db a wrote.
                        let same : db ≡ drop_customer id w.db = cc in
                        bind-Ends _ _ _ _ _ (
                          clean_up_all-Ends _ _ _ _
                            (λ failures later s. capture-Ends _ _ _ _ (λ last activity. same))))
                      (λ more e. refl)))
                  (λ rest'. refl)))
              refl)
          (λ rest. refl)))

  -- The token's session, if Redis has one, is of the license.
  abbrev pub SessionOf : String → String → SessionBinding → World redis → Type 0
  SessionOf license_id token b w =
      (resolved : ResolvedSession)
      → (refresh_session redis sha256 token b session_ttl_seconds w.sessions).0 ≡ ok (some resolved)
      → resolved.license_id ≡ license_id

  unstored :
      (license_id : String) (db : Database) (resolved : ResolvedSession)
      (license : LicenseWithAllowlists)
      → find_by_id license_id db ≡ none
      → resolved.license_id ≡ license_id
      → StoredAs resolved.license_id db license
      → ⊥
  unstored license_id db resolved license missing of_it (l, looked, listed) =
      not_found missing (subst (λ i. find_by_id i db ≡ some l) of_it looked)

  -- Once the deletion of a customer has returned, a client of one of the customer's licenses can neither
  -- send a heartbeat nor draw units, in any later state with that database: whichever calls fail, both
  -- throw, and leave the database as it is. (Redis may still have the session.)
  pub deleted_refused :
      (customer_id license_id : String) (w u : World redis) (token device_id ip : String)
      → (delete_customer redis sha256 host customer_id w).0 ≡ ok tt
      → u.db ≡ (delete_customer redis sha256 host customer_id w).1.db
      → among (licenses_of customer_id w.db) license_id ≡ true
      → ((b : SessionBinding) → binding ip device_id ≡ ok b → SessionOf license_id token b u)
      → Ends (λ _ _. ⊥) (Kept u.db) (send_heartbeat redis sha256 token device_id ip) u
        × ((raw : ConsumeUsageInput) (draws : Draws)
            → Ends
                (λ _ _. ⊥)
                (Kept u.db)
                (consume_usage redis sha256 token device_id ip raw draws)
                u)
  deleted_refused customer_id license_id w u token device_id ip done same_db its of_it =
      let dropped = returned _ _ _ tt _ (delete_customer-Ends customer_id w) done in
      let missing : find_by_id license_id u.db ≡ none =
        rw (same_db ∙ dropped) (dropped-gone customer_id license_id w.db its) in
      (
        Outcome-mono (Alive redis sha256 token device_id ip u) (Kept u.db) _ _
            (λ result v alive.
              let (b, bound, resolved, refreshed, license, stored, _, _, _) = alive in
              unstored license_id u.db resolved license missing (of_it b bound resolved refreshed)
                stored)
            (λ e v kept. kept) _ _ (heartbeat_lem redis sha256 token device_id ip u),
        λ raw draws.
            Outcome-mono (Consumed redis sha256 token device_id ip raw draws u) (Kept u.db) _ _
              (λ result v consumed.
                let (b, bound, license, eligible, drawn) = consumed in
                let (valid, resolved, refreshed, stored, _) = eligible in
                unstored license_id u.db resolved license missing (of_it b bound resolved refreshed)
                  stored)
              (λ e v kept. kept) _ _
              (consume_usage_lem redis sha256 token device_id ip raw draws u),
      )
