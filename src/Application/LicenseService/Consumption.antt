-- ===== src/Application/LicenseService/Consumption.antt =====
-- `consume` for every pattern of failing calls.
use keyzori.Prelude.{
  ◌≡◌, ◌≢◌, ◌⊎◌, inl, inr, refl, String, List, Bool, true, false, not, some, arith,
}
use keyzori.Domain.Entities.{License, LicenseWithAllowlists, LicenseMeter, UsageLedgerEntry}
use keyzori.Domain.Errors.{Failure, ok}
use keyzori.Infrastructure.Redis.{Redis}
use keyzori.Infrastructure.Database.{Database}
use keyzori.Infrastructure.SessionRepository.{SessionBinding, ResolvedSession, refresh_session}
use keyzori.Infrastructure.MeterRepository.{
  UsageConsumptionResult, consumed, replayed, conflict, exhausted, Draws, consume_units,
}
use keyzori.Infrastructure.MeterRepository.Refused.{consume_inert}
use keyzori.Application.Activity.{ActivityEvent}
use keyzori.Application.Exec.{World}
use keyzori.Application.Exec.Laws.{
  Ends, Outcome-mono, write-Ends, lift-Ends, pure-Ends, raise-Ends, gets-Ends, bind-Ends,
  raise_if-Ends, capture-Ends,
}
use keyzori.Application.LicenseService.Policy.{
  binding, ConsumeUsageInput, normalized_input, validate_usage_input,
}
use keyzori.Application.LicenseService.{
  consume_usage, consume_session, consume_found, answer_usage, is_metered, usage_result,
  ConsumeUsageResult, session_ttl_seconds,
}
use keyzori.Application.LicenseService.Steps.{Kept, rejecting-Ends}
use keyzori.Application.LicenseService.Sessions.{
  InForce, StoredAs, require_active-Ends, refreshed_session-Ends,
}

metered_if : {test : Bool} → not test ≡ false → test ≡ true
metered_if h = ground arith

module _ (redis : Redis) (sha256 : String → String) where
  -- What the repository answered when the service returns a result.
  abbrev pub Answers : UsageConsumptionResult → ConsumeUsageInput → ConsumeUsageResult → Type 0
  Answers (consumed meter entry) input result = result ≡ usage_result redis sha256 input meter
  Answers (replayed meter entry) input result = result ≡ usage_result redis sha256 input meter
  Answers _ input result = ⊥

  module _ (P : ConsumeUsageResult → World redis → Type 0)
      (Q : Failure → World redis → Type 0) where
    answer_usage-Ends :
        (license : License) (b : SessionBinding) (input : ConsumeUsageInput)
        (r : UsageConsumptionResult) (w : World redis)
        → ((result : ConsumeUsageResult) (rest : List Bool) (activity : List ActivityEvent)
            → Answers r input result
            → P result (record w { faults = rest; activity = activity }))
        → (((m : LicenseMeter) (e : UsageLedgerEntry) → r ≢ consumed m e) → (e : Failure) → Q e w)
        → Ends P Q (answer_usage redis sha256 license b input r) w
    unfolding answer_usage
    answer_usage-Ends license b input conflict w returns throws =
        raise-Ends _ _ _ _ (throws (λ m e h. cc) _)
    answer_usage-Ends license b input UsageConsumptionResult.not_found w returns throws =
        raise-Ends _ _ _ _ (throws (λ m e h. cc) _)
    answer_usage-Ends license b input UsageConsumptionResult.archived w returns throws =
        raise-Ends _ _ _ _ (throws (λ m e h. cc) _)
    answer_usage-Ends license b input exhausted w returns throws =
        raise-Ends _ _ _ _ (throws (λ m e h. cc) _)
    answer_usage-Ends license b input (replayed meter entry) w returns throws =
        pure-Ends _ _ _ _ (returns _ w.faults w.activity refl)
    answer_usage-Ends license b input (consumed meter entry) w returns throws =
        bind-Ends _ _ _ _ _
          (capture-Ends _ _ _ _ (λ rest activity. pure-Ends _ _ _ _ (returns _ rest activity refl)))

  -- The consumption that the database recorded, or had recorded before.
  abbrev pub Drawn :
      License → ConsumeUsageInput → Draws → World redis → ConsumeUsageResult → World redis → Type 0
  Drawn license input draws w result v =
      (r : UsageConsumptionResult) × (consume_units sha256 license.id input.meter input.units
          input.event_id draws w.now w.db
        ≡ ok (r, v.db))
      × Answers r input result
      × (is_metered license.type ≡ true)

  unless_refused :
      {r : UsageConsumptionResult} {db db' : Database}
      → ((m : LicenseMeter) × (e : UsageLedgerEntry) × (r ≡ consumed m e)) ⊎ (db' ≡ db)
      → ((m : LicenseMeter) (e : UsageLedgerEntry) → r ≢ consumed m e)
      → db' ≡ db
  unless_refused (inl (m, e, h)) differs = absurd (differs m e h)
  unless_refused (inr same) differs = same

  consume_found-Ends :
      (license : License) (b : SessionBinding) (input : ConsumeUsageInput) (draws : Draws)
      (w : World redis)
      → Ends
          (Drawn license input draws w)
          (Kept w.db)
          (consume_found redis sha256 license b input draws)
          w
  unfolding consume_found
  consume_found-Ends license b input draws w = bind-Ends _ _ _ _ _ (
      raise_if-Ends _ _ _ _ _ (λ other. refl)
        (λ is_of_type. bind-Ends _ _ _ _ _ (
          gets-Ends _ _ _ _ (
            bind-Ends _ _ _ _ _ (
              write-Ends _ _ _ _
                (λ rest db r h.
                  answer_usage-Ends _ _ _ _ _ _ _
                    (λ result _ _ answers. (r, h, answers, metered_if is_of_type))
                    (λ differs e.
                      unless_refused
                        (consume_inert sha256 license.id input.meter input.units input.event_id
                          draws w.now w.db db r h)
                        differs))
                (λ rest e. refl))))))

  -- The session's license, as `consume` has found it.
  abbrev pub Eligible :
      String → SessionBinding → ConsumeUsageInput → World redis → LicenseWithAllowlists → Type 0
  Eligible token b input w license =
      (validate_usage_input input ≡ ok tt)
      × (resolved : ResolvedSession) × ((refresh_session redis sha256 token b session_ttl_seconds
            w.sessions).0
          ≡ ok (some resolved))
      × StoredAs resolved.license_id w.db license
      × InForce license resolved.session_revision b w.now

  module _ (P : LicenseWithAllowlists → World redis → Type 0)
      (Q : Failure → World redis → Type 0) where
    consume_session-Ends :
        (token : String) (b : SessionBinding) (input : ConsumeUsageInput) (w : World redis)
        → ((license : LicenseWithAllowlists) (rest : List Bool) (s : redis.Store)
            → Eligible token b input w license
            → P license (record w { faults = rest; sessions = s }))
        → ((rest : List Bool) (s : redis.Store) (e : Failure)
            → Q e (record w { faults = rest; sessions = s }))
        → Ends P Q (consume_session redis sha256 token b input) w
    unfolding consume_session
    consume_session-Ends token b input w returns throws = bind-Ends _ _ _ _ _ (
        lift-Ends _ _ _ _
          (λ _ valid. bind-Ends _ _ _ _ _ (
            refreshed_session-Ends redis sha256 _ _ _ _ _
              (λ resolved rest s refreshed.
                require_active-Ends redis sha256 _ _ _ _ _ _ _
                  (λ license rest stored in_force.
                    returns license rest s (valid, resolved, refreshed, stored, in_force))
                  throws)
              throws))
          (λ e h. throws w.faults w.sessions e))

  -- What a call of `consume` has found when it returns.
  abbrev pub Consumed :
      String
      → String
      → String
      → ConsumeUsageInput
      → Draws
      → World redis
      → ConsumeUsageResult
      → World redis
      → Type 0
  Consumed token device_id ip raw draws w result v =
      (b : SessionBinding) × (binding ip device_id ≡ ok b)
      × (license : LicenseWithAllowlists) × Eligible token b (normalized_input raw) w license
      × Drawn license.license (normalized_input raw) draws w result v

  -- Whichever calls fail, `consume` either throws and leaves the database as it was, or returns what
  -- the repository's one consumption answered, `consumed` or `replayed`, for a valid request of a
  -- session of the binding, whose metered license has the session's revision, is active at the time of
  -- the request and permits the binding; the database is then the one that this consumption left.
  pub consume_usage_lem :
      (token device_id ip : String) (raw : ConsumeUsageInput) (draws : Draws) (w : World redis)
      → Ends
          (Consumed token device_id ip raw draws w)
          (Kept w.db)
          (consume_usage redis sha256 token device_id ip raw draws)
          w
  unfolding consume_usage
  consume_usage_lem token device_id ip raw draws w = bind-Ends _ _ _ _ _ (
      lift-Ends _ _ _ _
        (λ b bound. bind-Ends _ _ _ _ _ (
          rejecting-Ends _ _ _ _ _ _ _ _ (
            consume_session-Ends _ _ _ _ _ _
              (λ license rest s eligible. rejecting-Ends _ _ _ _ _ _ _ _ (
                Outcome-mono
                  (Drawn license.license (normalized_input raw) draws
                    (record w { faults = rest; sessions = s }))
                  (Kept w.db) _ _ (λ result v drawn. (b, bound, license, eligible, drawn))
                  (λ e v kept. kept) _ _
                  (consume_found-Ends license.license b (normalized_input raw) draws _)))
              (λ _ _ _. refl))))
        (λ e h. refl))
