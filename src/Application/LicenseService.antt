-- ===== src/Application/LicenseService.antt =====
-- apps/server/src/application/services/LicenseService.ts: activation, heartbeats, consumption and
-- deactivation. A new session token and a new device's identifier are arguments.
pub mod Policy
pub mod Steps
pub mod Admission
pub mod Activation
pub mod Sessions
pub mod Consumption
pub mod Limits
pub mod Liveness
use keyzori.Prelude.{
  ℕ, String, List, [], ◌∷◌, Bool, true, false, not, ◌&&◌, ◌||◌, ◌==◌, eqb, Option, none, some,
  is_some, if◌then◌else◌,
}
use keyzori.Domain.Entities.{
  License, LicenseType, lifetime, subscription, metered, trial, LicenseWithAllowlists, JsonObject,
  JsonValue, RegisteredDevice, LicenseMeter, UsageLedgerEntry,
}
use keyzori.Domain.Decimal.{show_decimal}
use keyzori.Domain.Errors.{
  Result, ok, err, Failure, internal, domain_error, invalid, license_invalid,
  session_invalid_or_expired, concurrent_session_limit, meter_not_found, meter_archived,
  meter_exhausted, usage_event_conflict, ApiErrorCode,
}
use keyzori.Infrastructure.Redis.{Redis}
use keyzori.Infrastructure.Database.{Database, Transaction}
use keyzori.Infrastructure.LicenseRepository.{
  find_by_id, find_by_id_with_allowlists, find_by_license_key_with_allowlists,
}
use keyzori.Infrastructure.DeviceRepository.{
  find_license_admission_policy, find_registered_device, get_license_device_usage, register_device,
  start_trial_if_unset, touch_device, is_trial,
}
use keyzori.Infrastructure.SessionRepository.{
  SessionBinding, SessionRegistrationResult, registered, limit_reached, ResolvedSession,
  register_session, refresh_session, remove_session,
}
use keyzori.Infrastructure.MeterRepository.{
  UsageConsumptionResult, consumed, replayed, conflict, exhausted, Draws, consume_units,
}
use keyzori.Application.Activity.{
  ActivityEvent, ActivityEventType, ActivityOutcome, client, error_code, activation_attempted,
  activation_succeeded, activation_rejected, heartbeat, deactivated, usage_consumed, usage_rejected,
  success, rejected, error_reason,
}
use keyzori.Application.Exec.{
  World, Exec, pure, raise, lift, gets, call, query, write, script, try_catch, transaction, ◌>>=◌,
  ◌>>◌, raise_if, when, best_effort, capture, set_pending,
}
use keyzori.Application.LicenseService.Policy.{
  binding, ConsumeUsageInput, normalized_input, validate_usage_input, assert_active, assert_allowed,
  check_limits,
}

-- SESSION_TTL_SECONDS.
abbrev pub session_ttl_seconds : ℕ
session_ttl_seconds = 45

pub record LicenseSessionResult : Type 0 where
  pub license_type : LicenseType
  pub metadata : JsonObject
  pub session_token : String
  pub session_ttl : ℕ

pub record ConsumeUsageResult : Type 0 where
  pub meter : String
  pub units : ℕ
  pub event_id : String
  pub remaining : ℕ

abbrev pub is_metered : LicenseType → Bool
is_metered metered = true
is_metered _ = false

abbrev pub session_result : License → String → LicenseSessionResult
session_result license token = record {
  license_type = license.type;
  metadata = license.metadata;
  session_token = token;
  session_ttl = session_ttl_seconds;
}

abbrev pub invalid_session : Failure
invalid_session = domain_error 403 session_invalid_or_expired

-- An event about a license, which may be unknown.
abbrev pub event_of :
    ActivityEventType
    → ActivityOutcome
    → Option ApiErrorCode
    → Option License
    → SessionBinding
    → JsonObject
    → ActivityEvent
event_of type outcome reason license b details = record {
  type = type;
  source = client;
  outcome = outcome;
  reason = elim reason [ none ↦ none | some c ↦ some (error_code c) ];
  license_id = elim license [ none ↦ none | some l ↦ some l.id ];
  customer_id = elim license [ none ↦ none | some l ↦ some l.customer_id ];
  key_prefix = elim license [ none ↦ none | some l ↦ some l.key_prefix ];
  ip = some b.ip;
  device_id = some b.device_id;
  details = details;
}

abbrev pub license_of : Option LicenseWithAllowlists → Option License
license_of none = none
license_of (some l) = some l.license

module _ {redis : Redis} {A : Type 0} where
  -- What a `catch` does that captures the rejection and throws the error again.
  unfoldable pub rejecting :
      ActivityEventType → Option License → SessionBinding → JsonObject → Exec redis A → Exec redis A
  rejecting type license b details m =
      try_catch m
        λ e. do capture (event_of type rejected (some (error_reason e)) license b details); raise e

module _ (redis : Redis) (sha256 : String → String) where
  abbrev pub found_or : {A : Type 0} → Failure → Option A → Exec redis A
  found_or e none = raise e
  found_or e (some a) = pure a

  -- `removeSessionBestEffort`, and the clean-up of `admitActivation`.
  unfoldable pub remove_session_best_effort : String → SessionBinding → Exec redis (Unit {0})
  remove_session_best_effort token b = best_effort do
    r ← script (remove_session redis sha256 token b)
    lift (elim r [ ok _ ↦ ok tt | err e ↦ err e ])

  -- The reading of the device and its last-seen time, which may fail.
  unfoldable pub touch_best_effort : String → SessionBinding → Exec redis (Unit {0})
  touch_best_effort license_id b = best_effort do
    device ← query (find_registered_device license_id b.ip b.device_id)
    now ← gets (λ w. w.now)
    elim device [ none ↦ pure tt | some d ↦ write (λ db. ok (tt, touch_device d.id now db)) ]

  -- `!existing` of `admitActivation`: the limits hold for a device that is new.
  unfoldable pub admit_new_device :
      LicenseWithAllowlists → SessionBinding → Option RegisteredDevice → Exec redis (Unit {0})
  admit_new_device current b (some existing) = pure tt
  admit_new_device current b none = do
    usage ← query (get_license_device_usage current.id b.ip b.device_id)
    lift (check_limits current usage)

  abbrev pub registered_token : SessionRegistrationResult → Exec redis String
  registered_token (registered token) = pure token
  registered_token limit_reached = raise (domain_error 403 concurrent_session_limit)

  -- `type === "trial" && !trialStartedAt`: the first activation starts the trial.
  unfoldable pub start_trial : LicenseWithAllowlists → Exec redis LicenseWithAllowlists
  start_trial current =
      if is_trial current.type && not (is_some current.trial_started_at)
      then (do
        now ← gets (λ w. w.now)
        started ← write (λ db. ok (start_trial_if_unset current.id now now db))
        started_at ← found_or internal started
        pure (record current {
          license = record current.license {
            columns = record current.columns { trial_started_at = some started_at };
          };
        }))
      else pure current

  unfoldable pub register_new_device :
      LicenseWithAllowlists
      → SessionBinding
      → String
      → Option RegisteredDevice
      → Exec redis (Unit {0})
  register_new_device current b row_id (some existing) = pure tt
  register_new_device current b row_id none = do
    now ← gets (λ w. w.now)
    write (register_device current.id b.ip b.device_id row_id now)
    pure tt

  -- `!current || current.sessionRevision !== license.sessionRevision`
  abbrev pub same_revision :
      LicenseWithAllowlists → Option LicenseWithAllowlists → Exec redis LicenseWithAllowlists
  same_revision license none = raise (domain_error 403 license_invalid)
  same_revision license (some current) =
      if eqb current.session_revision license.session_revision
      then pure current
      else raise (domain_error 403 license_invalid)

  -- The end of the operation below, once the license has been checked.
  unfoldable pub admit_device :
      LicenseWithAllowlists → SessionBinding → String → String → Exec redis LicenseWithAllowlists
  admit_device current b token row_id = do
    existing ← query (find_registered_device current.id b.ip b.device_id)
    admit_new_device current b existing
    registration ← script (
        register_session redis sha256 current.id current.session_revision b session_ttl_seconds
          current.max_sessions token)
    given ← registered_token registration
    set_pending (some given)
    admitted ← start_trial current
    register_new_device current b row_id existing
    pure admitted

  -- The operation that `admitActivation` runs under the registration lock.
  unfoldable pub admit_locked :
      LicenseWithAllowlists → SessionBinding → String → String → Exec redis LicenseWithAllowlists
  admit_locked license b token row_id = do
    policy ← query (find_license_admission_policy license.id)
    current ← same_revision license policy
    now ← gets (λ w. w.now)
    lift (assert_active current.license now)
    lift (assert_allowed current b)
    admit_device current b token row_id

  -- The `catch` of `admitActivation`.
  unfoldable pub drop_pending : SessionBinding → Failure → Exec redis LicenseWithAllowlists
  drop_pending b e = do
    token ← gets (λ w. w.pending)
    elim token [ none ↦ pure tt | some t ↦ remove_session_best_effort t b ]
    raise e

  -- `admitActivation`: the license that was admitted, and the session token.
  unfoldable pub admit_activation :
      LicenseWithAllowlists
      → SessionBinding
      → String
      → String
      → Exec redis (LicenseWithAllowlists × String)
  admit_activation license b token row_id = do
    set_pending none
    admitted ← try_catch (transaction (admit_locked license b token row_id)) (drop_pending b)
    touch_best_effort admitted.id b
    pending ← gets (λ w. w.pending)
    given ← found_or internal pending
    pure (admitted, given)

  -- The `try` of `activate`, once the license has been looked up.
  unfoldable pub activate_found :
      Option LicenseWithAllowlists
      → SessionBinding
      → String
      → String
      → Exec redis LicenseSessionResult
  activate_found found b token row_id = do
    capture (event_of activation_attempted success none (license_of found) b JsonObject.end)
    license ← found_or (domain_error 403 license_invalid) found
    admission ← admit_activation license b token row_id
    capture (event_of activation_succeeded success none (some admission.0.license) b JsonObject.end)
    pure (session_result admission.0.license admission.1)

  unfoldable pub activate :
      String → String → String → String → String → Exec redis LicenseSessionResult
  activate license_key device_id ip token row_id = do
    b ← lift (binding ip device_id)
    found ←
        rejecting activation_rejected none b JsonObject.end
          (query (find_by_license_key_with_allowlists sha256 license_key))
    rejecting activation_rejected (license_of found) b JsonObject.end
        (activate_found found b token row_id)

  -- `requireActiveSessionLicense`, once the license has been looked up.
  unfoldable pub require_found :
      ℕ → String → SessionBinding → Option LicenseWithAllowlists → Exec redis LicenseWithAllowlists
  require_found revision token b none = do remove_session_best_effort token b; raise invalid_session
  require_found revision token b (some license) =
      if not (eqb license.session_revision revision)
      then (do remove_session_best_effort token b; raise invalid_session)
      else (do
        now ← gets (λ w. w.now)
        try_catch (do lift (assert_active license.license now); lift (assert_allowed license b))
            (λ e. do remove_session_best_effort token b; raise e)
        pure license)

  unfoldable pub require_active_session_license :
      String → ℕ → String → SessionBinding → Exec redis LicenseWithAllowlists
  require_active_session_license license_id revision token b = do
    license ← query (find_by_id license_id)
    elim license [
      | none ↦ require_found revision token b none
      | some l ↦ do
        with_lists ← query (find_by_id_with_allowlists l.id)
        require_found revision token b with_lists
    ]

  -- `refreshSession`, and `throw this.invalidSession()` where it resolves none.
  unfoldable pub refreshed_session : String → SessionBinding → Exec redis ResolvedSession
  refreshed_session token b = do
    answer ← script (refresh_session redis sha256 token b session_ttl_seconds)
    resolved ← lift answer
    found_or invalid_session resolved

  unfoldable pub send_heartbeat : String → String → String → Exec redis LicenseSessionResult
  send_heartbeat token device_id ip = do
    b ← lift (binding ip device_id)
    resolved ← refreshed_session token b
    license ←
        require_active_session_license resolved.license_id resolved.session_revision resolved.token
          b
    touch_best_effort license.id b
    capture (event_of heartbeat success none (some license.license) b JsonObject.end)
    pure (session_result license.license token)

  -- What a consumption's events carry: `units` and `remaining` are JSON numbers.
  abbrev pub usage_details : ConsumeUsageInput → JsonObject → JsonObject
  usage_details input more = JsonObject.field "meter" (JsonValue.string input.meter) (
      JsonObject.field "units" (JsonValue.number (show_decimal input.units))
        (JsonObject.field "eventIdHash" (JsonValue.string (sha256 input.event_id)) more))

  abbrev pub usage_result : ConsumeUsageInput → LicenseMeter → ConsumeUsageResult
  usage_result input meter = record {
    meter = meter.name;
    units = input.units;
    event_id = input.event_id;
    remaining = meter.balance;
  }

  -- The answer to what the meters' repository returned.
  unfoldable pub answer_usage :
      License
      → SessionBinding
      → ConsumeUsageInput
      → UsageConsumptionResult
      → Exec redis ConsumeUsageResult
  answer_usage license b input conflict = raise (domain_error 409 usage_event_conflict)
  answer_usage license b input UsageConsumptionResult.not_found =
      raise (domain_error 404 meter_not_found)
  answer_usage license b input UsageConsumptionResult.archived =
      raise (domain_error 409 meter_archived)
  answer_usage license b input exhausted = raise (domain_error 403 meter_exhausted)
  answer_usage license b input (replayed meter entry) = pure (usage_result input meter)
  answer_usage license b input (consumed meter entry) = do
    capture (
        event_of usage_consumed success none (some license) b (
          usage_details (record input { meter = meter.name })
            (JsonObject.field "remaining" (JsonValue.number (show_decimal meter.balance))
              JsonObject.end)))
    pure (usage_result input meter)

  unfoldable pub consume_found :
      License → SessionBinding → ConsumeUsageInput → Draws → Exec redis ConsumeUsageResult
  consume_found license b input draws = do
    raise_if (not (is_metered license.type)) invalid
    now ← gets (λ w. w.now)
    result ←
        write (consume_units sha256 license.id input.meter input.units input.event_id draws now)
    answer_usage license b input result

  -- The license of the session, or an error.
  unfoldable pub consume_session :
      String → SessionBinding → ConsumeUsageInput → Exec redis LicenseWithAllowlists
  consume_session token b input = do
    lift (validate_usage_input input)
    resolved ← refreshed_session token b
    require_active_session_license resolved.license_id resolved.session_revision resolved.token b

  unfoldable pub consume_usage :
      String → String → String → ConsumeUsageInput → Draws → Exec redis ConsumeUsageResult
  consume_usage token device_id ip raw draws = do
    b ← lift (binding ip device_id)
    let input = normalized_input raw
    license ←
        rejecting usage_rejected none b (usage_details input JsonObject.end)
          (consume_session token b input)
    rejecting usage_rejected (some license.license) b (usage_details input JsonObject.end)
        (consume_found license.license b input draws)

  -- The event of a removed session; `license_id` is the session's.
  abbrev deactivation_event : ResolvedSession → Option License → SessionBinding → ActivityEvent
  deactivation_event removed license b =
      record (event_of deactivated success none license b JsonObject.end) {
        license_id = some removed.license_id;
      }

  unfoldable pub report_deactivation :
      SessionBinding → Option ResolvedSession → Exec redis (Unit {0})
  report_deactivation b none = pure tt
  report_deactivation b (some removed) = do
    license ← try_catch (query (find_by_id removed.license_id)) (λ _. pure none)
    capture (deactivation_event removed license b)

  unfoldable pub deactivate : String → String → String → Exec redis (Unit {0})
  deactivate token device_id ip = do
    b ← lift (binding ip device_id)
    answer ← script (remove_session redis sha256 token b)
    removed ← lift answer
    report_deactivation b removed
