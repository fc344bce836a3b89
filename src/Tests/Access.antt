-- ===== src/Tests/Access.antt =====
-- DrizzleAccessRepository.ts and what AdminService.ts checks, on concrete inputs.
use keyzori.Infrastructure.CustomerRepository.{drop_customer, delete_licenses}
use keyzori.Infrastructure.LicenseRepository.{delete}
use keyzori.Prelude.{
  ◌≡◌, ◌↔◌, select, refl, arith, none, some, [], ◌∷◌, true, false, find, any, remove, pos, All,
  List,
}
use keyzori.Domain.Host.{Host}
use keyzori.Domain.Text.{trim, is_empty, text_length}
use keyzori.Domain.IpAddress.{split_parts}
use keyzori.Domain.Decimal.{read_number}
use keyzori.Domain.Errors.{ok}
use keyzori.Domain.Entities.{
  JsonObject, JsonValue, NewLicenseMeter, lifetime, subscription, trial, License,
}
use keyzori.Infrastructure.Database.{Database, type_checks}
use keyzori.Infrastructure.AccessRepository.{new_ip_entry, add_allowed_ip, remove_allowed_ip}
use keyzori.Infrastructure.AccessRepository.Listed.{
  adds, removes, ListChange, apply_changes, change_sets, listed, apply_changes-listed,
}
use keyzori.Infrastructure.AccessRepository.Attempts.{
  AttemptRow, summarize_attempts, attempt_count_of, get_field, whole_number,
}
use keyzori.Infrastructure.AccessRepository.Attempts.Totals.{
  counted, attempted, summarize_attempts_lem,
}
use keyzori.Application.AdminService.Validation.{
  CreateMeterInput, whole, validate_meters, validate_after, validate_meter, validate_integer,
  bounded_text,
}
use keyzori.Application.AdminService.Validation.Distinct.{
  AsGiven, IsValid, Fresh, validate_meters_lem,
}
use keyzori.Application.AdminService.TypeConfig.{
  UpdateLicenseInput, TypeConfig, config, update_type_config, update_trial, with_current_draft,
}
use keyzori.Application.AdminService.TypeConfig.Checks.{Fits, updates, Configured-Fits}
use keyzori.Application.AdminService.TypeConfig.Drafts.{
  Converted, trial_restored, subscription_restored,
}
use keyzori.Tests.Status.{columns_of}
use keyzori.Tests.Meters.{small}

abbrev pub plain_host : Host
plain_host = record {
  parse_date = λ text. some 9000;
  to_lower_case = λ text. text;
  is_ip = λ text. 4;
  url_hostname = λ text. none;
}

abbrev changes : List ListChange
changes = adds "10.0.0.1" "e1" 5 ∷ adds "10.0.0.1" "e2" 6 ∷ removes "10.0.0.9" ∷ []

abbrev with_entry : Database
with_entry = record small { ip_entries = new_ip_entry "l1" "10.0.0.1" "e1" 5 ∷ [] }

apply_changes-listed_example :
    listed "l1" with_entry "10.0.0.1" ≡ change_sets changes (listed "l1" small) "10.0.0.1"
apply_changes-listed_example =
    apply_changes-listed "l1" changes small with_entry
      (unfold apply_changes add_allowed_ip remove_allowed_ip find any remove in refl) "10.0.0.1"

abbrev two_attempts : List AttemptRow
two_attempts =
    record { ip = some "10.0.0.1"; device_id = none; details = JsonObject.end; created_at = 3 }
    ∷ record {
      ip = some "10.0.0.1";
      device_id = none;
      details = JsonObject.field "attemptCount" (JsonValue.number "4") JsonObject.end;
      created_at = 7;
    }
    ∷ []

five_attempts : attempted (λ row. row.ip) "10.0.0.1" two_attempts ≡ 5
unfolding attempted is_empty attempt_count_of get_field read_number whole_number split_parts
five_attempts = refl

summarize_attempts_lem_example :
    counted "10.0.0.1" (summarize_attempts plain_host (λ row. row.ip) two_attempts)
    ≡ attempted (λ row. row.ip) "10.0.0.1" two_attempts
summarize_attempts_lem_example =
    summarize_attempts_lem plain_host (λ row. row.ip) two_attempts "10.0.0.1"

abbrev two_inputs : List CreateMeterInput
two_inputs =
    record { name = " exports "; balance = whole (pos 10); reason = "start" }
    ∷ record { name = "imports"; balance = whole (pos 0); reason = "start" }
    ∷ []

abbrev two_meters : List NewLicenseMeter
two_meters =
    record { name = "exports"; balance = 10; reason = "start" }
    ∷ record { name = "imports"; balance = 0; reason = "start" }
    ∷ []

validate_meters_lem_example :
    (validate_meters two_inputs ≡ ok two_meters)
    ↔ (AsGiven two_inputs two_meters × All IsValid two_meters × Fresh [] two_meters)
validate_meters_lem_example = validate_meters_lem two_inputs two_meters

lets_pass : validate_meters two_inputs ≡ ok two_meters
unfolding validate_after validate_meter validate_integer bounded_text trim is_empty text_length any
lets_pass = refl

abbrev a_trial : License
a_trial = record { columns = columns_of trial; billing_revoked_at = none }

abbrev a_subscription : License
a_subscription = record { columns = columns_of subscription; billing_revoked_at = none }

abbrev nothing_given : UpdateLicenseInput
nothing_given = record {
  customer_id = none;
  type = none;
  max_ips = none;
  max_devices = none;
  max_sessions = none;
  trial_duration_minutes = none;
  metadata = none;
  expires_at = none;
  meters = none;
  unlink_stripe = none;
}

abbrev kept_trial : TypeConfig
kept_trial =
    config none 10 (some 1000)
      (record a_trial.type_drafts { trial_draft = some (record { duration_minutes = 10 }) })

Configured-Fits_example : Fits trial kept_trial × (type_checks trial none 10 ≡ true)
Configured-Fits_example = Configured-Fits plain_host 3000 trial kept_trial (
    updates a_trial nothing_given false a_trial.type_drafts
      (unfold update_type_config update_trial validate_integer in refl))

abbrev to_lifetime : License → TypeConfig
to_lifetime l =
    config none 0 none (record (with_current_draft l []) { lifetime_draft = some JsonObject.end })

abbrev made_lifetime : License → License
made_lifetime l = record l {
  columns = record l.columns { type = lifetime; type_drafts = (to_lifetime l).type_drafts };
}

abbrev trial_to_lifetime : Converted plain_host a_trial (made_lifetime a_trial) lifetime
trial_to_lifetime = record {
  input = nothing_given;
  names = [];
  time = 3000;
  settings = to_lifetime a_trial;
  made = unfold update_type_config with_current_draft in refl;
  type_of = refl;
  trial_kept = refl;
  subscription_kept = refl;
}

trial_restored_example :
    (d : TypeConfig) × (update_type_config plain_host
        (made_lifetime a_trial)
        nothing_given
        trial
        true
        (with_current_draft (made_lifetime a_trial) [])
        4000
      ≡ ok d)
    × (d.trial_duration_minutes ≡ 10)
    × (d.trial_started_at ≡ some 4000)
trial_restored_example =
    trial_restored plain_host a_trial (made_lifetime a_trial) lifetime trial_to_lifetime refl
      (λ h. cc) (omega arith) (omega arith) nothing_given [] 4000 refl

abbrev subscription_to_lifetime :
    Converted plain_host a_subscription (made_lifetime a_subscription) lifetime
subscription_to_lifetime = record {
  input = nothing_given;
  names = [];
  time = 3000;
  settings = to_lifetime a_subscription;
  made = unfold update_type_config with_current_draft in refl;
  type_of = refl;
  trial_kept = refl;
  subscription_kept = refl;
}

subscription_restored_example :
    (d : TypeConfig) × (update_type_config plain_host
        (made_lifetime a_subscription)
        nothing_given
        subscription
        true
        (with_current_draft (made_lifetime a_subscription) [])
        4000
      ≡ ok d)
    × (d.expires_at ≡ some 5000)
subscription_restored_example =
    subscription_restored plain_host a_subscription (made_lifetime a_subscription) lifetime
      subscription_to_lifetime refl (λ h. cc) nothing_given [] 5000 4000 refl refl (omega arith)

-- The meter of the license goes with the customer.
drops_all : (drop_customer "c1" small).meters ≡ []
unfolding drop_customer delete_licenses delete select remove any
drops_all = refl
