-- ===== src/Tests/Admin.antt =====
-- AdminService.ts and DrizzleLicenseRepository.ts on the small database.
use keyzori.Infrastructure.LicenseRepository.Editing.{
  edit_type, insert_new_meters, add_new_meter, settle_stripe,
}
use keyzori.Infrastructure.MeterRepository.{create_meter}
use keyzori.Infrastructure.Database.{insert_meter, insert_entry}
use keyzori.Application.Exec.{◌>>=◌, query, pure, write, try_catch, script, capture}
use keyzori.Infrastructure.LicenseRepository.Creation.{find_all_licenses}
use keyzori.Application.AdminService.Customers.{delete_customer, get_customer, clean_up_all}
use keyzori.Application.AdminService.Customers.Aftermath.{SessionOf, deleted_refused}
use keyzori.Infrastructure.CustomerRepository.{licenses_of}
use keyzori.Infrastructure.CustomerRepository.Cascade.{among}
use keyzori.Prelude.{
  ℕ, ◌≡◌, ◌≤◌, ◌⊎◌, refl, arith, none, some, [], ◌∷◌, String, true, find, select, any, update,
  subst, sym, length,
}
use keyzori.Domain.Text.{trim, text_length, is_empty}
use keyzori.Domain.Errors.{ok, err, Result}
use keyzori.Application.AdminService.{remove_sessions_best_effort}
use keyzori.Domain.Entities.{License, LicenseWithAllowlists, lifetime}
use keyzori.Infrastructure.Database.{Database, meets_checks}
use keyzori.Infrastructure.MeterRepository.{Draws}
use keyzori.Infrastructure.MeterRepository.Ledger.{IsConsistent}
use keyzori.Infrastructure.SessionRepository.{
  SessionBinding, refresh_session, register_session, purge, is_stale, session_key, session_set,
  hash_binding, binding_text, matching, answer, resolved_session,
}
use keyzori.Infrastructure.SessionRepository.Value.{session_value, session_parts, cut, last_cut}
use keyzori.Infrastructure.SessionRepository.Refresh.{session_of}
use keyzori.Infrastructure.Redis.{elem}
use keyzori.Domain.Decimal.{show_decimal, read_number}
use keyzori.Domain.LicenseStatus.{derive_license_status}
use keyzori.Infrastructure.LicenseRepository.{
  find_license, with_allowlists, LicenseUpdate, to_domain_license, bump_revision, breaks_checks,
}
use keyzori.Infrastructure.LicenseRepository.Revisions.{Advances}
use keyzori.Infrastructure.LicenseRepository.Editing.{
  LicenseUpdateOptions, edit_license, write_license, edited_row, conflicting, no_options,
}
use keyzori.Infrastructure.LicenseRepository.Versions.{edit_conflicts}
use keyzori.Infrastructure.LicenseRepository.NewMeters.{edits, Change-IsConsistent}
use keyzori.Application.Exec.{World}
use keyzori.Application.Exec.Laws.{Ends}
use keyzori.Application.LicenseService.{activate, send_heartbeat, consume_usage}
use keyzori.Application.LicenseService.Policy.{
  ConsumeUsageInput, binding, assert_active, assert_allowed,
}
use keyzori.Application.LicenseService.Steps.{Kept}
use keyzori.Application.LicenseService.Liveness.{Welcome, activate_returns}
use keyzori.Application.AdminService.Access.{required_ip}
use keyzori.Application.AdminService.Validation.{device_id_text}
use keyzori.Application.AdminService.TypeConfig.{CreateLicenseInput}
use keyzori.Application.AdminService.Licenses.{create_license}
use keyzori.Application.AdminService.Licenses.Created.{Created, create_license_lem}
use keyzori.Application.AdminService.Devices.{remove_license_device, remove_registered_ip}
use keyzori.Application.AdminService.Devices.Removal.{
  RowsGone, of_device, of_ip, remove_license_device_lem, remove_registered_ip_lem,
}
use keyzori.Application.AdminService.Updates.{update_license, renewal}
use keyzori.Application.AdminService.Updates.Written.{Updated, update_license_lem}
use keyzori.Application.AdminService.Revocation.{
  revoke_license, terminate_license_sessions, no_change,
}
use keyzori.Application.AdminService.Revocation.Outcome.{
  Revoked, WholeRevocation, revoke_license_lem, Terminated, WholeTermination,
  terminate_license_sessions_lem,
}
use keyzori.Application.AdminService.Revocation.Aftermath.{SessionUpTo, invalidated_refused}
use keyzori.Tests.Memory.{memory}
use keyzori.Tests.Meters.{small, draws_of, small-IsConsistent}
use keyzori.Tests.Sessions.{one_session}
use keyzori.Tests.Licenses.{morning, stored, laptop, laptop_row, bumped, empty_memory, hash}
use keyzori.Tests.Access.{plain_host}

abbrev draws : ℕ → Draws
draws i = draws_of "e7"

revoke_license_lem_example :
    Ends
      (Revoked memory hash "l1" morning)
      (WholeRevocation memory hash "l1" morning)
      (revoke_license memory hash "l1" (some "refund"))
      morning
revoke_license_lem_example = revoke_license_lem memory hash "l1" (some "refund") morning

terminate_license_sessions_lem_example :
    Ends
      (Terminated memory hash "l1" morning)
      (WholeTermination memory hash "l1" morning)
      (terminate_license_sessions memory hash "l1")
      morning
terminate_license_sessions_lem_example = terminate_license_sessions_lem memory hash "l1" morning

abbrev a_lifetime : CreateLicenseInput
a_lifetime = record {
  customer_id = "c1";
  type = lifetime;
  max_ips = none;
  max_devices = none;
  max_sessions = none;
  trial_duration_minutes = none;
  metadata = none;
  expires_at = none;
  meters = none;
}

create_license_lem_example :
    Ends
      (Created memory hash plain_host a_lifetime "abc" morning)
      (λ _ v. v.db ≡ small)
      (create_license memory hash plain_host a_lifetime "abc" "l2" draws)
      morning
create_license_lem_example =
    create_license_lem memory hash plain_host a_lifetime "abc" "l2" draws morning

update_license_lem_example :
    Ends
      (λ _ v. Updated "l1" (renewal memory hash plain_host true "2030-01-01") draws 5 small v.db)
      (λ _ v.
        (v.db ≡ small)
        ⊎ Updated "l1" (renewal memory hash plain_host true "2030-01-01") draws 5 small v.db)
      (update_license memory hash plain_host true "l1"
        (renewal memory hash plain_host true "2030-01-01")
        draws)
      morning
update_license_lem_example =
    update_license_lem memory hash plain_host true "l1"
      (renewal memory hash plain_host true "2030-01-01") draws morning

abbrev more_devices : LicenseUpdate
more_devices = record no_change { max_devices = some 9 }

abbrev at_version : LicenseUpdateOptions
at_version = record no_options { expected_updated_at = some 0 }

abbrev edited : Database
edited = record small { licenses = edited_row more_devices 7 stored ∷ [] }

edits_small : edit_license "l1" more_devices at_version draws 7 small ≡ ok (tt, edited)
unfolding edit_license write_license breaks_checks any update meets_checks
edits_small = refl

edit_conflicts_example : edit_license "l1" no_change at_version draws 8 edited ≡ err conflicting
edit_conflicts_example =
    edit_conflicts "l1" more_devices no_change at_version at_version draws draws 7 8 0 small edited
      (unfold any in (refl, tt)) refl refl edits_small

-- The same update with a new meter.
abbrev with_imports : LicenseUpdateOptions
with_imports = record at_version {
  new_meters = record { name = "imports"; balance = 5; reason = "start" } ∷ [];
}

abbrev imports_draws : ℕ → Draws
imports_draws i = record (draws_of "e8") { meter_id = "m8" }

abbrev left_by : Result (Unit {0} × Database) → Database
left_by (ok (done, db)) = db
left_by (err e) = small

abbrev grown : Database
grown = left_by (edit_license "l1" more_devices with_imports imports_draws 7 small)

grows : edit_license "l1" more_devices with_imports imports_draws 7 small ≡ ok (tt, grown)
unfolding edit_license edit_type find insert_new_meters add_new_meter create_meter insert_meter any
    insert_entry settle_stripe write_license update breaks_checks meets_checks
grows = refl

has_both : length grown.meters ≡ 2
unfolding edit_license edit_type find insert_new_meters add_new_meter create_meter insert_meter any
    insert_entry settle_stripe write_license update breaks_checks meets_checks
has_both = refl

Change-IsConsistent_example : IsConsistent grown
Change-IsConsistent_example =
    Change-IsConsistent {sha256 = hash} small-IsConsistent
      (edits "l1" more_devices with_imports imports_draws 7 grows)

remove_license_device_lem_example :
    Ends
      (λ n v.
        (device_id : String) × (device_id_text " laptop " ≡ ok device_id)
        × RowsGone "l1" (of_device memory hash "l1" device_id) small n v.db)
      (λ _ v. v.db ≡ small)
      (remove_license_device memory hash "l1" " laptop ")
      morning
remove_license_device_lem_example = remove_license_device_lem memory hash "l1" " laptop " morning

remove_registered_ip_lem_example :
    Ends
      (λ n v.
        (ip : String) × (required_ip plain_host "10.0.0.1" ≡ ok ip)
        × RowsGone "l1" (of_ip memory hash "l1" ip) small n v.db)
      (λ _ v. v.db ≡ small)
      (remove_registered_ip memory hash plain_host "l1" "10.0.0.1")
      morning
remove_registered_ip_lem_example =
    remove_registered_ip_lem memory hash plain_host "l1" "10.0.0.1" morning

-- The sessions of the license have been invalidated, and Redis still has one of revision 3.
abbrev evening : World memory
evening = record morning { db = bumped; sessions = one_session }

abbrev after : License
after = to_domain_license (bump_revision 7 stored) none

abbrev raised : Advances "l1" small bumped after
raised = (
  to_domain_license stored none,
  unfold find_license find in refl,
  unfold find_license find update in refl,
  omega arith,
  omega arith,
)

refreshes :
    (refresh_session memory hash "t1" laptop 45 one_session).0 ≡ ok (some (session_of "l1" 3 "t1"))
unfolding refresh_session register_session purge is_stale session_value session_parts cut
    session_key session_set elem show_decimal hash_binding binding_text matching answer
    resolved_session last_cut read_number is_empty
refreshes = refl

bound : binding "10.0.0.1" "laptop" ≡ ok laptop
unfolding binding trim is_empty text_length
bound = refl

same_binding : (b : SessionBinding) → binding "10.0.0.1" "laptop" ≡ ok b → b ≡ laptop
same_binding b h = let known = bound in cc

one_revision_back :
    (b : SessionBinding)
    → binding "10.0.0.1" "laptop" ≡ ok b
    → SessionUpTo memory hash "l1" 3 "t1" b evening
one_revision_back b h resolved found =
    let e = same_binding b h in
    let found' =
      subst (λ x. (refresh_session memory hash "t1" x 45 one_session).0 ≡ ok (some resolved)) e
        found in
    let known = refreshes in
    let is_it : resolved ≡ session_of "l1" 3 "t1" = cc in
    subst (λ r. (r.license_id ≡ "l1") × (r.session_revision ≤ 3)) (sym is_it) (refl, omega arith)

invalidated_refused_example :
    Ends (λ _ _. ⊥) (Kept bumped) (send_heartbeat memory hash "t1" "laptop" "10.0.0.1") evening
    × ((raw : ConsumeUsageInput) (draws : Draws)
        → Ends
            (λ _ _. ⊥)
            (Kept bumped)
            (consume_usage memory hash "t1" "laptop" "10.0.0.1" raw draws)
            evening)
invalidated_refused_example =
    invalidated_refused memory hash "l1" small after evening raised "t1" "laptop" "10.0.0.1"
      one_revision_back

-- The customer is deleted, and the session of one of the licenses is still there.
abbrev deleted : Result (Unit {0}) × World memory
deleted = delete_customer memory hash plain_host "c1" (record morning { sessions = one_session })

abbrev night : World memory
night = record deleted.1 { sessions = one_session }

deletes : deleted.0 ≡ ok tt
unfolding delete_customer get_customer clean_up_all remove_sessions_best_effort ◌>>=◌ query find
    pure write select find_all_licenses try_catch script capture
deletes = refl

had_license : among (licenses_of "c1" small) "l1" ≡ true
unfolding select any
had_license = refl

its_session :
    (b : SessionBinding)
    → binding "10.0.0.1" "laptop" ≡ ok b
    → SessionOf memory hash plain_host "l1" "t1" b night
its_session b h resolved found = (one_revision_back b h resolved found).0

deleted_refused_example :
    Ends (λ _ _. ⊥) (Kept night.db) (send_heartbeat memory hash "t1" "laptop" "10.0.0.1") night
    × ((raw : ConsumeUsageInput) (draws : Draws)
        → Ends
            (λ _ _. ⊥)
            (Kept night.db)
            (consume_usage memory hash "t1" "laptop" "10.0.0.1" raw draws)
            night)
deleted_refused_example =
    deleted_refused memory hash plain_host "c1" "l1" (record morning { sessions = one_session })
      night "t1" "laptop" "10.0.0.1" deletes refl had_license its_session

abbrev at_home : Database
at_home = record small { devices = laptop_row ∷ [] }

abbrev quiet : World memory
quiet = record morning { db = at_home; faults = [] }

abbrev home_license : LicenseWithAllowlists
home_license = with_allowlists (to_domain_license stored none) at_home

abbrev welcome : Welcome memory hash home_license laptop "t1" "t1" at_home empty_memory 5
welcome = record {
  policy = unfold find_license find select in refl;
  in_force = unfold assert_active derive_license_status in refl;
  allowed = unfold assert_allowed any select in refl;
  device = laptop_row;
  known = unfold find in refl;
  started = refl;
  room = unfold register_session purge in refl;
}

activate_returns_example :
    Ends
      (λ r _. r.session_token ≡ "t1")
      (λ _ _. ⊥)
      (activate memory hash "h1" "laptop" "10.0.0.1" "t1" "d9")
      quiet
activate_returns_example =
    activate_returns memory hash "h1" "laptop" "10.0.0.1" "t1" "t1" "d9" laptop home_license quiet
      refl bound (unfold find_license find select in refl) welcome
