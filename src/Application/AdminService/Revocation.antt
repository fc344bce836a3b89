-- ===== src/Application/AdminService/Revocation.antt =====
-- The revocation and the restoring of licenses, and the end of their sessions, of AdminService.ts.
pub mod Outcome
pub mod Aftermath
use keyzori.Prelude.{ℕ, String, Option, none, some, or_else}
use keyzori.Domain.Decimal.{show_decimal}
use keyzori.Domain.Entities.{License, JsonObject, JsonValue}
use keyzori.Infrastructure.Redis.{Redis}
use keyzori.Infrastructure.LicenseRepository.{
  LicenseUpdate, write_invalidating, raise_session_revision,
}
use keyzori.Infrastructure.LicenseRepository.Editing.{edit_license, no_options}
use keyzori.Infrastructure.MeterRepository.{Draws}
use keyzori.Application.Activity.{license_revoked, license_restored, operator_text}
use keyzori.Application.Exec.{Exec, pure, lift, gets, ◌>>=◌, ◌>>◌, capture}
use keyzori.Application.AdminService.{
  ManagedLicense, managed, license_event, cleanup_details, require_license, write_and_reread,
  remove_sessions_best_effort, capture_license_update,
}
use keyzori.Application.AdminService.Validation.{reason_text}

abbrev pub no_change : LicenseUpdate
no_change = record {
  customer_id = none;
  type = none;
  max_ips = none;
  max_devices = none;
  max_sessions = none;
  trial_duration_minutes = none;
  trial_started_at = none;
  metadata = none;
  expires_at = none;
  type_drafts = none;
  manual_revoked_at = none;
  manual_revocation_reason = none;
}

-- The time of an earlier revocation stays.
abbrev pub revocation : License → String → ℕ → LicenseUpdate
revocation license reason now = record no_change {
  manual_revoked_at = some (some (or_else license.manual_revoked_at now));
  manual_revocation_reason = some (some reason);
}

abbrev pub restoration : LicenseUpdate
restoration = record no_change {
  manual_revoked_at = some none;
  manual_revocation_reason = some none;
}

abbrev pub removed_details : ℕ → JsonObject
removed_details n = JsonObject.field "removed" (JsonValue.number (show_decimal n)) JsonObject.end

module _ (redis : Redis) (sha256 : String → String) where
  -- A reason that is left out is the default of the source.
  unfoldable pub revoke_license : String → Option String → Exec redis ManagedLicense
  revoke_license id reason = do
    license ← require_license redis sha256 id
    text ← lift (reason_text (or_else reason "Revoked by operator"))
    now ← gets (λ w. w.now)
    updated ←
        write_and_reread redis sha256 id (write_invalidating id (revocation license text now) now)
    cleanup ← remove_sessions_best_effort redis sha256 id (some updated.session_revision)
    capture (
        license_event license_revoked updated (some (operator_text text)) (cleanup_details cleanup))
    pure (managed updated now)

  -- An update without new meters draws no identifiers.
  unfoldable pub restore_license : String → (ℕ → Draws) → Exec redis ManagedLicense
  restore_license id draw = do
    require_license redis sha256 id
    now ← gets (λ w. w.now)
    updated ← write_and_reread redis sha256 id (edit_license id restoration no_options draw now)
    capture (license_event license_restored updated none JsonObject.end)
    pure (managed updated now)

  unfoldable pub terminate_license_sessions : String → Exec redis ℕ
  terminate_license_sessions id = do
    license ← require_license redis sha256 id
    now ← gets (λ w. w.now)
    updated ← write_and_reread redis sha256 id (raise_session_revision id now)
    cleanup ← remove_sessions_best_effort redis sha256 id (some updated.session_revision)
    capture_license_update redis sha256 license "terminate_sessions" (removed_details cleanup.0)
    pure cleanup.0
