-- ===== src/Tests/Status.antt =====
-- licenseStatus.ts at concrete licenses.
use keyzori.Prelude.{◌≡◌, ◌↔◌, refl, arith, none, some}
use keyzori.Domain.Entities.{
  License, LicenseColumns, LicenseTypeDrafts, LicenseType, subscription, trial, JsonObject, active,
  expired,
}
use keyzori.Domain.LicenseStatus.{derive_license_status}
use keyzori.Domain.LicenseStatus.Laws.{derive-active_iff, derive_mono, TypeRuns}

abbrev no_drafts : LicenseTypeDrafts
no_drafts = record {
  lifetime_draft = none;
  subscription_draft = none;
  metered_draft = none;
  trial_draft = none;
}

abbrev pub columns_of : LicenseType → LicenseColumns
columns_of t = record {
  id = "l1";
  key_prefix = "lic_abc";
  customer_id = "c1";
  type = t;
  max_ips = 0;
  max_devices = 1;
  max_sessions = 2;
  session_revision = 3;
  trial_duration_minutes = 10;
  trial_started_at = some 1000;
  metadata = JsonObject.end;
  expires_at = some 5000;
  type_drafts = no_drafts;
  manual_revoked_at = none;
  manual_revocation_reason = none;
  created_at = 0;
  updated_at = 0;
}

abbrev license_of : LicenseType → License
license_of t = record { columns = columns_of t; billing_revoked_at = none }

derive-active_iff_example : ((derive_license_status (license_of trial) 2000).status ≡ active) ↔ (
    ((license_of trial).manual_revoked_at ≡ none)
    × ((license_of trial).billing_revoked_at ≡ none)
    × TypeRuns trial (license_of trial) 2000)
derive-active_iff_example = derive-active_iff (license_of trial) 2000

derive_mono_example :
    derive_license_status (license_of subscription) 6000
    ≡ derive_license_status (license_of subscription) 5000
derive_mono_example =
    derive_mono (license_of subscription) 5000 6000 (omega arith)
      (unfold derive_license_status in λ e. cc)

trial_runs_out :
    ((derive_license_status (license_of trial) 600999).status ≡ active)
    × ((derive_license_status (license_of trial) 601000).status ≡ expired)
unfolding derive_license_status
trial_runs_out = (refl, refl)
