-- ===== src/Domain/LicenseStatus.antt =====
-- apps/server/src/domain/licenseStatus.ts: the effective status of a license at a time.
pub mod Laws
use keyzori.Prelude.{ℕ, ◌+◌, ◌*◌, Option, none, some, Bool, true, false, leb, if◌then◌else◌}
use keyzori.Domain.Entities.{
  License, LicenseType, lifetime, subscription, metered, trial, EffectiveLicenseStatus, active,
  expired, revoked, manual_revocation, billing_revocation, subscription_expired, trial_expired,
  no_reason,
}

-- `!license.expiresAt || license.expiresAt.getTime() <= now.getTime()`
subscription_over : Option ℕ → ℕ → Bool
subscription_over none now = true
subscription_over (some expires_at) now = leb expires_at now

-- `license.trialStartedAt && now.getTime() >= started + minutes * 60_000`
trial_over : Option ℕ → ℕ → ℕ → Bool
trial_over none minutes now = false
trial_over (some started_at) minutes now = leb (started_at + minutes * 60000) now

status_by_type : LicenseType → License → ℕ → EffectiveLicenseStatus
unfolding subscription_over trial_over
status_by_type subscription license now =
    if subscription_over license.expires_at now
    then record { status = expired; reason = subscription_expired }
    else record { status = active; reason = no_reason }
status_by_type trial license now =
    if trial_over license.trial_started_at license.trial_duration_minutes now
    then record { status = expired; reason = trial_expired }
    else record { status = active; reason = no_reason }
status_by_type _ license now = record { status = active; reason = no_reason }

unfoldable pub derive_license_status : License → ℕ → EffectiveLicenseStatus
unfolding status_by_type
derive_license_status license now = elim license.manual_revoked_at [
  | some _ ↦ record { status = revoked; reason = manual_revocation }
  | none ↦ elim license.billing_revoked_at [
    | some _ ↦ record { status = revoked; reason = billing_revocation }
    | none ↦ status_by_type license.type license now
  ]
]
