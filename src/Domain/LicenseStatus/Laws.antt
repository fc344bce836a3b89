-- ===== src/Domain/LicenseStatus/Laws.antt =====
-- What licenseStatus.ts promises: when a license is active, and how its status changes over time.
use keyzori.Prelude.{ℕ, ◌+◌, ◌*◌, ◌≤◌, ◌<◌, ◌≡◌, ◌≢◌, refl, ◌↔◌, Option, none, some, arith}
use keyzori.Domain.Entities.{License, LicenseType, lifetime, subscription, metered, trial, active}
use keyzori.Domain.LicenseStatus.{derive_license_status, status_by_type}

-- The time at which the settings of its type end a license: `some t` if it ends at `t`.
abbrev pub EndsAfter : Option ℕ → ℕ → Type 0
EndsAfter none now = ⊥
EndsAfter (some t) now = now < t

-- A trial that has not started does not run out.
abbrev pub TrialRuns : Option ℕ → ℕ → ℕ → Type 0
TrialRuns none minutes now = Unit
TrialRuns (some t) minutes now = now < t + minutes * 60000

abbrev pub TypeRuns : LicenseType → License → ℕ → Type 0
TypeRuns lifetime l now = Unit
TypeRuns metered l now = Unit
TypeRuns subscription l now = EndsAfter l.expires_at now
TypeRuns trial l now = TrialRuns l.trial_started_at l.trial_duration_minutes now

status_by_type-active :
    (t : LicenseType) (l : License) (now : ℕ)
    → ((status_by_type t l now).status ≡ active) ↔ TypeRuns t l now
unfolding status_by_type
status_by_type-active lifetime l now = (λ _. tt, λ _. refl)
status_by_type-active metered l now = (λ _. tt, λ _. refl)
status_by_type-active subscription l now = (λ h. ground arith, λ h. ground arith)
status_by_type-active trial l now = (λ h. ground arith, λ h. ground arith)

-- A license is active exactly when it is revoked neither by an operator nor by billing, and the
-- settings of its type still run: a subscription has an expiry that lies ahead, and a trial that has
-- started is within its duration. Lifetime and metered licenses do not run out.
pub derive-active_iff :
    (l : License) (now : ℕ)
    → ((derive_license_status l now).status ≡ active)
      ↔ ((l.manual_revoked_at ≡ none) × (l.billing_revoked_at ≡ none) × TypeRuns l.type l now)
unfolding derive_license_status
derive-active_iff l now = (
  λ h. ground (arith, status_by_type-active l.type l now),
  λ h. ground (arith, status_by_type-active l.type l now),
)

-- A license that is not active stays so, with the same reason, as long as its record is unchanged.
pub derive_mono :
    (l : License) (now later : ℕ)
    → now ≤ later
    → (derive_license_status l now).status ≢ active
    → derive_license_status l later ≡ derive_license_status l now
unfolding derive_license_status
derive_mono l now later h n = ground arith
