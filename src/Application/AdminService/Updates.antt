-- ===== src/Application/AdminService/Updates.antt =====
-- `updateLicense` and `renewSubscription` of AdminService.ts. The Stripe repository may be missing.
pub mod Reads
pub mod Written
use keyzori.Prelude.{
  ℕ, String, List, [], ◌∷◌, Bool, true, false, not, ◌&&◌, ◌||◌, ◌==◌, eqb, Option, none, some,
  is_some, or_else, map, any, find, select, length, ltb, ◌++◌, if◌then◌else◌,
}
use keyzori.Domain.Sorting.{sort_texts}
use keyzori.Domain.Host.{Host}
use keyzori.Domain.Entities.{
  License, LicenseType, same_type, subscription, metered, trial, LicenseTypeDrafts, LicenseMeter,
  NewLicenseMeter, StripeSubscriptionLink, JsonObject,
}
use keyzori.Infrastructure.Redis.{Redis, elem}
use keyzori.Domain.Errors.{Result, ok, err, invalid, throw_if, Failure}
use keyzori.Infrastructure.Database.{Database}
use keyzori.Infrastructure.MeterRepository.{Draws, list_meters}
use keyzori.Infrastructure.CustomerRepository.{find_customer}
use keyzori.Infrastructure.LicenseRepository.{LicenseUpdate}
use keyzori.Infrastructure.LicenseRepository.Editing.{
  LicenseUpdateOptions, edit_license, link_of, drop_stripe_link, has_meters, conflicting,
}
use keyzori.Application.Activity.{license_type_changed, license_updated, stripe_unlinked}
use keyzori.Application.Exec.{
  Exec, pure, raise, lift, gets, query, write, when, ◌>>=◌, ◌>>◌, raise_if, capture,
}
use keyzori.Application.AdminService.{
  ManagedLicense, managed, license_event, text_field, type_text, customer_not_found,
  require_license, write_and_reread,
}
use keyzori.Application.AdminService.Validation.{Number, validate_integer, validate_meters}
use keyzori.Application.AdminService.TypeConfig.{
  UpdateLicenseInput, TypeConfig, update_type_config, with_current_draft,
}
use keyzori.Application.AdminService.Customers.{fields_details}

abbrev pub license_fields : UpdateLicenseInput → List (String × Bool)
license_fields input =
    ("customerId", is_some input.customer_id)
    ∷ ("type", is_some input.type)
    ∷ ("maxIps", is_some input.max_ips)
    ∷ ("maxDevices", is_some input.max_devices)
    ∷ ("maxSessions", is_some input.max_sessions)
    ∷ ("trialDurationMinutes", is_some input.trial_duration_minutes)
    ∷ ("metadata", is_some input.metadata)
    ∷ ("expiresAt", is_some input.expires_at)
    ∷ ("meters", is_some input.meters)
    ∷ []

-- No field but `unlinkStripe` is given.
abbrev pub no_fields : UpdateLicenseInput → Bool
no_fields input = not (any (λ f. f.1) (license_fields input))

-- A limit that is given, checked.
unfoldable pub checked_limit : Option Number → Result (Option ℕ)
checked_limit none = ok none
checked_limit (some value) = elim (validate_integer value 0) [ ok n ↦ ok (some n) | err e ↦ err e ]

-- A value of the map of all meters by their names.
pub record MeterState : Type 0 where
  pub name : String
  pub is_archived : Bool
  pub balance : ℕ

abbrev pub stored_states : List LicenseMeter → List MeterState
stored_states meters =
    map (λ m. record { name = m.name; is_archived = is_some m.archived_at; balance = m.balance })
      meters

-- `if (existing.archivedAt || existing.balance !== meter.balance) throw`, for each new meter in turn.
unfoldable pub check_new_meters : List MeterState → List NewLicenseMeter → Result (Unit {0})
check_new_meters known [] = ok tt
check_new_meters known (m ∷ ms) = elim (find (λ s. s.name == m.name) known) [
  | some existing ↦
      if existing.is_archived || not (eqb existing.balance m.balance)
      then err conflicting
      else check_new_meters known ms
  | none ↦
      check_new_meters (record { name = m.name; is_archived = false; balance = m.balance } ∷ known)
        ms
]

-- The names of a set, with one more.
abbrev pub add_name : String → List String → List String
add_name x names = if elem x names then names else names ++ x ∷ []

unfoldable pub add_names : List String → List NewLicenseMeter → List String
add_names names [] = names
add_names names (m ∷ ms) = add_names (add_name m.name names) ms

abbrev pub conflicting_link :
    Option StripeSubscriptionLink → LicenseType → UpdateLicenseInput → Bool
conflicting_link none target input = false
conflicting_link (some link) target input =
    (same_type target subscription && is_some input.expires_at)
    || not (or_else input.unlink_stripe false)

-- The meters that are not active yet.
abbrev pub meters_to_create : List LicenseMeter → List NewLicenseMeter → List NewLicenseMeter
meters_to_create current new = select (λ m. not (any (λ c. c.name == m.name) current)) new

abbrev pub update_options :
    UpdateLicenseInput → License → List NewLicenseMeter → LicenseUpdateOptions
update_options input current meters = record {
  confirm_stripe_unlink = or_else input.unlink_stripe false;
  expected_updated_at = some current.updated_at;
  manual_expires_at_update = is_some input.expires_at;
  new_meters = meters;
}

-- The limits that an update gives.
pub record Limits : Type 0 where
  pub max_ips : Option ℕ
  pub max_devices : Option ℕ
  pub max_sessions : Option ℕ

abbrev pub update_data :
    UpdateLicenseInput → License → Limits → LicenseType → Bool → TypeConfig → LicenseUpdate
update_data input current limits target type_changed active = record {
  customer_id = some (or_else input.customer_id current.customer_id);
  type = some target;
  max_ips = some (or_else limits.max_ips current.max_ips);
  max_devices = some (or_else limits.max_devices current.max_devices);
  max_sessions = some (or_else limits.max_sessions current.max_sessions);
  trial_duration_minutes = some active.trial_duration_minutes;
  trial_started_at = (if type_changed then some active.trial_started_at else none);
  metadata = some (or_else input.metadata current.metadata);
  expires_at = some active.expires_at;
  type_drafts = some active.type_drafts;
  manual_revoked_at = none;
  manual_revocation_reason = none;
}

module _ (redis : Redis) (sha256 : String → String) (host : Host) (stripe_configured : Bool) where
  unfoldable pub check_customer : Option String → Exec redis (Unit {0})
  check_customer none = pure tt
  check_customer (some id) = do
    customer ← query (find_customer id)
    raise_if (not (is_some customer)) customer_not_found

  unfoldable pub check_limits_given : UpdateLicenseInput → Exec redis Limits
  check_limits_given input = do
    max_ips ← lift (checked_limit input.max_ips)
    max_devices ← lift (checked_limit input.max_devices)
    max_sessions ← lift (checked_limit input.max_sessions)
    pure (record { max_ips = max_ips; max_devices = max_devices; max_sessions = max_sessions })

  -- A metered license: its drafts, once its meters have been checked.
  unfoldable pub metered_drafts :
      String
      → List LicenseMeter
      → List NewLicenseMeter
      → LicenseTypeDrafts
      → Exec redis LicenseTypeDrafts
  metered_drafts id current_meters new_meters drafts = do
    all ← query (list_meters id true)
    lift (check_new_meters (stored_states all) new_meters)
    let names = add_names (map (λ m. m.name) current_meters) new_meters
    raise_if (not (ltb 0 (length names))) invalid
    pure (record drafts { metered_draft = some (record { meter_names = sort_texts names }) })

  -- The link with Stripe that the update is to end.
  unfoldable pub stripe_link :
      String → LicenseType → UpdateLicenseInput → Exec redis (Option StripeSubscriptionLink)
  stripe_link id target input =
      if stripe_configured && (not (same_type target subscription) || is_some input.expires_at)
      then (do
        link ← query (link_of id)
        raise_if (conflicting_link link target input) conflicting
        pure link)
      else pure none

  -- `stripeRepo.deleteByLicenseId`, after the update.
  unfoldable pub drop_link :
      String → License → Option StripeSubscriptionLink → Exec redis (Unit {0})
  drop_link id updated none = pure tt
  drop_link id updated (some link) = do
    write (λ db. ok (tt, drop_stripe_link id db))
    capture (
        license_event stripe_unlinked updated none
          (text_field "subscriptionId" link.subscription_id JsonObject.end))

  -- The settings of the type that the update gives, once they have been checked.
  unfoldable pub target_config :
      String
      → License
      → UpdateLicenseInput
      → LicenseType
      → List LicenseMeter
      → List NewLicenseMeter
      → Exec redis TypeConfig
  target_config id current input target current_meters new_meters = do
    now ← gets (λ w. w.now)
    let names = if same_type current.type metered then map (λ m. m.name) current_meters else []
    let changed = not (same_type target current.type)
    active ← lift (
        update_type_config host current input target changed (with_current_draft current names) now)
    drafts ←
        if same_type target metered
        then metered_drafts id current_meters new_meters active.type_drafts
        else pure active.type_drafts
    pure (record active { type_drafts = drafts })

  -- The write of the update, and its events.
  unfoldable pub apply_license_update :
      String
      → License
      → UpdateLicenseInput
      → LicenseUpdate
      → LicenseUpdateOptions
      → Option StripeSubscriptionLink
      → Bool
      → (ℕ → Draws)
      → Exec redis ManagedLicense
  apply_license_update id current input update options link type_changed draw = do
    now ← gets (λ w. w.now)
    updated ← write_and_reread redis sha256 id (edit_license id update options draw now)
    drop_link id updated link
    capture (
        if type_changed
        then license_event license_type_changed updated none (
            text_field "from" (type_text current.type)
              (text_field "to" (type_text updated.type) JsonObject.end))
        else license_event license_updated updated none (fields_details (license_fields input)))
    pure (managed updated now)

  -- The checks on the fields against the target type.
  unfoldable pub check_fields : UpdateLicenseInput → LicenseType → Exec redis (List NewLicenseMeter)
  check_fields input target = do
    raise_if (not (same_type target subscription) && is_some input.expires_at) invalid
    raise_if (not (same_type target trial) && is_some input.trial_duration_minutes) invalid
    new_meters ← lift (validate_meters (or_else input.meters []))
    raise_if (not (same_type target metered) && has_meters new_meters) invalid
    pure new_meters

  unfoldable pub update_license :
      String → UpdateLicenseInput → (ℕ → Draws) → Exec redis ManagedLicense
  update_license id input draw = do
    raise_if (no_fields input) invalid
    current ← require_license redis sha256 id
    limits ← check_limits_given input
    check_customer input.customer_id
    let target = or_else input.type current.type
    let type_changed = not (same_type target current.type)
    new_meters ← check_fields input target
    current_meters ← query (list_meters id false)
    active ← target_config id current input target current_meters new_meters
    link ← stripe_link id target input
    apply_license_update id current input
        (update_data input current limits target type_changed active)
        (update_options input current (meters_to_create current_meters new_meters)) link
        type_changed draw

  abbrev pub renewal : String → UpdateLicenseInput
  renewal expires_at = record {
    customer_id = none;
    type = none;
    max_ips = none;
    max_devices = none;
    max_sessions = none;
    trial_duration_minutes = none;
    metadata = none;
    expires_at = some (some expires_at);
    meters = none;
    unlink_stripe = none;
  }

  unfoldable pub renew_subscription : String → String → (ℕ → Draws) → Exec redis ManagedLicense
  renew_subscription id expires_at draw = do
    current ← require_license redis sha256 id
    raise_if (not (same_type current.type subscription)) invalid
    update_license id (renewal expires_at) draw
