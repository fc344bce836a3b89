-- ===== src/Application/AdminService/Updates/Written.antt =====
-- `updateLicense` of AdminService.ts for every pattern of failing calls.
use keyzori.Prelude.{
  ℕ, ◌≡◌, ◌⊎◌, inl, inr, refl, subst, sym, String, List, Bool, Option, none, some, or_else,
}
use keyzori.Domain.Host.{Host}
use keyzori.Domain.Entities.{License, StripeSubscriptionLink}
use keyzori.Domain.Errors.{Failure, ok}
use keyzori.Infrastructure.Redis.{Redis}
use keyzori.Infrastructure.Database.{Database}
use keyzori.Infrastructure.MeterRepository.{Draws}
use keyzori.Infrastructure.MeterRepository.Ledger.{IsConsistent}
use keyzori.Infrastructure.LicenseRepository.{LicenseUpdate, find_by_id}
use keyzori.Infrastructure.LicenseRepository.Editing.{
  LicenseUpdateOptions, edit_license, drop_stripe_link,
}
use keyzori.Infrastructure.LicenseRepository.NewMeters.{edits, Change-IsConsistent}
use keyzori.Application.Activity.{ActivityEvent}
use keyzori.Application.Exec.{World}
use keyzori.Application.Exec.Laws.{
  Ends, Outcome-mono, query-Ends, write-Ends, pure-Ends, gets-Ends, bind-Ends, raise_if-Ends,
  capture-Ends,
}
use keyzori.Application.AdminService.Steps.{require_license-Ends, write_and_reread-Ends}
use keyzori.Application.AdminService.TypeConfig.{UpdateLicenseInput, TypeConfig}
use keyzori.Application.AdminService.TypeConfig.Checks.{Fits}
use keyzori.Application.AdminService.Updates.{update_license, apply_license_update, drop_link}
use keyzori.Application.AdminService.Updates.Reads.{
  check_customer-Ends, check_limits_given-Ends, check_fields-Ends, stripe_link-Ends,
  target_config-Ends,
}

-- The database after an update, or with the link to Stripe deleted once more.
abbrev pub EditedTo :
    String → LicenseUpdate → LicenseUpdateOptions → (ℕ → Draws) → ℕ → Database → Database → Type 0
EditedTo id u options draw now db db' =
    (d : Database) × (edit_license id u options draw now db ≡ ok (tt, d))
    × ((db' ≡ d) ⊎ (db' ≡ drop_stripe_link id d))

-- One update of the repository, whose settings fit the target type, for the version that was read.
abbrev pub Updated : String → UpdateLicenseInput → (ℕ → Draws) → ℕ → Database → Database → Type 0
Updated id input draw now db db' =
    (current : License) × (find_by_id id db ≡ some current)
    × (u : LicenseUpdate) × (options : LicenseUpdateOptions) × (c : TypeConfig) × EditedTo id u
        options draw now db db'
    × (u.type ≡ some (or_else input.type current.type))
    × (u.expires_at ≡ some c.expires_at)
    × (u.trial_duration_minutes ≡ some c.trial_duration_minutes)
    × Fits (or_else input.type current.type) c
    × (options.expected_updated_at ≡ some current.updated_at)

unlinked-IsConsistent :
    (id : String) (db : Database) → IsConsistent db → IsConsistent (drop_stripe_link id db)
unlinked-IsConsistent id db c = record {
  balanced = c.balanced;
  bounded = c.bounded;
  distinct = c.distinct;
  sound = c.sound;
  referenced = c.referenced;
}

-- The ledger is as consistent as before.
pub EditedTo-IsConsistent :
    (sha256 : String → String) (id : String) (u : LicenseUpdate) (options : LicenseUpdateOptions)
    (draw : ℕ → Draws) (now : ℕ) (db db' : Database)
    → EditedTo id u options draw now db db'
    → IsConsistent db
    → IsConsistent db'
EditedTo-IsConsistent sha256 id u options draw now db db' (d, edited, either) c =
    let own = Change-IsConsistent {sha256 = sha256} c (edits id u options draw now edited) in
    elim either [
      | inl same ↦ subst IsConsistent (sym same) own
      | inr unlinked ↦ subst IsConsistent (sym unlinked) (unlinked-IsConsistent id d own)
    ]

module _ (redis : Redis) (sha256 : String → String) (host : Host) (stripe_configured : Bool) where
  module _ (P : Unit {0} → World redis → Type 0) (Q : Failure → World redis → Type 0) where
    drop_link-Ends :
        (id : String) (updated : License) (link : Option StripeSubscriptionLink) (w : World redis)
        → ((r : Unit {0}) (db : Database) (rest : List Bool) (activity : List ActivityEvent)
            → (db ≡ w.db) ⊎ (db ≡ drop_stripe_link id w.db)
            → P r (record w { faults = rest; db = db; activity = activity }))
        → ((e : Failure) (rest : List Bool) → Q e (record w { faults = rest }))
        → Ends P Q (drop_link redis sha256 host stripe_configured id updated link) w
    unfolding drop_link
    drop_link-Ends id updated none w returns throws =
        pure-Ends _ _ _ _ (returns tt w.db w.faults w.activity (inl refl))
    drop_link-Ends id updated (some link) w returns throws = bind-Ends _ _ _ _ _ (
        write-Ends _ _ _ _
          (λ rest db _ h.
            let left : db ≡ drop_stripe_link id w.db = cc in
            capture-Ends (P tt) Q _ _ (λ more activity. returns tt db more activity (inr left)))
          (λ rest e. throws e rest))

  apply_license_update-Ends :
      (id : String) (current : License) (input : UpdateLicenseInput) (u : LicenseUpdate)
      (options : LicenseUpdateOptions) (link : Option StripeSubscriptionLink) (changed : Bool)
      (draw : ℕ → Draws) (w : World redis)
      → Ends
          (λ _ v. EditedTo id u options draw w.now w.db v.db)
          (λ _ v. (v.db ≡ w.db) ⊎ EditedTo id u options draw w.now w.db v.db)
          (apply_license_update redis sha256 host stripe_configured id current input u options link
            changed draw)
          w
  unfolding apply_license_update
  apply_license_update-Ends id current input u options link changed draw w = bind-Ends _ _ _ _ _ (
      gets-Ends _ _ _ _ (
        bind-Ends _ _ _ _ _ (
          write_and_reread-Ends redis sha256 _ _ _ _ _
            (λ l db rest edited found. bind-Ends _ _ _ _ _ (
              drop_link-Ends _ _ _ _ _ _
                (λ _ db' more activity either.
                  bind-Ends _ _ _ _ _
                    (capture-Ends _ _ _ _ (λ _ _. pure-Ends _ _ _ _ (db, edited, either))))
                (λ e more. inr (db, edited, inl refl))))
            (λ e db rest either. elim either [
              | inl same ↦ inl same
              | inr edited ↦ inr (db, edited, inl refl)
            ]))))

  -- Whichever calls fail, what `updateLicense` changes in the database is nothing, or one update of the
  -- repository: for the version of the license that it read, of the type that is asked for, with
  -- settings that fit this type; the link to Stripe may be deleted once more after it. It returns only
  -- after the update, but may throw even then, where a later call fails.
  pub update_license_lem :
      (id : String) (input : UpdateLicenseInput) (draw : ℕ → Draws) (w : World redis)
      → Ends
          (λ _ v. Updated id input draw w.now w.db v.db)
          (λ _ v. (v.db ≡ w.db) ⊎ Updated id input draw w.now w.db v.db)
          (update_license redis sha256 host stripe_configured id input draw)
          w
  unfolding update_license
  update_license_lem id input draw w = bind-Ends _ _ _ _ _ (
      raise_if-Ends _ _ _ _ _ (λ _. inl refl)
        (λ _. bind-Ends _ _ _ _ _ (
          require_license-Ends redis sha256 _ _ _ _
            (λ current rest found. bind-Ends _ _ _ _ _ (
              check_limits_given-Ends redis sha256 host stripe_configured _ _ _ _
                (λ limits rest. bind-Ends _ _ _ _ _ (
                  check_customer-Ends redis sha256 host stripe_configured _ _ _ _
                    (λ _ rest. bind-Ends _ _ _ _ _ (
                      check_fields-Ends redis sha256 host stripe_configured _ _ _ _ _
                        (λ meters rest. bind-Ends _ _ _ _ _ (
                          query-Ends _ _ _ _
                            (λ rest. bind-Ends _ _ _ _ _ (
                              target_config-Ends redis sha256 host stripe_configured _ _ _ _ _ _ _ _
                                _
                                (λ c rest fits. bind-Ends _ _ _ _ _ (
                                  stripe_link-Ends redis sha256 host stripe_configured _ _ _ _ _ _
                                    (λ link rest.
                                      Outcome-mono (λ _ v. EditedTo id _ _ draw w.now w.db v.db)
                                        (λ _ v.
                                          (v.db ≡ w.db) ⊎ EditedTo id _ _ draw w.now w.db v.db)
                                        _ _
                                        (λ m v edited. (
                                          current, found, _, _, c, edited, refl, refl, refl, fits,
                                          refl,
                                        ))
                                        (λ e v either. elim either [
                                          | inl same ↦ inl same
                                          | inr edited ↦ inr (
                                            current, found, _, _, c, edited, refl, refl, refl, fits,
                                            refl,
                                          )
                                        ])
                                        _ _
                                        (apply_license_update-Ends id current input _ _ link _ draw
                                          (record w { faults = rest })))
                                    (λ _ _. inl refl)))
                                (λ _ _. inl refl)))
                            (λ _. inl refl)))
                        (λ _ _. inl refl)))
                    (λ _ _. inl refl)))
                (λ _ _. inl refl)))
            (λ _ _. inl refl))))
