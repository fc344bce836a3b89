-- ===== src/Application/AdminService/Licenses/Created.antt =====
-- `createLicense` of AdminService.ts for every pattern of failing calls.
use keyzori.Prelude.{
  ℕ, ◌≡◌, refl, sym, ap, subst, ◌∙◌, String, List, [], ◌∷◌, true, ◌==◌, none, some, find, eq_iff,
  arith, suc,
}
use keyzori.Domain.Host.{Host}
use keyzori.Domain.Entities.{
  License, LicenseType, lifetime, subscription, metered, trial, NewLicense, NewLicenseMeter, active,
}
use keyzori.Domain.LicenseStatus.{derive_license_status}
use keyzori.Domain.LicenseStatus.Laws.{TypeRuns, derive-active_iff}
use keyzori.Domain.Errors.{Failure, ok, >>=-eq-ok}
use keyzori.Infrastructure.Redis.{Redis}
use keyzori.Infrastructure.Database.{
  Database, StoredLicense, insert_license, insert_meter, insert_entry, meets_checks,
  customer_exists,
}
use keyzori.Infrastructure.MeterRepository.{Draws, create_entry}
use keyzori.Infrastructure.MeterRepository.Ledger.{IsConsistent}
use keyzori.Infrastructure.LicenseRepository.{to_domain_license}
use keyzori.Infrastructure.LicenseRepository.Creation.{
  store_license, insert_meters, insert_entries, stored_meter, new_license,
}
use keyzori.Infrastructure.LicenseRepository.NewMeters.{stores, Change-IsConsistent}
use keyzori.Application.Exec.{World}
use keyzori.Application.Exec.Laws.{
  Ends, query-Ends, write-Ends, lift-Ends, pure-Ends, gets-Ends, bind-Ends, raise_if-Ends,
  capture-Ends,
}
use keyzori.Application.AdminService.{ManagedRevealedLicense, managed}
use keyzori.Application.AdminService.Validation.{future_date}
use keyzori.Application.AdminService.TypeConfig.{
  CreateLicenseInput, TypeConfig, create_type_config, create_subscription,
}
use keyzori.Application.AdminService.Licenses.{create_license, checked_license, new_license_key}

insert_meters-licenses :
    (id : String) (ms : List NewLicenseMeter) (draw : ℕ → Draws) (i now : ℕ) (db db' : Database)
    → insert_meters id ms draw i now db ≡ ok db'
    → db'.licenses ≡ db.licenses
unfolding insert_meters insert_meter
insert_meters-licenses id [] draw i now db db' h = ground arith
insert_meters-licenses id (m ∷ ms) draw i now db db' h =
    let (inserted, first, rest) =
      >>=-eq-ok (insert_meter (stored_meter id m (draw i) now) db) _ h in
    let same : inserted.licenses ≡ db.licenses = ground arith in
    insert_meters-licenses id ms draw (suc i) now inserted db' rest ∙ same

insert_entries-licenses :
    (id : String) (ms : List NewLicenseMeter) (draw : ℕ → Draws) (i now : ℕ) (db db' : Database)
    → insert_entries id ms draw i now db ≡ ok db'
    → db'.licenses ≡ db.licenses
unfolding insert_entries insert_entry
insert_entries-licenses id [] draw i now db db' h = ground arith
insert_entries-licenses id (m ∷ ms) draw i now db db' h =
    let entry = create_entry id (stored_meter id m (draw i) now) m.reason (draw i) now in
    let (inserted, first, rest) = >>=-eq-ok (insert_entry entry db) _ h in
    let same : inserted.licenses ≡ db.licenses = ground arith in
    insert_entries-licenses id ms draw (suc i) now inserted db' rest ∙ same

-- The row of a license that was stored, and the license that `create` returned.
store_license-eq-ok :
    (sha256 : String → String) (input : NewLicense) (id : String) (draw : ℕ → Draws) (now : ℕ)
    (db db' : Database) (l : License)
    → store_license sha256 input id draw now db ≡ ok (l, db')
    → (l ≡ to_domain_license (new_license sha256 input id now) none)
      × (db'.licenses ≡ new_license sha256 input id now ∷ db.licenses)
      × (meets_checks (new_license sha256 input id now).columns ≡ true)
      × (customer_exists input.customer_id db ≡ true)
unfolding store_license insert_license
store_license-eq-ok sha256 input id draw now db db' l h =
    let row = new_license sha256 input id now in
    let (inserted, stored, rest) = >>=-eq-ok (insert_license row db) _ h in
    let (filled_in, meters, more) =
      >>=-eq-ok (insert_meters id input.meters draw 0 now inserted) _ rest in
    let (recorded, entries, last) =
      >>=-eq-ok (insert_entries id input.meters draw 0 now filled_in) _ more in
    let same =
      insert_entries-licenses id input.meters draw 0 now filled_in recorded entries
      ∙ insert_meters-licenses id input.meters draw 0 now inserted filled_in meters in
    let given : l ≡ to_domain_license row none = cc in
    let left : db' ≡ recorded = cc in
    let own : inserted.licenses ≡ row ∷ db.licenses = ground arith in
    (given, ap (λ d. d.licenses) left ∙ same ∙ own, ground arith, ground arith)

-- A new license runs at once.
created-TypeRuns :
    (host : Host) (t : LicenseType) (input : CreateLicenseInput) (meters : List NewLicenseMeter)
    (now : ℕ) (c : TypeConfig) (l : License)
    → create_type_config host (record input { type = t }) meters now ≡ ok c
    → l.expires_at ≡ c.expires_at
    → l.trial_started_at ≡ none
    → TypeRuns t l now
unfolding create_type_config create_subscription future_date
created-TypeRuns host lifetime input meters now c l h expiry unstarted = tt
created-TypeRuns host metered input meters now c l h expiry unstarted = tt
created-TypeRuns host trial input meters now c l h expiry unstarted = rw unstarted tt
created-TypeRuns host subscription input meters now c l h expiry unstarted = ground arith

module _ (redis : Redis) (sha256 : String → String) (host : Host) where
  -- What the checks let pass.
  abbrev pub Checked : CreateLicenseInput → String → ℕ → NewLicense → Type 0
  Checked input random now new =
      (new.license_key ≡ new_license_key random)
      × (new.type ≡ input.type)
      × ((l : License)
          → l.expires_at ≡ new.expires_at
          → l.trial_started_at ≡ none
          → TypeRuns input.type l now)
      × (new.trial_started_at ≡ none)

  module _ (P : NewLicense → World redis → Type 0) (Q : Failure → World redis → Type 0) where
    checked_license-Ends :
        (input : CreateLicenseInput) (random : String) (w : World redis)
        → ((new : NewLicense) → Checked input random w.now new → P new w)
        → ((e : Failure) → Q e w)
        → Ends P Q (checked_license redis sha256 host input random) w
    unfolding checked_license
    checked_license-Ends input random w returns throws = bind-Ends _ _ _ _ _ (
        lift-Ends _ _ _ _
          (λ _ _. bind-Ends _ _ _ _ _ (
            lift-Ends _ _ _ _
              (λ _ _. bind-Ends _ _ _ _ _ (
                lift-Ends _ _ _ _
                  (λ _ _. bind-Ends _ _ _ _ _ (
                    lift-Ends _ _ _ _
                      (λ meters _. bind-Ends _ _ _ _ _ (
                        gets-Ends _ _ _ _ (
                          bind-Ends _ _ _ _ _ (
                            lift-Ends _ _ _ _
                              (λ c made. pure-Ends _ _ _ _ (
                                returns _ (
                                  refl,
                                  refl,
                                  (λ l expiry unstarted.
                                      created-TypeRuns host input.type input meters w.now c l made
                                        expiry unstarted),
                                  refl,
                                )))
                              (λ e _. throws e)))))
                      (λ e _. throws e)))
                  (λ e _. throws e)))
              (λ e _. throws e)))
          (λ e _. throws e))

  -- The license as it is stored and as it is returned.
  abbrev pub Created :
      CreateLicenseInput → String → World redis → ManagedRevealedLicense → World redis → Type 0
  Created input random w r v =
      (row : StoredLicense) × (find (λ l. l.key_hash == sha256 r.license_key) v.db.licenses
        ≡ some row)
      × (row.columns ≡ r.managed_license.license.columns)
      × (r.license_key ≡ new_license_key random)
      × (row.type ≡ input.type)
      × (row.session_revision ≡ 0)
      × (meets_checks row.columns ≡ true)
      × (customer_exists row.customer_id w.db ≡ true)
      × (r.managed_license.status ≡ active)
      × (IsConsistent w.db → IsConsistent v.db)

  stored-Created :
      (input : CreateLicenseInput) (random id : String) (draw : ℕ → Draws) (w v : World redis)
      (new : NewLicense) (l : License)
      → Checked input random w.now new
      → store_license sha256 new id draw w.now w.db ≡ ok (l, v.db)
      → Created input random w
          (record { managed_license = managed l w.now; license_key = new.license_key })
          v
  unfolding find
  stored-Created input random id draw w v new l (keyed, typed, runs, unstarted) stored =
      let row = new_license sha256 new id w.now in
      let (given, listed, checks, exists) =
        store_license-eq-ok sha256 new id draw w.now w.db v.db l stored in
      let hit : find (λ k. k.key_hash == sha256 new.license_key) (row ∷ w.db.licenses) ≡ some row =
        ground (arith, eq_iff (sha256 new.license_key) (sha256 new.license_key)) in
      let (_, starts) = derive-active_iff (to_domain_license row none) w.now in
      let running : (derive_license_status (to_domain_license row none) w.now).status ≡ active =
        starts (
          refl,
          refl,
          subst (λ t. TypeRuns t (to_domain_license row none) w.now) (sym typed)
              (runs (to_domain_license row none) refl unstarted),
        ) in
      (
        row,
        ap (find (λ k. k.key_hash == sha256 new.license_key)) listed ∙ hit,
        ap (λ x. x.columns) (sym given),
        keyed,
        typed,
        refl,
        checks,
        exists,
        ap (λ x. (derive_license_status x w.now).status) given ∙ running,
        λ c. Change-IsConsistent c (stores new id draw w.now l stored),
      )

  -- Whichever calls fail, `createLicense` either throws and leaves the database as it was, or returns a
  -- license that its key finds: of the requested type, for a customer who exists, of revision 0, within
  -- the checks and ranges of the table, and active at once. A consistent ledger stays so.
  pub create_license_lem :
      (input : CreateLicenseInput) (random id : String) (draw : ℕ → Draws) (w : World redis)
      → Ends
          (Created input random w)
          (λ _ v. v.db ≡ w.db)
          (create_license redis sha256 host input random id draw)
          w
  unfolding create_license
  create_license_lem input random id draw w = bind-Ends _ _ _ _ _ (
      query-Ends _ _ _ _
        (λ rest. bind-Ends _ _ _ _ _ (
          raise_if-Ends _ _ _ _ _ (λ _. refl)
            (λ _. bind-Ends _ _ _ _ _ (
              checked_license-Ends _ _ _ _ _
                (λ new checked. bind-Ends _ _ _ _ _ (
                  gets-Ends _ _ _ _ (
                    bind-Ends _ _ _ _ _ (
                      write-Ends _ _ _ _
                        (λ more db l stored. bind-Ends _ _ _ _ _ (
                          capture-Ends _ _ _ _ (λ others activity. pure-Ends _ _ _ _ (
                            stored-Created input random id draw w
                              (record w { faults = others; db = db; activity = activity }) new l
                              checked stored))))
                        (λ _ _. refl)))))
                (λ _. refl)))))
        (λ _. refl))
