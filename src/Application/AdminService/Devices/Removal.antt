-- ===== src/Application/AdminService/Devices/Removal.antt =====
-- The removal of registered devices of AdminService.ts for every pattern of failing calls.
use keyzori.Prelude.{
  ℕ, ◌<◌, ◌≡◌, refl, sym, ap, subst, ◌∙◌, String, Bool, ltb, Option, some, select, remove, length,
  arith, ◌&&◌, ◌==◌,
}
use keyzori.Domain.Host.{Host}
use keyzori.Domain.Entities.{License, RegisteredDevice}
use keyzori.Domain.Errors.{ok}
use keyzori.Infrastructure.Redis.{Redis}
use keyzori.Infrastructure.Database.{Database}
use keyzori.Infrastructure.DeviceRepository.{
  remove_devices, remove_registrations_by_ip, remove_registrations_by_device,
  increment_license_session_revision,
}
use keyzori.Infrastructure.LicenseRepository.{find_by_id, write_licenses, has_id, bump_revision}
use keyzori.Infrastructure.LicenseRepository.Revisions.{Advances, bumped-Advances}
use keyzori.Application.Exec.{World, pure, ◌>>=◌}
use keyzori.Application.Exec.Laws.{
  Ends, Outcome-mono, transaction-Ends, write-Ends, lift-Ends, pure-Ends, gets-Ends, bind-Ends,
  if-Ends, capture-Ends,
}
use keyzori.Application.AdminService.Steps.{require_license-Ends, cleanup-Ends}
use keyzori.Application.AdminService.Access.{required_ip}
use keyzori.Application.AdminService.Validation.{device_id_text}
use keyzori.Application.AdminService.Devices.{
  raise_revision_if, removal_locked, finish_removal, remove_registered_ip, remove_license_device,
}

-- The rows of `p` are gone, and the sessions of the license with them, if there was such a row.
abbrev pub RowsGone : String → (RegisteredDevice → Bool) → Database → ℕ → Database → Type 0
RowsGone id p db n db' =
    (db'.devices ≡ remove p db.devices)
    × (n ≡ length (select p db.devices))
    × (0 < n → (l : License) × Advances id db db' l)

module _ (redis : Redis) (sha256 : String → String) where
  raised_rows :
      (id : String) (p : RegisteredDevice → Bool) (old : License) (count now : ℕ)
      (db db' : Database)
      → find_by_id id db ≡ some old
      → write_licenses (has_id id) (bump_revision now) (record db { devices = remove p db.devices })
        ≡ db'
      → count ≡ length (select p db.devices)
      → RowsGone id p db count db'
  raised_rows id p old count now db db' found written counted = (
    ap (λ d. d.devices) (sym written),
    counted,
    λ _.
        let (l, advanced) = bumped-Advances id now db (remove p db.devices) old found in
        (l, subst (λ d. Advances id db d l) written advanced),
  )

  raise_revision_if-Ends :
      (id : String) (p : RegisteredDevice → Bool) (old : License) (count : ℕ) (db : Database)
      (w : World redis)
      → find_by_id id db ≡ some old
      → w.db ≡ record db { devices = remove p db.devices }
      → count ≡ length (select p db.devices)
      → Ends
          (λ _ v. RowsGone id p db count v.db)
          (λ _ _. Unit)
          (raise_revision_if redis sha256 (ltb 0 count) id)
          w
  unfolding raise_revision_if increment_license_session_revision
  raise_revision_if-Ends id p old count db w found left counted = bind-Ends _ _ _ _ _ (
      gets-Ends _ _ _ _ (
        if-Ends (λ _ v. RowsGone id p db count v.db) (λ _ _. Unit) (ltb 0 count) _ _ w
          (λ some_row.
            write-Ends _ _ _ _
              (λ rest db' a h.
                let written : write_licenses (has_id id) (bump_revision w.now) w.db ≡ db' = cc in
                raised_rows id p old count w.now db db' found
                  (subst (λ d. write_licenses (has_id id) (bump_revision w.now) d ≡ db') left
                    written)
                  counted)
              (λ _ _. tt))
          (λ no_row.
            pure-Ends _ _ _ _ (ap (λ d. d.devices) left, counted, λ more. absurd (ground arith)))))

  -- A removal under the lock, whose rows are those of `p`.
  removal_locked-Ends :
      (id : String) (p : RegisteredDevice → Bool) (old : License) (w : World redis)
      → find_by_id id w.db ≡ some old
      → Ends
          (λ r v. RowsGone id p w.db r.0 v.db)
          (λ _ v. v.db ≡ w.db)
          (removal_locked redis sha256 id (remove_devices p))
          w
  unfolding removal_locked
  removal_locked-Ends id p old w found = transaction-Ends _ _ _ _ (
      bind-Ends _ _ _ _ _ (
        write-Ends _ _ _ _
          (λ rest db count h.
            let counted : count ≡ length (select p w.db.devices) = cc in
            let left : db ≡ record w.db { devices = remove p w.db.devices } = cc in
            bind-Ends _ _ _ _ _ (
              Outcome-mono (λ _ v. RowsGone id p w.db count v.db) (λ _ _. Unit) _ _
                (λ revision v gone. pure-Ends _ _ _ _ ((λ _. gone), (λ _. refl)))
                (λ e v _. ((λ _. refl), (λ _. refl))) _ _
                (raise_revision_if-Ends id p old count w.db (record w { faults = rest; db = db })
                  found left counted)))
          (λ _ _. ((λ _. refl), (λ _. refl)))))

  -- The end of a removal changes no row.
  finish_removal-Ends :
      (license : License) (id action : String) (p : RegisteredDevice → Bool) (before : Database)
      (r : ℕ × Option ℕ) (w : World redis)
      → RowsGone id p before r.0 w.db
      → Ends
          (λ n v. RowsGone id p before n v.db)
          (λ _ v. v.db ≡ before)
          (finish_removal redis sha256 license id action r)
          w
  unfolding finish_removal
  finish_removal-Ends license id action p before (count, revision) w gone = bind-Ends _ _ _ _ _ (
      if-Ends
        (λ _ v. Ends (λ n u. RowsGone id p before n u.db) (λ _ u. u.db ≡ before) (pure count) v)
        (λ _ v. v.db ≡ before) (ltb 0 count) _ _ w
        (λ _. bind-Ends _ _ _ _ _ (
          cleanup-Ends redis sha256 _ _ _ _ _
            (λ _ _ _. capture-Ends _ _ _ _ (λ _ _. pure-Ends _ _ _ _ gone))))
        (λ _. pure-Ends _ _ _ _ gone))

  -- A method that checks the given text, removes the rows and finishes.
  removed-Ends :
      (license : License) (id action : String) (p : RegisteredDevice → Bool) (before : Database)
      (w : World redis)
      → w.db ≡ before
      → find_by_id id before ≡ some license
      → Ends
          (λ n v. RowsGone id p before n v.db)
          (λ _ v. v.db ≡ before)
          (removal_locked redis sha256 id (remove_devices p) >>= λ r.
            finish_removal redis sha256 license id action r)
          w
  removed-Ends license id action p before w same found = bind-Ends _ _ _ _ _ (
      Outcome-mono (λ r v. RowsGone id p w.db r.0 v.db) (λ _ v. v.db ≡ w.db) _ _
        (λ r v gone.
          finish_removal-Ends license id action p before r v
            (subst (λ d. RowsGone id p d r.0 v.db) same gone))
        (λ e v kept. kept ∙ same) _ _
        (removal_locked-Ends id p license w
          (subst (λ d. find_by_id id d ≡ some license) (sym same) found)))

  abbrev pub of_device : String → String → RegisteredDevice → Bool
  of_device id device_id d = d.license_id == id && d.device_id == device_id

  abbrev pub of_ip : String → String → RegisteredDevice → Bool
  of_ip id ip d = d.license_id == id && d.ip == ip

  -- Whichever calls fail, `removeRegisteredDevice` either throws and leaves the database as it was, or
  -- has removed exactly the rows of the device and returns their number; if there was such a row, the
  -- license has the next session revision and a later version.
  pub remove_license_device_lem :
      (id value : String) (w : World redis)
      → Ends
          (λ n v.
            (device_id : String) × (device_id_text value ≡ ok device_id)
            × RowsGone id (of_device id device_id) w.db n v.db)
          (λ _ v. v.db ≡ w.db)
          (remove_license_device redis sha256 id value)
          w
  unfolding remove_license_device remove_registrations_by_device
  remove_license_device_lem id value w = bind-Ends _ _ _ _ _ (
      require_license-Ends redis sha256 _ _ _ _
        (λ license rest found. bind-Ends _ _ _ _ _ (
          lift-Ends _ _ _ _
            (λ device_id valid.
              Outcome-mono (λ n v. RowsGone id (of_device id device_id) w.db n v.db)
                (λ _ v. v.db ≡ w.db) _ _ (λ n v gone. (device_id, valid, gone)) (λ e v kept. kept) _
                _
                (removed-Ends license id "remove_registered_device" (of_device id device_id) w.db
                  (record w { faults = rest }) refl found))
            (λ _ _. refl)))
        (λ _ _. refl))

  -- So `removeRegisteredIp` removes exactly the rows of an address, in its one spelling.
  pub remove_registered_ip_lem :
      (host : Host) (id value : String) (w : World redis)
      → Ends
          (λ n v.
            (ip : String) × (required_ip host value ≡ ok ip)
            × RowsGone id (of_ip id ip) w.db n v.db)
          (λ _ v. v.db ≡ w.db)
          (remove_registered_ip redis sha256 host id value)
          w
  unfolding remove_registered_ip remove_registrations_by_ip
  remove_registered_ip_lem host id value w = bind-Ends _ _ _ _ _ (
      require_license-Ends redis sha256 _ _ _ _
        (λ license rest found. bind-Ends _ _ _ _ _ (
          lift-Ends _ _ _ _
            (λ ip valid.
              Outcome-mono (λ n v. RowsGone id (of_ip id ip) w.db n v.db) (λ _ v. v.db ≡ w.db) _ _
                (λ n v gone. (ip, valid, gone)) (λ e v kept. kept) _ _
                (removed-Ends license id "remove_registered_ip" (of_ip id ip) w.db
                  (record w { faults = rest }) refl found))
            (λ _ _. refl)))
        (λ _ _. refl))
