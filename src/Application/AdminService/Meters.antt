-- ===== src/Application/AdminService/Meters.antt =====
-- The meters of licenses, of AdminService.ts.
use keyzori.Prelude.{
  ℕ, suc, String, List, [], ◌∷◌, Bool, false, not, Option, none, some, is_some, map, ℤ, pos, negsuc,
}
use keyzori.Domain.Text.{concat}
use keyzori.Domain.Decimal.{show_decimal}
use keyzori.Domain.Entities.{
  License, LicenseMeter, UsageLedgerEntry, MeterLedgerKind, top_up, adjustment, JsonObject,
  JsonValue, NewLicenseMeter,
}
use keyzori.Domain.Errors.{
  Result, ok, err, invalid, not_found_error, conflict_error, meter_not_found, meter_archived,
}
use keyzori.Infrastructure.Redis.{Redis}
use keyzori.Infrastructure.MeterRepository.{
  Draws, MeterAdjustmentResult, adjusted, out_of_range, list_meters, create_meter, archive_meter,
  adjust, list_ledger,
}
use keyzori.Infrastructure.LicenseRepository.Editing.{store_meter_draft, conflicting}
use keyzori.Application.Activity.{
  meter_created, meter_archived_event, meter_adjusted, operator_text,
}
use keyzori.Application.Exec.{
  Exec, pure, raise, lift, gets, query, write, ◌>>=◌, ◌>>◌, raise_if, capture,
}
use keyzori.Application.AdminService.{
  license_event, text_field, require_license, write_and_reread, present_or,
}
use keyzori.Application.AdminService.Validation.{
  Number, CreateMeterInput, validate_integer, validate_delta, validate_meters, meter_name,
  reason_text,
}

abbrev pub number_field : String → ℕ → JsonObject → JsonObject
number_field name n rest = JsonObject.field name (JsonValue.number (show_decimal n)) rest

abbrev pub show_int : ℤ → String
show_int (pos n) = show_decimal n
show_int (negsuc n) = concat "-" (show_decimal (suc n))

abbrev pub kind_text : MeterLedgerKind → String
kind_text top_up = "top_up"
kind_text _ = "adjustment"

-- The only meter that was validated.
abbrev pub only_meter : List NewLicenseMeter → Result NewLicenseMeter
only_meter [] = err invalid
only_meter (m ∷ ms) = ok m

-- The name of a meter that is given, checked.
unfoldable pub checked_name : Option String → Result (Option String)
checked_name none = ok none
checked_name (some value) = elim (meter_name value) [ ok name ↦ ok (some name) | err e ↦ err e ]

module _ (redis : Redis) (sha256 : String → String) where
  unfoldable pub list_license_meters : String → Bool → Exec redis (List LicenseMeter)
  list_license_meters id include_archived = do
    require_license redis sha256 id
    query (list_meters id include_archived)

  -- `updateMeterDraft`.
  unfoldable pub update_meter_draft : License → Exec redis License
  update_meter_draft license = do
    meters ← query (list_meters license.id false)
    now ← gets (λ w. w.now)
    write_and_reread redis sha256 license.id
        (store_meter_draft license.id (map (λ m. m.name) meters) now)

  unfoldable pub create_license_meter : String → CreateMeterInput → Draws → Exec redis LicenseMeter
  create_license_meter id input draws = do
    license ← require_license redis sha256 id
    validated ← lift (validate_meters (input ∷ []))
    meter_input ← lift (only_meter validated)
    now ← gets (λ w. w.now)
    meter ←
        write (create_meter id meter_input.name meter_input.balance meter_input.reason draws now)
    update_meter_draft license
    capture (
        license_event meter_created license (some (operator_text meter_input.reason))
          (text_field "meter" meter.name (number_field "balance" meter.balance JsonObject.end)))
    pure meter

  unfoldable pub archive_license_meter : String → String → String → Draws → Exec redis LicenseMeter
  archive_license_meter id name reason draws = do
    license ← require_license redis sha256 id
    text ← lift (meter_name name)
    normalized_reason ← lift (reason_text reason)
    now ← gets (λ w. w.now)
    found ← write (archive_meter id text normalized_reason draws now)
    meter ← present_or redis sha256 (not_found_error meter_not_found) found
    raise_if (not (is_some meter.archived_at)) conflicting
    update_meter_draft license
    capture (
        license_event meter_archived_event license (some (operator_text normalized_reason))
          (text_field "meter" meter.name JsonObject.end))
    pure meter

  abbrev pub adjustment_details : LicenseMeter → ℤ → MeterLedgerKind → JsonObject
  adjustment_details meter delta kind = text_field "meter" meter.name (
      JsonObject.field "delta" (JsonValue.number (show_int delta))
        (number_field "balance" meter.balance (text_field "kind" (kind_text kind) JsonObject.end)))

  -- The answer to what the meters' repository returned.
  unfoldable pub answer_adjustment :
      License → ℤ → String → MeterLedgerKind → MeterAdjustmentResult → Exec redis LicenseMeter
  answer_adjustment license delta reason kind MeterAdjustmentResult.not_found =
      raise (not_found_error meter_not_found)
  answer_adjustment license delta reason kind MeterAdjustmentResult.archived =
      raise (conflict_error meter_archived)
  answer_adjustment license delta reason kind out_of_range = raise invalid
  answer_adjustment license delta reason kind (adjusted meter entry) = do
    capture (
        license_event meter_adjusted license (some (operator_text reason))
          (adjustment_details meter delta kind))
    pure meter

  -- `adjustMeter`.
  unfoldable pub adjust_meter :
      String → String → ℤ → String → MeterLedgerKind → Draws → Exec redis LicenseMeter
  adjust_meter id name delta reason kind draws = do
    license ← require_license redis sha256 id
    normalized_reason ← lift (reason_text reason)
    text ← lift (meter_name name)
    now ← gets (λ w. w.now)
    result ← write (adjust id text delta normalized_reason kind draws now)
    answer_adjustment license delta normalized_reason kind result

  unfoldable pub top_up_license_meter :
      String → String → Number → String → Draws → Exec redis LicenseMeter
  top_up_license_meter id name units reason draws = do
    n ← lift (validate_integer units 1)
    adjust_meter id name (pos n) reason top_up draws

  unfoldable pub adjust_license_meter :
      String → String → Number → String → Draws → Exec redis LicenseMeter
  adjust_license_meter id name delta reason draws = do
    d ← lift (validate_delta delta)
    adjust_meter id name d reason adjustment draws

  unfoldable pub list_license_usage_ledger :
      String → Option String → Exec redis (List UsageLedgerEntry)
  list_license_usage_ledger id name = do
    require_license redis sha256 id
    text ← lift (checked_name name)
    query (list_ledger id text)
