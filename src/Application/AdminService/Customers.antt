-- ===== src/Application/AdminService/Customers.antt =====
-- The customers of AdminService.ts.
pub mod Aftermath
use keyzori.Prelude.{
  ℕ, ◌+◌, String, List, [], ◌∷◌, Bool, not, ◌&&◌, ◌==◌, Option, none, some, is_some, or_else,
  if◌then◌else◌, select,
}
use keyzori.Domain.Host.{Host}
use keyzori.Domain.Decimal.{show_decimal}
use keyzori.Domain.Entities.{Customer, License, JsonObject, JsonValue, JsonArray}
use keyzori.Domain.Errors.{Result, ok, err, invalid}
use keyzori.Infrastructure.Redis.{Redis}
use keyzori.Infrastructure.CustomerRepository.{
  CustomerUpdate, store_customer, find_all_customers, find_customer, edit_customer, drop_customer,
}
use keyzori.Infrastructure.LicenseRepository.Creation.{find_all_licenses}
use keyzori.Application.Activity.{
  ActivityEvent, ActivityEventType, customer_created, customer_updated, customer_deleted, operator,
  success,
}
use keyzori.Application.Exec.{Exec, pure, lift, gets, query, write, ◌>>=◌, ◌>>◌, raise_if, capture}
use keyzori.Application.AdminService.{present_or, customer_not_found, remove_sessions_best_effort}
use keyzori.Application.AdminService.Validation.{customer_email, customer_name}

-- `UpdateCustomerInput`.
abbrev pub UpdateCustomerInput : Type 0
UpdateCustomerInput = CustomerUpdate

abbrev pub customer_event : ActivityEventType → String → JsonObject → ActivityEvent
customer_event type id details = record {
  type = type;
  source = operator;
  outcome = success;
  reason = none;
  license_id = none;
  customer_id = some id;
  key_prefix = none;
  ip = none;
  device_id = none;
  details = details;
}

abbrev pub field_names : List (String × Bool) → JsonArray
field_names [] = JsonArray.nil
field_names ((name, given) ∷ fields) =
    let rest = field_names fields in
    if given then JsonArray.cons (JsonValue.string name) rest else rest

-- `{ fields: Object.keys(data) }`, in the order of the record.
abbrev pub fields_details : List (String × Bool) → JsonObject
fields_details fields =
    JsonObject.field "fields" (JsonValue.array (field_names fields)) JsonObject.end

abbrev pub customer_fields : UpdateCustomerInput → List (String × Bool)
customer_fields input =
    ("email", is_some input.email)
    ∷ ("name", is_some input.name)
    ∷ ("metadata", is_some input.metadata)
    ∷ []

-- The email and the name that are given, checked.
unfoldable pub checked_text : (String → Result String) → Option String → Result (Option String)
checked_text check none = ok none
checked_text check (some value) = elim (check value) [ ok text ↦ ok (some text) | err e ↦ err e ]

module _ (redis : Redis) (sha256 : String → String) (host : Host) where
  unfoldable pub create_customer :
      String → String → Option JsonObject → String → Exec redis Customer
  create_customer email name metadata id = do
    normalized_email ← lift (customer_email host email)
    normalized_name ← lift (customer_name name)
    now ← gets (λ w. w.now)
    customer ←
        write
          (store_customer normalized_email normalized_name (or_else metadata JsonObject.end) id now)
    capture (customer_event customer_created customer.id JsonObject.end)
    pure customer

  unfoldable pub list_customers : Exec redis (List Customer)
  list_customers = query find_all_customers

  unfoldable pub get_customer : String → Exec redis Customer
  get_customer id = do
    found ← query (find_customer id)
    present_or redis sha256 customer_not_found found

  unfoldable pub update_customer : String → UpdateCustomerInput → Exec redis Customer
  update_customer id input = do
    get_customer id
    raise_if (not (is_some input.email) && not (is_some input.name) && not (is_some input.metadata))
        invalid
    email ← lift (checked_text (customer_email host) input.email)
    name ← lift (checked_text customer_name input.name)
    now ← gets (λ w. w.now)
    customer ←
        write
          (edit_customer id (record { email = email; name = name; metadata = input.metadata }) now)
    capture (customer_event customer_updated id (fields_details (customer_fields input)))
    pure customer

  -- The clean-ups of the licenses: how many failed.
  unfoldable pub clean_up_all : List License → Exec redis ℕ
  clean_up_all [] = pure 0
  clean_up_all (l ∷ ls) = do
    cleanup ← remove_sessions_best_effort redis sha256 l.id none
    failures ← clean_up_all ls
    pure ((if cleanup.1 then 1 else 0) + failures)

  unfoldable pub delete_customer : String → Exec redis (Unit {0})
  delete_customer id = do
    get_customer id
    all ← query find_all_licenses
    write (λ db. ok (tt, drop_customer id db))
    failures ← clean_up_all (select (λ l. l.customer_id == id) all)
    capture (
        customer_event customer_deleted id (
          JsonObject.field "cleanupFailures" (JsonValue.number (show_decimal failures))
            JsonObject.end))
