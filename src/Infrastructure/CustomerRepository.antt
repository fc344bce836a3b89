-- ===== src/Infrastructure/CustomerRepository.antt =====
-- apps/server/src/infrastructure/repositories/DrizzleCustomerRepository.ts. A customer's random
-- identifier is an argument.
pub mod Cascade
use keyzori.Prelude.{
  ℕ, String, List, [], ◌∷◌, Bool, not, ◌&&◌, ◌==◌, Option, none, some, or_else, find, update,
  remove, select, any,
}
use keyzori.Domain.Entities.{Customer, JsonObject}
use keyzori.Domain.Errors.{ok, err, internal, conflict_error, invalid_request, throw_if, ◌>>◌}
use keyzori.Infrastructure.Database.{Database, StoredLicense, Transaction}
use keyzori.Infrastructure.LicenseRepository.{delete}

pub record CustomerUpdate : Type 0 where
  pub email : Option String
  pub name : Option String
  pub metadata : Option JsonObject

abbrev pub is_customer : String → Customer → Bool
is_customer id c = c.id == id

abbrev pub new_customer : String → String → JsonObject → String → ℕ → Customer
new_customer email name metadata id now = record {
  id = id;
  email = email;
  name = name;
  metadata = metadata;
  created_at = now;
  updated_at = now;
}

-- `create`, with `translateDuplicateEmail`.
unfoldable pub store_customer : String → String → JsonObject → String → ℕ → Transaction Customer
store_customer email name metadata id now db = do
  throw_if (any (is_customer id) db.customers) internal
  throw_if (any (λ c. c.email == email) db.customers) (conflict_error invalid_request)
  ok (
    new_customer email name metadata id now,
    record db { customers = new_customer email name metadata id now ∷ db.customers },
  )

-- `findAll`; the query's order by time is left out.
abbrev pub find_all_customers : Database → List Customer
find_all_customers db = db.customers

-- `findById`.
abbrev pub find_customer : String → Database → Option Customer
find_customer id db = find (is_customer id) db.customers

abbrev pub customer_row : CustomerUpdate → ℕ → Customer → Customer
customer_row u now c = record c {
  email = or_else u.email c.email;
  name = or_else u.name c.name;
  metadata = or_else u.metadata c.metadata;
  updated_at = now;
}

-- Another customer has the email.
abbrev pub email_taken : String → Option String → Database → Bool
email_taken id none db = Bool.false
email_taken id (some email) db = any (λ c. c.email == email && not (c.id == id)) db.customers

-- `update`, with `translateDuplicateEmail`.
unfoldable pub edit_customer : String → CustomerUpdate → ℕ → Transaction Customer
edit_customer id u now db = elim (find (is_customer id) db.customers) [
  | none ↦ err internal
  | some c ↦ do
    throw_if (email_taken id u.email db) (conflict_error invalid_request)
    ok (
      customer_row u now c,
      record db { customers = update (is_customer id) (customer_row u now) db.customers },
    )
]

-- The licenses of a list, each with what its foreign keys cascade to.
unfoldable pub delete_licenses : List StoredLicense → Database → Database
delete_licenses [] db = db
delete_licenses (l ∷ ls) db = delete_licenses ls (delete l.id db)

abbrev pub licenses_of : String → Database → List StoredLicense
licenses_of customer_id db = select (λ l. l.customer_id == customer_id) db.licenses

-- `delete`, with the licenses of the customer.
unfoldable pub drop_customer : String → Database → Database
drop_customer id db =
    let left = delete_licenses (licenses_of id db) db in
    record left { customers = remove (is_customer id) left.customers }
