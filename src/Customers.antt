-- ===== src/Customers.antt =====
-- apps/api/app/services/customers.py and repositories/customers.py: the customers of a tenant.
pub mod Directory
pub mod Returning
mod Tests
use infinity_radius.Prelude.{
  ℕ, Bool, true, false, ◌&&◌, Option, none, some, [], ◌∷◌, ◌==◌, if◌then◌else◌, Dict, insert, Text,
  eq_text, is_text,
}
use infinity_radius.Core.Errors.{
  Result, ok, err, ◌>>=◌, ◌>>◌, or_raise, validation, not_found, conflict, invalid_phone,
}
use infinity_radius.Phones.{normalize_tz_phone}
use infinity_radius.Billing.Tables.{
  Customer, Billing, get_customer, log_billing, self_registered, customer_created,
}

-- The conditions of `get_by_phone` and `get_by_username`, with the tenant of `_base_query`.
unfoldable pub has_phone : ℕ → Text → Customer → Bool
unfolding eq_text
has_phone t phone c = c.tenant_id == t && eq_text c.phone phone

unfoldable pub has_username : ℕ → Text → Customer → Bool
unfolding is_text
has_username t name c = c.tenant_id == t && is_text c.username name

-- The key of the first row that meets a condition; the two columns that are looked for are unique in
-- a tenant (UniqueConstraint), so that there is one at most.
unfoldable pub find_row {ℓ} : {V : Type ℓ} → (V → Bool) → Dict V → Option ℕ
find_row p [] = none
find_row p ((k, v) ∷ d) = if p v then some k else find_row p d

-- `CustomerRepository.get_by_phone` and `get_by_username`
unfoldable pub get_by_phone : ℕ → Text → Dict Customer → Option ℕ
unfolding find_row has_phone
get_by_phone t phone d = find_row (has_phone t phone) d

unfoldable pub get_by_username : ℕ → Text → Dict Customer → Option ℕ
unfolding find_row has_username
get_by_username t name d = find_row (has_username t name) d

-- The fields that `create` is called with.
pub record Fields : Type 0 where
  pub first_name : Option Text
  pub last_name : Option Text
  pub phone : Text
  pub email : Option Text
  pub username : Option Text
  pub notes : Option Text

-- The fields of a customer who pays in the captive portal: a phone number and nothing else.
abbrev pub self_made : Text → Fields
self_made phone = record {
  first_name = none;
  last_name = none;
  phone = phone;
  email = none;
  username = none;
  notes = none;
}

abbrev pub new_customer : ℕ → ℕ → ℕ → Fields → Customer
new_customer id t number f = record {
  id = id;
  tenant_id = t;
  customer_number = number;
  first_name = f.first_name;
  last_name = f.last_name;
  phone = f.phone;
  email = f.email;
  username = f.username;
  notes = f.notes;
}

-- `CustomerService.get`
unfoldable pub get : ℕ → ℕ → Billing → Result Customer
unfolding get_customer
get t id b = or_raise (get_customer t id b) not_found

-- A row that is there already is a conflict.
unfoldable pub require_none : Option ℕ → Result (Unit {0})
require_none none = ok tt
require_none (some k) = err conflict

unfoldable pub require_free_name : ℕ → Option Text → Dict Customer → Result (Unit {0})
unfolding get_by_username require_none
require_free_name t none d = ok tt
require_free_name t (some name) d = require_none (get_by_username t name d)

-- `CustomerService.create`; the id and the number of the new row are arguments.
unfoldable pub create : ℕ → Option ℕ → ℕ → ℕ → Fields → Billing → Result Billing
unfolding normalize_tz_phone get_by_phone require_none require_free_name
create t actor id number f b = do
  normalized ← or_raise (normalize_tz_phone f.phone) (validation invalid_phone)
  require_none (get_by_phone t normalized b.customers)
  require_free_name t f.username b.customers
  let c = new_customer id t number (record f { phone = normalized })
  ok (log_billing customer_created id actor (record b { customers = insert id c b.customers }))

unfoldable pub register : ℕ → ℕ → ℕ → Text → Billing → Option ℕ → ℕ × Billing
register t id number phone b (some c) = (c, b)
register t id number phone b none = (
  id,
  log_billing self_registered id none
      (record b { customers = insert id (new_customer id t number (self_made phone)) b.customers }),
)

-- `get_or_create_by_phone`; the id and the number of a new customer are arguments.
unfoldable pub get_or_create_by_phone : ℕ → ℕ → ℕ → Text → Billing → Result (ℕ × Billing)
unfolding normalize_tz_phone get_by_phone register
get_or_create_by_phone t id number phone b = do
  normalized ← or_raise (normalize_tz_phone phone) (validation invalid_phone)
  ok (register t id number normalized b (get_by_phone t normalized b.customers))
