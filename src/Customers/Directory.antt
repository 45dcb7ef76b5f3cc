-- ===== src/Customers/Directory.antt =====
-- The customers of a tenant under any calls of customers.py.
use infinity_radius.Prelude.{
  ℕ, Bool, true, false, ◌&&◌, ◌+◌, ◌≤◌, Option, none, some, [], ◌∷◌, ◌≡◌, refl, sym, ◌==◌, arith,
  if◌then◌else◌, Dict, lookup, insert, lookup-insert, Text, eq_text→eq, is_text, ==→eq, subst,
  some_inj, ◌∙◌, ap,
}
use infinity_radius.Core.Errors.{
  ok, >>=-eq-ok, ok_inj, or_raise, or_raise_lem, validation, invalid_phone,
}
use infinity_radius.Phones.{normalize_tz_phone}
use infinity_radius.Phones.Canonical.{normalize_tz_phone-canonical}
use infinity_radius.Billing.Tables.{Customer, Billing}
use infinity_radius.Billing.Counting.{count_rows, count_row, one_if, count_rows-insert}
use infinity_radius.Customers.{
  has_phone, has_username, find_row, get_by_phone, get_by_username, Fields, new_customer, self_made,
  require_none, require_free_name, create, register, get_or_create_by_phone,
}

-- A phone number and a username stand once in a tenant, and every number is canonical.
pub record IsDirectory (d : Dict Customer) : Type 0 where
  pub phone_once : (t : ℕ) (x : Text) → count_rows (has_phone t x) d ≤ 1
  pub username_once : (t : ℕ) (x : Text) → count_rows (has_username t x) d ≤ 1
  pub are_canonical :
      (k : ℕ) (c : Customer) → lookup k d ≡ some c → normalize_tz_phone c.phone ≡ some c.phone

module _ {ℓ} {V : Type ℓ} (p : V → Bool) where
  find_row-count_rows : (d : Dict V) → find_row p d ≡ none → count_rows p d ≡ 0
  unfolding find_row count_rows one_if
  find_row-count_rows [] e = refl
  find_row-count_rows ((k, v) ∷ d) e = ground (arith, find_row-count_rows d)

  count_rows-insert_new :
      (id : ℕ) (v : V) (d : Dict V)
      → lookup id d ≡ none
      → count_rows p (insert id v d) ≡ count_rows p d + one_if (p v)
  unfolding count_row
  count_rows-insert_new id v d l = ground (arith, count_rows-insert p id v d)

  insert_once :
      (id : ℕ) (v : V) (d : Dict V)
      → lookup id d ≡ none
      → count_rows p d ≤ 1
      → (p v ≡ true → count_rows p d ≡ 0)
      → count_rows p (insert id v d) ≤ 1
  unfolding one_if
  insert_once id v d l h z = ground (arith, count_rows-insert_new id v d l, z)

both : (a b : Bool) → (a && b) ≡ true → (a ≡ true) × (b ≡ true)
both true b h = (refl, h)
both false b h = cc

phone_free :
    (t : ℕ) (x : Text) (c : Customer) (d : Dict Customer)
    → get_by_phone c.tenant_id c.phone d ≡ none
    → has_phone t x c ≡ true
    → count_rows (has_phone t x) d ≡ 0
unfolding has_phone get_by_phone
phone_free t x c d f h =
    let (p, q) = both _ _ h in
    find_row-count_rows (has_phone t x) d (
      subst (λ u. find_row (has_phone u x) d ≡ none) (==→eq _ _ p)
        (subst (λ y. find_row (has_phone c.tenant_id y) d ≡ none) (eq_text→eq _ _ q) f))

pub require_none_lem : (o : Option ℕ) → require_none o ≡ ok tt → o ≡ none
unfolding require_none
require_none_lem none e = refl
require_none_lem (some k) e = cc

username_free :
    (t : ℕ) (x : Text) (o : Option Text) (u : ℕ) (d : Dict Customer)
    → require_free_name u o d ≡ ok tt
    → (u == t && is_text o x) ≡ true
    → count_rows (has_username t x) d ≡ 0
unfolding require_free_name get_by_username is_text
username_free t x none u d f h = ground arith
username_free t x (some name) u d f h =
    let (p, q) = both _ _ h in
    find_row-count_rows (has_username t x) d (
      subst (λ v. find_row (has_username v x) d ≡ none) (==→eq _ _ p)
        (subst (λ y. find_row (has_username u y) d ≡ none) (eq_text→eq _ _ q)
          (require_none_lem _ f)))

either_row :
    (c v : Customer) (b : Bool) (o : Option Customer)
    → normalize_tz_phone c.phone ≡ some c.phone
    → (o ≡ some v → normalize_tz_phone v.phone ≡ some v.phone)
    → (if b then some c else o) ≡ some v
    → normalize_tz_phone v.phone ≡ some v.phone
either_row c v true o n h e =
    subst (λ (x : Customer). normalize_tz_phone x.phone ≡ some x.phone) (some_inj e) n
either_row c v false o n h e = h e

-- A new row under an unused id, whose number is canonical and whose names are free.
put_customer-IsDirectory :
    (c : Customer) (d : Dict Customer)
    → lookup c.id d ≡ none
    → normalize_tz_phone c.phone ≡ some c.phone
    → get_by_phone c.tenant_id c.phone d ≡ none
    → require_free_name c.tenant_id c.username d ≡ ok tt
    → IsDirectory d
    → IsDirectory (insert c.id c d)
unfolding has_username
put_customer-IsDirectory c d l n f g h = record {
  phone_once =
      λ t x. insert_once (has_phone t x) c.id c d l (h.phone_once t x) (phone_free t x c d f);
  username_once = λ t x.
      insert_once (has_username t x) c.id c d l (h.username_once t x)
        (username_free t x c.username c.tenant_id d g);
  are_canonical = λ k v e.
      either_row c v (c.id == k) (lookup k d) n (h.are_canonical k v)
        (sym (lookup-insert c.id k c d) ∙ e);
}

-- Committed calls, one after the other, each with an unused id for its new row.
pub data Calls : Billing → Billing → Type 0 where
  done : {b : Billing} → Calls b b
  created :
      (t : ℕ) (actor : Option ℕ) (id number : ℕ) (f : Fields) {b b' b'' : Billing}
      → lookup id b.customers ≡ none
      → create t actor id number f b ≡ ok b'
      → Calls b' b''
      → Calls b b''
  paying :
      (t id number c : ℕ) (phone : Text) {b b' b'' : Billing}
      → lookup id b.customers ≡ none
      → get_or_create_by_phone t id number phone b ≡ ok (c, b')
      → Calls b' b''
      → Calls b b''

canonical : (raw p : Text) → normalize_tz_phone raw ≡ some p → normalize_tz_phone p ≡ some p
canonical raw p e = let (n, h, q, k) = normalize_tz_phone-canonical raw p e in k

create-IsDirectory :
    (t : ℕ) (actor : Option ℕ) (id number : ℕ) (f : Fields) (b b' : Billing)
    → lookup id b.customers ≡ none
    → create t actor id number f b ≡ ok b'
    → IsDirectory b.customers
    → IsDirectory b'.customers
unfolding create
create-IsDirectory t actor id number f b b' l e h =
    let (p, n, e₁) =
      >>=-eq-ok (or_raise (normalize_tz_phone f.phone) (validation invalid_phone)) _ e in
    let (_, q, e₂) = >>=-eq-ok (require_none (get_by_phone t p b.customers)) _ e₁ in
    let (_, r, e₃) = >>=-eq-ok (require_free_name t f.username b.customers) _ e₂ in
    let c = new_customer id t number (record f { phone = p }) in
    subst (λ (x : Billing). IsDirectory x.customers) (sym (ok_inj e₃))
      (put_customer-IsDirectory c b.customers l (canonical f.phone p (or_raise_lem _ _ n))
        (require_none_lem _ q) r h)

register-IsDirectory :
    (t id number c : ℕ) (p : Text) (o : Option ℕ) (b b' : Billing)
    → lookup id b.customers ≡ none
    → normalize_tz_phone p ≡ some p
    → get_by_phone t p b.customers ≡ o
    → register t id number p b o ≡ (c, b')
    → IsDirectory b.customers
    → IsDirectory b'.customers
unfolding register require_free_name
register-IsDirectory t id number c p (some k) b b' l n f e h =
    subst (λ (x : Billing). IsDirectory x.customers) (ap (λ (x : ℕ × Billing). x.1) e) h
register-IsDirectory t id number c p none b b' l n f e h =
    subst (λ (x : Billing). IsDirectory x.customers) (ap (λ (x : ℕ × Billing). x.1) e)
      (put_customer-IsDirectory (new_customer id t number (self_made p)) b.customers l n f refl h)

get_or_create_by_phone-IsDirectory :
    (t id number c : ℕ) (phone : Text) (b b' : Billing)
    → lookup id b.customers ≡ none
    → get_or_create_by_phone t id number phone b ≡ ok (c, b')
    → IsDirectory b.customers
    → IsDirectory b'.customers
unfolding get_or_create_by_phone
get_or_create_by_phone-IsDirectory t id number c phone b b' l e h =
    let (p, n, e₁) =
      >>=-eq-ok (or_raise (normalize_tz_phone phone) (validation invalid_phone)) _ e in
    register-IsDirectory t id number c p _ b b' l (canonical phone p (or_raise_lem _ _ n)) refl
      (sym (ok_inj e₁)) h

-- From tables where, in each tenant, a phone number and a username stand at most once and every
-- number is in canonical form, any committed calls of create and get_or_create_by_phone, one after
-- the other and each with an unused id, leave them so.
pub Calls-IsDirectory :
    (b b' : Billing) → Calls b b' → IsDirectory b.customers → IsDirectory b'.customers
Calls-IsDirectory b b' done h = h
Calls-IsDirectory b b'' (created t actor id number f {b' = b'} l e c) h =
    Calls-IsDirectory b' b'' c (create-IsDirectory t actor id number f b b' l e h)
Calls-IsDirectory b b'' (paying t id number k phone {b' = b'} l e c) h =
    Calls-IsDirectory b' b'' c (get_or_create_by_phone-IsDirectory t id number k phone b b' l e h)
