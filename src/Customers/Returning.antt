-- ===== src/Customers/Returning.antt =====
-- A customer who comes back with the same phone number.
use infinity_radius.Prelude.{
  ℕ, Bool, true, Option, none, some, [], ◌∷◌, ◌≡◌, refl, sym, arith, Dict, insert, Text,
  eq_text_refl, subst, ◌∙◌,
}
use infinity_radius.Core.Errors.{
  ok, err, >>=-eq-ok, ok_inj, or_raise, or_raise_lem, conflict, validation, invalid_phone,
}
use infinity_radius.Phones.{normalize_tz_phone}
use infinity_radius.Billing.Tables.{Customer, Billing}
use infinity_radius.Customers.Directory.{require_none_lem}
use infinity_radius.Customers.{
  has_phone, find_row, get_by_phone, Fields, new_customer, self_made, require_none,
  require_free_name, create, register, get_or_create_by_phone,
}

find_row-insert {ℓ} :
    {V : Type ℓ} (p : V → Bool) (k : ℕ) (v : V) (d : Dict V)
    → p v ≡ true
    → find_row p d ≡ none
    → find_row p (insert k v d) ≡ some k
unfolding find_row insert
find_row-insert p k v [] y e = rw (y) refl
find_row-insert p k v ((j, w) ∷ d) y e = ground (arith, find_row-insert p k v d)

new_is_found :
    (t id number : ℕ) (f : Fields) (d : Dict Customer)
    → get_by_phone t f.phone d ≡ none
    → get_by_phone t f.phone (insert id (new_customer id t number f) d) ≡ some id
unfolding get_by_phone has_phone
new_is_found t id number f d e =
    find_row-insert (has_phone t f.phone) id (new_customer id t number f) d
      (ground (arith, eq_text_refl f.phone)) e

-- What holds where a number is found: paying with it gives that row and leaves the tables as they
-- are, and staff cannot create it again.
module _ (t c : ℕ) (p raw : Text) (b : Billing) (n : normalize_tz_phone raw ≡ some p)
    (l : get_by_phone t p b.customers ≡ some c) where
  found_reused : (id number : ℕ) → get_or_create_by_phone t id number raw b ≡ ok (c, b)
  unfolding get_or_create_by_phone register
  found_reused id number = rw (n, l) refl

  found_conflict :
      (actor : Option ℕ) (id number : ℕ) (f : Fields)
      → create t actor id number (record f { phone = raw }) b ≡ err conflict
  unfolding create require_none
  found_conflict actor id number f = rw (n, l) refl

register_found :
    (t id number c : ℕ) (p : Text) (o : Option ℕ) (b b' : Billing)
    → get_by_phone t p b.customers ≡ o
    → register t id number p b o ≡ (c, b')
    → get_by_phone t p b'.customers ≡ some c
unfolding register
register_found t id number c p (some k) b b' f e =
    subst (λ (x : ℕ × Billing). get_by_phone t p x.1.customers ≡ some x.0) e f
register_found t id number c p none b b' f e =
    subst (λ (x : ℕ × Billing). get_by_phone t p x.1.customers ≡ some x.0) e
      (new_is_found t id number (self_made p) b.customers f)

-- After a call of get_or_create_by_phone that does not raise, a further one in the tenant, with
-- any writing of the same number, gives the same customer and leaves the tables as they are, and
-- create with that writing is a conflict.
pub get_or_create_by_phone_again :
    (t id number c : ℕ) (phone raw : Text) (b b' : Billing) (actor : Option ℕ) (id' number' : ℕ)
    (f : Fields)
    → get_or_create_by_phone t id number phone b ≡ ok (c, b')
    → normalize_tz_phone raw ≡ normalize_tz_phone phone
    → (get_or_create_by_phone t id' number' raw b' ≡ ok (c, b'))
      × (create t actor id' number' (record f { phone = raw }) b' ≡ err conflict)
unfolding get_or_create_by_phone
get_or_create_by_phone_again t id number c phone raw b b' actor id' number' f e m =
    let (p, n, e₁) =
      >>=-eq-ok (or_raise (normalize_tz_phone phone) (validation invalid_phone)) _ e in
    let n' = m ∙ or_raise_lem _ _ n in
    let l = register_found t id number c p _ b b' refl (sym (ok_inj e₁)) in
    (
      found_reused t c p raw b' n' l id' number',
      found_conflict t c p raw b' n' l actor id' number' f,
    )

-- After create has made a customer, get_or_create_by_phone in the tenant, with any writing of the
-- same number, gives that customer and leaves the tables as they are.
pub create_returning :
    (t : ℕ) (actor : Option ℕ) (id number : ℕ) (f : Fields) (raw : Text) (b b' : Billing)
    → create t actor id number f b ≡ ok b'
    → normalize_tz_phone raw ≡ normalize_tz_phone f.phone
    → (id' number' : ℕ) → get_or_create_by_phone t id' number' raw b' ≡ ok (id, b')
unfolding create
create_returning t actor id number f raw b b' e m id' number' =
    let (p, n, e₁) =
      >>=-eq-ok (or_raise (normalize_tz_phone f.phone) (validation invalid_phone)) _ e in
    let (_, q, e₂) = >>=-eq-ok (require_none (get_by_phone t p b.customers)) _ e₁ in
    let (_, r, e₃) = >>=-eq-ok (require_free_name t f.username b.customers) _ e₂ in
    let l = new_is_found t id number (record f { phone = p }) b.customers (require_none_lem _ q) in
    found_reused t id p raw b' (m ∙ or_raise_lem _ _ n)
      (subst (λ (x : Billing). get_by_phone t p x.customers ≡ some id) (sym (ok_inj e₃)) l) id'
      number'
