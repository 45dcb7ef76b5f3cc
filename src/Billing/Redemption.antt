-- ===== src/Billing/Redemption.antt =====
-- `redeem` of vouchers.py: a voucher is used once.
use infinity_radius.Prelude.{
  ℕ, some, ◌≡◌, refl, ◌∙◌, ap, lookup, lookup-insert_self, if◌then◌else◌, Text,
}
use infinity_radius.Core.Errors.{
  ok, err, ok_inj, >>=-eq-ok, guarded, or_raise, or_raise_lem, conflict, validation, not_found,
  customer_of_other_tenant, batch_gone, package_gone, package_not_active,
}
use infinity_radius.Core.Enums.{VoucherStatus}
use infinity_radius.Billing.Tables.{OfflineVoucher, Billing, get_customer, get_batch, get_package}
use infinity_radius.Billing.Vouchers.{is_unused, redeem_row, redeem, find_code}
use infinity_radius.Billing.Subscriptions.{is_active_package, create_from_voucher}

-- The row of a voucher that was used for a customer's subscription.
pub record IsUsed (voucher customer subscription : ℕ) (b : Billing) : Type 0 where
  pub row : OfflineVoucher
  pub is_there : lookup voucher b.vouchers ≡ some row
  pub is_used : row.status ≡ VoucherStatus.used
  pub by_customer : row.redeemed_by_customer_id ≡ some customer
  pub for_subscription : row.redeemed_subscription_id ≡ some subscription

redeem_row-IsUsed :
    (now t actor subscription voucher customer : ℕ) (b b' : Billing)
    → redeem_row now t actor subscription voucher customer b ≡ ok b'
    → IsUsed voucher customer subscription b'
unfolding redeem_row
redeem_row-IsUsed now t actor subscription voucher customer b b' e =
    let (v, f, e₁) = >>=-eq-ok (or_raise (lookup voucher b.vouchers) not_found) _ e in
    let (x, g, e₂) = >>=-eq-ok (if is_unused v.status then ok tt else err conflict) _ e₁ in
    let (c, h, e₃) =
      >>=-eq-ok (or_raise (get_customer t customer b) (validation customer_of_other_tenant)) _ e₂ in
    let (batch, k, e₄) =
      >>=-eq-ok (or_raise (get_batch t v.batch_id b) (validation batch_gone)) _ e₃ in
    let (p, l, e₅) =
      >>=-eq-ok (or_raise (get_package t batch.package_id b) (validation package_gone)) _ e₄ in
    let e₆ = guarded (is_active_package p.status) package_not_active _ e₅ in
    let (b₁, m, e₇) =
      >>=-eq-ok (create_from_voucher now t actor subscription customer p voucher b) _ e₆.1 in
    let v' : OfflineVoucher = record v {
      status = VoucherStatus.used;
      redeemed_by_customer_id = some customer;
      redeemed_subscription_id = some subscription;
      redeemed_at = some now;
    } in
    record {
      row = v';
      is_there =
          ap (λ (y : Billing). lookup voucher y.vouchers) (ok_inj e₇)
          ∙ lookup-insert_self voucher v' b₁.vouchers;
      is_used = refl;
      by_customer = refl;
      for_subscription = refl;
    }

used-conflict :
    (now t actor subscription voucher customer c s : ℕ) (b : Billing)
    → IsUsed voucher c s b
    → redeem_row now t actor subscription voucher customer b ≡ err conflict
unfolding redeem_row is_unused
used-conflict now t actor subscription voucher customer c s b u =
    rw (u.is_there) (rw (u.is_used) refl)

-- A redemption that succeeds has found a voucher under the code and left it USED, with the
-- customer and the new subscription in its row; a further redemption of that row on those tables,
-- by whomever, is a conflict.
pub redeem_once :
    (now t actor subscription customer : ℕ) (code : Text) (b b' : Billing)
    (now' t' actor' subscription' customer' : ℕ)
    → redeem now t actor subscription code customer b ≡ ok b'
    → (voucher : ℕ) × (find_code t code b.vouchers ≡ some voucher)
      × IsUsed voucher customer subscription b'
      × (redeem_row now' t' actor' subscription' voucher customer' b' ≡ err conflict)
unfolding redeem
redeem_once now t actor subscription customer code b b' now' t' actor' subscription' customer' e =
    let (voucher, f, e₁) = >>=-eq-ok (or_raise (find_code t code b.vouchers) not_found) _ e in
    let u = redeem_row-IsUsed now t actor subscription voucher customer b b' e₁ in
    (
      voucher,
      or_raise_lem _ _ f,
      u,
      used-conflict now' t' actor' subscription' voucher customer' customer subscription b' u,
    )
