-- ===== src/Billing/Vouchers.antt =====
-- `generate_batch` and `redeem` of `VoucherService` in vouchers.py.
use infinity_radius.Prelude.{
  ℕ, zero, suc, ◌+◌, ◌*◌, Bool, true, false, ◌&&◌, ◌||◌, Option, none, some, [], ◌∷◌, ◌++◌, ltb,
  leb, ◌==◌, if◌then◌else◌, Dict, lookup, insert, Text, eq_text, is_empty,
}
use infinity_radius.Core.Errors.{
  Result, ok, err, ◌>>=◌, ◌>>◌, require, or_raise, validation, not_found, conflict,
  customer_of_other_tenant, package_of_other_tenant, package_not_active, package_gone, batch_gone,
  quantity_out_of_range, codes_exhausted,
}
use infinity_radius.Core.Enums.{VoucherStatus}
use infinity_radius.Billing.Tables.{
  VoucherBatch, OfflineVoucher, Billing, get_package, get_customer, get_batch, log_billing,
  batch_generated, voucher_redeemed,
}
use infinity_radius.Billing.Subscriptions.{is_active_package, create_from_voucher}

-- `_generate_code`: the drawn characters after the prefix.
unfoldable pub generate_code : Option Text → Text → Text
generate_code none body = body
generate_code (some prefix) body = if is_empty prefix then body else prefix ++ body

unfoldable pub has_code : ℕ → Text → OfflineVoucher → Bool
has_code t code v = v.tenant_id == t && eq_text v.code code

-- `exists_by_code`
unfoldable pub exists_by_code : ℕ → Text → Dict OfflineVoucher → Bool
unfolding has_code
exists_by_code t code [] = false
exists_by_code t code ((k, v) ∷ d) = has_code t code v || exists_by_code t code d

abbrev pub new_voucher : ℕ → ℕ → ℕ → Text → OfflineVoucher
new_voucher t batch id code = record {
  id = id;
  tenant_id = t;
  batch_id = batch;
  code = code;
  status = VoucherStatus.unused;
  redeemed_by_customer_id = none;
  redeemed_subscription_id = none;
  redeemed_at = none;
}

-- The variables of the loop, and the table that it fills.
pub record Generation : Type 0 where
  pub attempts : ℕ
  pub created : ℕ
  pub vouchers : Dict OfflineVoucher

-- What one round draws: the id of the row and the characters of the code.
pub record Draw : Type 0 where
  pub id : ℕ
  pub body : Text

-- The body of the loop.
unfoldable pub try_code : ℕ → ℕ → Option Text → (ℕ → Draw) → Generation → Generation
unfolding generate_code exists_by_code
try_code t batch prefix draw g =
    let d = draw g.attempts in
    let code = generate_code prefix d.body in
    if exists_by_code t code g.vouchers then record g { attempts = g.attempts + 1 } else record {
      attempts = g.attempts + 1;
      created = g.created + 1;
      vouchers = insert d.id (new_voucher t batch d.id code) g.vouchers;
    }

-- `while created < quantity and attempts < max_attempts`, on fuel.
unfoldable pub generate_codes :
    ℕ → ℕ → ℕ → Option Text → (ℕ → Draw) → ℕ → ℕ → Generation → Option Generation
unfolding try_code
generate_codes zero t batch prefix draw quantity max_attempts g = none
generate_codes (suc fuel) t batch prefix draw quantity max_attempts g =
    let rest =
      generate_codes fuel t batch prefix draw quantity max_attempts
        (try_code t batch prefix draw g) in
    if ltb g.created quantity && ltb g.attempts max_attempts then rest else some g

-- `quantity * 5 + 20`
abbrev pub max_attempts_of : ℕ → ℕ
max_attempts_of quantity = quantity * 5 + 20

abbrev pub new_batch : ℕ → ℕ → ℕ → ℕ → ℕ → Option Text → VoucherBatch
new_batch t actor id plan quantity prefix = record {
  id = id;
  tenant_id = t;
  package_id = plan;
  quantity = quantity;
  prefix = prefix;
  created_by = some actor;
}

-- `generate_batch`; the outer option is empty if the fuel of the loop ran out.
unfoldable pub finish_batch :
    ℕ → ℕ → ℕ → VoucherBatch → Billing → Option Generation → Option (Result Billing)
finish_batch t actor quantity batch b none = none
finish_batch t actor quantity batch b (some g) =
    if ltb g.created quantity
    then some (err (validation codes_exhausted))
    else some (
        ok (
          log_billing batch_generated batch.id (some actor)
            (record b { batches = insert batch.id batch b.batches; vouchers = g.vouchers })))

unfoldable pub check_batch : ℕ → ℕ → ℕ → Billing → Result (Unit {0})
unfolding get_package
check_batch t plan quantity b =
    require (leb 1 quantity && leb quantity 5000) quantity_out_of_range
    >> (or_raise (get_package t plan b) (validation package_of_other_tenant) >>= λ p. ok tt)

unfoldable pub fill_batch :
    ℕ
    → ℕ
    → ℕ
    → ℕ
    → ℕ
    → ℕ
    → Option Text
    → (ℕ → Draw)
    → Billing
    → Result (Unit {0})
    → Option (Result Billing)
unfolding generate_codes finish_batch
fill_batch fuel t actor id plan quantity prefix draw b (err e) = some (err e)
fill_batch fuel t actor id plan quantity prefix draw b (ok done) =
    finish_batch t actor quantity (new_batch t actor id plan quantity prefix) b (
      generate_codes fuel t id prefix draw quantity (max_attempts_of quantity)
        (record { attempts = 0; created = 0; vouchers = b.vouchers }))

unfoldable pub generate_batch :
    ℕ → ℕ → ℕ → ℕ → ℕ → ℕ → Option Text → (ℕ → Draw) → Billing → Option (Result Billing)
unfolding check_batch fill_batch
generate_batch fuel t actor id plan quantity prefix draw b =
    fill_batch fuel t actor id plan quantity prefix draw b (check_batch t plan quantity b)

unfoldable pub is_unused : VoucherStatus → Bool
is_unused VoucherStatus.unused = true
is_unused _ = false

-- `get_by_code_for_update`: the key of the row.
unfoldable pub find_code : ℕ → Text → Dict OfflineVoucher → Option ℕ
unfolding has_code
find_code t code [] = none
find_code t code ((k, v) ∷ d) = if has_code t code v then some k else find_code t code d

-- `redeem` of a row that was found and locked.
unfoldable pub redeem_row : ℕ → ℕ → ℕ → ℕ → ℕ → ℕ → Billing → Result Billing
unfolding is_unused get_customer get_batch get_package is_active_package create_from_voucher
redeem_row now t actor subscription voucher customer b = do
  v ← or_raise (lookup voucher b.vouchers) not_found
  if is_unused v.status then ok tt else err conflict
  _ ← or_raise (get_customer t customer b) (validation customer_of_other_tenant)
  batch ← or_raise (get_batch t v.batch_id b) (validation batch_gone)
  p ← or_raise (get_package t batch.package_id b) (validation package_gone)
  require (is_active_package p.status) package_not_active
  b₁ ← create_from_voucher now t actor subscription customer p voucher b
  let v' : OfflineVoucher = record v {
    status = VoucherStatus.used;
    redeemed_by_customer_id = some customer;
    redeemed_subscription_id = some subscription;
    redeemed_at = some now;
  }
  ok (
      log_billing voucher_redeemed voucher (some actor)
        (record b₁ { vouchers = insert voucher v' b₁.vouchers }))

-- `redeem`; the id of the new subscription is an argument.
unfoldable pub redeem : ℕ → ℕ → ℕ → ℕ → Text → ℕ → Billing → Result Billing
unfolding find_code redeem_row
redeem now t actor subscription code customer b = do
  voucher ← or_raise (find_code t code b.vouchers) not_found
  redeem_row now t actor subscription voucher customer b
