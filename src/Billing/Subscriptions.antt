-- ===== src/Billing/Subscriptions.antt =====
-- The methods of `SubscriptionService` in subscriptions.py. The time and the id of a new row are
-- arguments.
use infinity_radius.Prelude.{
  ℕ, ◌+◌, ◌*◌, Bool, true, false, Option, none, some, ◌==◌, if◌then◌else◌, insert,
}
use infinity_radius.Core.Errors.{
  Result, ok, ◌>>=◌, ◌>>◌, require, or_raise, validation, not_found, customer_of_other_tenant,
  package_of_other_tenant, package_not_active, package_gone, not_pending,
}
use infinity_radius.Core.Enums.{SubscriptionStatus, PackageActivationType, PackageStatus}
use infinity_radius.Billing.Tables.{
  Package, Subscription, Billing, get_package, get_customer, get_subscription, log_billing,
  subscription_created, subscription_activated, created_awaiting_payment,
}

unfoldable pub is_active_package : PackageStatus → Bool
is_active_package PackageStatus.active = true
is_active_package _ = false

unfoldable pub is_immediate : PackageActivationType → Bool
is_immediate PackageActivationType.immediate = true
is_immediate PackageActivationType.first_use = false

unfoldable pub is_pending : SubscriptionStatus → Bool
is_pending SubscriptionStatus.pending = true
is_pending _ = false

-- `activated_at + timedelta(minutes=…) if package.duration_minutes else None`
unfoldable pub expiry : ℕ → Option ℕ → Option ℕ
expiry now none = none
expiry now (some minutes) = if minutes == 0 then none else some (now + minutes * 60)

abbrev pub put_subscription : Subscription → Billing → Billing
put_subscription s b = record b { subscriptions = insert s.id s b.subscriptions }

-- `activate`
unfoldable pub activate : ℕ → ℕ → Option ℕ → ℕ → Billing → Result Billing
unfolding is_pending expiry get_subscription get_package
activate now t actor id b = do
  s ← or_raise (get_subscription t id b) not_found
  require (is_pending s.status) not_pending
  p ← or_raise (get_package t s.package_id b) (validation package_gone)
  let s' : Subscription = record s {
    status = SubscriptionStatus.active;
    activated_at = some now;
    expires_at = expiry now p.duration_minutes;
  }
  ok (
      log_billing subscription_activated id actor
        (record b { subscriptions = insert id s' b.subscriptions }))

abbrev pub new_subscription : ℕ → ℕ → ℕ → ℕ → Option ℕ → Subscription
new_subscription t id customer plan voucher = record {
  id = id;
  tenant_id = t;
  customer_id = customer;
  package_id = plan;
  voucher_id = voucher;
  status = SubscriptionStatus.pending;
  activated_at = none;
  expires_at = none;
}

-- `_create`
unfoldable pub create_row : ℕ → ℕ → Option ℕ → ℕ → ℕ → Package → Option ℕ → Billing → Result Billing
unfolding is_immediate activate
create_row now t actor id customer plan voucher b =
    let b' =
      log_billing subscription_created id actor
        (put_subscription (new_subscription t id customer plan.id voucher) b) in
    if is_immediate plan.activation_type then activate now t actor id b' else ok b'

-- The checks of `create` and `create_awaiting_payment`: the customer and the package of the tenant.
unfoldable pub check_parties : ℕ → ℕ → ℕ → Billing → Result Package
unfolding get_customer get_package is_active_package
check_parties t customer plan b = do
  _ ← or_raise (get_customer t customer b) (validation customer_of_other_tenant)
  p ← or_raise (get_package t plan b) (validation package_of_other_tenant)
  require (is_active_package p.status) package_not_active
  ok p

-- `create`
unfoldable pub create : ℕ → ℕ → ℕ → ℕ → ℕ → ℕ → Billing → Result Billing
unfolding check_parties create_row
create now t actor id customer plan b = do
  p ← check_parties t customer plan b
  create_row now t (some actor) id customer p none b

-- `create_from_voucher`
unfoldable pub create_from_voucher : ℕ → ℕ → ℕ → ℕ → ℕ → Package → ℕ → Billing → Result Billing
unfolding create_row
create_from_voucher now t actor id customer plan voucher b =
    create_row now t (some actor) id customer plan (some voucher) b

-- `create_awaiting_payment`
unfoldable pub create_awaiting_payment : ℕ → ℕ → ℕ → ℕ → Billing → Result Billing
unfolding check_parties
create_awaiting_payment t id customer plan b = do
  p ← check_parties t customer plan b
  ok (
      log_billing created_awaiting_payment id none
        (put_subscription (new_subscription t id customer p.id none) b))
