-- ===== src/Billing/Tables.antt =====
-- Rows of apps/api/app/models/network.py: packages, customers, subscriptions, voucher batches and
-- vouchers. Columns that are only shown to people, and speeds and quotas, are left out.
use infinity_radius.Prelude.{
  ℕ, Option, none, some, List, ◌∷◌, ◌==◌, if◌then◌else◌, ℤ, Dict, lookup, Text,
}
use infinity_radius.Core.Enums.{
  SubscriptionStatus, VoucherStatus, PackageActivationType, PackageStatus,
}

pub record Package : Type 0 where
  pub id : ℕ
  pub tenant_id : ℕ
  pub price_tzs : ℤ
  pub duration_minutes : Option ℕ
  pub activation_type : PackageActivationType
  pub status : PackageStatus

pub record Customer : Type 0 where
  pub id : ℕ
  pub tenant_id : ℕ
  pub customer_number : ℕ
  pub first_name : Option Text
  pub last_name : Option Text
  pub phone : Text
  pub email : Option Text
  pub username : Option Text
  pub notes : Option Text

pub record Subscription : Type 0 where
  pub id : ℕ
  pub tenant_id : ℕ
  pub customer_id : ℕ
  pub package_id : ℕ
  pub voucher_id : Option ℕ
  pub status : SubscriptionStatus
  pub activated_at : Option ℕ
  pub expires_at : Option ℕ

pub record VoucherBatch : Type 0 where
  pub id : ℕ
  pub tenant_id : ℕ
  pub package_id : ℕ
  pub quantity : ℕ
  pub prefix : Option Text
  pub created_by : Option ℕ

pub record OfflineVoucher : Type 0 where
  pub id : ℕ
  pub tenant_id : ℕ
  pub batch_id : ℕ
  pub code : Text
  pub status : VoucherStatus
  pub redeemed_by_customer_id : Option ℕ
  pub redeemed_subscription_id : Option ℕ
  pub redeemed_at : Option ℕ

pub data BillingAction : Type 0 where
  subscription_created subscription_activated created_awaiting_payment : BillingAction
  batch_generated voucher_redeemed self_registered customer_created : BillingAction

pub record BillingAudit : Type 0 where
  pub action : BillingAction
  pub target_id : ℕ
  pub actor_id : Option ℕ

pub record Billing : Type 0 where
  pub packages : Dict Package
  pub customers : Dict Customer
  pub subscriptions : Dict Subscription
  pub batches : Dict VoucherBatch
  pub vouchers : Dict OfflineVoucher
  pub audit : List BillingAudit

-- A row of a tenant: what `get_by_id(tenant_id=t, id=id)` finds.
unfoldable pub own_row {ℓ} : {A : Type ℓ} → (A → ℕ) → ℕ → Option A → Option A
own_row tenant t none = none
own_row tenant t (some a) = if tenant a == t then some a else none

unfoldable pub get_package : ℕ → ℕ → Billing → Option Package
unfolding own_row
get_package t id b = own_row (λ (p : Package). p.tenant_id) t (lookup id b.packages)

unfoldable pub get_customer : ℕ → ℕ → Billing → Option Customer
unfolding own_row
get_customer t id b = own_row (λ (c : Customer). c.tenant_id) t (lookup id b.customers)

unfoldable pub get_subscription : ℕ → ℕ → Billing → Option Subscription
unfolding own_row
get_subscription t id b = own_row (λ (s : Subscription). s.tenant_id) t (lookup id b.subscriptions)

unfoldable pub get_batch : ℕ → ℕ → Billing → Option VoucherBatch
unfolding own_row
get_batch t id b = own_row (λ (v : VoucherBatch). v.tenant_id) t (lookup id b.batches)

abbrev pub log_billing : BillingAction → ℕ → Option ℕ → Billing → Billing
log_billing action target actor b = record b {
  audit = record { action = action; target_id = target; actor_id = actor } ∷ b.audit;
}
