-- ===== src/Portal/Payment.antt =====
-- `initiate_payment` and `finalize_payment` of `CaptivePortalService` in captive_portal.py.
use infinity_radius.Prelude.{
  ℕ, Bool, true, false, ◌&&◌, not, Option, none, some, [], ◌∷◌, ◌==◌, if◌then◌else◌, ℤ, Dict, Text,
  text, is_text,
}
use infinity_radius.Core.Errors.{
  Result, ok, ◌>>=◌, ◌>>◌, require, or_raise, validation, session_expired, package_of_other_tenant,
  package_not_active, invalid_phone, no_longer_payable, no_subscription,
}
use infinity_radius.Core.Enums.{
  TransactionType, CollectionStatus, PaymentProvider, ActivationStatus, is_terminal,
}
use infinity_radius.Phones.{normalize_tz_phone}
use infinity_radius.Wallet.Tables.{transaction}
use infinity_radius.Wallet.Operations.{process_collection}
use infinity_radius.Collections.Tables.{
  Transaction, Checkout, Payment, Payments, find_transaction, open_payment, save_payment,
  audit_payment, payment_initiated, payment_completed, PaymentAction, duplicate_attempt_suppressed,
  attempt_rate_limited,
}
use infinity_radius.Collections.Initiation.{
  blank_transaction, new_reference, create_order_and_send_stk,
}
use infinity_radius.Billing.Tables.{Package, get_package}
use infinity_radius.Billing.Subscriptions.{is_active_package, create_awaiting_payment}
use infinity_radius.Portal.Tables.{CaptiveSession, Portal}
use infinity_radius.Portal.Sessions.{resolve, consume}
use infinity_radius.Collections.Changes.{is_completed}
use infinity_radius.Customers.{get_or_create_by_phone}

-- `find_active_captive_attempt`
unfoldable pub is_number : Option ℕ → ℕ → Bool
is_number none n = false
is_number (some m) n = m == n

unfoldable pub is_live_attempt : ℕ → ℕ → Text → Transaction → Bool
unfolding is_number is_text is_terminal
is_live_attempt sid plan phone w =
    is_number w.captive_session_id sid
    && (is_number w.package_id plan && (is_text w.payer_phone phone && not (is_terminal w.status)))

unfoldable pub find_attempt : ℕ → ℕ → Text → Dict Transaction → Option ℕ
unfolding is_live_attempt
find_attempt sid plan phone [] = none
find_attempt sid plan phone ((k, w) ∷ d) =
    if is_live_attempt sid plan phone w then some k else find_attempt sid plan phone d

-- The ids that are drawn for new rows, and the next customer number.
pub record Drawn : Type 0 where
  pub customer_id : ℕ
  pub customer_number : ℕ
  pub subscription_id : ℕ
  pub transaction_id : ℕ

-- What the customer is told: the status, and the transaction of the token with the amount.
pub data InitiateResult : Type 0 where
  unavailable rate_limited : InitiateResult
  duplicate pending failed : ℕ → ℤ → InitiateResult

abbrev pub new_attempt : Checkout → Drawn → ℕ → CaptiveSession → ℕ → Package → Text → Transaction
new_attempt env drawn sid c customer p phone = record blank_transaction {
  id = drawn.transaction_id;
  tenant_id = c.tenant_id;
  customer_id = some customer;
  subscription_id = some drawn.subscription_id;
  transaction_type = some TransactionType.captive_portal;
  payment_provider = some PaymentProvider.selcom_collection;
  package_id = some p.id;
  router_id = some c.router_id;
  captive_session_id = some sid;
  device_mac = c.mac_address;
  payer_phone = some phone;
  reference = new_reference env TransactionType.captive_portal;
  channel = some (text "captive_portal");
  amount = p.price_tzs;
}

unfoldable pub is_sent : CollectionStatus → Bool
is_sent CollectionStatus.stk_sent = true
is_sent _ = false

-- From `get_or_create_by_phone` on: a new attempt.
unfoldable pub start_attempt :
    Checkout
    → Drawn
    → ℕ
    → CaptiveSession
    → Package
    → Text
    → Portal
    → Result (InitiateResult × Portal)
unfolding get_or_create_by_phone create_awaiting_payment consume create_order_and_send_stk
    save_payment open_payment is_sent new_reference
start_attempt env drawn sid c p phone s = do
  (customer, b₁) ←
      get_or_create_by_phone c.tenant_id drawn.customer_id drawn.customer_number phone s.billing
  b₂ ← create_awaiting_payment c.tenant_id drawn.subscription_id customer p.id b₁
  let w = new_attempt env drawn sid c customer p phone
  v ←
      create_order_and_send_stk env TransactionType.captive_portal none
        (audit_payment payment_initiated none (open_payment w s.payments))
  let s' = record (consume env.now sid c s) {
    billing = b₂;
    payments = save_payment drawn.transaction_id v s.payments;
  }
  ok (
    if is_sent v.row.status
        then pending drawn.transaction_id p.price_tzs
        else failed drawn.transaction_id p.price_tzs,
    s',
  )

-- An audit row of the portal itself, with no actor.
abbrev pub audit_attempt : PaymentAction → ℕ → Portal → Portal
audit_attempt action target s = record s {
  payments = record s.payments {
    audit = record { action = action; target_id = target; actor_id = none } ∷ s.payments.audit;
  };
}

unfoldable pub start_or_reuse :
    Checkout
    → Drawn
    → ℕ
    → CaptiveSession
    → Package
    → Text
    → Portal
    → Option ℕ
    → Result (InitiateResult × Portal)
unfolding start_attempt
start_or_reuse env drawn sid c p phone s (some k) =
    ok (duplicate k p.price_tzs, audit_attempt duplicate_attempt_suppressed k s)
start_or_reuse env drawn sid c p phone s none = start_attempt env drawn sid c p phone s

-- What follows the gate, for the session that the token stands for. `allowed` is the decision of
-- the rate limiter, whose counters are not in the database.
unfoldable pub pay_in_session :
    Checkout
    → Drawn
    → Bool
    → ℕ
    → CaptiveSession
    → ℕ
    → Text
    → Portal
    → Result (InitiateResult × Portal)
unfolding get_package is_active_package normalize_tz_phone find_attempt start_or_reuse
pay_in_session env drawn allowed sid c plan phone s = do
  p ← or_raise (get_package c.tenant_id plan s.billing) (validation package_of_other_tenant)
  require (p.tenant_id == c.tenant_id) package_of_other_tenant
  require (is_active_package p.status) package_not_active
  normalized ← or_raise (normalize_tz_phone phone) (validation invalid_phone)
  if allowed
      then start_or_reuse env drawn sid c p normalized s
          (find_attempt sid p.id normalized s.payments.transactions)
      else ok (rate_limited, audit_attempt attempt_rate_limited sid s)

-- `initiate_payment`
unfoldable pub initiate_payment :
    Checkout → Drawn → Bool → Option ℕ → ℕ → Text → Portal → Result (InitiateResult × Portal)
unfolding resolve pay_in_session
initiate_payment env drawn allowed intent plan phone s =
    if env.selcom_collection_enabled && env.selcom_collection_production_enabled
    then (or_raise (resolve env.now intent s) (validation session_expired) >>= λ found.
        pay_in_session env drawn allowed found.0 found.1 plan phone s)
    else ok (unavailable, s)

unfoldable pub both_set : Option ℕ → Option ℕ → Bool
both_set none b = false
both_set (some a) none = false
both_set (some a) (some b) = true

-- `finalize_payment` of a row that was locked.
unfoldable pub finalize_row : Checkout → Payment → Result Payment
unfolding is_terminal is_completed both_set
finalize_row env v =
    let w = v.row in
    if is_completed w.status
    then ok v
    else require (not (is_terminal w.status)) no_longer_payable
      >> (require (both_set w.subscription_id w.customer_id) no_subscription
          >> (process_collection w.tenant_id w.amount transaction (some w.id) v.books >>= λ c. ok (
              audit_payment payment_completed none (record v {
                books = c.1;
                row = record w {
                  status = CollectionStatus.completed;
                  completed_at = some env.now;
                  activation_status = some ActivationStatus.pending;
                };
              }))))

unfoldable pub finalize_payment : Checkout → ℕ → Payments → Result Payments
unfolding find_transaction finalize_row save_payment open_payment
finalize_payment env id s = do
  w ← find_transaction id s
  v ← finalize_row env (open_payment w s)
  ok (save_payment id v s)
