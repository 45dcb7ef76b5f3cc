-- ===== src/Portal/Activation.antt =====
-- captive_activation.py: access for a payment that is COMPLETED.
use infinity_radius.Prelude.{
  ℕ, zero, suc, Bool, true, false, ◌&&◌, Option, none, some, List, [], ◌∷◌, if◌then◌else◌, Dict,
  lookup, insert,
}
use infinity_radius.Core.Errors.{
  Result, ok, err, ◌>>=◌, ◌>>◌, require, or_raise, validation, not_found, unhandled, not_paid,
  no_subscription,
}
use infinity_radius.Core.Enums.{ActivationStatus}
use infinity_radius.Collections.Tables.{
  Transaction, PaymentAction, find_transaction, access_activated, access_activation_failed,
}
use infinity_radius.Collections.Changes.{is_completed}
use infinity_radius.Billing.Tables.{Subscription, Billing}
use infinity_radius.Billing.Subscriptions.{is_pending, activate}
use infinity_radius.Portal.Tables.{Portal}

unfoldable pub is_active : Option ActivationStatus → Bool
is_active (some ActivationStatus.active) = true
is_active _ = false

-- The write of the row under its key, and the audit row.
unfoldable pub put_row : ℕ → Transaction → PaymentAction → Portal → Portal
put_row id w action s = record s {
  payments = record s.payments {
    transactions = insert id w s.payments.transactions;
    audit = record { action = action; target_id = id; actor_id = none } ∷ s.payments.audit;
  };
}

-- The subscription that is still PENDING is activated first.
unfoldable pub activate_pending : ℕ → ℕ → ℕ → Subscription → Billing → Result Billing
unfolding is_pending activate
activate_pending now t id subscription b =
    if is_pending subscription.status then activate now t none id b else ok b

-- What is granted once the row, its subscription, its customer and its package were found. The
-- last argument is whether RADIUS was provisioned; `none` is `ActivationFailedError`.
unfoldable pub grant_access : ℕ → ℕ → Transaction → ℕ → ℕ → Bool → Portal → Result (Option Portal)
unfolding activate_pending put_row
grant_access now id w sid cid provisioned s = do
  subscription ← or_raise (lookup sid s.billing.subscriptions) not_found
  _ ← or_raise (lookup cid s.billing.customers) unhandled
  _ ← or_raise (lookup subscription.package_id s.billing.packages) unhandled
  b ← activate_pending now w.tenant_id sid subscription s.billing
  ok (
      if provisioned
      then some (
          put_row id
            (record w { activation_status = some ActivationStatus.active; activated_at = some now })
            access_activated (record s { billing = b; grants = id ∷ s.grants }))
      else none)

unfoldable pub grant_linked :
    ℕ → ℕ → Transaction → Option ℕ → Option ℕ → Bool → Portal → Result (Option Portal)
unfolding grant_access
grant_linked now id w (some sid) (some cid) provisioned s =
    grant_access now id w sid cid provisioned s
grant_linked now id w _ _ provisioned s = err (validation no_subscription)

-- `activate`
unfoldable pub activate_access : ℕ → ℕ → Bool → Portal → Result (Option Portal)
unfolding find_transaction is_completed is_active grant_linked
activate_access now id provisioned s = do
  w ← find_transaction id s.payments
  require (is_completed w.status) not_paid
  if is_active w.activation_status
      then ok (some s)
      else grant_linked now id w w.subscription_id w.customer_id provisioned s

-- `record_failure`
unfoldable pub record_failure : ℕ → Portal → Result Portal
unfolding find_transaction put_row
record_failure id s = do
  w ← find_transaction id s.payments
  ok (
      put_row id (record w { activation_status = some ActivationStatus.failed })
        access_activation_failed s)

-- `run_activation`: a failed attempt is rolled back and recorded on the tables as they were.
unfoldable pub record_outcome : ℕ → Portal → Option Portal → Result (ActivationStatus × Portal)
unfolding record_failure
record_outcome id s (some s') = ok (ActivationStatus.active, s')
record_outcome id s none = record_failure id s >>= λ s'. ok (ActivationStatus.failed, s')

unfoldable pub run_activation : ℕ → ℕ → Bool → Portal → Result (ActivationStatus × Portal)
unfolding activate_access record_outcome
run_activation now id provisioned s =
    activate_access now id provisioned s >>= λ r. record_outcome id s r

-- `list_retryable`
unfoldable pub is_retryable : Option ActivationStatus → Bool
is_retryable (some ActivationStatus.pending) = true
is_retryable (some ActivationStatus.failed) = true
is_retryable _ = false

unfoldable pub take : ℕ → List ℕ → List ℕ
take zero ks = []
take (suc n) [] = []
take (suc n) (k ∷ ks) = k ∷ take n ks

unfoldable pub retryable : Dict Transaction → List ℕ
unfolding is_retryable is_completed
retryable [] = []
retryable ((k, w) ∷ d) =
    let rest = retryable d in
    if is_completed w.status && is_retryable w.activation_status then k ∷ rest else rest

unfoldable pub list_retryable : ℕ → Portal → List ℕ
unfolding take retryable
list_retryable limit s = take limit (retryable s.payments.transactions)
