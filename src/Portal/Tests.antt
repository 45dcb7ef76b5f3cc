-- ===== src/Portal/Tests.antt =====
-- The theorems of the portal at concrete inputs.
use infinity_radius.Collections.Provider.{reconcile, query_and_apply}
use infinity_radius.Prelude.{
  ℕ, true, false, text, some, none, pos, [], ◌∷◌, ◌≡◌, refl, lookup, ◌≤◌, ◌-◌, insert, or_else,
  if◌then◌else◌, ◌+ℤ◌, ◌-ℤ◌,
}
use infinity_radius.Core.Enums.{TransactionType, ActivationStatus}
use infinity_radius.Core.Errors.{ok}
use infinity_radius.Portal.Samples.{
  env, drawn, start, bought_result, bought_state, paid_result, paid_state, active_result,
  active_state,
}
use infinity_radius.Portal.System.{
  bought, reconciled, activated, Steps, done, next, Steps-IsPaidOnce, Steps-Evolves,
}
use infinity_radius.Portal.Payment.{InitiateResult, initiate_payment}
use infinity_radius.Portal.Activation.{run_activation}
use infinity_radius.Collections.Credits.{PaidRow, IsPaidOnce, credits}
use infinity_radius.Portal.Access.{ArePaid, Steps-ArePaid}
use infinity_radius.Collections.Tables.{Transaction}
use infinity_radius.Portal.Attempts.{is_duplicate}
use infinity_radius.Portal.Screen.{IsHonest, says_paid, get_payment_status-IsHonest}
use infinity_radius.Portal.RateLimit.{Limits, read, session_key, bucket_of}
use infinity_radius.Portal.Quota.{Attempt, let_through, let_through-le-limit}
use infinity_radius.Portal.Tables.{Portal}
use infinity_radius.Collections.Rows.{Evolves}
use infinity_radius.Portal.Duplicates.{initiate_payment_never_reuses}
use infinity_radius.Portal.PublicView.{get_payment_status}
use infinity_radius.Collections.Initiation.{blank_transaction}
use infinity_radius.Collections.Status.{apply_order_status}
use infinity_radius.Wallet.Operations.{process_collection, require_active, move_bucket, split_fee}
use infinity_radius.Wallet.Tables.{get_bucket, locked_wallet}

bought_ok : bought_result ≡ ok (InitiateResult.pending 10 (pos 100000), bought_state)
unfolding initiate_payment lookup insert
bought_ok = refl

paid_ok : paid_result ≡ ok paid_state.payments
unfolding reconcile lookup initiate_payment insert query_and_apply apply_order_status
    process_collection require_active move_bucket ◌+ℤ◌ get_bucket locked_wallet ◌-ℤ◌ split_fee
paid_ok = refl

active_ok : active_result ≡ ok (ActivationStatus.active, active_state)
unfolding run_activation lookup reconcile initiate_payment insert query_and_apply apply_order_status
    process_collection require_active move_bucket ◌+ℤ◌ get_bucket locked_wallet ◌-ℤ◌ split_fee
active_ok = refl

id_free : lookup 10 start.payments.transactions ≡ none
unfolding lookup
id_free = refl

-- The purchase, its reconciliation by the collections' provider, and the activation.
last_Steps : Steps bought_state active_state
last_Steps =
    next (reconciled env TransactionType.collection 10 paid_ok)
      (next (activated 1001 10 true ActivationStatus.active active_ok) done)

three_Steps : Steps start active_state
three_Steps =
    next
      (bought env drawn true (some 3) 2 (text "0712 345-678")
        (InitiateResult.pending 10 (pos 100000)) id_free bought_ok)
      last_Steps

start-IsPaidOnce : (j : ℕ) → IsPaidOnce j start.payments
unfolding PaidRow credits lookup
start-IsPaidOnce j = refl

Steps-IsPaidOnce_example : IsPaidOnce 10 active_state.payments
Steps-IsPaidOnce_example = Steps-IsPaidOnce 10 start active_state start-IsPaidOnce three_Steps

Steps-ArePaid_example : ArePaid active_state.payments.transactions active_state.grants
Steps-ArePaid_example = Steps-ArePaid start active_state tt three_Steps

abbrev row_of : Portal → Transaction
row_of s = or_else (lookup 10 s.payments.transactions) blank_transaction

paid_row : lookup 10 paid_state.payments.transactions ≡ some (row_of paid_state)
unfolding run_activation lookup reconcile initiate_payment insert query_and_apply apply_order_status
    process_collection require_active move_bucket ◌+ℤ◌ get_bucket locked_wallet ◌-ℤ◌ split_fee
paid_row = refl

active_row : lookup 10 active_state.payments.transactions ≡ some (row_of active_state)
unfolding run_activation lookup reconcile initiate_payment insert query_and_apply apply_order_status
    process_collection require_active move_bucket ◌+ℤ◌ get_bucket locked_wallet ◌-ℤ◌ split_fee
active_row = refl

Steps-Evolves_example :
    (w' : Transaction) × (lookup 10 active_state.payments.transactions ≡ some w')
    × Evolves (row_of paid_state) w'
Steps-Evolves_example =
    Steps-Evolves 10 (row_of paid_state) paid_state active_state paid_row
      (next (activated 1001 10 true ActivationStatus.active active_ok) done)

initiate_payment_never_reuses_example :
    is_duplicate (InitiateResult.pending 10 (pos 100000)) ≡ false
initiate_payment_never_reuses_example =
    initiate_payment_never_reuses start start bought_state env drawn true (some 3) 2
      (text "0712 345-678") (InitiateResult.pending 10 (pos 100000)) tt done id_free bought_ok

get_payment_status-IsHonest_example :
    IsHonest (row_of active_state) (get_payment_status (some 10) active_state)
    × (credits 10 active_state.payments.books.ledger ≡ (
        if says_paid (get_payment_status (some 10) active_state).status
        then ((row_of active_state).tenant_id, (row_of active_state).amount) ∷ []
        else []))
get_payment_status-IsHonest_example =
    get_payment_status-IsHonest 10 (row_of active_state) active_state active_row
      Steps-IsPaidOnce_example

abbrev limits : Limits
limits = record {
  window_seconds = pos 600;
  per_session = pos 2;
  per_phone = pos 5;
  per_router = pos 60;
}

abbrev attempt : Attempt
attempt = record { sid = 3; number = text "255712345678"; rid = 7 }

let_through-le-limit_example :
    let_through limits 1000 3 (attempt ∷ attempt ∷ attempt ∷ []) []
    ≤ 2 - read (session_key 3 (bucket_of (pos 600) 1000)) []
let_through-le-limit_example =
    let_through-le-limit limits 2 1000 refl refl refl 3 (attempt ∷ attempt ∷ attempt ∷ []) []
