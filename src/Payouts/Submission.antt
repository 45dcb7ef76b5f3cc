-- ===== src/Payouts/Submission.antt =====
-- `_submit_to_selcom` and `_reconcile_locked` of payouts.py: a transfer is sent once, and an answer
-- that was lost is only ever asked for again.
use infinity_radius.Prelude.{
  ℕ, Bool, true, false, ◌&&◌, ◌||◌, not, Option, none, some, [], ◌∷◌, if◌then◌else◌, ℤ, Text,
  is_blank,
}
use infinity_radius.Core.Errors.{Result, ok, err, validation, provider_not_configured, unhandled}
use infinity_radius.Payouts.Tables.{
  not_configured, api_error, transport_error, Withdrawal, Answer, Env, WithdrawalDestination,
  get_destination, TransactionData, TransactionResponse, Work, AccountLookupData, answered,
  unreadable,
}
use infinity_radius.Core.Enums.{WithdrawalStatus}
use infinity_radius.Payouts.Transitions.{
  ProviderResult, fail_withdrawal, transition, apply_provider_result,
}
use infinity_radius.Payouts.Provider.{or_text, query_resultcode}

-- What the data part of an answer says, with our own key where there is no receipt.
unfoldable pub provider_result : Withdrawal → Option Text → Option TransactionData → ProviderResult
provider_result w resultcode none = record {
  resultcode = resultcode;
  amount = none;
  currency = none;
  trans_id = none;
  reference = w.idempotency_key;
}
provider_result w resultcode (some d) = record {
  resultcode = resultcode;
  amount = d.amount;
  currency = d.currency;
  trans_id = d.trans_id;
  reference = or_text d.selcom_receipt w.idempotency_key;
}

unfoldable pub apply_query : ℕ → Answer TransactionResponse → Option ℕ → Work → Result Work
unfolding provider_result
apply_query now transport_error actor v = ok v
apply_query now api_error actor v = ok v
apply_query now not_configured actor v = ok v
apply_query now unreadable actor v = err unhandled
apply_query now (answered q) actor v =
    apply_provider_result now
      (provider_result v.row (query_resultcode q.resultcode q.data_part) q.data_part) actor v

-- `_reconcile_locked`
unfoldable pub reconcile_locked : Env → Option ℕ → Work → Result Work
unfolding apply_query
reconcile_locked env actor v = apply_query env.now env.transaction_query actor v

-- The answer to the transfer itself; a client that is not configured raises.
unfoldable pub apply_process : Env → Answer TransactionResponse → Option ℕ → Work → Result Work
unfolding provider_result
apply_process env transport_error actor v = reconcile_locked env actor v
apply_process env api_error actor v = fail_withdrawal env.now actor v
apply_process env not_configured actor v = err (validation provider_not_configured)
apply_process env unreadable actor v = err unhandled
apply_process env (answered p) actor v =
    let row = record v.row {
      provider_reference = some v.row.idempotency_key;
      provider_result_code = p.resultcode;
    } in
    apply_provider_result env.now (provider_result row p.resultcode p.data_part) actor
      (record v { row = row })

-- The transfer: PROCESSING first, then `transaction_process`.
unfoldable pub send_transfer : Env → Text → Option ℤ → Option ℕ → Work → Result Work
send_transfer env name charge actor v =
    let row = record v.row { verified_recipient_name = some name; provider_charge = charge } in
    let u = transition WithdrawalStatus.processing actor (record v { row = row }) in
    apply_process env env.transaction_process actor (record u {
      row = record u.row { submitted_at = some env.now };
      submissions = u.row.id ∷ u.submissions;
    })

-- A recipient name has to be confirmed before the transfer.
unfoldable pub with_verified_name : Env → Option AccountLookupData → Option ℕ → Work → Result Work
with_verified_name env none actor v = fail_withdrawal env.now actor v
with_verified_name env (some d) actor v =
    if is_blank d.account_name
    then fail_withdrawal env.now actor v
    else send_transfer env (or_text d.account_name []) d.total_charges actor v

unfoldable pub after_lookup :
    Env → Answer (Option AccountLookupData) → Option ℕ → Work → Result Work
after_lookup env transport_error actor v = ok v
after_lookup env api_error actor v = fail_withdrawal env.now actor v
after_lookup env not_configured actor v = fail_withdrawal env.now actor v
after_lookup env unreadable actor v = err unhandled
after_lookup env (answered d) actor v = with_verified_name env d actor v

-- `destination is None or not destination.destination_code or not destination.account_number`
unfoldable pub is_incomplete : Option WithdrawalDestination → Bool
is_incomplete none = true
is_incomplete (some d) = is_blank d.destination_code || is_blank d.account_number

unfoldable pub is_approved : WithdrawalStatus → Bool
is_approved WithdrawalStatus.approved = true
is_approved _ = false

-- `_submit_to_selcom`
unfoldable pub submit_to_selcom : Env → Option ℕ → Work → Result Work
unfolding is_approved get_destination is_incomplete
submit_to_selcom env actor v =
    if not (is_approved v.row.status)
    then ok v
    else if not env.settings.selcom_disbursement_enabled
    then fail_withdrawal env.now actor v
    else if env.settings.is_production && not env.settings.selcom_production_payouts_enabled
    then fail_withdrawal env.now actor v
    else if is_incomplete (get_destination v.row.tenant_id v.row.destination_id env)
    then fail_withdrawal env.now actor v
    else after_lookup env env.account_lookup actor v
