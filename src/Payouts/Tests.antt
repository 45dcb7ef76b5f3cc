-- ===== src/Payouts/Tests.antt =====
-- A withdrawal from its request to its end, run on concrete tables.
use infinity_radius.Payouts.Samples.{env, start}
use infinity_radius.Prelude.{
  refl, true, text, some, none, pos, lookup, ◌≡◌, ℕ, ◌+ℤ◌, ◌-ℤ◌, insert, eq_text, strip, drop_space,
  is_space,
}
use infinity_radius.Core.Enums.{SettlementMode, eq_mode}
use infinity_radius.Payouts.Tables.{Store, find, open_work, save, get_destination}
use infinity_radius.Core.Errors.{Result, ok, err}
use infinity_radius.Payouts.Service.{
  request_withdrawal, check_request, get_mode, is_found, is_set, resolve_verified_email,
  enforce_withdrawal_limits, daily_totals, issue_and_send_otp,
}
use infinity_radius.Payouts.System.{Steps, next, Steps-IsBacked, request, method, done}
use infinity_radius.Payouts.Backing.{total, IsBacked}
use infinity_radius.Payouts.Once.{OnceRow, IsOnce, count}
use infinity_radius.Payouts.Gates.{IsPermitted, request_withdrawal-IsPermitted}
use infinity_radius.Wallet.Tables.{locked_wallet, get_bucket, set_bucket}
use infinity_radius.Payouts.Review.{on_row, run_method, confirm, confirm_two_factor}
use infinity_radius.Payouts.TwoFactor.{issue_challenge, verify, is_exhausted, email_changed}
use infinity_radius.Wallet.Operations.{
  reserve_for_withdrawal, transfer_bucket, move_bucket, complete_disbursement, create_entry,
}
use infinity_radius.Payouts.Submission.{
  submit_to_selcom, is_incomplete, after_lookup, with_verified_name, send_transfer, apply_process,
  provider_result,
}
use infinity_radius.Payouts.Transitions.{
  transition, apply_provider_result, is_open, apply_outcome, apply_success, finalize_success,
}
use infinity_radius.Payouts.Provider.{
  interpret_resultcode, stripped_code, differs, amount_match, match_provider_amount,
  charge_explains, or_text,
}

abbrev pub store_of : Result Store → Store
store_of (ok s) = s
store_of (err e) = start

abbrev request_result : Result Store
request_result =
    request_withdrawal env (some SettlementMode.platform_managed_wallet) (some true) 1 9 7
      (text "W7") 5 (pos 1000) start

abbrev pub requested_store : Store
requested_store = store_of request_result

abbrev confirm_result : Result Store
confirm_result = on_row (some 1) 7 (run_method env (confirm 9 (text "1234"))) requested_store

abbrev pub paid_store : Store
paid_store = store_of confirm_result

pub requested_ok : request_result ≡ ok requested_store
unfolding request_withdrawal check_request get_mode eq_mode is_found get_destination is_set
    resolve_verified_email enforce_withdrawal_limits daily_totals issue_and_send_otp issue_challenge
    reserve_for_withdrawal transfer_bucket move_bucket get_bucket set_bucket locked_wallet lookup
    ◌+ℤ◌ ◌-ℤ◌
requested_ok = refl

pub id_free : lookup 7 start.withdrawals ≡ none
unfolding lookup
id_free = refl

confirmed_ok : confirm_result ≡ ok paid_store
unfolding request_withdrawal check_request get_mode eq_mode is_found get_destination is_set
    resolve_verified_email enforce_withdrawal_limits daily_totals issue_and_send_otp issue_challenge
    reserve_for_withdrawal transfer_bucket move_bucket get_bucket set_bucket locked_wallet lookup
    ◌+ℤ◌ ◌-ℤ◌ on_row run_method confirm_two_factor insert verify is_exhausted email_changed eq_text
    submit_to_selcom transition is_incomplete after_lookup with_verified_name send_transfer
    apply_process apply_provider_result is_open interpret_resultcode stripped_code differs
    amount_match match_provider_amount charge_explains or_text complete_disbursement create_entry
    apply_outcome apply_success finalize_success provider_result strip drop_space is_space find
    open_work save
confirmed_ok = refl

-- The request and the confirmation.
two-Steps : Steps start paid_store
two-Steps =
    next
      (request env (some SettlementMode.platform_managed_wallet) (some true) 1 9 7 (text "W7") 5
        (pos 1000) id_free requested_ok)
      (next (method env (confirm 9 (text "1234")) (some 1) 7 confirmed_ok) done)

pub start-IsBacked : IsBacked 1 start
unfolding total locked_wallet lookup
start-IsBacked = record { reserved_backed = refl; disbursed_backed = refl }

pub start-IsOnce : (k : ℕ) → IsOnce k start
unfolding OnceRow lookup count
start-IsOnce k = refl

Steps-IsBacked_example : IsBacked 1 paid_store
Steps-IsBacked_example = Steps-IsBacked 1 start paid_store start-IsBacked two-Steps

request_withdrawal-IsPermitted_example :
    IsPermitted env (some SettlementMode.platform_managed_wallet) (some true) 1 5 (pos 1000) start
request_withdrawal-IsPermitted_example =
    request_withdrawal-IsPermitted env (some SettlementMode.platform_managed_wallet) (some true) 1 9
      7 (text "W7") 5 (pos 1000) start requested_store requested_ok
