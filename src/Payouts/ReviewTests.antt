-- ===== src/Payouts/ReviewTests.antt =====
-- A withdrawal over the threshold, requested and confirmed, and then rejected.
use infinity_radius.Prelude.{
  refl, true, false, text, some, none, pos, arith, Option, strip, lookup, drop_space, is_space,
  is_empty, ◌||◌, ◌≡◌, ◌+ℤ◌, ◌-ℤ◌, insert, eq_text,
}
use infinity_radius.Core.Enums.{WithdrawalStatus, SettlementMode, eq_mode}
use infinity_radius.Payouts.Samples.{start, env, settings, row_at}
use infinity_radius.Payouts.Tests.{store_of, start-IsBacked, id_free}
use infinity_radius.Payouts.Tables.{Env, Withdrawal, Store, save, get_destination}
use infinity_radius.Core.Errors.{Result, ok}
use infinity_radius.Payouts.Service.{
  request_withdrawal, check_request, get_mode, is_found, is_set, resolve_verified_email,
  enforce_withdrawal_limits, daily_totals, issue_and_send_otp,
}
use infinity_radius.Payouts.System.{Steps, next, request, method, done}
use infinity_radius.Payouts.Liveness.{AllPositive}
use infinity_radius.Wallet.Tables.{locked_wallet, get_bucket, set_bucket}
use infinity_radius.Wallet.Safety.{IsFunded}
use infinity_radius.Payouts.Review.{
  on_row, run_method, confirm, reject, confirm_two_factor, after_verified, send_review_email,
}
use infinity_radius.Payouts.Reachable.{AllFunded, Steps-rejectable, Steps-IsFunded}
use infinity_radius.Payouts.TwoFactor.{issue_challenge, verify, is_exhausted, email_changed}
use infinity_radius.Wallet.Operations.{reserve_for_withdrawal, transfer_bucket, move_bucket}
use infinity_radius.Payouts.Transitions.{transition}
use infinity_radius.Payouts.Backing.{IsBacked}

abbrev careful : Env
careful = record env {
  settings = record settings { selcom_withdrawal_approval_threshold_tzs = pos 500 };
}

abbrev asked : Result Store
asked =
    request_withdrawal careful (some SettlementMode.platform_managed_wallet) (some true) 1 9 7
      (text "W7") 5 (pos 1000) start

abbrev waiting : Result Store
waiting = on_row (some 1) 7 (run_method careful (confirm 9 (text "1234"))) (store_of asked)

asked_ok : asked ≡ ok (store_of asked)
unfolding request_withdrawal check_request get_mode eq_mode is_found get_destination is_set
    resolve_verified_email enforce_withdrawal_limits daily_totals issue_and_send_otp issue_challenge
    reserve_for_withdrawal transfer_bucket move_bucket get_bucket set_bucket locked_wallet lookup
    ◌+ℤ◌ ◌-ℤ◌
asked_ok = refl

waiting_ok : waiting ≡ ok (store_of waiting)
unfolding request_withdrawal check_request get_mode eq_mode is_found get_destination is_set
    resolve_verified_email enforce_withdrawal_limits daily_totals issue_and_send_otp issue_challenge
    reserve_for_withdrawal transfer_bucket move_bucket get_bucket set_bucket locked_wallet lookup
    ◌+ℤ◌ ◌-ℤ◌ on_row run_method confirm_two_factor insert verify is_exhausted email_changed eq_text
    after_verified send_review_email
waiting_ok = refl

asked_and_confirmed-Steps : Steps start (store_of waiting)
asked_and_confirmed-Steps =
    next
      (request careful (some SettlementMode.platform_managed_wallet) (some true) 1 9 7 (text "W7") 5
        (pos 1000) id_free asked_ok)
      (next (method careful (confirm 9 (text "1234")) (some 1) 7 waiting_ok) done)

pub start-AllPositive : AllPositive start.withdrawals
unfolding AllPositive
start-AllPositive = tt

pub start-AllFunded : AllFunded start.books
unfolding locked_wallet lookup
start-AllFunded u = ground arith

abbrev row_of : Option Withdrawal → Withdrawal
row_of none = row_at WithdrawalStatus.draft
row_of (some w) = w

abbrev waiting_row : Withdrawal
waiting_row = row_of (lookup 7 (store_of waiting).withdrawals)

found_row : lookup 7 (store_of waiting).withdrawals ≡ some waiting_row
unfolding request_withdrawal check_request get_mode eq_mode is_found get_destination is_set
    resolve_verified_email enforce_withdrawal_limits daily_totals issue_and_send_otp issue_challenge
    reserve_for_withdrawal transfer_bucket move_bucket get_bucket set_bucket locked_wallet lookup
    ◌+ℤ◌ ◌-ℤ◌ on_row run_method confirm_two_factor insert verify is_exhausted email_changed eq_text
    after_verified send_review_email save
found_row = refl

waiting_status : waiting_row.status ≡ WithdrawalStatus.pending_approval
unfolding request_withdrawal check_request get_mode eq_mode is_found get_destination is_set
    resolve_verified_email enforce_withdrawal_limits daily_totals issue_and_send_otp issue_challenge
    reserve_for_withdrawal transfer_bucket move_bucket get_bucket set_bucket locked_wallet lookup
    ◌+ℤ◌ ◌-ℤ◌ on_row run_method confirm_two_factor insert verify is_exhausted email_changed eq_text
    after_verified send_review_email save transition
waiting_status = refl

waiting_tenant : IsBacked waiting_row.tenant_id start
unfolding request_withdrawal check_request get_mode eq_mode is_found get_destination is_set
    resolve_verified_email enforce_withdrawal_limits daily_totals issue_and_send_otp issue_challenge
    reserve_for_withdrawal transfer_bucket move_bucket get_bucket set_bucket locked_wallet lookup
    ◌+ℤ◌ ◌-ℤ◌ on_row run_method confirm_two_factor insert verify is_exhausted email_changed eq_text
    after_verified send_review_email save transition
waiting_tenant = start-IsBacked

reason_given : (is_empty (text "no") || is_empty (strip (text "no"))) ≡ false
unfolding strip drop_space is_space
reason_given = refl

Steps-rejectable_example :
    (s'' : Store) × (on_row none 7 (run_method careful (reject 2 (text "no"))) (store_of waiting)
      ≡ ok s'')
Steps-rejectable_example =
    Steps-rejectable careful 2 7 (text "no") waiting_row start (store_of waiting) start-AllPositive
      start-AllFunded waiting_tenant asked_and_confirmed-Steps found_row waiting_status reason_given

Steps-IsFunded_example : IsFunded (locked_wallet 1 (store_of waiting).books.wallets)
Steps-IsFunded_example =
    Steps-IsFunded 1 start (store_of waiting) start-AllFunded asked_and_confirmed-Steps
