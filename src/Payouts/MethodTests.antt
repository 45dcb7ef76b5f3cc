-- ===== src/Payouts/MethodTests.antt =====
-- Single methods, run on a concrete row.
use infinity_radius.Prelude.{
  refl, true, false, text, some, none, [], ◌≡◌, ◌⊎◌, lookup, ◌+ℤ◌, ◌-ℤ◌, eq_text, insert, strip,
  drop_space, is_space,
}
use infinity_radius.Core.Enums.{WithdrawalStatus, is_final}
use infinity_radius.Payouts.Samples.{env, work_at, work_or, row_at, completed_result}
use infinity_radius.Core.Errors.{Result, ok}
use infinity_radius.Payouts.Tables.{Work, Env}
use infinity_radius.Wallet.Operations.{
  transfer_bucket, move_bucket, create_entry, reverse_disbursement, complete_disbursement,
}
use infinity_radius.Payouts.Moves.{Moves}
use infinity_radius.Payouts.History.{Trail, run_method-Trail, run_method-final}
use infinity_radius.Payouts.Review.{
  run_method, is_success, confirm, Method, reconcile_withdrawal, reconcile, confirm_two_factor,
  reverse_withdrawal,
}
use infinity_radius.Payouts.Transitions.{
  is_open, apply_provider_result, transition, apply_outcome, apply_success, finalize_success,
}
use infinity_radius.Payouts.TwoFactor.{
  verify, verify_stored, verify_hash, hash_code, otp_secret, is_exhausted, email_changed,
}
use infinity_radius.Payouts.Codes.{Accepts, verify-Accepts}
use infinity_radius.Payouts.Gates.{run_method-approved_stuck}
use infinity_radius.Payouts.Methods.{run_method-Moves}
use infinity_radius.Payouts.Answers.{Confirms, apply_provider_result-success}
use infinity_radius.Wallet.Tables.{get_bucket, set_bucket, locked_wallet}
use infinity_radius.Payouts.Submission.{
  reconcile_locked, apply_query, submit_to_selcom, is_incomplete, after_lookup, with_verified_name,
  send_transfer, apply_process, provider_result,
}
use infinity_radius.Payouts.Provider.{
  interpret_resultcode, stripped_code, differs, amount_match, match_provider_amount,
  charge_explains, or_text,
}
use infinity_radius.Payouts.Contact.{contacted}
use infinity_radius.Payouts.Committed.{run_method-contacted_ok}

abbrev confirmed : Result Work
confirmed = run_method env (confirm 9 (text "1234")) (work_at WithdrawalStatus.draft)

abbrev confirmed_work : Work
confirmed_work = work_or WithdrawalStatus.draft confirmed

confirmed_ok : confirmed ≡ ok confirmed_work
unfolding transfer_bucket move_bucket get_bucket set_bucket locked_wallet lookup ◌+ℤ◌ ◌-ℤ◌
    run_method confirm_two_factor insert verify is_exhausted email_changed eq_text submit_to_selcom
    transition is_incomplete after_lookup with_verified_name send_transfer apply_process
    apply_provider_result is_open interpret_resultcode stripped_code differs amount_match
    match_provider_amount charge_explains or_text complete_disbursement create_entry apply_outcome
    apply_success finalize_success provider_result strip drop_space is_space
confirmed_ok = refl

run_method-Moves_example : Moves (work_at WithdrawalStatus.draft) confirmed_work
run_method-Moves_example =
    run_method-Moves env (confirm 9 (text "1234")) (work_at WithdrawalStatus.draft) confirmed_work
      confirmed_ok

run_method-Trail_example :
    Trail 7 WithdrawalStatus.draft [] confirmed_work.row.status confirmed_work.events
run_method-Trail_example =
    run_method-Trail env (confirm 9 (text "1234")) (work_at WithdrawalStatus.draft) confirmed_work
      confirmed_ok

abbrev reversed_result : Result Work
reversed_result =
    run_method env (Method.reverse none (text "fraud")) (work_at WithdrawalStatus.success)

abbrev reversed_work : Work
reversed_work = work_or WithdrawalStatus.success reversed_result

reversed_ok : reversed_result ≡ ok reversed_work
unfolding transfer_bucket move_bucket get_bucket set_bucket locked_wallet lookup ◌+ℤ◌ ◌-ℤ◌
    run_method reverse_withdrawal insert transition create_entry reverse_disbursement is_success
    strip drop_space is_space
reversed_ok = refl

success_is_final : is_final WithdrawalStatus.success ≡ true
unfolding is_final
success_is_final = refl

run_method-final_example :
    ((reversed_work.row.status ≡ WithdrawalStatus.success) × (reversed_work.events ≡ []))
    ⊎ ((WithdrawalStatus.success ≡ WithdrawalStatus.success)
        × (reversed_work.row.status ≡ WithdrawalStatus.reversed))
run_method-final_example =
    run_method-final env (Method.reverse none (text "fraud")) (work_at WithdrawalStatus.success)
      reversed_work success_is_final reversed_ok

-- The sweep, when Selcom answers that the transfer is done.
abbrev answering : Env
answering = record env { transaction_query = env.transaction_process }

stuck_ok :
    run_method answering reconcile (work_at WithdrawalStatus.approved)
    ≡ ok (work_at WithdrawalStatus.approved)
unfolding run_method reconcile_withdrawal reconcile_locked apply_query apply_provider_result is_open
stuck_ok = refl

run_method-approved_stuck_example :
    work_at WithdrawalStatus.approved ≡ work_at WithdrawalStatus.approved
run_method-approved_stuck_example =
    run_method-approved_stuck answering reconcile (work_at WithdrawalStatus.approved)
      (work_at WithdrawalStatus.approved) refl stuck_ok

abbrev applied : Result Work
applied = apply_provider_result 90000 completed_result none (work_at WithdrawalStatus.ambiguous)

abbrev applied_work : Work
applied_work = work_or WithdrawalStatus.ambiguous applied

applied_ok : applied ≡ ok applied_work
unfolding transfer_bucket move_bucket get_bucket set_bucket locked_wallet lookup ◌+ℤ◌ ◌-ℤ◌ insert
    transition apply_provider_result is_open interpret_resultcode stripped_code differs amount_match
    match_provider_amount charge_explains complete_disbursement create_entry apply_outcome
    apply_success finalize_success strip drop_space is_space eq_text
applied_ok = refl

applied_success : applied_work.row.status ≡ WithdrawalStatus.success
unfolding transfer_bucket move_bucket get_bucket set_bucket locked_wallet lookup ◌+ℤ◌ ◌-ℤ◌ insert
    transition apply_provider_result is_open interpret_resultcode stripped_code differs amount_match
    match_provider_amount charge_explains complete_disbursement create_entry apply_outcome
    apply_success finalize_success strip drop_space is_space eq_text
applied_success = refl

not_yet : is_success WithdrawalStatus.ambiguous ≡ false
unfolding is_success
not_yet = refl

apply_provider_result-success_example :
    (is_open WithdrawalStatus.ambiguous ≡ true)
    × Confirms completed_result (row_at WithdrawalStatus.ambiguous)
apply_provider_result-success_example =
    apply_provider_result-success 90000 completed_result none (work_at WithdrawalStatus.ambiguous)
      applied_work not_yet applied_ok applied_success

verified_ok :
    verify env (text "1234") (row_at WithdrawalStatus.draft)
    ≡ ok (true, record (row_at WithdrawalStatus.draft) { two_factor_confirmed_at = some 90000 })
unfolding verify verify_stored verify_hash hash_code otp_secret is_exhausted email_changed eq_text
verified_ok = refl

verify-Accepts_example :
    Accepts env (text "1234") (row_at WithdrawalStatus.draft)
    × (record (row_at WithdrawalStatus.draft) { two_factor_confirmed_at = some 90000 }
        ≡ record (row_at WithdrawalStatus.draft) { two_factor_confirmed_at = some env.now })
verify-Accepts_example =
    verify-Accepts env (text "1234") (row_at WithdrawalStatus.draft)
      (record (row_at WithdrawalStatus.draft) { two_factor_confirmed_at = some 90000 }) verified_ok

run_method-contacted_ok_example :
    confirmed_work.submissions
    ≡ contacted env (confirm 9 (text "1234")) (work_at WithdrawalStatus.draft)
run_method-contacted_ok_example =
    run_method-contacted_ok env (work_at WithdrawalStatus.draft) (confirm 9 (text "1234"))
      confirmed_work confirmed_ok
