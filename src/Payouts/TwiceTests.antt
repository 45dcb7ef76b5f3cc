-- ===== src/Payouts/TwiceTests.antt =====
-- Transfers and requests that raise, at concrete inputs.
use infinity_radius.Prelude.{
  ℕ, true, some, [], ◌∷◌, ◌≡◌, refl, text, pos, arith, lookup, ◌+ℤ◌, ◌-ℤ◌, insert, eq_text, strip,
  drop_space, is_space,
}
use infinity_radius.Core.Enums.{SettlementMode, eq_mode}
use infinity_radius.Core.Errors.{err, unhandled, validation, provider_not_configured}
use infinity_radius.Wallet.Tables.{locked_wallet, get_bucket, set_bucket}
use infinity_radius.Wallet.Operations.{reserve_for_withdrawal, transfer_bucket, move_bucket}
use infinity_radius.Payouts.Tables.{
  Env, Store, find, open_work, save, get_destination, unreadable, not_configured,
}
use infinity_radius.Payouts.Samples.{env, start}
use infinity_radius.Payouts.Service.{
  request_withdrawal, check_request, get_mode, is_found, is_set, resolve_verified_email,
  enforce_withdrawal_limits, daily_totals, issue_and_send_otp,
}
use infinity_radius.Payouts.TwoFactor.{issue_challenge, verify, is_exhausted, email_changed}
use infinity_radius.Payouts.Submission.{
  submit_to_selcom, is_incomplete, after_lookup, with_verified_name, send_transfer, apply_process,
  reconcile_locked, apply_query,
}
use infinity_radius.Payouts.Transitions.{transition}
use infinity_radius.Payouts.Review.{on_row, run_method, confirm, confirm_two_factor}
use infinity_radius.Payouts.Contact.{sent_by, contacted}
use infinity_radius.Payouts.System.{Steps, next, request, raised, done}
use infinity_radius.Payouts.Backing.{IsBacked, total}
use infinity_radius.Payouts.Once.{IsOnce}
use infinity_radius.Payouts.Tests.{requested_store, requested_ok, id_free, start-IsOnce}
use infinity_radius.Payouts.ReviewTests.{start-AllPositive, start-AllFunded}
use infinity_radius.Payouts.Twice.{IsSound, AllRead, Steps-IsOnce}
use infinity_radius.Payouts.Transfers.{is_read}

-- A client with no configuration, and an answer to the transfer that does not validate.
abbrev closed : Env
closed = record env { transaction_process = not_configured }

abbrev garbled : Env
garbled = record env { transaction_process = unreadable }

closed_raises :
    on_row (some 1) 7 (run_method closed (confirm 9 (text "1234"))) requested_store
    ≡ err (validation provider_not_configured)
unfolding sent_by contacted find open_work on_row run_method request_withdrawal check_request
    get_mode eq_mode is_found get_destination is_set resolve_verified_email
    enforce_withdrawal_limits daily_totals issue_and_send_otp issue_challenge reserve_for_withdrawal
    transfer_bucket move_bucket get_bucket set_bucket locked_wallet lookup ◌+ℤ◌ ◌-ℤ◌
    confirm_two_factor insert verify is_exhausted email_changed eq_text submit_to_selcom transition
    is_incomplete after_lookup with_verified_name send_transfer apply_process reconcile_locked
    apply_query strip drop_space is_space save
closed_raises = refl

-- The answer is lost in an exception after the transfer has left, and the tables are as before: the
-- same request sends the transfer again.
garbled_twice :
    (on_row (some 1) 7 (run_method garbled (confirm 9 (text "1234"))) requested_store
      ≡ err unhandled)
    × (sent_by garbled (confirm 9 (text "1234")) (some 1) 7 requested_store ≡ 7 ∷ [])
    × (sent_by garbled
          (confirm 9 (text "1234"))
          (some 1)
          7
          (record requested_store { submissions = 7 ∷ [] })
        ≡ 7 ∷ (7 ∷ []))
unfolding sent_by contacted find open_work on_row run_method request_withdrawal check_request
    get_mode eq_mode is_found get_destination is_set resolve_verified_email
    enforce_withdrawal_limits daily_totals issue_and_send_otp issue_challenge reserve_for_withdrawal
    transfer_bucket move_bucket get_bucket set_bucket locked_wallet lookup ◌+ℤ◌ ◌-ℤ◌
    confirm_two_factor insert verify is_exhausted email_changed eq_text submit_to_selcom transition
    is_incomplete after_lookup with_verified_name send_transfer apply_process reconcile_locked
    apply_query strip drop_space is_space save
garbled_twice = (refl, refl, refl)

abbrev after_closed : Store
after_closed = record requested_store {
  submissions = sent_by closed (confirm 9 (text "1234")) (some 1) 7 requested_store;
}

abbrev closed-Steps : Steps start after_closed
closed-Steps =
    next
      (request env (some SettlementMode.platform_managed_wallet) (some true) 1 9 7 (text "W7") 5
        (pos 1000) id_free requested_ok)
      (next (raised closed (confirm 9 (text "1234")) (some 1) 7 closed_raises) done)

every-IsBacked : (u : ℕ) → IsBacked u start
unfolding total locked_wallet lookup
every-IsBacked u = record { reserved_backed = ground arith; disbursed_backed = ground arith }

start-IsSound : IsSound start
start-IsSound = record {
  positive = start-AllPositive;
  funded = start-AllFunded;
  backed = every-IsBacked;
}

closed-AllRead : AllRead closed-Steps
unfolding AllRead is_read
closed-AllRead = (refl, refl, tt)

Steps-IsOnce_example : IsOnce 7 after_closed
Steps-IsOnce_example =
    Steps-IsOnce 7 start after_closed start-IsSound start-IsOnce closed-Steps closed-AllRead
