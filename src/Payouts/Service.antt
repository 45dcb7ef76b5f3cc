-- ===== src/Payouts/Service.antt =====
-- The public methods of `PayoutService` in payouts.py: request, one-time code, review, cancellation,
-- reversal, reconciliation.
use infinity_radius.Prelude.{
  ℕ, ◌+◌, ◌-◌, Bool, true, false, ◌&&◌, not, Option, none, some, [], ◌∷◌, ltb, leb, ◌==◌,
  if◌then◌else◌, ℤ, pos, ◌+ℤ◌, ltb_ℤ, Dict, Text, text, is_blank, ◌%◌,
}
use infinity_radius.Core.Errors.{
  Result, ok, err, ◌>>=◌, ◌>>◌, require, validation, below_minimum, email_not_verified,
  amount_not_positive, exceeds_available_balance, above_maximum, or_raise,
  destination_of_other_tenant, above_daily_limit, above_daily_count, direct_settlement,
  disbursement_disabled, payouts_not_enabled,
}
use infinity_radius.Core.Enums.{SettlementMode, WithdrawalStatus, eq_mode, platform_managed_wallet}
use infinity_radius.Payouts.Tables.{
  Withdrawal, Env, WithdrawalDestination, Work, Store, write_audit, WithdrawalEvent, otp_resent,
  open_work, otp_sent, otp_requested, requested, save, get_destination,
}
use infinity_radius.Wallet.Tables.{Books}
use infinity_radius.Payouts.TwoFactor.{issue_challenge}
use infinity_radius.Wallet.Operations.{reserve_for_withdrawal}

-- `SettlementConfigService.get_mode`
unfoldable pub get_mode : Option SettlementMode → SettlementMode
get_mode none = SettlementMode.direct_merchant_settlement
get_mode (some m) = m

-- `WithdrawalRepository.daily_totals`: cancelled, rejected and failed withdrawals do not count.
unfoldable pub counts_toward_limit : WithdrawalStatus → Bool
counts_toward_limit WithdrawalStatus.cancelled = false
counts_toward_limit WithdrawalStatus.rejected = false
counts_toward_limit WithdrawalStatus.failed = false
counts_toward_limit _ = true

unfoldable pub is_todays : ℕ → ℕ → Withdrawal → Bool
unfolding counts_toward_limit
is_todays t since w = w.tenant_id == t && (leb since w.created_at && counts_toward_limit w.status)

unfoldable pub daily_totals : ℕ → ℕ → Dict Withdrawal → ℤ × ℕ
unfolding is_todays
daily_totals t since [] = (pos 0, 0)
daily_totals t since ((k, w) ∷ d) =
    let (total, count) = daily_totals t since d in
    if is_todays t since w then (w.amount +ℤ total, count + 1) else (total, count)

-- A limit that is not set is not enforced.
unfoldable pub is_below : ℤ → Option ℤ → Bool
is_below amount none = false
is_below amount (some limit) = ltb_ℤ amount limit

unfoldable pub is_above : ℤ → Option ℤ → Bool
is_above amount none = false
is_above amount (some limit) = ltb_ℤ limit amount

unfoldable pub is_over_count : ℕ → Option ℕ → Bool
is_over_count n none = false
is_over_count n (some limit) = ltb limit n

-- `_enforce_withdrawal_limits`; a day begins at midnight UTC.
unfoldable pub enforce_withdrawal_limits : Env → ℕ → ℤ → Dict Withdrawal → Result (Unit {0})
unfolding is_below is_above is_over_count
enforce_withdrawal_limits env t amount withdrawals =
    let c = env.settings in
    let (total, count) = daily_totals t (env.now - env.now % 86400) withdrawals in
    require (not (is_below amount c.withdrawal_min_amount_tzs)) below_minimum
    >> (require (not (is_above amount c.withdrawal_max_single_amount_tzs)) above_maximum
        >> (require (not (is_above (total +ℤ amount) c.withdrawal_daily_limit_tzs))
              above_daily_limit
            >> require (not (is_over_count (count + 1) c.withdrawal_daily_count_limit))
                above_daily_count))

-- `_resolve_verified_email`
unfoldable pub resolve_verified_email : Env → Result Text
resolve_verified_email env =
    require (not (is_blank env.profile_email) && env.email_verified) email_not_verified
    >> or_raise env.profile_email (validation email_not_verified)

-- `_issue_and_send_otp`: a failed delivery raises nothing.
unfoldable pub issue_and_send_otp : Env → Text → ℕ → Bool → Work → Result Work
issue_and_send_otp env email actor resend v = do
  challenged ← issue_challenge env email v.row
  let row = record challenged {
    otp_last_sent_at = some env.now;
    otp_send_count = v.row.otp_send_count + 1;
  }
  ok (write_audit (if resend then otp_resent else otp_sent) (some actor) (record v { row = row }))

-- The new row of `request_withdrawal`; its id and its key are drawn by the caller.
unfoldable pub new_withdrawal : Env → ℕ → ℕ → ℕ → Text → ℕ → ℤ → Withdrawal
new_withdrawal env t actor id key destination_id amount = record {
  id = id;
  tenant_id = t;
  destination_id = destination_id;
  amount = amount;
  currency = text "TZS";
  status = WithdrawalStatus.draft;
  created_at = env.now;
  idempotency_key = key;
  provider_reference = none;
  submitted_at = none;
  completed_at = none;
  approval_required = ltb_ℤ env.settings.selcom_withdrawal_approval_threshold_tzs amount;
  verified_recipient_name = none;
  provider_charge = none;
  provider_result_code = none;
  requested_by = actor;
  reviewed_by = none;
  reviewed_at = none;
  two_factor_code_hash = none;
  two_factor_expires_at = none;
  two_factor_attempts = 0;
  two_factor_confirmed_at = none;
  otp_last_sent_at = none;
  otp_send_count = 0;
  otp_sent_to_email = none;
}

-- `destination is not None`
unfoldable pub is_found : Option WithdrawalDestination → Bool
is_found none = false
is_found (some d) = true

-- `flags is not None and flags.payout_enabled`
unfoldable pub is_set : Option Bool → Bool
is_set none = false
is_set (some b) = b

-- The gates of a request, in their order, up to the reservation.
unfoldable pub check_request :
    Env → Option SettlementMode → Option Bool → ℕ → ℕ → ℤ → Store → Result Text
unfolding get_mode eq_mode is_found get_destination is_set resolve_verified_email
    enforce_withdrawal_limits
check_request env mode payout_enabled t destination_id amount s = do
  require (ltb_ℤ (pos 0) amount) amount_not_positive
  require (is_found (get_destination t destination_id env)) destination_of_other_tenant
  require (eq_mode (get_mode mode) platform_managed_wallet) direct_settlement
  require env.settings.selcom_disbursement_enabled disbursement_disabled
  require (is_set payout_enabled) payouts_not_enabled
  email ← resolve_verified_email env
  enforce_withdrawal_limits env t amount s.withdrawals
  ok email

-- A reservation that is refused is reported as an amount over the balance.
unfoldable pub reserved_or_exceeds : Result Books → Result Books
reserved_or_exceeds (ok b) = ok b
reserved_or_exceeds (err (validation m)) = err (validation exceeds_available_balance)
reserved_or_exceeds (err e) = err e

-- The new row with its event and its audit rows.
unfoldable pub requested_work : ℕ → Withdrawal → Books → Store → Work
requested_work actor row books s =
    let event : WithdrawalEvent = record {
      withdrawal_id = row.id;
      from_status = none;
      to_status = WithdrawalStatus.draft;
      actor_id = some actor;
    } in
    let v = open_work row s in
    write_audit otp_requested (some actor)
      (write_audit requested (some actor) (record v { books = books; events = event ∷ v.events }))

unfoldable pub request_withdrawal :
    Env → Option SettlementMode → Option Bool → ℕ → ℕ → ℕ → Text → ℕ → ℤ → Store → Result Store
unfolding check_request reserved_or_exceeds new_withdrawal requested_work
request_withdrawal env mode payout_enabled t actor id key destination_id amount s = do
  email ← check_request env mode payout_enabled t destination_id amount s
  books ← reserved_or_exceeds (reserve_for_withdrawal t amount s.books)
  let row = new_withdrawal env t actor id key destination_id amount
  v ← issue_and_send_otp env email actor false (requested_work actor row books s)
  ok (save id v s)
