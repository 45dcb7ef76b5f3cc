-- ===== src/Payouts/Gates.antt =====
-- What the guards of the methods let through, and the withdrawal that no method takes up again.
use infinity_radius.Prelude.{
  refl, true, false, some, none, pos, ◌<ℤ◌, Text, Option, ◌≡◌, Bool, ℕ, ℤ, arith, ◌∙◌, ◌≤ℤ◌, ap,
  ltb_ℤ, int_laws, lookup,
}
use infinity_radius.Core.Enums.{WithdrawalStatus, SettlementMode, eq_mode}
use infinity_radius.Payouts.Tables.{
  Env, Store, Work, Answer, TransactionResponse, answered, unreadable, get_destination,
  WithdrawalDestination, own_destination,
}
use infinity_radius.Payouts.Review.{
  run_method, resend_otp, confirm_two_factor, approve_withdrawal, reject_withdrawal,
  cancel_withdrawal, reverse_withdrawal, reconcile_withdrawal, reconcile_if_pending,
  apply_disbursement_result, is_draft, is_pending_approval, is_success, is_processing, Method,
  reconcile,
}
use infinity_radius.Payouts.Service.{
  request_withdrawal, check_request, enforce_withdrawal_limits, is_set, resolve_verified_email,
  new_withdrawal, get_mode, reserved_or_exceeds, is_found,
}
use infinity_radius.Core.Errors.{
  ok, >>=-eq-ok, amount_not_positive, destination_of_other_tenant, direct_settlement,
  disbursement_disabled, payouts_not_enabled, ok_inj,
}
use infinity_radius.Wallet.Tables.{locked_wallet, get_bucket, set_bucket, Books}
use infinity_radius.Payouts.Submission.{reconcile_locked, apply_query}
use infinity_radius.Payouts.Transitions.{is_open, apply_provider_result}
use infinity_radius.Wallet.Operations.{reserve_for_withdrawal, transfer_bucket, move_bucket}
use infinity_radius.Payouts.Requests.{reserved_lem}
use infinity_radius.Payouts.Guards.{guarded}
use infinity_radius.Payouts.Limits.{enforce_withdrawal_limits-WithinLimits, WithinLimits}

closed_query :
    (now : ℕ) (x : Answer TransactionResponse) (v v' : Work)
    → is_open v.row.status ≡ false
    → apply_query now x none v ≡ ok v'
    → v' ≡ v
unfolding apply_query apply_provider_result
closed_query now (answered q) v v' c e = ok_inj (rw (c) at e)
closed_query now unreadable v v' c e = cc
closed_query now _ v v' c e = ok_inj e

approved_gates :
    (s : WithdrawalStatus)
    → s ≡ WithdrawalStatus.approved
    → (is_draft s ≡ false)
      × (is_pending_approval s ≡ false)
      × (is_success s ≡ false)
      × (is_processing s ≡ false)
      × (is_open s ≡ false)
unfolding is_draft is_pending_approval is_success is_processing is_open
approved_gates s a = (rw (a), rw (a), rw (a), rw (a), rw (a))

-- A method that succeeds on an APPROVED withdrawal leaves the withdrawal, the wallets and the logs
-- as they are, whatever the method and whatever Selcom answers: nothing takes up a withdrawal that
-- was left APPROVED.
pub run_method-approved_stuck :
    (env : Env) (m : Method) (v v' : Work)
    → v.row.status ≡ WithdrawalStatus.approved
    → run_method env m v ≡ ok v'
    → v' ≡ v
unfolding run_method resend_otp confirm_two_factor approve_withdrawal reject_withdrawal
    cancel_withdrawal reverse_withdrawal reconcile_withdrawal reconcile_if_pending reconcile_locked
    apply_disbursement_result
run_method-approved_stuck env reconcile v v' a e =
    let (_, _, _, _, o) = approved_gates v.row.status a in
    closed_query env.now env.transaction_query v v' o e
run_method-approved_stuck env m v v' a e = ground (arith, approved_gates v.row.status a)

mode_lem :
    (mode : Option SettlementMode)
    → eq_mode (get_mode mode) SettlementMode.platform_managed_wallet ≡ true
    → mode ≡ some SettlementMode.platform_managed_wallet
unfolding eq_mode get_mode
mode_lem none h = cc
mode_lem (some SettlementMode.direct_merchant_settlement) h = cc
mode_lem (some SettlementMode.platform_managed_wallet) h = refl

set_lem : (o : Option Bool) → is_set o ≡ true → o ≡ some true
unfolding is_set
set_lem none h = cc
set_lem (some true) h = refl
set_lem (some false) h = cc

verified_lem :
    (env : Env) (email : Text) → resolve_verified_email env ≡ ok email → env.email_verified ≡ true
unfolding resolve_verified_email
verified_lem env email e = ground arith

reserve_covers :
    (t : ℕ) (amount : ℤ) (b b' : Books)
    → reserve_for_withdrawal t amount b ≡ ok b'
    → amount ≤ℤ (locked_wallet t b.wallets).available_balance_tzs
unfolding reserve_for_withdrawal transfer_bucket move_bucket get_bucket set_bucket
reserve_covers t amount b b' e = grind int_laws

tt_lem : (u : Unit {0}) → u ≡ tt
tt_lem tt = refl

own_lem :
    (t : ℕ) (o : Option WithdrawalDestination)
    → is_found (own_destination t o) ≡ true
    → (d : WithdrawalDestination) × (o ≡ some d) × (d.tenant_id ≡ t)
unfolding is_found own_destination
own_lem t none h = cc
own_lem t (some d) h = (d, refl, ground arith)

get_destination_lem :
    (env : Env) (t id : ℕ)
    → is_found (get_destination t id env) ≡ true
    → (d : WithdrawalDestination) × (lookup id env.destinations ≡ some d) × (d.tenant_id ≡ t)
unfolding get_destination
get_destination_lem env t id h = own_lem t (lookup id env.destinations) h

-- What a request has to bring.
pub record IsPermitted (env : Env) (mode : Option SettlementMode) (enabled : Option Bool) (t : ℕ)
    (destination_id : ℕ) (amount : ℤ) (s : Store) : Type 0 where
  pub amount_positive : pos 0 <ℤ amount
  pub amount_available : amount ≤ℤ (locked_wallet t s.books.wallets).available_balance_tzs
  pub destination : WithdrawalDestination
  pub is_there : lookup destination_id env.destinations ≡ some destination
  pub own_destination : destination.tenant_id ≡ t
  pub managed : mode ≡ some SettlementMode.platform_managed_wallet
  pub disbursement_on : env.settings.selcom_disbursement_enabled ≡ true
  pub payouts_on : enabled ≡ some true
  pub verified_email : env.email_verified ≡ true
  pub within_limits : WithinLimits env t amount s.withdrawals

-- A request that succeeds asked for a positive amount that the available balance covers, to the
-- destination of its destination id, which is the tenant's, in platform-managed mode with
-- disbursement and payouts enabled, by a profile with a verified address. The amount keeps the
-- minimum and the maximum that are set; with it, what the tenant asked for since midnight UTC
-- (withdrawals that are not failed, rejected or cancelled) keeps the limits of the day on the sum
-- and on the number, where they are set.
pub request_withdrawal-IsPermitted :
    (env : Env) (mode : Option SettlementMode) (enabled : Option Bool) (t actor id : ℕ) (key : Text)
    (destination_id : ℕ) (amount : ℤ) (s s' : Store)
    → request_withdrawal env mode enabled t actor id key destination_id amount s ≡ ok s'
    → IsPermitted env mode enabled t destination_id amount s
unfolding request_withdrawal check_request
request_withdrawal-IsPermitted env mode enabled t actor id key d amount s s' e =
    let row = new_withdrawal env t actor id key d amount in
    let (email, e₁, r) = >>=-eq-ok (check_request env mode enabled t d amount s) _ e in
    let (books, reserved, _) =
      >>=-eq-ok (reserved_or_exceeds (reserve_for_withdrawal t amount s.books)) _ r in
    let (positive, e₂) = guarded (ltb_ℤ (pos 0) amount) amount_not_positive _ e₁ in
    let (own, e₃) = guarded (is_found (get_destination t d env)) destination_of_other_tenant _ e₂ in
    let (managed, e₄) =
      guarded (eq_mode (get_mode mode) SettlementMode.platform_managed_wallet) direct_settlement _
        e₃ in
    let (on, e₅) = guarded env.settings.selcom_disbursement_enabled disbursement_disabled _ e₄ in
    let (payouts, e₆) = guarded (is_set enabled) payouts_not_enabled _ e₅ in
    let (address, e₇, e₈) = >>=-eq-ok (resolve_verified_email env) _ e₆ in
    let (u, limits, _) = >>=-eq-ok (enforce_withdrawal_limits env t amount s.withdrawals) _ e₈ in
    let (destination, there, mine) = get_destination_lem env t d own in
    record {
      amount_positive = ground arith;
      amount_available = reserve_covers t amount s.books books (reserved_lem _ books reserved);
      destination = destination;
      is_there = there;
      own_destination = mine;
      managed = mode_lem mode managed;
      disbursement_on = on;
      payouts_on = set_lem enabled payouts;
      verified_email = verified_lem env address e₇;
      within_limits =
          enforce_withdrawal_limits-WithinLimits env t amount s.withdrawals
            (limits ∙ ap ok (tt_lem u));
    }
