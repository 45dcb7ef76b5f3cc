-- ===== src/Payouts/Review.antt =====
-- The methods of `PayoutService` that act on a withdrawal that exists: the code, the review, the
-- cancellation, the reversal and the reconciliation.
use infinity_radius.Prelude.{
  ℕ, zero, suc, ◌+◌, ◌-◌, Bool, true, false, ◌||◌, not, Option, none, some, ltb, leb, ◌==◌,
  if◌then◌else◌, Text, is_empty, is_blank, strip,
}
use infinity_radius.Core.Errors.{
  Result, ok, err, ◌>>=◌, ◌>>◌, rate_limited, require, only_requester, wrong_status,
  rejection_without_reason, reversal_without_reason, max_sends_reached,
}
use infinity_radius.Payouts.Tables.{
  find, Env, Work, open_work, write_audit, Withdrawal, save, super_admin_email_sent, otp_verified,
  otp_locked, Store, super_admin_email_failed, AuditAction, otp_failed,
}
use infinity_radius.Core.Enums.{WithdrawalStatus}
use infinity_radius.Payouts.TwoFactor.{is_exhausted, verify, otp_expired as is_past_expiry}
use infinity_radius.Payouts.Submission.{reconcile_locked, submit_to_selcom}
use infinity_radius.Payouts.Transitions.{is_open, transition, fail_withdrawal}
use infinity_radius.Wallet.Operations.{
  complete_disbursement, release_reservation, reverse_disbursement,
}
use infinity_radius.Payouts.Service.{resolve_verified_email, issue_and_send_otp}

-- A method on a locked row: found, changed, written back.
unfoldable pub on_row : Option ℕ → ℕ → (Work → Result Work) → Store → Result Store
unfolding find open_work save
on_row tenant id method s = do w ← find tenant id s; v ← method (open_work w s); ok (save id v s)

unfoldable pub is_draft : WithdrawalStatus → Bool
is_draft WithdrawalStatus.draft = true
is_draft _ = false

unfoldable pub is_pending_approval : WithdrawalStatus → Bool
is_pending_approval WithdrawalStatus.pending_approval = true
is_pending_approval _ = false

unfoldable pub is_success : WithdrawalStatus → Bool
is_success WithdrawalStatus.success = true
is_success _ = false

-- The seconds left of the cooldown, if any; `int(remaining) + 1` at whole seconds.
unfoldable pub cooldown_left : Env → Option ℕ → ℕ
cooldown_left env none = 0
cooldown_left env (some last_sent) =
    env.settings.withdrawal_otp_resend_cooldown_seconds - (env.now - last_sent)

unfoldable pub check_cooldown : ℕ → Result (Unit {0})
check_cooldown zero = ok tt
check_cooldown (suc n) = err (rate_limited (suc n + 1))

unfoldable pub resend_otp : Env → ℕ → Work → Result Work
unfolding is_draft cooldown_left check_cooldown
resend_otp env actor v = do
  require (v.row.requested_by == actor) only_requester
  require (is_draft v.row.status) wrong_status
  require (ltb v.row.otp_send_count env.settings.withdrawal_otp_max_sends) max_sends_reached
  check_cooldown (cooldown_left env v.row.otp_last_sent_at)
  email ← resolve_verified_email env
  issue_and_send_otp env email actor true v

-- `_send_super_admin_review_email`
unfoldable pub send_review_email : Env → Work → Work
send_review_email env v =
    if is_blank env.settings.super_admin_review_email
    then v
    else write_audit (if env.email_sent then super_admin_email_sent else super_admin_email_failed)
        none v

-- A code that was right: over the threshold to the reviewer, else straight to Selcom.
unfoldable pub after_verified : Env → ℕ → Work → Result Work
unfolding send_review_email
after_verified env actor v =
    let u = write_audit otp_verified (some actor) v in
    if v.row.approval_required
    then ok (send_review_email env (transition WithdrawalStatus.pending_approval (some actor) u))
    else submit_to_selcom env (some actor) (transition WithdrawalStatus.approved (some actor) u)

-- A code that was wrong: with no attempt left the withdrawal is cancelled and its funds released.
unfoldable pub after_refused : Env → Bool → ℕ → Work → Result Work
after_refused env was_expired actor v =
    let locked = leb env.settings.withdrawal_otp_max_attempts v.row.two_factor_attempts in
    if is_exhausted env v.row
    then (do
      let u = write_audit (if locked then otp_locked else AuditAction.otp_expired) (some actor) v
      books ← release_reservation v.row.tenant_id v.row.amount v.books
      ok (transition WithdrawalStatus.cancelled (some actor) (record u { books = books })))
    else ok
        (write_audit (if was_expired then AuditAction.otp_expired else otp_failed) (some actor) v)

unfoldable pub after_verify : Env → Bool → ℕ → Work → Bool × Withdrawal → Result Work
unfolding after_verified after_refused
after_verify env was_expired actor v (true, row) = after_verified env actor (record v { row = row })
after_verify env was_expired actor v (false, row) =
    after_refused env was_expired actor (record v { row = row })

unfoldable pub confirm_two_factor : Env → ℕ → Text → Work → Result Work
unfolding is_draft after_verify
confirm_two_factor env actor code v = do
  require (v.row.requested_by == actor) only_requester
  require (is_draft v.row.status) wrong_status
  checked ← verify env code v.row
  after_verify env (is_past_expiry env.now v.row.two_factor_expires_at) actor v checked

unfoldable pub approve_withdrawal : Env → ℕ → Work → Result Work
unfolding is_pending_approval
approve_withdrawal env actor v = do
  require (is_pending_approval v.row.status) wrong_status
  let row = record v.row { reviewed_by = some actor; reviewed_at = some env.now }
  submit_to_selcom env (some actor)
      (transition WithdrawalStatus.approved (some actor) (record v { row = row }))

unfoldable pub reject_withdrawal : Env → ℕ → Text → Work → Result Work
unfolding is_pending_approval
reject_withdrawal env actor reason v = do
  require (not (is_empty reason || is_empty (strip reason))) rejection_without_reason
  require (is_pending_approval v.row.status) wrong_status
  books ← release_reservation v.row.tenant_id v.row.amount v.books
  let row = record v.row {
    reviewed_by = some actor;
    reviewed_at = some env.now;
    completed_at = some env.now;
  }
  ok (transition WithdrawalStatus.rejected (some actor) (record v { row = row; books = books }))

unfoldable pub cancel_withdrawal : Env → ℕ → Work → Result Work
unfolding is_draft is_pending_approval
cancel_withdrawal env actor v = do
  require (v.row.requested_by == actor) only_requester
  require (is_draft v.row.status || is_pending_approval v.row.status) wrong_status
  books ← release_reservation v.row.tenant_id v.row.amount v.books
  let row = record v.row { completed_at = some env.now }
  ok (transition WithdrawalStatus.cancelled (some actor) (record v { row = row; books = books }))

unfoldable pub reverse_withdrawal : Option ℕ → Text → Work → Result Work
unfolding is_success
reverse_withdrawal actor reason v = do
  require (not (is_empty reason || is_empty (strip reason))) reversal_without_reason
  require (is_success v.row.status) wrong_status
  books ← reverse_disbursement v.row.tenant_id v.row.amount (some v.row.id) v.books
  ok (transition WithdrawalStatus.reversed actor (record v { books = books }))

-- `reconcile_withdrawal`
unfoldable pub reconcile_withdrawal : Env → Work → Result Work
reconcile_withdrawal env v = reconcile_locked env none v

-- `reconcile_if_pending`
unfoldable pub reconcile_if_pending : Env → Work → Result Work
reconcile_if_pending env v = if is_open v.row.status then reconcile_locked env none v else ok v

unfoldable pub is_processing : WithdrawalStatus → Bool
is_processing WithdrawalStatus.processing = true
is_processing _ = false

unfoldable pub finish_disbursement : ℕ → Bool → Text → Work → Result Work
finish_disbursement now true reference v = do
  books ← complete_disbursement v.row.tenant_id v.row.amount (some v.row.id) v.books
  let row = record v.row { provider_reference = some reference; completed_at = some now }
  ok (transition WithdrawalStatus.success none (record v { row = row; books = books }))
finish_disbursement now false reference v = fail_withdrawal now none v

-- `apply_disbursement_result`
unfoldable pub apply_disbursement_result : ℕ → Bool → Text → Work → Result Work
unfolding is_processing finish_disbursement
apply_disbursement_result now provider_succeeded reference v =
    if is_processing v.row.status
    then finish_disbursement now provider_succeeded reference v
    else ok v

-- A method on an existing withdrawal, with its tenant scope, its row, and its arguments.
pub data Method : Type 0 where
  resend : ℕ → Method
  confirm : ℕ → Text → Method
  approve : ℕ → Method
  reject : ℕ → Text → Method
  cancel : ℕ → Method
  reverse : Option ℕ → Text → Method
  reconcile reconcile_pending : Method
  disbursement_result : Bool → Text → Method

unfoldable pub run_method : Env → Method → Work → Result Work
run_method env (resend actor) v = resend_otp env actor v
run_method env (confirm actor code) v = confirm_two_factor env actor code v
run_method env (approve actor) v = approve_withdrawal env actor v
run_method env (reject actor reason) v = reject_withdrawal env actor reason v
run_method env (cancel actor) v = cancel_withdrawal env actor v
run_method env (reverse actor reason) v = reverse_withdrawal actor reason v
run_method env reconcile v = reconcile_withdrawal env v
run_method env reconcile_pending v = reconcile_if_pending env v
run_method env (disbursement_result succeeded reference) v =
    apply_disbursement_result env.now succeeded reference v
