-- ===== src/Payouts/Methods.antt =====
-- The methods of `PayoutService` on a withdrawal, from their guards on, against the moves.
use infinity_radius.Prelude.{true, false, ltb, ◌∙◌}
use infinity_radius.Prelude.{refl, arith, true, ◌||◌, not, ◌==◌, some, is_empty, strip, none}
use infinity_radius.Core.Enums.{WithdrawalStatus}
use infinity_radius.Payouts.Tables.{Env, Work, Withdrawal, AuditAction, write_audit, otp_verified}
use infinity_radius.Payouts.Review.{
  send_review_email, resend_otp, approve_withdrawal, reject_withdrawal, cancel_withdrawal,
  reverse_withdrawal, apply_disbursement_result, confirm_two_factor, is_pending_approval, is_draft,
  is_success, is_processing, finish_disbursement, after_verify, after_verified, after_refused,
  check_cooldown, cooldown_left, run_method, reconcile_withdrawal, reconcile_if_pending, Method,
  resend, confirm, approve, reject, cancel, disbursement_result, reconcile, reconcile_pending,
}
use infinity_radius.Payouts.TwoFactor.{verify, is_exhausted, issue_challenge}
use infinity_radius.Prelude.{Option, ℕ, ◌≡◌, Text, inl, Bool, inr}
use infinity_radius.Payouts.Moves.{
  Moves, stay, edit, ◌⨟◌, draft_cancelled, advance, reviewed, release, complete, review_rejected,
  reverse, processing_failed, to_review, to_selcom,
}
use infinity_radius.Payouts.Submission.{submit_to_selcom, reconcile_locked}
use infinity_radius.Payouts.Transitions.{transition}
use infinity_radius.Core.Errors.{
  ok, wrong_status, only_requester, >>=-eq-ok, ◌>>=◌, rejection_without_reason,
  reversal_without_reason, max_sends_reached, ok_inj,
}
use infinity_radius.Payouts.Refinement.{
  submit_to_selcom-Moves, Moves-refl, touch, fail_withdrawal-Moves, transition-status,
  apply_query-Moves,
}
use infinity_radius.Wallet.Operations.{
  release_reservation, complete_disbursement, reverse_disbursement,
}
use infinity_radius.Payouts.Service.{issue_and_send_otp, resolve_verified_email}
use infinity_radius.Payouts.Guards.{
  issue_challenge_lem, guarded, if_cases, pending_cases, cancellable_cases, success_cases,
  open_processing, draft_cases, processing_cases, verify_lem,
}

submitted :
    (env : Env) (actor : Option ℕ) (v v' : Work)
    → submit_to_selcom env actor (transition WithdrawalStatus.approved actor v) ≡ ok v'
    → Moves (transition WithdrawalStatus.approved actor v) v'
submitted env actor v v' e =
    submit_to_selcom-Moves env actor _ v' (transition-status WithdrawalStatus.approved actor v) e

edited_audit :
    (v : Work) (action : AuditAction) (actor : Option ℕ) → Moves v (write_audit action actor v)
edited_audit v action actor = edit v v.row _ refl refl refl refl ⨟ stay

stays : (v : Work) → Moves v v
stays v = stay

send_review_email-Moves : (env : Env) (v : Work) → Moves v (send_review_email env v)
unfolding send_review_email
send_review_email-Moves env v = grind (arith, edited_audit, stays)

module _ (env : Env) (v v' : Work) where
  pub issue_and_send_otp-Moves :
      (email : Text) (actor : ℕ) (again : Bool)
      → issue_and_send_otp env email actor again v ≡ ok v'
      → Moves v v'
  unfolding issue_and_send_otp
  issue_and_send_otp-Moves email actor again e =
      let (challenged, e₁, e₂) = >>=-eq-ok (issue_challenge env email v.row) _ e in
      let (a, b, c, d) = issue_challenge_lem env email v.row challenged e₁ in
      rw (ok_inj e₂) (edit v _ _ a b c d ⨟ stay)

  resend_otp-Moves : (actor : ℕ) → resend_otp env actor v ≡ ok v' → Moves v v'
  unfolding resend_otp
  resend_otp-Moves actor e =
      let (_, e₁) = guarded (v.row.requested_by == actor) only_requester _ e in
      let (_, e₂) = guarded (is_draft v.row.status) wrong_status _ e₁ in
      let (_, e₃) =
        guarded (ltb v.row.otp_send_count env.settings.withdrawal_otp_max_sends) max_sends_reached _
          e₂ in
      let (_, _, e₄) = >>=-eq-ok (check_cooldown (cooldown_left env v.row.otp_last_sent_at)) _ e₃ in
      let (email, _, e₅) = >>=-eq-ok (resolve_verified_email env) _ e₄ in
      issue_and_send_otp-Moves email actor true e₅

  approve_withdrawal-Moves : (actor : ℕ) → approve_withdrawal env actor v ≡ ok v' → Moves v v'
  unfolding approve_withdrawal is_pending_approval
  approve_withdrawal-Moves actor e =
      let (c, e₁) = guarded (is_pending_approval v.row.status) wrong_status _ e in
      let row = record v.row { reviewed_by = some actor; reviewed_at = some env.now } in
      touch v row refl refl refl refl
      ⨟ advance (record v { row = row }) WithdrawalStatus.approved (some actor)
          (rw (pending_cases _ c) reviewed)
      ⨟ submitted env (some actor) (record v { row = row }) v' e₁

  reject_withdrawal-Moves :
      (actor : ℕ) (reason : Text) → reject_withdrawal env actor reason v ≡ ok v' → Moves v v'
  unfolding reject_withdrawal is_pending_approval
  reject_withdrawal-Moves actor reason e =
      let (_, e₁) =
        guarded (not (is_empty reason || is_empty (strip reason))) rejection_without_reason _ e in
      let (c, e₂) = guarded (is_pending_approval v.row.status) wrong_status _ e₁ in
      let (books, e₃, e₄) =
        >>=-eq-ok (release_reservation v.row.tenant_id v.row.amount v.books) _ e₂ in
      rw (ok_inj e₄) (
        touch v
          (record v.row {
            reviewed_by = some actor;
            reviewed_at = some env.now;
            completed_at = some env.now;
          })
          refl refl refl refl
        ⨟ release _ WithdrawalStatus.rejected (some actor) books
            (rw (pending_cases _ c) review_rejected) e₃
        ⨟ stay)

  cancel_withdrawal-Moves : (actor : ℕ) → cancel_withdrawal env actor v ≡ ok v' → Moves v v'
  unfolding cancel_withdrawal is_draft is_pending_approval
  cancel_withdrawal-Moves actor e =
      let (_, e₁) = guarded (v.row.requested_by == actor) only_requester _ e in
      let (c, e₂) =
        guarded (is_draft v.row.status || is_pending_approval v.row.status) wrong_status _ e₁ in
      let (books, e₃, e₄) =
        >>=-eq-ok (release_reservation v.row.tenant_id v.row.amount v.books) _ e₂ in
      rw (ok_inj e₄) (
        touch v (record v.row { completed_at = some env.now }) refl refl refl refl
        ⨟ release _ WithdrawalStatus.cancelled (some actor) books (cancellable_cases _ c) e₃
        ⨟ stay)

  reverse_withdrawal-Moves :
      (actor : Option ℕ) (reason : Text) → reverse_withdrawal actor reason v ≡ ok v' → Moves v v'
  unfolding reverse_withdrawal is_success
  reverse_withdrawal-Moves actor reason e =
      let (_, e₁) =
        guarded (not (is_empty reason || is_empty (strip reason))) reversal_without_reason _ e in
      let (c, e₂) = guarded (is_success v.row.status) wrong_status _ e₁ in
      let (books, e₃, e₄) =
        >>=-eq-ok (reverse_disbursement v.row.tenant_id v.row.amount (some v.row.id) v.books) _
          e₂ in
      rw (ok_inj e₄) (reverse v actor books (success_cases _ c) e₃ ⨟ stay)

  finish_disbursement-Moves :
      (succeeded : Bool) (reference : Text)
      → is_processing v.row.status ≡ true
      → finish_disbursement env.now succeeded reference v ≡ ok v'
      → Moves v v'
  unfolding finish_disbursement
  finish_disbursement-Moves true reference p e =
      let (books, e₁, e₂) =
        >>=-eq-ok (complete_disbursement v.row.tenant_id v.row.amount (some v.row.id) v.books) _
          e in
      rw (ok_inj e₂) (
        touch v (record v.row { provider_reference = some reference; completed_at = some env.now })
          refl refl refl refl
        ⨟ complete _ none books (open_processing v.row.status p) e₁
        ⨟ stay)
  finish_disbursement-Moves false reference p e =
      fail_withdrawal-Moves env.now none v v' (rw (processing_cases _ p) processing_failed) e

  disbursement_result-Moves :
      (succeeded : Bool) (reference : Text)
      → apply_disbursement_result env.now succeeded reference v ≡ ok v'
      → Moves v v'
  unfolding apply_disbursement_result
  disbursement_result-Moves succeeded reference e =
      grind (arith, finish_disbursement-Moves succeeded reference, Moves-refl)

module _ (env : Env) (actor : ℕ) (v v' : Work) (d : v.row.status ≡ WithdrawalStatus.draft) where
  -- The row after a code that was right, with its audit row.
  abbrev verified : Work
  verified = write_audit otp_verified (some actor) v

  review-Moves :
      ok (
          send_review_email env
            (transition WithdrawalStatus.pending_approval (some actor) verified))
        ≡ ok v'
      → Moves v v'
  review-Moves e = rw (ok_inj e) (
      edit v v.row _ refl refl refl refl
      ⨟ advance verified WithdrawalStatus.pending_approval (some actor) (rw (d) to_review)
      ⨟ send_review_email-Moves env _)

  selcom-Moves :
      submit_to_selcom env (some actor) (transition WithdrawalStatus.approved (some actor) verified)
        ≡ ok v'
      → Moves v v'
  selcom-Moves e =
      edit v v.row _ refl refl refl refl
      ⨟ advance verified WithdrawalStatus.approved (some actor) (rw (d) to_selcom)
      ⨟ submitted env (some actor) verified v' e

  after_verified-Moves : after_verified env actor v ≡ ok v' → Moves v v'
  unfolding after_verified
  after_verified-Moves e = grind (arith, review-Moves, selcom-Moves)

  -- The withdrawal is cancelled, and its funds are released.
  exhausted-Moves :
      (action : AuditAction)
      → (release_reservation v.row.tenant_id v.row.amount v.books >>= λ books. ok (
          transition WithdrawalStatus.cancelled
            (some actor)
            (record (write_audit action (some actor) v) { books = books })))
        ≡ ok v'
      → Moves v v'
  exhausted-Moves action e =
      let (books, e₁, e₂) =
        >>=-eq-ok (release_reservation v.row.tenant_id v.row.amount v.books) _ e in
      rw (ok_inj e₂) (
        edit v v.row _ refl refl refl refl
        ⨟ release (write_audit action (some actor) v) WithdrawalStatus.cancelled (some actor) books
            (rw (d) draft_cancelled) e₁
        ⨟ stay)

  failed_attempt-Moves :
      (action : AuditAction) → ok (write_audit action (some actor) v) ≡ ok v' → Moves v v'
  failed_attempt-Moves action e = rw (ok_inj e) (edited_audit v action (some actor))

  after_refused-Moves :
      (was_expired : Bool) → after_refused env was_expired actor v ≡ ok v' → Moves v v'
  unfolding after_refused
  after_refused-Moves was_expired e = elim (if_cases (is_exhausted env v.row) _ _ e) [
    | inl e₁ ↦ exhausted-Moves _ e₁
    | inr e₁ ↦ failed_attempt-Moves _ e₁
  ]

module _ (env : Env) (v v' : Work) where
  after_verify-Moves :
      (was_expired : Bool) (actor : ℕ) (checked : Bool × Withdrawal)
      → v.row.status ≡ WithdrawalStatus.draft
      → (checked.1.id ≡ v.row.id)
        × (checked.1.tenant_id ≡ v.row.tenant_id)
        × (checked.1.amount ≡ v.row.amount)
        × (checked.1.status ≡ v.row.status)
      → after_verify env was_expired actor v checked ≡ ok v'
      → Moves v v'
  unfolding after_verify
  after_verify-Moves x actor (true, row) d (a, b, c, h) e =
      touch v row a b c h ⨟ after_verified-Moves env actor (record v { row = row }) v' (h ∙ d) e
  after_verify-Moves x actor (false, row) d (a, b, c, h) e =
      touch v row a b c h ⨟ after_refused-Moves env actor (record v { row = row }) v' (h ∙ d) x e

  confirm_two_factor-Moves :
      (actor : ℕ) (code : Text) → confirm_two_factor env actor code v ≡ ok v' → Moves v v'
  unfolding confirm_two_factor is_draft after_verify
  confirm_two_factor-Moves actor code e =
      let (_, e₁) = guarded (v.row.requested_by == actor) only_requester _ e in
      let (d, e₂) = guarded (is_draft v.row.status) wrong_status _ e₁ in
      let (checked, e₃, e₄) = >>=-eq-ok (verify env code v.row) _ e₂ in
      after_verify-Moves _ actor checked (draft_cases _ d) (verify_lem env code v.row checked e₃) e₄

-- Whatever the clock, the settings, the mail service and Selcom answer, a method of the payout
-- service that succeeds on a withdrawal has made only moves of the relation Move: edits of other
-- columns, changes of status that keep the reservation, the sending of the transfer, the release,
-- the completion and the reversal.
pub run_method-Moves :
    (env : Env) (m : Method) (v v' : Work) → run_method env m v ≡ ok v' → Moves v v'
unfolding run_method reconcile_withdrawal reconcile_if_pending reconcile_locked
run_method-Moves env (resend actor) v v' e = resend_otp-Moves env v v' actor e
run_method-Moves env (confirm actor code) v v' e = confirm_two_factor-Moves env v v' actor code e
run_method-Moves env (approve actor) v v' e = approve_withdrawal-Moves env v v' actor e
run_method-Moves env (reject actor reason) v v' e = reject_withdrawal-Moves env v v' actor reason e
run_method-Moves env (cancel actor) v v' e = cancel_withdrawal-Moves env v v' actor e
run_method-Moves env (Method.reverse actor reason) v v' e =
    reverse_withdrawal-Moves env v v' actor reason e
run_method-Moves env reconcile v v' e = apply_query-Moves env.now env.transaction_query none v v' e
run_method-Moves env reconcile_pending v v' e =
    grind (arith, Moves-refl v v', apply_query-Moves env.now env.transaction_query none v v')
run_method-Moves env (disbursement_result succeeded reference) v v' e =
    disbursement_result-Moves env v v' succeeded reference e
