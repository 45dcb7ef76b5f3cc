-- ===== src/Payouts/Committed.antt =====
-- What a committed method has recorded of its transfers is what it has sent.
use infinity_radius.Prelude.{
  ℕ, Bool, true, false, Option, none, some, List, ◌≡◌, refl, ap, arith, Text, is_blank, Bool-cases,
  inl, inr, ℤ, ◌==◌,
}
use infinity_radius.Core.Errors.{
  Result, ok, err, >>=-eq-ok, ok_inj, if_true, if_false, ApiError, ◌>>=◌,
}
use infinity_radius.Payouts.Tables.{
  Env, Work, Withdrawal, Answer, TransactionResponse, AccountLookupData, transport_error, api_error,
  not_configured, unreadable, answered, get_destination,
}
use infinity_radius.Payouts.Provider.{SelcomResultOutcome, interpret_resultcode}
use infinity_radius.Payouts.Transitions.{
  ProviderResult, fail_withdrawal, apply_provider_result, apply_outcome, apply_success,
  finalize_success, transition, flag_ambiguous,
}
use infinity_radius.Wallet.Operations.{release_reservation, complete_disbursement}
use infinity_radius.Payouts.Submission.{
  apply_query, apply_process, send_transfer, with_verified_name, after_lookup, submit_to_selcom,
  reconcile_locked,
}
use infinity_radius.Payouts.Contact.{lost_answer, lost, logged, contacted}
use infinity_radius.Payouts.Review.{
  approve_withdrawal, after_verify, confirm_two_factor, is_pending_approval, after_verified,
  run_method, send_review_email, resend_otp, after_refused, cooldown_left, reject_withdrawal,
  cancel_withdrawal, reverse_withdrawal, reconcile_withdrawal, reconcile_if_pending, Method, resend,
  confirm, approve, reject, cancel, reverse, disbursement_result, reconcile, reconcile_pending,
  is_draft,
}
use infinity_radius.Payouts.TwoFactor.{
  verify, verify_stored, is_exhausted, verify_hash, hash_code, issue_challenge,
}
use infinity_radius.Payouts.Service.{issue_and_send_otp, resolve_verified_email}

-- A call that leaves the record of transfers alone where it does not raise.
abbrev Keeps : List ℕ → Result Work → Type 0
Keeps xs r = (v' : Work) → r ≡ ok v' → v'.submissions ≡ xs

module _ (now : ℕ) (actor : Option ℕ) (v : Work) where
  fail_withdrawal-Keeps : Keeps v.submissions (fail_withdrawal now actor v)
  unfolding fail_withdrawal transition
  fail_withdrawal-Keeps v' e =
      let (books, e₁, e₂) =
        >>=-eq-ok (release_reservation v.row.tenant_id v.row.amount v.books) _ e in
      ap (λ (x : Work). x.submissions) (ok_inj e₂)

  finalize_success-Keeps :
      (code reference : Text) → Keeps v.submissions (finalize_success now code reference actor v)
  unfolding finalize_success transition
  finalize_success-Keeps code reference v' e =
      let (books, e₁, e₂) =
        >>=-eq-ok (complete_disbursement v.row.tenant_id v.row.amount (some v.row.id) v.books) _
          e in
      ap (λ (x : Work). x.submissions) (ok_inj e₂)

  flag-Keeps : (code : Text) → Keeps v.submissions (ok (flag_ambiguous code actor v))
  unfolding flag_ambiguous transition
  flag-Keeps code v' e = ap (λ (x : Work). x.submissions) (ok_inj e)

  apply_success-Keeps : (r : ProviderResult) → Keeps v.submissions (apply_success now r actor v)
  unfolding apply_success
  apply_success-Keeps r v' e = grind (arith, flag-Keeps, finalize_success-Keeps)

apply_outcome-Keeps :
    (now : ℕ) (actor : Option ℕ) (v : Work) (o : SelcomResultOutcome) (r : ProviderResult)
    → Keeps v.submissions (apply_outcome o now r actor v)
unfolding apply_outcome
apply_outcome-Keeps now actor v SelcomResultOutcome.success r v' e =
    apply_success-Keeps now actor v r v' e
apply_outcome-Keeps now actor v SelcomResultOutcome.inprogress r v' e =
    ap (λ (x : Work). x.submissions) (ok_inj e)
apply_outcome-Keeps now actor v SelcomResultOutcome.ambiguous r v' e = flag-Keeps now actor v _ v' e
apply_outcome-Keeps now actor v SelcomResultOutcome.fail r v' e =
    fail_withdrawal-Keeps now actor _ v' e

apply_provider_result-Keeps :
    (now : ℕ) (actor : Option ℕ) (v : Work) (r : ProviderResult)
    → Keeps v.submissions (apply_provider_result now r actor v)
unfolding apply_provider_result
apply_provider_result-Keeps now actor v r v' e =
    grind (arith, apply_outcome-Keeps now actor v (interpret_resultcode r.resultcode) r)

pub apply_query-Keeps :
    (now : ℕ) (actor : Option ℕ) (v : Work) (q : Answer TransactionResponse)
    → Keeps v.submissions (apply_query now q actor v)
unfolding apply_query
apply_query-Keeps now actor v unreadable v' e = cc
apply_query-Keeps now actor v (answered q) v' e = apply_provider_result-Keeps now actor v _ v' e
apply_query-Keeps now actor v _ v' e = ap (λ (x : Work). x.submissions) (ok_inj e)

-- The record of a run against the one of the same run with its answers lost.
abbrev pub Matches : Result Work → Result Work → List ℕ → Type 0
Matches r without before = (v' : Work) → r ≡ ok v' → v'.submissions ≡ logged without before

pub same-Matches : (r : Result Work) (before : List ℕ) → Matches r r before
same-Matches r before v' e = rw (e) refl

apply_process-Matches :
    (env : Env) (actor : Option ℕ) (v : Work) (p : Answer TransactionResponse) (before : List ℕ)
    → Matches
        (apply_process env p actor v)
        (apply_process (lost env) (lost_answer p) actor v)
        before
unfolding apply_process reconcile_locked apply_query
apply_process-Matches env actor v transport_error before v' e =
    apply_query-Keeps env.now actor v env.transaction_query v' e
apply_process-Matches env actor v api_error before v' e = fail_withdrawal-Keeps env.now actor v v' e
apply_process-Matches env actor v not_configured before v' e = cc
apply_process-Matches env actor v unreadable before v' e = cc
apply_process-Matches env actor v (answered p) before v' e =
    apply_provider_result-Keeps env.now actor _ _ v' e

module _ (env : Env) (actor : Option ℕ) (before : List ℕ) where
  send_transfer-Matches :
      (name : Text) (charge : Option ℤ) (v : Work)
      → Matches
          (send_transfer env name charge actor v)
          (send_transfer (lost env) name charge actor v)
          before
  unfolding send_transfer transition
  send_transfer-Matches name charge v =
      apply_process-Matches env actor _ env.transaction_process before

  after_lookup-Matches :
      (a : Answer (Option AccountLookupData)) (v : Work)
      → Matches (after_lookup env a actor v) (after_lookup (lost env) a actor v) before
  unfolding after_lookup with_verified_name
  after_lookup-Matches transport_error v v' e = same-Matches _ before v' e
  after_lookup-Matches api_error v v' e = same-Matches (fail_withdrawal env.now actor v) before v' e
  after_lookup-Matches not_configured v v' e =
      same-Matches (fail_withdrawal env.now actor v) before v' e
  after_lookup-Matches unreadable v v' e = same-Matches _ before v' e
  after_lookup-Matches (answered none) v v' e =
      same-Matches (fail_withdrawal env.now actor v) before v' e
  after_lookup-Matches (answered (some d)) v v' e = elim (Bool-cases (is_blank d.account_name)) [
    | inl y ↦ rw (y) (same-Matches (fail_withdrawal env.now actor v) before v' (if_true _ _ _ y e))
    | inr n ↦ rw (n) (send_transfer-Matches _ _ v v' (if_false _ _ _ n e))
  ]

  pub submit_to_selcom-Matches :
      (v : Work)
      → Matches (submit_to_selcom env actor v) (submit_to_selcom (lost env) actor v) before
  unfolding submit_to_selcom get_destination
  submit_to_selcom-Matches v v' e =
      grind (arith, same-Matches, after_lookup-Matches env.account_lookup v)

raised_not {ℓ} : {A : Type ℓ} {v : Work} {x : ApiError} → ◌≡◌ {A = Result Work} (err x) (ok v) → A
raised_not h = cc

module _ (env : Env) (v : Work) where
  approve-Matches :
      (actor : ℕ)
      → Matches
          (approve_withdrawal env actor v)
          (approve_withdrawal (lost env) actor v)
          v.submissions
  unfolding approve_withdrawal
  approve-Matches actor v' e = elim (Bool-cases (is_pending_approval v.row.status)) [
    | inl y ↦ rw (y) (submit_to_selcom-Matches env (some actor) v.submissions _ v' (rw (y) at e))
    | inr n ↦ raised_not (rw (n) at e)
  ]

  after_verify-Matches :
      (late : Bool) (actor : ℕ) (c : Bool × Withdrawal)
      → Matches
          (after_verify env late actor v c)
          (after_verify (lost env) late actor v c)
          v.submissions
  unfolding after_verify after_verified send_review_email is_exhausted
  after_verify-Matches late actor (false, w) v' e =
      same-Matches (after_refused env late actor (record v { row = w })) v.submissions v' e
  after_verify-Matches late actor (true, w) v' e = elim (Bool-cases w.approval_required) [
    | inl y ↦ rw (y) (ap (λ (x : Work). x.submissions) (ok_inj (rw (y) at e)))
    | inr n ↦ rw (n) (submit_to_selcom-Matches env (some actor) v.submissions _ v' (rw (n) at e))
  ]

  checked-Matches :
      (late : Bool) (actor : ℕ) (r : Result (Bool × Withdrawal))
      → Matches
          (r >>= λ c. after_verify env late actor v c)
          (r >>= λ c. after_verify (lost env) late actor v c)
          v.submissions
  checked-Matches late actor (err x) v' e = cc
  checked-Matches late actor (ok c) v' e = after_verify-Matches late actor c v' e

  confirm-Matches :
      (actor : ℕ) (code : Text)
      → Matches
          (confirm_two_factor env actor code v)
          (confirm_two_factor (lost env) actor code v)
          v.submissions
  unfolding confirm_two_factor verify verify_stored verify_hash hash_code is_exhausted
  confirm-Matches actor code v' e = elim (Bool-cases (v.row.requested_by == actor)) [
    | inl y ↦ elim (Bool-cases (is_draft v.row.status)) [
      | inl z ↦ rw (y, z) (checked-Matches _ actor (verify env code v.row) v' (rw (y, z) at e))
      | inr n ↦ raised_not (rw (y, n) at e)
    ]
    | inr n ↦ raised_not (rw (n) at e)
  ]

  -- Where a method does not raise, the transfers in its record are those that contacted gives, the
  -- ones that the method sends where every answer is lost.
  pub run_method-contacted_ok :
      (m : Method) (v' : Work) → run_method env m v ≡ ok v' → v'.submissions ≡ contacted env m v
  unfolding contacted run_method resend_otp issue_and_send_otp issue_challenge hash_code
      resolve_verified_email cooldown_left reject_withdrawal cancel_withdrawal reverse_withdrawal
      reconcile_withdrawal reconcile_if_pending reconcile_locked apply_query
  run_method-contacted_ok (resend actor) v' e = same-Matches _ v.submissions v' e
  run_method-contacted_ok (confirm actor code) v' e = confirm-Matches actor code v' e
  run_method-contacted_ok (approve actor) v' e = approve-Matches actor v' e
  run_method-contacted_ok (reject actor reason) v' e = same-Matches _ v.submissions v' e
  run_method-contacted_ok (cancel actor) v' e = same-Matches _ v.submissions v' e
  run_method-contacted_ok (reverse actor reason) v' e = same-Matches _ v.submissions v' e
  run_method-contacted_ok reconcile v' e =
      apply_query-Keeps env.now none v env.transaction_query v' e
  run_method-contacted_ok reconcile_pending v' e =
      ground (arith, apply_query-Keeps env.now none v env.transaction_query v')
  run_method-contacted_ok (disbursement_result succeeded reference) v' e =
      same-Matches _ v.submissions v' e
