-- ===== src/Payouts/Twice.antt =====
-- No transfer is sent twice, requests that raise included.
use infinity_radius.Prelude.{
  ℕ, Bool, true, false, Option, some, ◌≡◌, refl, sym, ap, subst, ◌∙◌, arith, Text, Bool-cases, inl,
  inr, lookup, ◌==◌,
}
use infinity_radius.Core.Enums.{WithdrawalStatus}
use infinity_radius.Core.Errors.{Result, ok, err, ApiError, ◌>>=◌}
use infinity_radius.Payouts.Tables.{Env, Work, Store, Withdrawal, find, open_work, save}
use infinity_radius.Payouts.Transitions.{transition}
use infinity_radius.Payouts.Funds.{holds_funds}
use infinity_radius.Payouts.TwoFactor.{
  verify, verify_stored, verify_hash, hash_code, issue_challenge, is_exhausted,
}
use infinity_radius.Payouts.Codes.{verify-Accepts}
use infinity_radius.Payouts.Service.{resolve_verified_email, issue_and_send_otp}
use infinity_radius.Payouts.Submission.{reconcile_locked, apply_query}
use infinity_radius.Payouts.Review.{
  Method, run_method, resend, confirm, approve, reject, cancel, reverse, reconcile,
  reconcile_pending, disbursement_result, is_draft, is_pending_approval, resend_otp, cooldown_left,
  confirm_two_factor, after_verify, after_verified, after_refused, approve_withdrawal,
  reject_withdrawal, cancel_withdrawal, reverse_withdrawal, reconcile_withdrawal,
  reconcile_if_pending, send_review_email, on_row,
}
use infinity_radius.Payouts.Contact.{lost, logged, contacted, sent_by, contacted_row}
use infinity_radius.Payouts.Transfers.{
  IsCovered, kept-IsCovered, is_read, submit_to_selcom-logged, raised-logged,
}
use infinity_radius.Payouts.Liveness.{AllPositive, positive_lookup, holding_covered}
use infinity_radius.Payouts.Backing.{find_lem, IsBacked}
use infinity_radius.Payouts.Once.{IsOnce, OnceRow, on_row-IsOnce, request_withdrawal-IsOnce}
use infinity_radius.Payouts.Reachable.{AllFunded, Step-AllPositive, Step-AllFunded}
use infinity_radius.Payouts.System.{
  Step, Steps, method, raised, request, call, done, next, Step-IsBacked,
}

ok_not_err {ℓ} : {A : Type ℓ} {v : Work} {x : ApiError} → ◌≡◌ {A = Result Work} (ok v) (err x) → A
ok_not_err h = cc

-- What has to hold where a method may send.
abbrev Covers : Work → Type 0
Covers v = holds_funds v.row.status ≡ true → IsCovered v

draft_holds : (s : WithdrawalStatus) → is_draft s ≡ true → holds_funds s ≡ true
unfolding is_draft holds_funds
draft_holds WithdrawalStatus.draft h = refl
draft_holds _ h = cc

pending_holds : (s : WithdrawalStatus) → is_pending_approval s ≡ true → holds_funds s ≡ true
unfolding is_pending_approval holds_funds
pending_holds WithdrawalStatus.pending_approval h = refl
pending_holds _ h = cc

module _ (env : Env) (x : ApiError) (h : is_read env.transaction_process ≡ true)
    (k : is_read env.transaction_query ≡ true) (v : Work) (c : Covers v) where
  approve-logged :
      (actor : ℕ)
      → approve_withdrawal env actor v ≡ err x
      → logged (approve_withdrawal (lost env) actor v) v.submissions ≡ v.submissions
  unfolding approve_withdrawal transition
  approve-logged actor e = elim (Bool-cases (is_pending_approval v.row.status)) [
    | inl y ↦ rw (y) (
        submit_to_selcom-logged env (some actor) x v.submissions h k _
          (kept-IsCovered v _ (c (pending_holds _ y)) refl refl refl) (rw (y) at e))
    | inr n ↦ rw (n) refl
  ]

  after_verified-logged :
      (actor : ℕ) (w : Withdrawal)
      → IsCovered v
      → w ≡ record v.row { two_factor_confirmed_at = some env.now }
      → after_verified env actor (record v { row = w }) ≡ err x
      → logged (after_verified (lost env) actor (record v { row = w })) v.submissions
        ≡ v.submissions
  unfolding after_verified transition send_review_email
  after_verified-logged actor w cover q e = elim (Bool-cases w.approval_required) [
    | inl y ↦ ok_not_err (rw (y) at e)
    | inr n ↦ rw (n) (
        submit_to_selcom-logged env (some actor) x v.submissions h k _
          (kept-IsCovered v _ cover (ap (λ (y : Withdrawal). y.amount) q)
            (ap (λ (y : Withdrawal). y.tenant_id) q) refl)
          (rw (n) at e))
  ]

  after_verify-logged :
      (late : Bool) (actor : ℕ) (checked : Bool) (w : Withdrawal)
      → IsCovered v
      → (checked ≡ true → w ≡ record v.row { two_factor_confirmed_at = some env.now })
      → after_verify env late actor v (checked, w) ≡ err x
      → logged (after_verify (lost env) late actor v (checked, w)) v.submissions ≡ v.submissions
  unfolding after_verify is_exhausted
  after_verify-logged late actor true w cover q e = after_verified-logged actor w cover (q refl) e
  after_verify-logged late actor false w cover q e =
      raised-logged (after_refused env late actor (record v { row = w })) v.submissions e

  checked-logged :
      (late : Bool) (actor : ℕ) (code : Text) (r : Result (Bool × Withdrawal))
      → verify env code v.row ≡ r
      → IsCovered v
      → (r >>= λ checked. after_verify env late actor v checked) ≡ err x
      → logged (r >>= λ checked. after_verify (lost env) late actor v checked) v.submissions
        ≡ v.submissions
  checked-logged late actor code (err y) p cover e = refl
  checked-logged late actor code (ok (b, w)) p cover e =
      after_verify-logged late actor b w cover
        (λ t. (verify-Accepts env code v.row w (p ∙ ap (λ (b' : Bool). ok (b', w)) t)).1) e

  confirm-logged :
      (actor : ℕ) (code : Text)
      → confirm_two_factor env actor code v ≡ err x
      → logged (confirm_two_factor (lost env) actor code v) v.submissions ≡ v.submissions
  unfolding confirm_two_factor verify verify_stored verify_hash hash_code is_exhausted
  confirm-logged actor code e = elim (Bool-cases (v.row.requested_by == actor)) [
    | inl y ↦ elim (Bool-cases (is_draft v.row.status)) [
      | inl z ↦
          rw (y, z)
            (checked-logged _ actor code (verify env code v.row) refl (c (draft_holds _ z))
              (rw (y, z) at e))
      | inr n ↦ rw (y, n) refl
    ]
    | inr n ↦ rw (n) refl
  ]

  run_method-contacted :
      (m : Method) → run_method env m v ≡ err x → contacted env m v ≡ v.submissions
  unfolding contacted run_method resend_otp issue_and_send_otp issue_challenge hash_code
      resolve_verified_email cooldown_left reject_withdrawal cancel_withdrawal reverse_withdrawal
      reconcile_withdrawal reconcile_if_pending reconcile_locked apply_query
  run_method-contacted (resend actor) e = raised-logged _ v.submissions e
  run_method-contacted (confirm actor code) e = confirm-logged actor code e
  run_method-contacted (approve actor) e = approve-logged actor e
  run_method-contacted (reject actor reason) e = raised-logged _ v.submissions e
  run_method-contacted (cancel actor) e = raised-logged _ v.submissions e
  run_method-contacted (reverse actor reason) e = raised-logged _ v.submissions e
  run_method-contacted reconcile e = refl
  run_method-contacted reconcile_pending e = ground arith
  run_method-contacted (disbursement_result succeeded reference) e = raised-logged _ v.submissions e

not_saved {ℓ₁ ℓ₂} :
    {A : Type ℓ₁} {B : Type ℓ₂} (r : Result A) (f : A → B) {x : ApiError}
    → (r >>= λ a. ok (f a)) ≡ err x
    → r ≡ err x
not_saved (ok a) f e = cc
not_saved (err y) f e = cc

sent_row :
    (env : Env) (m : Method) (id : ℕ) (s : Store) (r : Result Withdrawal) (x : ApiError)
    → is_read env.transaction_process ≡ true
    → is_read env.transaction_query ≡ true
    → ((w : Withdrawal) → r ≡ ok w → Covers (open_work w s))
    → (r >>= λ w. run_method env m (open_work w s) >>= λ v. ok (save id v s)) ≡ err x
    → contacted_row env m s r ≡ s.submissions
unfolding open_work
sent_row env m id s (err y) x h k c e = refl
sent_row env m id s (ok w) x h k c e =
    run_method-contacted env x h k (open_work w s) (c w refl) m (not_saved _ _ e)

-- The tables that any requests leave: amounts positive, balances not negative, columns backed.
pub record IsSound (s : Store) : Type 0 where
  pub positive : AllPositive s.withdrawals
  pub funded : AllFunded s.books
  pub backed : (u : ℕ) → IsBacked u s

IsSound-Covers :
    (tenant : Option ℕ) (id : ℕ) (s : Store) (w : Withdrawal)
    → IsSound s
    → find tenant id s ≡ ok w
    → Covers (open_work w s)
unfolding open_work
IsSound-Covers tenant id s w h e g =
    let l = find_lem tenant id s w e in
    let f = h.funded w.tenant_id in
    record {
      positive = positive_lookup id w s.withdrawals h.positive l;
      is_reserved = holding_covered id w s h.positive (h.backed w.tenant_id) l g;
      no_debt = f.available_nonneg;
      no_loss = f.disbursed_nonneg;
    }

raised-sent_by :
    (env : Env) (m : Method) (tenant : Option ℕ) (id : ℕ) (s : Store) (x : ApiError)
    → is_read env.transaction_process ≡ true
    → is_read env.transaction_query ≡ true
    → IsSound s
    → on_row tenant id (run_method env m) s ≡ err x
    → sent_by env m tenant id s ≡ s.submissions
unfolding sent_by on_row
raised-sent_by env m tenant id s x h k sound e =
    sent_row env m id s (find tenant id s) x h k (λ w f. IsSound-Covers tenant id s w sound f) e

Step-IsSound : (s s' : Store) → Step s s' → IsSound s → IsSound s'
Step-IsSound s s' step h = record {
  positive = Step-AllPositive s s' step h.positive;
  funded = Step-AllFunded s s' step h.funded;
  backed = λ u. Step-IsBacked u s s' step (h.backed u);
}

-- In the requests that raised, no answer to a transfer, and none of the query that follows it, failed
-- to validate.
unfoldable pub AllRead : {s s' : Store} → Steps s s' → Type 0
AllRead done = Unit {0}
AllRead (next (raised env m tenant id e) xs) =
    (is_read env.transaction_process ≡ true) × (is_read env.transaction_query ≡ true) × AllRead xs
AllRead (next (method env m tenant id e) xs) = AllRead xs
AllRead (next (request env mode enabled t actor id key d x l e) xs) = AllRead xs
AllRead (next (call t c g e) xs) = AllRead xs

-- From tables that are sound (amounts positive, no balance below zero, every tenant backed) and
-- where every withdrawal has its transfer at most once, counting the one that a DRAFT,
-- PENDING_APPROVAL or APPROVED withdrawal may still send, any requests leave it so: no transfer is
-- sent to Selcom twice for a withdrawal. The requests may raise, at any point; what they have sent
-- is then kept although the tables are not. In those that raise, the answer to the transfer and to
-- the query after it must be no body that fails to validate.
pub Steps-IsOnce :
    (k : ℕ) (s s' : Store)
    → IsSound s
    → ((j : ℕ) → IsOnce j s)
    → (xs : Steps s s') → AllRead xs
    → IsOnce k s'
unfolding AllRead
Steps-IsOnce k s s' sound h done r = h k
Steps-IsOnce k s s'' sound h (next {s' = s'} (raised env m tenant id e) xs) (p, q, r) =
    let same = raised-sent_by env m tenant id s _ p q sound e in
    Steps-IsOnce k _ s'' (Step-IsSound s _ (raised env m tenant id e) sound)
      (λ j. subst (λ ys. OnceRow j ys (lookup j s.withdrawals)) (sym same) (h j)) xs r
Steps-IsOnce k s s'' sound h (next {s' = s'} (method env m tenant id e) xs) r =
    Steps-IsOnce k s' s'' (Step-IsSound s s' (method env m tenant id e) sound)
      (λ j. on_row-IsOnce env m tenant id j s s' h e) xs r
Steps-IsOnce k s s'' sound h (next {s' = s'} (request env mode enabled t actor id key d x l e) xs)
      r =
    Steps-IsOnce k s' s''
      (Step-IsSound s s' (request env mode enabled t actor id key d x l e) sound)
      (λ j. request_withdrawal-IsOnce env mode enabled t actor id key d x j s s' h l e) xs r
Steps-IsOnce k s s'' sound h (next {s' = s'} (call t c g e) xs) r =
    Steps-IsOnce k _ s'' (Step-IsSound s _ (call t c g e) sound) h xs r
