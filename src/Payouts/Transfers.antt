-- ===== src/Payouts/Transfers.antt =====
-- No transfer is sent twice, requests that raise included.
use infinity_radius.Prelude.{
  ℕ, Bool, true, false, Option, none, some, List, ◌≡◌, refl, ℤ, pos, ◌<ℤ◌, ◌≤ℤ◌, ◌+ℤ◌, ◌-ℤ◌,
  int_laws, arith, Text, is_blank, Bool-cases, inl, inr,
}
use infinity_radius.Core.Errors.{Result, ok, err, ApiError, ◌>>=◌, if_true, if_false}
use infinity_radius.Wallet.Tables.{get_bucket, set_bucket, Books, locked_wallet}
use infinity_radius.Wallet.Operations.{complete_disbursement, transfer_bucket, move_bucket}
use infinity_radius.Payouts.Tables.{
  Env, Work, Answer, TransactionResponse, AccountLookupData, transport_error, api_error,
  not_configured, unreadable, answered, get_destination,
}
use infinity_radius.Payouts.Provider.{SelcomResultOutcome, interpret_resultcode}
use infinity_radius.Payouts.Transitions.{
  ProviderResult, fail_withdrawal, apply_provider_result, apply_outcome, apply_success,
  finalize_success, transition,
}
use infinity_radius.Payouts.Submission.{
  apply_query, apply_process, send_transfer, with_verified_name, after_lookup, submit_to_selcom,
  reconcile_locked,
}
use infinity_radius.Payouts.Contact.{lost_answer, lost, logged}
use infinity_radius.Payouts.Liveness.{release_succeeds}

-- The wallet of a withdrawal has what its release and its completion take.
pub record IsCovered (v : Work) : Type 0 where
  pub positive : pos 0 <ℤ v.row.amount
  pub is_reserved :
      v.row.amount ≤ℤ (locked_wallet v.row.tenant_id v.books.wallets).reserved_balance_tzs
  pub no_debt : pos 0 ≤ℤ (locked_wallet v.row.tenant_id v.books.wallets).available_balance_tzs
  pub no_loss : pos 0 ≤ℤ (locked_wallet v.row.tenant_id v.books.wallets).total_disbursed_tzs

pub kept-IsCovered :
    (v v' : Work)
    → IsCovered v
    → v'.row.amount ≡ v.row.amount
    → v'.row.tenant_id ≡ v.row.tenant_id
    → v'.books ≡ v.books
    → IsCovered v'
kept-IsCovered v v' c a t b = record {
  positive = rw (a) c.positive;
  is_reserved = rw (a, t, b) c.is_reserved;
  no_debt = rw (t, b) c.no_debt;
  no_loss = rw (t, b) c.no_loss;
}

-- A call that did not raise.
unfoldable pub is_ok {ℓ} : {A : Type ℓ} → Result A → Bool
is_ok (ok a) = true
is_ok (err e) = false

not_raised {ℓ₁ ℓ₂} :
    {A : Type ℓ₁} {B : Type ℓ₂} (r : Result A) {x : ApiError} → is_ok r ≡ true → r ≡ err x → B
unfolding is_ok
not_raised (ok a) h e = cc
not_raised (err y) h e = cc

complete-is_ok :
    (t : ℕ) (amount : ℤ) (reference : Option ℕ) (b : Books)
    → pos 0 <ℤ amount
    → amount ≤ℤ (locked_wallet t b.wallets).reserved_balance_tzs
    → pos 0 ≤ℤ (locked_wallet t b.wallets).total_disbursed_tzs
    → is_ok (complete_disbursement t amount reference b) ≡ true
unfolding complete_disbursement transfer_bucket move_bucket get_bucket set_bucket is_ok
complete-is_ok t amount reference b p r a =
    let w = locked_wallet t b.wallets in
    let left : pos 0 ≤ℤ w.reserved_balance_tzs +ℤ (pos 0 -ℤ amount) = omega int_laws in
    let room : pos 0 ≤ℤ w.total_disbursed_tzs +ℤ amount = omega int_laws in ground arith

bind-is_ok {ℓ₁ ℓ₂} :
    {A : Type ℓ₁} {B : Type ℓ₂} (r : Result A) (f : A → B)
    → is_ok r ≡ true
    → is_ok (r >>= λ a. ok (f a)) ≡ true
unfolding is_ok
bind-is_ok (ok a) f h = refl
bind-is_ok (err e) f h = cc

module _ (now : ℕ) (actor : Option ℕ) (v : Work) (c : IsCovered v) where
  fail_withdrawal-is_ok : is_ok (fail_withdrawal now actor v) ≡ true
  unfolding fail_withdrawal is_ok
  fail_withdrawal-is_ok =
      let (b, e) =
        release_succeeds v.row.tenant_id v.row.amount v.books c.positive c.is_reserved c.no_debt in
      rw (e) refl

  finalize_success-is_ok :
      (code reference : Text) → is_ok (finalize_success now code reference actor v) ≡ true
  unfolding finalize_success
  finalize_success-is_ok code reference =
      bind-is_ok (complete_disbursement v.row.tenant_id v.row.amount (some v.row.id) v.books) _ (
        complete-is_ok v.row.tenant_id v.row.amount (some v.row.id) v.books c.positive c.is_reserved
          c.no_loss)

  apply_success-is_ok : (r : ProviderResult) → is_ok (apply_success now r actor v) ≡ true
  unfolding apply_success is_ok
  apply_success-is_ok r = grind (arith, finalize_success-is_ok)

apply_outcome-is_ok :
    (now : ℕ) (actor : Option ℕ) (v : Work) (o : SelcomResultOutcome) (r : ProviderResult)
    → IsCovered v
    → is_ok (apply_outcome o now r actor v) ≡ true
unfolding apply_outcome is_ok
apply_outcome-is_ok now actor v SelcomResultOutcome.success r c =
    apply_success-is_ok now actor v c r
apply_outcome-is_ok now actor v SelcomResultOutcome.inprogress r c = refl
apply_outcome-is_ok now actor v SelcomResultOutcome.ambiguous r c = refl
apply_outcome-is_ok now actor v SelcomResultOutcome.fail r c =
    fail_withdrawal-is_ok now actor _ (kept-IsCovered v _ c refl refl refl)

apply_provider_result-is_ok :
    (now : ℕ) (actor : Option ℕ) (v : Work) (r : ProviderResult)
    → IsCovered v
    → is_ok (apply_provider_result now r actor v) ≡ true
unfolding apply_provider_result is_ok
apply_provider_result-is_ok now actor v r c =
    ground (arith, apply_outcome-is_ok now actor v (interpret_resultcode r.resultcode) r c)

-- An answer that validates, or none at all.
unfoldable pub is_read : Answer TransactionResponse → Bool
is_read unreadable = false
is_read transport_error = true
is_read api_error = true
is_read not_configured = true
is_read (answered p) = true

apply_query-is_ok :
    (now : ℕ) (actor : Option ℕ) (v : Work) (q : Answer TransactionResponse)
    → IsCovered v
    → is_read q ≡ true
    → is_ok (apply_query now q actor v) ≡ true
unfolding apply_query is_ok is_read
apply_query-is_ok now actor v transport_error c h = refl
apply_query-is_ok now actor v api_error c h = refl
apply_query-is_ok now actor v not_configured c h = refl
apply_query-is_ok now actor v unreadable c h = cc
apply_query-is_ok now actor v (answered q) c h = apply_provider_result-is_ok now actor v _ c

-- After the sending, only a client that is not configured raises, and it has sent nothing.
apply_process-logged :
    (env : Env) (actor : Option ℕ) (v : Work) (p : Answer TransactionResponse) (x : ApiError)
    (before : List ℕ)
    → IsCovered v
    → is_read p ≡ true
    → is_read env.transaction_query ≡ true
    → apply_process env p actor v ≡ err x
    → logged (apply_process (lost env) (lost_answer p) actor v) before ≡ before
unfolding apply_process reconcile_locked is_read
apply_process-logged env actor v transport_error x before c h k e =
    not_raised (apply_query env.now env.transaction_query actor v)
      (apply_query-is_ok env.now actor v env.transaction_query c k) e
apply_process-logged env actor v api_error x before c h k e =
    not_raised (fail_withdrawal env.now actor v) (fail_withdrawal-is_ok env.now actor v c) e
apply_process-logged env actor v not_configured x before c h k e = refl
apply_process-logged env actor v unreadable x before c h k e = cc
apply_process-logged env actor v (answered p) x before c h k e =
    not_raised (apply_provider_result env.now _ actor _)
      (apply_provider_result-is_ok env.now actor _ _ (kept-IsCovered v _ c refl refl refl)) e

-- What does not send is the same with and without the answers.
pub raised-logged :
    (r : Result Work) {x : ApiError} (before : List ℕ) → r ≡ err x → logged r before ≡ before
raised-logged r before e = rw (e) refl

module _ (env : Env) (actor : Option ℕ) (x : ApiError) (before : List ℕ)
    (h : is_read env.transaction_process ≡ true) (k : is_read env.transaction_query ≡ true) where
  send_transfer-logged :
      (name : Text) (charge : Option ℤ) (v : Work)
      → IsCovered v
      → send_transfer env name charge actor v ≡ err x
      → logged (send_transfer (lost env) name charge actor v) before ≡ before
  unfolding send_transfer transition
  send_transfer-logged name charge v c e =
      apply_process-logged env actor _ env.transaction_process x before
        (kept-IsCovered v _ c refl refl refl) h k e

  with_verified_name-logged :
      (d : Option AccountLookupData) (v : Work)
      → IsCovered v
      → with_verified_name env d actor v ≡ err x
      → logged (with_verified_name (lost env) d actor v) before ≡ before
  unfolding with_verified_name
  with_verified_name-logged none v c e = raised-logged _ before e
  with_verified_name-logged (some d) v c e = elim (Bool-cases (is_blank d.account_name)) [
    | inl y ↦ rw (y) (raised-logged _ before (if_true _ _ _ y e))
    | inr n ↦ rw (n) (send_transfer-logged _ _ v c (if_false _ _ _ n e))
  ]

  after_lookup-logged :
      (a : Answer (Option AccountLookupData)) (v : Work)
      → IsCovered v
      → after_lookup env a actor v ≡ err x
      → logged (after_lookup (lost env) a actor v) before ≡ before
  unfolding after_lookup
  after_lookup-logged transport_error v c e = cc
  after_lookup-logged api_error v c e = raised-logged _ before e
  after_lookup-logged not_configured v c e = raised-logged _ before e
  after_lookup-logged unreadable v c e = refl
  after_lookup-logged (answered d) v c e = with_verified_name-logged d v c e

  pub submit_to_selcom-logged :
      (v : Work)
      → IsCovered v
      → submit_to_selcom env actor v ≡ err x
      → logged (submit_to_selcom (lost env) actor v) before ≡ before
  unfolding submit_to_selcom get_destination
  submit_to_selcom-logged v c e =
      grind (arith, raised-logged, after_lookup-logged env.account_lookup v c)
