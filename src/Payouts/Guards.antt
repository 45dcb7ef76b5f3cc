-- ===== src/Payouts/Guards.antt =====
-- What a guard that let a call through says, and what the code of a withdrawal leaves as it is.
pub use infinity_radius.Core.Errors.{guarded}
use infinity_radius.Prelude.{true, false, if◌then◌else◌, ◌⊎◌}
use infinity_radius.Prelude.{refl, arith, true, ◌||◌}
use infinity_radius.Core.Enums.{WithdrawalStatus}
use infinity_radius.Payouts.Tables.{Env, Withdrawal}
use infinity_radius.Payouts.Review.{is_pending_approval, is_draft, is_success, is_processing}
use infinity_radius.Payouts.TwoFactor.{
  verify, verify_stored, verify_hash, hash_code, otp_secret, is_exhausted, issue_challenge,
}
use infinity_radius.Prelude.{◌≡◌, Text, inl, Bool, inr}
use infinity_radius.Payouts.Moves.{Release, draft_cancelled, review_cancelled}
use infinity_radius.Payouts.Transitions.{is_open}
use infinity_radius.Core.Errors.{ok}

pub if_cases {ℓ} :
    {A : Type ℓ} (b : Bool) (x y : A) {z : A} → (if b then x else y) ≡ z → (x ≡ z) ⊎ (y ≡ z)
if_cases true x y e = inl e
if_cases false x y e = inr e

pub draft_cases : (s : WithdrawalStatus) → is_draft s ≡ true → s ≡ WithdrawalStatus.draft
unfolding is_draft
draft_cases WithdrawalStatus.draft h = refl
draft_cases _ h = cc

pub pending_cases :
    (s : WithdrawalStatus) → is_pending_approval s ≡ true → s ≡ WithdrawalStatus.pending_approval
unfolding is_pending_approval
pending_cases WithdrawalStatus.pending_approval h = refl
pending_cases _ h = cc

pub success_cases : (s : WithdrawalStatus) → is_success s ≡ true → s ≡ WithdrawalStatus.success
unfolding is_success
success_cases WithdrawalStatus.success h = refl
success_cases _ h = cc

pub cancellable_cases :
    (s : WithdrawalStatus)
    → (is_draft s || is_pending_approval s) ≡ true
    → Release s WithdrawalStatus.cancelled
unfolding is_draft is_pending_approval
cancellable_cases WithdrawalStatus.draft h = draft_cancelled
cancellable_cases WithdrawalStatus.pending_approval h = review_cancelled
cancellable_cases _ h = cc

pub processing_cases :
    (s : WithdrawalStatus) → is_processing s ≡ true → s ≡ WithdrawalStatus.processing
unfolding is_processing
processing_cases WithdrawalStatus.processing h = refl
processing_cases _ h = cc

pub open_processing : (s : WithdrawalStatus) → is_processing s ≡ true → is_open s ≡ true
unfolding is_open is_processing
open_processing WithdrawalStatus.processing h = refl
open_processing _ h = cc

pub issue_challenge_lem :
    (env : Env) (email : Text) (w w' : Withdrawal)
    → issue_challenge env email w ≡ ok w'
    → (w'.id ≡ w.id)
      × (w'.tenant_id ≡ w.tenant_id)
      × (w'.amount ≡ w.amount)
      × (w'.status ≡ w.status)
unfolding issue_challenge hash_code otp_secret
issue_challenge_lem env email w w' e = ground arith

pub verify_lem :
    (env : Env) (code : Text) (w : Withdrawal) (checked : Bool × Withdrawal)
    → verify env code w ≡ ok checked
    → (checked.1.id ≡ w.id)
      × (checked.1.tenant_id ≡ w.tenant_id)
      × (checked.1.amount ≡ w.amount)
      × (checked.1.status ≡ w.status)
unfolding verify verify_stored verify_hash hash_code otp_secret is_exhausted
verify_lem env code w checked e = ground arith
