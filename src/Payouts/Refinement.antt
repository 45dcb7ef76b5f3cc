-- ===== src/Payouts/Refinement.antt =====
-- `_apply_provider_result`, `_reconcile_locked` and `_submit_to_selcom` against the moves.
use infinity_radius.Prelude.{refl, ℤ, ◌∷◌}
use infinity_radius.Core.Errors.{ok, >>=-eq-ok, ok_inj}
use infinity_radius.Payouts.Tables.{
  Work, Withdrawal, Env, Answer, TransactionResponse, answered, AccountLookupData, transport_error,
  api_error, not_configured, unreadable,
}
use infinity_radius.Payouts.Transitions.{
  fail_withdrawal, is_open, ProviderResult, flag_ambiguous, finalize_success, apply_success,
  apply_outcome, apply_provider_result, transition,
}
use infinity_radius.Prelude.{ℕ, ◌≡◌, Option, true, Text, arith, some}
use infinity_radius.Core.Enums.{WithdrawalStatus}
use infinity_radius.Payouts.Moves.{
  Move, Release, edit, Moves, Advance, doubted, processing_failed, ◌⨟◌, release, still_doubted,
  advance, complete, stay, ambiguous_failed, approved_failed, send,
}
use infinity_radius.Payouts.Provider.{SelcomResultOutcome}
use infinity_radius.Wallet.Operations.{release_reservation, complete_disbursement}
use infinity_radius.Payouts.Submission.{
  apply_query, apply_process, reconcile_locked, send_transfer, after_lookup, submit_to_selcom,
  with_verified_name, is_approved,
}
use mathlib.Core.Option.{none}

pub Moves-refl : (v v' : Work) → ok v ≡ ok v' → Moves v v'
Moves-refl v v' e = rw (ok_inj e) stay

-- An edit of the row alone.
abbrev pub touch :
    (v : Work) (row : Withdrawal)
    → row.id ≡ v.row.id
    → row.tenant_id ≡ v.row.tenant_id
    → row.amount ≡ v.row.amount
    → row.status ≡ v.row.status
    → Move v (record v { row = row })
touch v row a b c d = edit v row v.audit a b c d

pub fail_withdrawal-Moves :
    (now : ℕ) (actor : Option ℕ) (v v' : Work)
    → Release v.row.status WithdrawalStatus.failed
    → fail_withdrawal now actor v ≡ ok v'
    → Moves v v'
unfolding fail_withdrawal
fail_withdrawal-Moves now actor v v' r e =
    let (books, e₁, e₂) =
      >>=-eq-ok (release_reservation v.row.tenant_id v.row.amount v.books) _ e in
    rw (ok_inj e₂) (
      touch v (record v.row { completed_at = some now }) refl refl refl refl
      ⨟ release _ WithdrawalStatus.failed actor books r e₁
      ⨟ stay)

open_cases :
    (s : WithdrawalStatus)
    → is_open s ≡ true
    → Advance s WithdrawalStatus.ambiguous × Release s WithdrawalStatus.failed
unfolding is_open
open_cases WithdrawalStatus.processing h = (doubted, processing_failed)
open_cases WithdrawalStatus.ambiguous h = (still_doubted, ambiguous_failed)
open_cases _ h = cc

module _ (now : ℕ) (r : ProviderResult) (actor : Option ℕ) (v v' : Work)
    (o : is_open v.row.status ≡ true) where
  flag_ambiguous-Moves : (code : Text) → ok (flag_ambiguous code actor v) ≡ ok v' → Moves v v'
  unfolding flag_ambiguous
  flag_ambiguous-Moves code e = rw (ok_inj e) (
      touch v (record v.row { provider_result_code = some code }) refl refl refl refl
      ⨟ advance _ WithdrawalStatus.ambiguous actor (open_cases v.row.status o).0
      ⨟ stay)

  finalize_success-Moves :
      (code reference : Text) → finalize_success now code reference actor v ≡ ok v' → Moves v v'
  unfolding finalize_success
  finalize_success-Moves code reference e =
      let (books, e₁, e₂) =
        >>=-eq-ok (complete_disbursement v.row.tenant_id v.row.amount (some v.row.id) v.books) _
          e in
      rw (ok_inj e₂) (
        touch v
          (record v.row {
            provider_reference = some reference;
            provider_result_code = some code;
            completed_at = some now;
          })
          refl refl refl refl
        ⨟ complete _ actor books o e₁
        ⨟ stay)

  apply_success-Moves : apply_success now r actor v ≡ ok v' → Moves v v'
  unfolding apply_success
  apply_success-Moves e = grind (arith, flag_ambiguous-Moves, finalize_success-Moves)

  apply_outcome-Moves :
      (o : SelcomResultOutcome) → apply_outcome o now r actor v ≡ ok v' → Moves v v'
  unfolding apply_outcome
  apply_outcome-Moves SelcomResultOutcome.success e = apply_success-Moves e
  apply_outcome-Moves SelcomResultOutcome.inprogress e =
      rw (ok_inj e) (touch v _ refl refl refl refl ⨟ stay)
  apply_outcome-Moves SelcomResultOutcome.ambiguous e = flag_ambiguous-Moves _ e
  apply_outcome-Moves SelcomResultOutcome.fail e =
      touch v _ refl refl refl refl
      ⨟ fail_withdrawal-Moves now actor _ v' (open_cases v.row.status o).1 e

pub apply_provider_result-Moves :
    (now : ℕ) (r : ProviderResult) (actor : Option ℕ) (v v' : Work)
    → apply_provider_result now r actor v ≡ ok v'
    → Moves v v'
unfolding apply_provider_result
apply_provider_result-Moves now r actor v v' e =
    grind (arith, apply_outcome-Moves now r actor v v', Moves-refl)

pub apply_query-Moves :
    (now : ℕ) (a : Answer TransactionResponse) (actor : Option ℕ) (v v' : Work)
    → apply_query now a actor v ≡ ok v'
    → Moves v v'
unfolding apply_query
apply_query-Moves now (answered q) actor v v' e = apply_provider_result-Moves now _ actor v v' e
apply_query-Moves now unreadable actor v v' e = cc
apply_query-Moves now _ actor v v' e = rw (ok_inj e) stay

pub transition-status :
    (s : WithdrawalStatus) (actor : Option ℕ) (v : Work) → (transition s actor v).row.status ≡ s
unfolding transition
transition-status s actor v = refl

apply_process-Moves :
    (env : Env) (a : Answer TransactionResponse) (actor : Option ℕ) (v v' : Work)
    → v.row.status ≡ WithdrawalStatus.processing
    → apply_process env a actor v ≡ ok v'
    → Moves v v'
unfolding apply_process reconcile_locked
apply_process-Moves env transport_error actor v v' p e =
    apply_query-Moves env.now env.transaction_query actor v v' e
apply_process-Moves env api_error actor v v' p e =
    fail_withdrawal-Moves env.now actor v v' (rw (p) processing_failed) e
apply_process-Moves env not_configured actor v v' p e = cc
apply_process-Moves env unreadable actor v v' p e = cc
apply_process-Moves env (answered a) actor v v' p e =
    touch v _ refl refl refl refl ⨟ apply_provider_result-Moves env.now _ actor _ v' e

module _ (env : Env) (actor : Option ℕ) (v v' : Work)
    (approved : v.row.status ≡ WithdrawalStatus.approved) where
  send_transfer-Moves :
      (name : Text) (charge : Option ℤ) → send_transfer env name charge actor v ≡ ok v' → Moves v v'
  unfolding send_transfer
  send_transfer-Moves name charge e =
      let row = record v.row { verified_recipient_name = some name; provider_charge = charge } in
      let u = transition WithdrawalStatus.processing actor (record v { row = row }) in
      touch v row refl refl refl refl
      ⨟ send (record v { row = row }) actor approved
      ⨟ touch (record u { submissions = u.row.id ∷ u.submissions })
          (record u.row { submitted_at = some env.now }) refl refl refl refl
      ⨟ apply_process-Moves env env.transaction_process actor _ v' (transition-status _ actor _) e

  fail_approved : fail_withdrawal env.now actor v ≡ ok v' → Moves v v'
  fail_approved e = fail_withdrawal-Moves env.now actor v v' (rw (approved) approved_failed) e

  after_lookup-Moves :
      (a : Answer (Option AccountLookupData)) → after_lookup env a actor v ≡ ok v' → Moves v v'
  unfolding after_lookup with_verified_name
  after_lookup-Moves transport_error e = rw (ok_inj e) stay
  after_lookup-Moves api_error e = fail_approved e
  after_lookup-Moves not_configured e = fail_approved e
  after_lookup-Moves unreadable e = cc
  after_lookup-Moves (answered none) e = fail_approved e
  after_lookup-Moves (answered (some d)) e = grind (arith, fail_approved, send_transfer-Moves)

  pub submit_to_selcom-Moves : submit_to_selcom env actor v ≡ ok v' → Moves v v'
  unfolding submit_to_selcom is_approved
  submit_to_selcom-Moves e = grind (arith, fail_approved, after_lookup-Moves env.account_lookup)
