-- ===== src/Payouts/Transitions.antt =====
-- `_transition` and `_fail_withdrawal` of payouts.py, and `_apply_provider_result`: the one place
-- where an answer of Selcom becomes a change of a withdrawal.
use infinity_radius.Prelude.{ℕ, Bool, true, false, Option, none, some, ◌∷◌, if◌then◌else◌, ℤ, Text}
use infinity_radius.Core.Errors.{Result, ok, ◌>>=◌}
use infinity_radius.Core.Enums.{WithdrawalStatus}
use infinity_radius.Payouts.Tables.{Work, WithdrawalEvent, write_audit, reached}
use infinity_radius.Payouts.Provider.{
  SelcomResultOutcome, stripped_code, interpret_resultcode, differs, amount_match,
}
use infinity_radius.Wallet.Operations.{release_reservation, complete_disbursement}

-- `status in (PROCESSING, AMBIGUOUS)`
unfoldable pub is_open : WithdrawalStatus → Bool
is_open WithdrawalStatus.processing = true
is_open WithdrawalStatus.ambiguous = true
is_open _ = false

-- The new status with its event and its audit row.
unfoldable pub transition : WithdrawalStatus → Option ℕ → Work → Work
transition to_status actor v =
    let event : WithdrawalEvent = record {
      withdrawal_id = v.row.id;
      from_status = some v.row.status;
      to_status = to_status;
      actor_id = actor;
    } in
    write_audit (reached to_status) actor
      (record v { row = record v.row { status = to_status }; events = event ∷ v.events })

unfoldable pub fail_withdrawal : ℕ → Option ℕ → Work → Result Work
unfolding transition
fail_withdrawal now actor v = do
  books ← release_reservation v.row.tenant_id v.row.amount v.books
  let row = record v.row { completed_at = some now }
  ok (transition WithdrawalStatus.failed actor (record v { row = row; books = books }))

-- An answer that does not fit the withdrawal is never acted on.
unfoldable pub flag_ambiguous : Text → Option ℕ → Work → Work
unfolding transition
flag_ambiguous code actor v =
    transition WithdrawalStatus.ambiguous actor
      (record v { row = record v.row { provider_result_code = some code } })

-- The end of a transfer that Selcom reports as done, and that fits.
unfoldable pub finalize_success : ℕ → Text → Text → Option ℕ → Work → Result Work
unfolding transition
finalize_success now code provider_reference actor v = do
  books ← complete_disbursement v.row.tenant_id v.row.amount (some v.row.id) v.books
  let row = record v.row {
    provider_reference = some provider_reference;
    provider_result_code = some code;
    completed_at = some now;
  }
  ok (transition WithdrawalStatus.success actor (record v { row = row; books = books }))

-- What an answer says of a transfer.
pub record ProviderResult : Type 0 where
  pub resultcode : Option Text
  pub amount : Option ℤ
  pub currency : Option Text
  pub trans_id : Option Text
  pub reference : Text

unfoldable pub apply_success : ℕ → ProviderResult → Option ℕ → Work → Result Work
unfolding flag_ambiguous
apply_success now r actor v =
    let code = stripped_code r.resultcode in
    if differs r.trans_id v.row.idempotency_key
    then ok (flag_ambiguous code actor v)
    else if differs r.currency v.row.currency
    then ok (flag_ambiguous code actor v)
    else elim (amount_match r.amount v.row.amount v.row.provider_charge) [
      | none ↦ ok (flag_ambiguous code actor v)
      | some m ↦ finalize_success now code r.reference actor v
    ]

unfoldable pub apply_outcome :
    SelcomResultOutcome → ℕ → ProviderResult → Option ℕ → Work → Result Work
unfolding apply_success flag_ambiguous
apply_outcome SelcomResultOutcome.success now r actor v = apply_success now r actor v
apply_outcome SelcomResultOutcome.inprogress now r actor v =
    ok
      (record v { row = record v.row { provider_result_code = some (stripped_code r.resultcode) } })
apply_outcome SelcomResultOutcome.ambiguous now r actor v =
    ok (flag_ambiguous (stripped_code r.resultcode) actor v)
apply_outcome SelcomResultOutcome.fail now r actor v =
    fail_withdrawal now actor
      (record v { row = record v.row { provider_result_code = some (stripped_code r.resultcode) } })

unfoldable pub apply_provider_result : ℕ → ProviderResult → Option ℕ → Work → Result Work
unfolding apply_outcome
apply_provider_result now r actor v =
    if is_open v.row.status
    then apply_outcome (interpret_resultcode r.resultcode) now r actor v
    else ok v
