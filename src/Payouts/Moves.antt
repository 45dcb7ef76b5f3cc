-- ===== src/Payouts/Moves.antt =====
-- What a withdrawal may do: the moves of `PayoutService` as a relation, one constructor for each
-- kind of change that the methods are made of.
use infinity_radius.Prelude.{ℕ, ◌≡◌, true, Option, List, ◌∷◌, some}
use infinity_radius.Core.Errors.{ok}
use infinity_radius.Core.Enums.{WithdrawalStatus}
use infinity_radius.Payouts.Tables.{Withdrawal, Work, AuditEntry}
use infinity_radius.Payouts.Transitions.{transition, is_open}
use infinity_radius.Wallet.Tables.{Books}
use infinity_radius.Wallet.Operations.{
  release_reservation, complete_disbursement, reverse_disbursement,
}

-- Changes of status that keep the funds reserved.
pub data Advance : WithdrawalStatus → WithdrawalStatus → Type 0 where
  to_review : Advance WithdrawalStatus.draft WithdrawalStatus.pending_approval
  to_selcom : Advance WithdrawalStatus.draft WithdrawalStatus.approved
  reviewed : Advance WithdrawalStatus.pending_approval WithdrawalStatus.approved
  doubted : Advance WithdrawalStatus.processing WithdrawalStatus.ambiguous
  still_doubted : Advance WithdrawalStatus.ambiguous WithdrawalStatus.ambiguous

-- Changes of status that give the funds back.
pub data Release : WithdrawalStatus → WithdrawalStatus → Type 0 where
  draft_cancelled : Release WithdrawalStatus.draft WithdrawalStatus.cancelled
  review_cancelled : Release WithdrawalStatus.pending_approval WithdrawalStatus.cancelled
  review_rejected : Release WithdrawalStatus.pending_approval WithdrawalStatus.rejected
  approved_failed : Release WithdrawalStatus.approved WithdrawalStatus.failed
  processing_failed : Release WithdrawalStatus.processing WithdrawalStatus.failed
  ambiguous_failed : Release WithdrawalStatus.ambiguous WithdrawalStatus.failed

-- The row set to PROCESSING, and the transfer sent.
abbrev pub sent : Option ℕ → Work → Work
sent actor v =
    let u = transition WithdrawalStatus.processing actor v in
    record u { submissions = u.row.id ∷ u.submissions }

pub data Move : Work → Work → Type 0 where
  -- Another column of the row, or a row of the audit trail.
  edit :
      (v : Work) (row : Withdrawal) (audit : List AuditEntry)
      → row.id ≡ v.row.id
      → row.tenant_id ≡ v.row.tenant_id
      → row.amount ≡ v.row.amount
      → row.status ≡ v.row.status
      → Move v (record v { row = row; audit = audit })
  advance :
      (v : Work) (s : WithdrawalStatus) (actor : Option ℕ)
      → Advance v.row.status s
      → Move v (transition s actor v)
  -- The transfer is sent to Selcom.
  send :
      (v : Work) (actor : Option ℕ)
      → v.row.status ≡ WithdrawalStatus.approved
      → Move v (sent actor v)
  release :
      (v : Work) (s : WithdrawalStatus) (actor : Option ℕ) (books : Books)
      → Release v.row.status s
      → release_reservation v.row.tenant_id v.row.amount v.books ≡ ok books
      → Move v (transition s actor (record v { books = books }))
  complete :
      (v : Work) (actor : Option ℕ) (books : Books)
      → is_open v.row.status ≡ true
      → complete_disbursement v.row.tenant_id v.row.amount (some v.row.id) v.books ≡ ok books
      → Move v (transition WithdrawalStatus.success actor (record v { books = books }))
  reverse :
      (v : Work) (actor : Option ℕ) (books : Books)
      → v.row.status ≡ WithdrawalStatus.success
      → reverse_disbursement v.row.tenant_id v.row.amount (some v.row.id) v.books ≡ ok books
      → Move v (transition WithdrawalStatus.reversed actor (record v { books = books }))

infixr 5 ◌⨟◌
pub data Moves : Work → Work → Type 0 where
  stay : {v : Work} → Moves v v
  ◌⨟◌ : {v u w : Work} → Move v u → Moves u w → Moves v w
