-- ===== src/Wallet/Operations.antt =====
-- The methods of `WalletService` and `CommercialTermsService`. A method that raises leaves nothing
-- behind, since the caller's transaction is not committed, so an error carries no state. The entry
-- or the log row that a method returns is the head of the table that it has extended.
use infinity_radius.Prelude.{
  ℕ, suc, ◌*◌, ℤ, pos, negsuc, sub_ℕ, pos_part, ◌+ℤ◌, ◌-ℤ◌, leb_ℤ, ltb_ℤ, not, ◌||◌, Option, none,
  some, ◌∷◌, lookup, insert, or_else, Text, is_empty, strip, if◌then◌else◌,
}
use infinity_radius.Core.Errors.{
  Result, ok, err, ◌>>=◌, ◌>>◌, require, or_raise, validation, gross_amount_not_positive,
  adjustment_not_positive, settle_not_positive, reserve_not_positive, release_not_positive,
  disbursement_not_positive, reversal_not_positive, refund_not_positive, adjustment_without_reason,
  bucket_below_zero, settle_over_pending, no_commercial_terms, rate_out_of_range,
}
use infinity_radius.Core.Enums.{
  WalletBucket, available, pending, reserved, total_disbursed, LedgerEntryType, collection,
  tenant_share as tenant_share_type, platform_fee as platform_fee_type, refund, reversal,
  disbursement, disbursement_reversal, adjustment, LedgerDirection, credit, debit,
}
use infinity_radius.Core.Money.{quantize_tzs}
use infinity_radius.Wallet.Tables.{
  Wallet, LedgerEntry, SettlementLog, Books, ReferenceType, transaction, withdrawal, get_bucket,
  set_bucket, locked_wallet, put_wallet,
}

-- `_move_bucket`: the new value and the wallet, or an error if the bucket would fall below zero.
unfoldable pub move_bucket : Wallet → WalletBucket → ℤ → Result (ℤ × Wallet)
move_bucket w bucket delta =
    let new_value = get_bucket bucket w +ℤ delta in
    if ltb_ℤ new_value (pos 0)
    then err (validation bucket_below_zero)
    else ok (new_value, set_bucket bucket new_value w)

-- The signed delta of an adjustment.
unfoldable pub signed : LedgerDirection → ℤ → ℤ
signed credit amount = amount
signed debit amount = pos 0 -ℤ amount

-- `CommercialTermsService.require_active`
unfoldable pub require_active : ℕ → Books → Result ℕ
require_active t b = or_raise (lookup t b.commission_rates) (validation no_commercial_terms)

-- `set_commission_rate`; the rate is in hundredths of a percent.
unfoldable pub set_commission_rate : ℕ → ℤ → Books → Result Books
set_commission_rate t rate b =
    if ltb_ℤ rate (pos 0) || ltb_ℤ (pos 10000) rate
    then err (validation rate_out_of_range)
    else ok (record b { commission_rates = insert t (pos_part rate) b.commission_rates })

-- An amount times a whole number.
unfoldable pub times : ℤ → ℕ → ℤ
times (pos n) k = pos (n * k)
times (negsuc n) k = sub_ℕ 0 (suc n * k)

-- `quantize_tzs(gross_amount * rate / Decimal(100))`: cents times hundredths of a percent are
-- ten-thousandths of a cent.
unfoldable pub split_fee : ℤ → ℕ → ℤ
unfolding times quantize_tzs
split_fee gross_amount rate = quantize_tzs (times gross_amount rate) 10000

-- `ledger_repo.create`
unfoldable pub create_entry :
    ℕ
    → LedgerEntryType
    → LedgerDirection
    → Option WalletBucket
    → ℤ
    → Option ℤ
    → Option ReferenceType
    → Option ℕ
    → Option ℕ
    → Books
    → Books
create_entry t entry_type direction bucket amount balance_after reference_type reference_id actor
      b =
    let entry : LedgerEntry = record {
      tenant_id = t;
      entry_type = entry_type;
      direction = direction;
      wallet_bucket = bucket;
      amount = amount;
      balance_after = balance_after;
      reference_type = reference_type;
      reference_id = reference_id;
      actor_id = actor;
    } in
    record b { ledger = entry ∷ b.ledger }

pub record CollectionResult : Type 0 where
  pub platform_fee : ℤ
  pub tenant_share : ℤ

unfoldable pub process_collection :
    ℕ → ℤ → ReferenceType → Option ℕ → Books → Result (CollectionResult × Books)
process_collection t gross_amount reference_type reference_id b = do
  require (ltb_ℤ (pos 0) gross_amount) gross_amount_not_positive
  rate ← require_active t b
  let platform_fee = split_fee gross_amount rate
  let tenant_share = gross_amount -ℤ platform_fee
  (new_pending, w) ← move_bucket (locked_wallet t b.wallets) pending tenant_share
  let ref = some reference_type
  let b₁ = put_wallet t w b
  let b₂ = create_entry t collection credit none gross_amount none ref reference_id none b₁
  let b₃ = create_entry t platform_fee_type debit none platform_fee none ref reference_id none b₂
  let b₄ =
      create_entry t tenant_share_type credit (some pending) tenant_share (some new_pending) ref
        reference_id none b₃
  ok (record { platform_fee = platform_fee; tenant_share = tenant_share }, b₄)

-- `create_adjustment`
unfoldable pub create_adjustment :
    ℕ → WalletBucket → LedgerDirection → ℤ → Text → ℕ → Books → Result Books
create_adjustment t bucket direction amount reason actor b = do
  require (ltb_ℤ (pos 0) amount) adjustment_not_positive
  require (not (is_empty reason || is_empty (strip reason))) adjustment_without_reason
  (new_balance, w) ← move_bucket (locked_wallet t b.wallets) bucket (signed direction amount)
  ok (
      create_entry t adjustment direction (some bucket) amount (some new_balance) none none
        (some actor) (put_wallet t w b))

-- `settle_pending`; no amount settles all that is pending.
unfoldable pub settle_pending : ℕ → Option ℤ → Books → Result Books
settle_pending t amount b = do
  let wallet = locked_wallet t b.wallets
  let pending_balance = wallet.pending_balance_tzs
  let settle_amount = or_else amount pending_balance
  require (ltb_ℤ (pos 0) settle_amount) settle_not_positive
  require (leb_ℤ settle_amount pending_balance) settle_over_pending
  (_, w₁) ← move_bucket wallet pending (pos 0 -ℤ settle_amount)
  (_, w₂) ← move_bucket w₁ available settle_amount
  let log : SettlementLog = record {
    tenant_id = t;
    gross_amount = settle_amount;
    fee_amount = pos 0;
    net_amount = settle_amount;
  }
  ok (record (put_wallet t w₂ b) { settlements = log ∷ b.settlements })

-- Both halves of a move from one bucket to another.
unfoldable pub transfer_bucket : ℕ → WalletBucket → WalletBucket → ℤ → Books → Result (ℤ × Books)
transfer_bucket t source target amount b = do
  (_, w₁) ← move_bucket (locked_wallet t b.wallets) source (pos 0 -ℤ amount)
  (new_value, w₂) ← move_bucket w₁ target amount
  ok (new_value, put_wallet t w₂ b)

unfoldable pub reserve_for_withdrawal : ℕ → ℤ → Books → Result Books
reserve_for_withdrawal t amount b = do
  require (ltb_ℤ (pos 0) amount) reserve_not_positive
  (_, b₁) ← transfer_bucket t available reserved amount b
  ok b₁

unfoldable pub release_reservation : ℕ → ℤ → Books → Result Books
release_reservation t amount b = do
  require (ltb_ℤ (pos 0) amount) release_not_positive
  (_, b₁) ← transfer_bucket t reserved available amount b
  ok b₁

unfoldable pub complete_disbursement : ℕ → ℤ → Option ℕ → Books → Result Books
complete_disbursement t amount reference_id b = do
  require (ltb_ℤ (pos 0) amount) disbursement_not_positive
  (new_total, b₁) ← transfer_bucket t reserved total_disbursed amount b
  ok (
      create_entry t disbursement credit (some total_disbursed) amount (some new_total)
        (some withdrawal) reference_id none b₁)

unfoldable pub reverse_disbursement : ℕ → ℤ → Option ℕ → Books → Result Books
reverse_disbursement t amount reference_id b = do
  require (ltb_ℤ (pos 0) amount) reversal_not_positive
  (new_available, b₁) ← transfer_bucket t total_disbursed available amount b
  ok (
      create_entry t disbursement_reversal credit (some available) amount (some new_available)
        (some withdrawal) reference_id none b₁)

-- The debit of one bucket, and its entry.
unfoldable pub debit_bucket :
    ℕ → LedgerEntryType → WalletBucket → ℤ → Option ℕ → Books → Result Books
debit_bucket t entry_type bucket amount reference_id b = do
  (new_value, w) ← move_bucket (locked_wallet t b.wallets) bucket (pos 0 -ℤ amount)
  ok (
      create_entry t entry_type debit (some bucket) amount (some new_value) (some transaction)
        reference_id none (put_wallet t w b))

unfoldable pub record_refund : ℕ → ℤ → Option ℕ → Books → Result Books
record_refund t amount reference_id b = do
  require (ltb_ℤ (pos 0) amount) refund_not_positive
  debit_bucket t refund available amount reference_id b

unfoldable pub record_reversal : ℕ → ℤ → Option ℕ → Books → Result Books
record_reversal t amount reference_id b = do
  require (ltb_ℤ (pos 0) amount) reversal_not_positive
  debit_bucket t reversal pending amount reference_id b
