-- ===== src/Wallet/Effects.antt =====
-- What a method that succeeded has done, with the guards gone: the books after it, written out.
use infinity_radius.Prelude.{
  ℕ, ℤ, pos, ◌+ℤ◌, ◌-ℤ◌, ◌≤ℤ◌, ◌≡◌, arith, Option, none, some, ◌∷◌, Text, or_else, lookup,
}
use infinity_radius.Core.Errors.{ok}
use infinity_radius.Core.Enums.{
  WalletBucket, available, pending, reserved, total_disbursed, LedgerEntryType, tenant_share,
  collection, platform_fee, refund, reversal, disbursement, disbursement_reversal, adjustment,
  LedgerDirection, credit, debit,
}
use infinity_radius.Wallet.Tables.{
  Wallet, Books, SettlementLog, ReferenceType, transaction, withdrawal, get_bucket, set_bucket,
  locked_wallet, put_wallet,
}
use infinity_radius.Wallet.Operations.{
  signed, move_bucket, create_entry, transfer_bucket, debit_bucket, process_collection,
  create_adjustment, settle_pending, reserve_for_withdrawal, release_reservation,
  complete_disbursement, reverse_disbursement, record_refund, record_reversal, require_active,
  split_fee, CollectionResult,
}

-- A bucket of a wallet changed by an amount.
abbrev pub moved : WalletBucket → ℤ → Wallet → Wallet
moved bucket delta w = set_bucket bucket (get_bucket bucket w +ℤ delta) w

-- An amount moved from one bucket to another.
abbrev pub transferred : WalletBucket → WalletBucket → ℤ → Wallet → Wallet
transferred source target amount w = moved target amount (moved source (pos 0 -ℤ amount) w)

-- A move that succeeded has changed the bucket by the amount, and the new value is not negative.
pub move_bucket_lem :
    (w : Wallet) (bucket : WalletBucket) (delta v : ℤ) (w' : Wallet)
    → move_bucket w bucket delta ≡ ok (v, w')
    → (v ≡ get_bucket bucket w +ℤ delta) × (w' ≡ moved bucket delta w) × (pos 0 ≤ℤ v)
unfolding move_bucket
move_bucket_lem w bucket delta v w' e = ground arith

module _ (t : ℕ) (b b' : Books) (amount : ℤ) where
  pub transfer_bucket_lem :
      (source target : WalletBucket) (v : ℤ)
      → transfer_bucket t source target amount b ≡ ok (v, b')
      → b' ≡ put_wallet t (transferred source target amount (locked_wallet t b.wallets)) b
  unfolding transfer_bucket move_bucket
  transfer_bucket_lem source target v e = ground arith

  pub reserve_for_withdrawal_lem :
      reserve_for_withdrawal t amount b ≡ ok b'
      → b' ≡ put_wallet t (transferred available reserved amount (locked_wallet t b.wallets)) b
  unfolding reserve_for_withdrawal transfer_bucket move_bucket
  reserve_for_withdrawal_lem e = ground arith

  pub release_reservation_lem :
      release_reservation t amount b ≡ ok b'
      → b' ≡ put_wallet t (transferred reserved available amount (locked_wallet t b.wallets)) b
  unfolding release_reservation transfer_bucket move_bucket
  release_reservation_lem e = ground arith

  pub complete_disbursement_lem :
      (id : Option ℕ)
      → complete_disbursement t amount id b ≡ ok b'
      → (v : ℤ) × (b'
          ≡ create_entry t disbursement credit
              (some total_disbursed)
              amount
              (some v)
              (some withdrawal)
              id
              none
              (put_wallet t
                (transferred reserved total_disbursed amount (locked_wallet t b.wallets))
                b))
  unfolding complete_disbursement transfer_bucket move_bucket
  complete_disbursement_lem id e =
      let w = moved reserved (pos 0 -ℤ amount) (locked_wallet t b.wallets) in
      (get_bucket total_disbursed w +ℤ amount, ground arith)

  pub reverse_disbursement_lem :
      (id : Option ℕ)
      → reverse_disbursement t amount id b ≡ ok b'
      → (v : ℤ) × (b'
          ≡ create_entry t disbursement_reversal credit
              (some available)
              amount
              (some v)
              (some withdrawal)
              id
              none
              (put_wallet t
                (transferred total_disbursed available amount (locked_wallet t b.wallets))
                b))
  unfolding reverse_disbursement transfer_bucket move_bucket
  reverse_disbursement_lem id e =
      let w = moved total_disbursed (pos 0 -ℤ amount) (locked_wallet t b.wallets) in
      (get_bucket available w +ℤ amount, ground arith)

  pub debit_bucket_lem :
      (entry_type : LedgerEntryType) (bucket : WalletBucket) (id : Option ℕ)
      → debit_bucket t entry_type bucket amount id b ≡ ok b'
      → (v : ℤ) × (b'
          ≡ create_entry t entry_type debit
              (some bucket)
              amount
              (some v)
              (some transaction)
              id
              none
              (put_wallet t (moved bucket (pos 0 -ℤ amount) (locked_wallet t b.wallets)) b))
  unfolding debit_bucket move_bucket
  debit_bucket_lem entry_type bucket id e =
      (get_bucket bucket (locked_wallet t b.wallets) +ℤ (pos 0 -ℤ amount), ground arith)

  pub record_refund_lem :
      (id : Option ℕ)
      → record_refund t amount id b ≡ ok b'
      → debit_bucket t refund available amount id b ≡ ok b'
  unfolding record_refund
  record_refund_lem id e = ground arith

  pub record_reversal_lem :
      (id : Option ℕ)
      → record_reversal t amount id b ≡ ok b'
      → debit_bucket t reversal pending amount id b ≡ ok b'
  unfolding record_reversal
  record_reversal_lem id e = ground arith

  pub create_adjustment_lem :
      (bucket : WalletBucket) (direction : LedgerDirection) (reason : Text) (actor : ℕ)
      → create_adjustment t bucket direction amount reason actor b ≡ ok b'
      → (v : ℤ) × (b'
          ≡ create_entry t adjustment direction
              (some bucket)
              amount
              (some v)
              none
              none
              (some actor)
              (put_wallet t (moved bucket (signed direction amount) (locked_wallet t b.wallets)) b))
  unfolding create_adjustment move_bucket
  create_adjustment_lem bucket direction reason actor e =
      (get_bucket bucket (locked_wallet t b.wallets) +ℤ signed direction amount, ground arith)

  abbrev pub settlement_log : SettlementLog
  settlement_log = record {
    tenant_id = t;
    gross_amount = amount;
    fee_amount = pos 0;
    net_amount = amount;
  }

  pub settle_pending_lem :
      (requested : Option ℤ)
      → amount ≡ or_else requested (locked_wallet t b.wallets).pending_balance_tzs
      → settle_pending t requested b ≡ ok b'
      → b'
        ≡ record (put_wallet t
            (transferred pending available amount (locked_wallet t b.wallets))
            b) { settlements = settlement_log ∷ b.settlements }
  unfolding settle_pending move_bucket
  settle_pending_lem requested x e = ground arith

-- The three entries of a collection, the newest first.
abbrev pub collected : ℕ → ℤ → ℤ → ReferenceType → Option ℕ → ℤ → Books → Books
collected t gross fee reference_type id v b =
    let ref = some reference_type in
    let share = gross -ℤ fee in
    create_entry t tenant_share credit (some pending) share (some v) ref id none (
      create_entry t platform_fee debit none fee none ref id none (
        create_entry t collection credit none gross none ref id none
          (put_wallet t (moved pending share (locked_wallet t b.wallets)) b)))

pub process_collection_lem :
    (t : ℕ) (gross : ℤ) (reference_type : ReferenceType) (id : Option ℕ) (b b' : Books)
    (r : CollectionResult)
    → process_collection t gross reference_type id b ≡ ok (r, b')
    → (rate : ℕ) × (v : ℤ) × (require_active t b ≡ ok rate)
      × (b' ≡ collected t gross (split_fee gross rate) reference_type id v b)
unfolding process_collection move_bucket require_active
process_collection_lem t gross reference_type id b b' r e =
    let rate = or_else (lookup t b.commission_rates) 0 in
    (
      rate,
      get_bucket pending (locked_wallet t b.wallets) +ℤ (gross -ℤ split_fee gross rate),
      ground arith,
      ground arith,
    )
