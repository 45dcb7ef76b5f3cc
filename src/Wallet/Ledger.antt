-- ===== src/Wallet/Ledger.antt =====
-- What the ledger and the settlement logs say about a tenant: the sums that a wallet should show.
use infinity_radius.Prelude.{
  ℕ, ℤ, pos, ◌+ℤ◌, Bool, true, false, ◌&&◌, ◌==◌, Option, none, some, List, [], ◌∷◌, ◌≡◌,
  if◌then◌else◌,
}
use infinity_radius.Core.Enums.{
  WalletBucket, available, pending, reserved, frozen, total_disbursed, LedgerEntryType,
  disbursement, disbursement_reversal, eq_bucket,
}
use infinity_radius.Wallet.Tables.{LedgerEntry, SettlementLog, Books, locked_wallet}
use infinity_radius.Wallet.Operations.{signed}

abbrev pub sum_by {ℓ} : {A : Type ℓ} → (A → ℤ) → List A → ℤ
sum_by f [] = pos 0
sum_by f (x ∷ xs) = f x +ℤ sum_by f xs

unfoldable pub moves : WalletBucket → Option WalletBucket → Bool
unfolding eq_bucket
moves bucket none = false
moves bucket (some b) = eq_bucket bucket b

-- What an entry adds to a bucket of a tenant.
unfoldable pub posting : ℕ → WalletBucket → LedgerEntry → ℤ
unfolding signed moves
posting t bucket e =
    if e.tenant_id == t && moves bucket e.wallet_bucket then signed e.direction e.amount else pos 0

unfoldable pub is_disbursement : LedgerEntryType → Bool
is_disbursement disbursement = true
is_disbursement _ = false

unfoldable pub is_recall : LedgerEntryType → Bool
is_recall disbursement_reversal = true
is_recall _ = false

unfoldable pub payment_out : ℕ → LedgerEntry → ℤ
unfolding is_disbursement
payment_out t e = if e.tenant_id == t && is_disbursement e.entry_type then e.amount else pos 0

unfoldable pub payment_back : ℕ → LedgerEntry → ℤ
unfolding is_recall
payment_back t e = if e.tenant_id == t && is_recall e.entry_type then e.amount else pos 0

unfoldable pub settlement : ℕ → SettlementLog → ℤ
settlement t l = if l.tenant_id == t then l.net_amount else pos 0

-- Credits less debits of a bucket; all that was disbursed, recalled, settled.
abbrev pub net : ℕ → WalletBucket → Books → ℤ
net t bucket b = sum_by (posting t bucket) b.ledger

abbrev pub disbursed : ℕ → Books → ℤ
disbursed t b = sum_by (payment_out t) b.ledger

abbrev pub recalled : ℕ → Books → ℤ
recalled t b = sum_by (payment_back t) b.ledger

abbrev pub settled : ℕ → Books → ℤ
settled t b = sum_by (settlement t) b.settlements

-- The wallet of a tenant is what its ledger and its settlement logs add up to. Only the split of
-- the spendable funds into available and reserved is not in these tables: it is in the status of
-- the withdrawals.
pub record IsReconciled (t : ℕ) (b : Books) : Type 0 where
  pub pending_sum : (locked_wallet t b.wallets).pending_balance_tzs +ℤ settled t b ≡ net t pending b
  pub frozen_sum : (locked_wallet t b.wallets).frozen_balance_tzs ≡ net t frozen b
  pub disbursed_sum :
      (locked_wallet t b.wallets).total_disbursed_tzs +ℤ recalled t b ≡ net t total_disbursed b
  pub spendable_sum :
      (locked_wallet t b.wallets).available_balance_tzs
        +ℤ (locked_wallet t b.wallets).reserved_balance_tzs
        +ℤ disbursed t b
      ≡ net t available b +ℤ net t reserved b +ℤ settled t b
