-- ===== src/Wallet/Tables.antt =====
-- Rows of apps/api/app/models/finance.py that the wallet service reads and writes. Amounts are
-- integers of cents (`Numeric(14, 2)`); free-text descriptions are left out.
use infinity_radius.Prelude.{
  ℕ, ℤ, pos, Option, List, Dict, lookup, insert, or_else, ◌≡◌, if◌then◌else◌, ◌==◌, arith,
  lookup-insert,
}
use infinity_radius.Core.Enums.{
  WalletBucket, available, pending, reserved, frozen, total_disbursed, LedgerEntryType,
  LedgerDirection,
}

pub record Wallet : Type 0 where
  pub available_balance_tzs : ℤ
  pub pending_balance_tzs : ℤ
  pub reserved_balance_tzs : ℤ
  pub frozen_balance_tzs : ℤ
  pub total_disbursed_tzs : ℤ

-- The column defaults of a new row.
abbrev pub new_wallet : Wallet
new_wallet = record {
  available_balance_tzs = pos 0;
  pending_balance_tzs = pos 0;
  reserved_balance_tzs = pos 0;
  frozen_balance_tzs = pos 0;
  total_disbursed_tzs = pos 0;
}

-- `reference_type`
pub data ReferenceType : Type 0 where
  transaction withdrawal selcom_collection : ReferenceType

pub record LedgerEntry : Type 0 where
  pub tenant_id : ℕ
  pub entry_type : LedgerEntryType
  pub direction : LedgerDirection
  pub wallet_bucket : Option WalletBucket
  pub amount : ℤ
  pub balance_after : Option ℤ
  pub reference_type : Option ReferenceType
  pub reference_id : Option ℕ
  pub actor_id : Option ℕ

pub record SettlementLog : Type 0 where
  pub tenant_id : ℕ
  pub gross_amount : ℤ
  pub fee_amount : ℤ
  pub net_amount : ℤ

-- The tables of the wallet service: wallets by tenant, ledger and settlement logs newest first, and
-- each tenant's active commission rate in hundredths of a percent (`Numeric(5, 2)`), if any.
pub record Books : Type 0 where
  pub wallets : Dict Wallet
  pub ledger : List LedgerEntry
  pub settlements : List SettlementLog
  pub commission_rates : Dict ℕ

-- `_BUCKET_COLUMNS`
unfoldable pub get_bucket : WalletBucket → Wallet → ℤ
get_bucket available w = w.available_balance_tzs
get_bucket pending w = w.pending_balance_tzs
get_bucket reserved w = w.reserved_balance_tzs
get_bucket frozen w = w.frozen_balance_tzs
get_bucket total_disbursed w = w.total_disbursed_tzs

unfoldable pub set_bucket : WalletBucket → ℤ → Wallet → Wallet
set_bucket available v w = record w { available_balance_tzs = v }
set_bucket pending v w = record w { pending_balance_tzs = v }
set_bucket reserved v w = record w { reserved_balance_tzs = v }
set_bucket frozen v w = record w { frozen_balance_tzs = v }
set_bucket total_disbursed v w = record w { total_disbursed_tzs = v }

-- `get_or_create_wallet`, and `_locked_wallet`: a tenant with no row gets one of zeros.
unfoldable pub locked_wallet : ℕ → Dict Wallet → Wallet
locked_wallet t wallets = or_else (lookup t wallets) new_wallet

-- The write of the locked row.
abbrev pub put_wallet : ℕ → Wallet → Books → Books
put_wallet t w b = record b { wallets = insert t w b.wallets }

pub locked_wallet-insert :
    (t u : ℕ) (w : Wallet) (wallets : Dict Wallet)
    → locked_wallet u (insert t w wallets) ≡ (if t == u then w else locked_wallet u wallets)
unfolding locked_wallet
locked_wallet-insert t u w wallets = ground (arith, lookup-insert t u w wallets)

pub locked_wallet-insert_self :
    (t : ℕ) (w : Wallet) (wallets : Dict Wallet) → locked_wallet t (insert t w wallets) ≡ w
locked_wallet-insert_self t w wallets = ground (arith, locked_wallet-insert t t w wallets)
