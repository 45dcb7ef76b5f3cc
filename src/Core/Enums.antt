-- ===== src/Core/Enums.antt =====
-- apps/api/app/core/enums.py: the status and type vocabularies, and the sets of terminal states.
use infinity_radius.Prelude.{Bool, true, false}

pub data SubscriptionStatus : Type 0 where
  pending active expired suspended cancelled quota_exceeded : SubscriptionStatus

pub data VoucherStatus : Type 0 where
  unused used expired void : VoucherStatus

pub data PackageActivationType : Type 0 where
  immediate first_use : PackageActivationType

pub data PackageStatus : Type 0 where
  draft active archived : PackageStatus

pub data LedgerEntryType : Type 0 where
  collection tenant_share platform_fee refund reversal : LedgerEntryType
  disbursement disbursement_reversal adjustment : LedgerEntryType

pub data LedgerDirection : Type 0 where
  credit debit : LedgerDirection

pub data WalletBucket : Type 0 where
  available pending reserved frozen total_disbursed : WalletBucket

pub data SettlementMode : Type 0 where
  direct_merchant_settlement platform_managed_wallet : SettlementMode

pub data WithdrawalStatus : Type 0 where
  draft pending_approval approved processing ambiguous : WithdrawalStatus
  success failed rejected cancelled reversed : WithdrawalStatus

pub data TransactionType : Type 0 where
  collection captive_portal : TransactionType

pub data PaymentProvider : Type 0 where
  selcom_collection : PaymentProvider

pub data ActivationStatus : Type 0 where
  pending activating active failed requires_review : ActivationStatus

pub data CollectionStatus : Type 0 where
  created stk_sent pending inprogress completed failed cancelled : CollectionStatus
  usercancelled declined rejected ambiguous expired requires_review : CollectionStatus

pub data ProviderAmountMatch : Type 0 where
  principal_exact principal_plus_stored_provider_charge : ProviderAmountMatch

-- `status in COLLECTION_TERMINAL_STATUSES`
unfoldable pub is_terminal : CollectionStatus → Bool
is_terminal CollectionStatus.completed = true
is_terminal CollectionStatus.failed = true
is_terminal CollectionStatus.cancelled = true
is_terminal CollectionStatus.usercancelled = true
is_terminal CollectionStatus.declined = true
is_terminal CollectionStatus.rejected = true
is_terminal CollectionStatus.expired = true
is_terminal _ = false

-- `status in WITHDRAWAL_TERMINAL_STATUSES`
unfoldable pub is_final : WithdrawalStatus → Bool
is_final WithdrawalStatus.success = true
is_final WithdrawalStatus.failed = true
is_final WithdrawalStatus.rejected = true
is_final WithdrawalStatus.cancelled = true
is_final WithdrawalStatus.reversed = true
is_final _ = false

-- Comparison of enumeration values.
unfoldable pub eq_bucket : WalletBucket → WalletBucket → Bool
eq_bucket WalletBucket.available WalletBucket.available = true
eq_bucket WalletBucket.pending WalletBucket.pending = true
eq_bucket WalletBucket.reserved WalletBucket.reserved = true
eq_bucket WalletBucket.frozen WalletBucket.frozen = true
eq_bucket WalletBucket.total_disbursed WalletBucket.total_disbursed = true
eq_bucket _ _ = false

unfoldable pub eq_flow : TransactionType → TransactionType → Bool
eq_flow TransactionType.collection TransactionType.collection = true
eq_flow TransactionType.captive_portal TransactionType.captive_portal = true
eq_flow _ _ = false

unfoldable pub eq_mode : SettlementMode → SettlementMode → Bool
eq_mode SettlementMode.direct_merchant_settlement SettlementMode.direct_merchant_settlement = true
eq_mode SettlementMode.platform_managed_wallet SettlementMode.platform_managed_wallet = true
eq_mode _ _ = false
