-- ===== src/Collections/Tests.antt =====
-- The theorems of payments at concrete inputs.
use infinity_radius.Prelude.{
  true, false, text, some, none, pos, [], ◌∷◌, ◌≡◌, refl, lookup, ◌+ℤ◌, ◌-ℤ◌, eq_text,
}
use infinity_radius.Core.Enums.{TransactionType, CollectionStatus}
use infinity_radius.Core.Errors.{Result, ok, err}
use infinity_radius.Collections.Tables.{
  Checkout, Payment, Payments, OrderStatusData, answered, Transaction,
}
use infinity_radius.Collections.Initiation.{blank_transaction}
use infinity_radius.Collections.Status.{apply_order_status}
use infinity_radius.Collections.Provider.{Delivery, reconcile, process_webhook}
use infinity_radius.Collections.Changes.{is_completed}
use infinity_radius.Collections.Verified.{IsVerifiedPayment, apply_order_status-IsVerifiedPayment}
use infinity_radius.Collections.Dispatch.{any_provider_serves}
use infinity_radius.Wallet.Operations.{process_collection, require_active, move_bucket, split_fee}
use infinity_radius.Wallet.Tables.{get_bucket, locked_wallet}

abbrev order : OrderStatusData
order = record {
  order_id = some (text "CP-1");
  amount = some (pos 100000);
  payment_status = some (text "COMPLETED ");
  transid = none;
  channel = none;
  reference = none;
  currency = none;
}

abbrev env : Checkout
env = record {
  now = 1000;
  selcom_collection_enabled = true;
  selcom_collection_production_enabled = true;
  is_configured = true;
  selcom_collection_pending_review_minutes = pos 30;
  drawn_hex = text "ab";
  drawn_transid = text "txn-1";
  create_order = answered tt;
  wallet_payment = answered (record { resultcode = none; message = none });
  order_status = answered (record { resultcode = none; items = order ∷ [] });
}

abbrev row : Transaction
row = record blank_transaction {
  id = 10;
  tenant_id = 1;
  transaction_type = some TransactionType.captive_portal;
  reference = text "CP-1";
  amount = pos 100000;
  status = CollectionStatus.requires_review;
}

abbrev payments : Payments
payments = record {
  transactions = (10, row) ∷ [];
  books = record { wallets = []; ledger = []; settlements = []; commission_rates = (1, 500) ∷ [] };
  webhooks = [];
  audit = [];
  prompts = [];
}

abbrev waiting : Payment
waiting = record { row = row; books = payments.books; audit = []; prompts = [] }

abbrev applied : Result Payment
applied = apply_order_status env TransactionType.captive_portal order none none waiting

abbrev settled : Payment
settled = elim applied [ ok v ↦ v | err e ↦ waiting ]

settled_ok : applied ≡ ok settled
unfolding apply_order_status process_collection require_active lookup move_bucket ◌+ℤ◌ get_bucket
    locked_wallet ◌-ℤ◌ split_fee eq_text
settled_ok = refl

settled_status : is_completed settled.row.status ≡ true
unfolding apply_order_status process_collection require_active lookup move_bucket ◌+ℤ◌ get_bucket
    locked_wallet ◌-ℤ◌ split_fee eq_text is_completed
settled_status = refl

waiting_status : is_completed waiting.row.status ≡ false
unfolding is_completed
waiting_status = refl

apply_order_status-IsVerifiedPayment_example :
    IsVerifiedPayment TransactionType.captive_portal order waiting settled
apply_order_status-IsVerifiedPayment_example =
    apply_order_status-IsVerifiedPayment env TransactionType.captive_portal order none none waiting
      settled waiting_status settled_ok settled_status

abbrev delivery : Delivery
delivery = record { signature_accepted = true; order_id = some (text "CP-1") }

any_provider_serves_example :
    (reconcile env TransactionType.collection 10 payments
      ≡ reconcile env TransactionType.captive_portal 10 payments)
    × (process_webhook env TransactionType.collection delivery payments
        ≡ process_webhook env TransactionType.captive_portal delivery payments)
any_provider_serves_example =
    any_provider_serves env TransactionType.collection TransactionType.captive_portal 10 delivery
      payments
