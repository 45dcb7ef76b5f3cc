-- ===== src/Collections/Tables.antt =====
-- Rows of apps/api/app/models/finance.py that a payment is made of, the settings that the payment
-- provider reads, and what Selcom's checkout client may answer. Times are seconds since the epoch;
-- reasons and the metadata of audit rows are left out.
use infinity_radius.Prelude.{
  ℕ, Bool, Option, none, some, List, [], ◌∷◌, if◌then◌else◌, ℤ, Dict, lookup, insert, Text, eq_text,
}
use infinity_radius.Core.Enums.{
  CollectionStatus, TransactionType, PaymentProvider, ActivationStatus,
}
use infinity_radius.Core.Errors.{Result, or_raise, not_found}
use infinity_radius.Wallet.Tables.{Books}

pub record Transaction : Type 0 where
  pub id : ℕ
  pub tenant_id : ℕ
  pub customer_id : Option ℕ
  pub subscription_id : Option ℕ
  pub transaction_type : Option TransactionType
  pub reference : Text
  pub provider_reference : Option Text
  pub collection_transid : Option Text
  pub payer_phone : Option Text
  pub channel : Option Text
  pub amount : ℤ
  pub currency : Text
  pub status : CollectionStatus
  pub provider_resultcode : Option Text
  pub provider_message : Option Text
  pub stk_requested_at : Option ℕ
  pub completed_at : Option ℕ
  pub failed_at : Option ℕ
  pub payment_provider : Option PaymentProvider
  pub package_id : Option ℕ
  pub router_id : Option ℕ
  pub device_mac : Option Text
  pub captive_session_id : Option ℕ
  pub activation_status : Option ActivationStatus
  pub activated_at : Option ℕ

pub record PaymentWebhook : Type 0 where
  pub tenant_id : Option ℕ
  pub signature_verified : Bool
  pub processed : Bool
  pub processed_at : Option ℕ

-- The actions of the audit rows of payments: `{audit_namespace}.{status}` and the others.
pub data PaymentAction : Type 0 where
  reached : TransactionType → CollectionStatus → PaymentAction
  webhook_received : TransactionType → PaymentAction
  collection_created payment_initiated payment_completed : PaymentAction
  access_activated access_activation_failed : PaymentAction
  duplicate_attempt_suppressed attempt_rate_limited : PaymentAction

pub record PaymentAudit : Type 0 where
  pub action : PaymentAction
  pub target_id : ℕ
  pub actor_id : Option ℕ

-- The fields that the provider reads of `OrderStatusData`, `OrderStatusResponse` and
-- `WalletPaymentResponse`.
pub record OrderStatusData : Type 0 where
  pub order_id : Option Text
  pub amount : Option ℤ
  pub payment_status : Option Text
  pub transid : Option Text
  pub channel : Option Text
  pub reference : Option Text
  pub currency : Option Text

pub record OrderStatusResponse : Type 0 where
  pub resultcode : Option Text
  pub items : List OrderStatusData

pub record WalletPaymentResponse : Type 0 where
  pub resultcode : Option Text
  pub message : Option Text

-- A call of the client raises `SelcomCollectionError`, or gives a response.
pub data Reply (A : Type 0) : Type 0 where
  client_error : Reply A
  answered : A → Reply A

-- What a call reads of the world outside: the clock, the settings, the ids that are drawn, and
-- Selcom's answers to the three requests.
pub record Checkout : Type 0 where
  pub now : ℕ
  pub selcom_collection_enabled : Bool
  pub selcom_collection_production_enabled : Bool
  pub is_configured : Bool
  pub selcom_collection_pending_review_minutes : ℤ
  pub drawn_hex : Text
  pub drawn_transid : Text
  pub create_order : Reply (Unit {0})
  pub wallet_payment : Reply WalletPaymentResponse
  pub order_status : Reply OrderStatusResponse

-- A payment that a request has locked, with the tables that the request writes beside it. The last
-- list has the transactions for which an STK prompt was asked of Selcom, newest first.
pub record Payment : Type 0 where
  pub row : Transaction
  pub books : Books
  pub audit : List PaymentAudit
  pub prompts : List ℕ

pub record Payments : Type 0 where
  pub transactions : Dict Transaction
  pub books : Books
  pub webhooks : List PaymentWebhook
  pub audit : List PaymentAudit
  pub prompts : List ℕ

-- `get_by_id_for_update(tenant_id=None, …)`
unfoldable pub find_transaction : ℕ → Payments → Result Transaction
find_transaction id s = or_raise (lookup id s.transactions) not_found

-- `get_by_reference_for_update`: the key of the row.
unfoldable pub find_reference : Text → Dict Transaction → Option ℕ
unfolding eq_text
find_reference reference [] = none
find_reference reference ((k, w) ∷ d) =
    if eq_text w.reference reference then some k else find_reference reference d

unfoldable pub open_payment : Transaction → Payments → Payment
open_payment w s = record { row = w; books = s.books; audit = s.audit; prompts = s.prompts }

unfoldable pub save_payment : ℕ → Payment → Payments → Payments
save_payment id v s = record s {
  transactions = insert id v.row s.transactions;
  books = v.books;
  audit = v.audit;
  prompts = v.prompts;
}

abbrev pub audit_payment : PaymentAction → Option ℕ → Payment → Payment
audit_payment action actor v = record v {
  audit = record { action = action; target_id = v.row.id; actor_id = actor } ∷ v.audit;
}
