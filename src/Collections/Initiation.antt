-- ===== src/Collections/Initiation.antt =====
-- `create_order_and_send_stk` of selcom_payment_provider.py, and `initiate_collection` of
-- collections.py.
use infinity_radius.Prelude.{
  ℕ, Bool, ◌&&◌, ◌%◌, ◌==◌, Option, none, some, [], ◌∷◌, ◌++◌, if◌then◌else◌, ℤ, pos, pos_part,
  neg_part, ltb_ℤ, Text, text, eq_text,
}
use infinity_radius.Core.Errors.{
  Result, ok, err, ◌>>=◌, ◌>>◌, require, or_raise, validation, unhandled, not_found,
  collection_disabled, collection_production_disabled, unsupported_currency, amount_not_positive,
  invalid_phone,
}
use infinity_radius.Core.Enums.{TransactionType, CollectionStatus, PaymentProvider}
use infinity_radius.Phones.{normalize_tz_phone}
use infinity_radius.Collections.Tables.{
  Transaction, WalletPaymentResponse, Reply, client_error, answered, Checkout, Payment, Payments,
  audit_payment, collection_created, open_payment, save_payment,
}
use infinity_radius.Collections.Status.{move_to, fail_payment}

-- `SelcomPaymentFlow.reference_prefix` and `new_reference`
unfoldable pub reference_prefix : TransactionType → Text
reference_prefix TransactionType.collection = text "col-"
reference_prefix TransactionType.captive_portal = text "CP-"

unfoldable pub new_reference : Checkout → TransactionType → Text
unfolding reference_prefix
new_reference env flow = reference_prefix flow ++ env.drawn_hex

-- `whole_tzs_amount` of the client raises on an amount with cents.
unfoldable pub is_whole : ℤ → Bool
is_whole a = pos_part a % 100 == 0 && neg_part a % 100 == 0

-- What the answer to wallet-payment does; the prompt was asked for in any case.
unfoldable pub apply_prompt :
    Checkout → TransactionType → Option ℕ → Reply WalletPaymentResponse → Payment → Payment
unfolding fail_payment move_to
apply_prompt env flow actor client_error v = fail_payment env flow actor v
apply_prompt env flow actor (answered r) v =
    move_to flow CollectionStatus.stk_sent actor (record v {
      row = record v.row {
        collection_transid = some env.drawn_transid;
        stk_requested_at = some env.now;
        provider_resultcode = r.resultcode;
        provider_message = r.message;
      };
    })

unfoldable pub send_prompt :
    Checkout → TransactionType → Option ℕ → Reply (Unit {0}) → Payment → Payment
unfolding fail_payment apply_prompt
send_prompt env flow actor client_error v = fail_payment env flow actor v
send_prompt env flow actor (answered _) v =
    apply_prompt env flow actor env.wallet_payment (record v { prompts = v.row.id ∷ v.prompts })

-- `create_order_and_send_stk`
unfoldable pub create_order_and_send_stk :
    Checkout → TransactionType → Option ℕ → Payment → Result Payment
unfolding is_whole send_prompt
create_order_and_send_stk env flow actor v =
    if env.is_configured && is_whole v.row.amount
    then ok (send_prompt env flow actor env.create_order v)
    else err unhandled

-- The columns that no insert names are null.
abbrev pub blank_transaction : Transaction
blank_transaction = record {
  id = 0;
  tenant_id = 0;
  customer_id = none;
  subscription_id = none;
  transaction_type = none;
  reference = [];
  provider_reference = none;
  collection_transid = none;
  payer_phone = none;
  channel = none;
  amount = pos 0;
  currency = text "TZS";
  status = CollectionStatus.created;
  provider_resultcode = none;
  provider_message = none;
  stk_requested_at = none;
  completed_at = none;
  failed_at = none;
  payment_provider = none;
  package_id = none;
  router_id = none;
  device_mac = none;
  captive_session_id = none;
  activation_status = none;
  activated_at = none;
}

abbrev pub new_collection : Checkout → ℕ → ℕ → Option ℕ → ℤ → Text → Text → Transaction
new_collection env t id customer amount currency phone = record blank_transaction {
  id = id;
  tenant_id = t;
  customer_id = customer;
  transaction_type = some TransactionType.collection;
  payment_provider = some PaymentProvider.selcom_collection;
  reference = new_reference env TransactionType.collection;
  amount = amount;
  currency = currency;
  payer_phone = some phone;
}

-- The customer that a request names has to be one of the tenant; which ones these are is an
-- argument.
unfoldable pub check_customer : (ℕ → Bool) → Option ℕ → Result (Unit {0})
check_customer is_customer none = ok tt
check_customer is_customer (some c) = if is_customer c then ok tt else err not_found

-- `initiate_collection`; the id of the new row is an argument.
unfoldable pub initiate_collection :
    Checkout → (ℕ → Bool) → ℕ → ℕ → ℕ → ℤ → Text → Text → Option ℕ → Payments → Result Payments
unfolding normalize_tz_phone check_customer create_order_and_send_stk save_payment open_payment
    new_reference
initiate_collection env is_customer t actor id amount currency phone customer s = do
  require env.selcom_collection_enabled collection_disabled
  require env.selcom_collection_production_enabled collection_production_disabled
  require (eq_text currency (text "TZS")) unsupported_currency
  require (ltb_ℤ (pos 0) amount) amount_not_positive
  normalized ← or_raise (normalize_tz_phone phone) (validation invalid_phone)
  check_customer is_customer customer
  let w = new_collection env t id customer amount currency normalized
  v ←
      create_order_and_send_stk env TransactionType.collection (some actor)
        (audit_payment collection_created (some actor) (open_payment w s))
  ok (save_payment id v s)
