-- ===== src/Collections/Provider.antt =====
-- The calls of selcom_payment_provider.py that query Selcom: reconciliation, the webhook, and the
-- list of what a sweep queries.
use infinity_radius.Prelude.{
  ℕ, Bool, true, false, ◌&&◌, not, Option, none, some, List, [], ◌∷◌, if◌then◌else◌, Dict, Text,
  is_blank, or_else,
}
use infinity_radius.Core.Errors.{Result, ok, err, ◌>>=◌, unhandled}
use infinity_radius.Core.Enums.{TransactionType, PaymentProvider, is_terminal}
use infinity_radius.Collections.Tables.{
  Transaction, OrderStatusData, OrderStatusResponse, Reply, client_error, answered, Checkout,
  Payment, Payments, find_transaction, find_reference, open_payment, save_payment, audit_payment,
  webhook_received,
}
use infinity_radius.Collections.Status.{apply_order_status, is_of_flow}

-- `OrderStatusResponse.first`
unfoldable pub first_item : List OrderStatusData → Option OrderStatusData
first_item [] = none
first_item (d ∷ ds) = some d

unfoldable pub apply_first :
    Checkout
    → TransactionType
    → Option OrderStatusData
    → Option ℕ
    → Option Text
    → Payment
    → Result Payment
apply_first env flow none actor resultcode v = ok v
apply_first env flow (some d) actor resultcode v = apply_order_status env flow d actor resultcode v

-- A query that failed changes nothing.
unfoldable pub apply_reply :
    Checkout → TransactionType → Reply OrderStatusResponse → Option ℕ → Payment → Result Payment
unfolding first_item apply_first
apply_reply env flow client_error actor v = ok v
apply_reply env flow (answered r) actor v =
    apply_first env flow (first_item r.items) actor r.resultcode v

-- `query_and_apply`; building a client that is not configured raises.
unfoldable pub query_and_apply : Checkout → TransactionType → Option ℕ → Payment → Result Payment
unfolding apply_reply
query_and_apply env flow actor v =
    if env.is_configured then apply_reply env flow env.order_status actor v else err unhandled

-- `_provider_for`: a provider stands for the flow that it was built with.
unfoldable pub provider_for : TransactionType → Option TransactionType → Result TransactionType
unfolding is_of_flow
provider_for own none = err unhandled
provider_for own (some f) = if is_of_flow (some f) own then ok own else ok f

-- What is done to a row that was found.
unfoldable pub query_row : Checkout → TransactionType → ℕ → Payments → Result Payments
unfolding provider_for find_transaction
query_row env own id s = do
  w ← find_transaction id s
  flow ← provider_for own w.transaction_type
  v ← query_and_apply env flow none (open_payment w s)
  ok (save_payment id v s)

-- `SelcomPaymentProvider.reconcile`
unfoldable pub reconcile : Checkout → TransactionType → ℕ → Payments → Result Payments
unfolding query_row
reconcile env own id s = query_row env own id s

-- `list_reconcilable`
unfoldable pub is_selcom : Option PaymentProvider → Bool
is_selcom none = false
is_selcom (some PaymentProvider.selcom_collection) = true

unfoldable pub list_reconcilable : Dict Transaction → List ℕ
unfolding is_selcom is_terminal
list_reconcilable [] = []
list_reconcilable ((k, w) ∷ d) =
    let rest = list_reconcilable d in
    if is_selcom w.payment_provider && not (is_terminal w.status) then k ∷ rest else rest

pub data WebhookAnswer : Type 0 where
  rejected malformed unknown_reference acknowledged : WebhookAnswer

-- A delivery: whether the signature was accepted, which is so only if the client is configured,
-- and the order id of the body, if any.
pub record Delivery : Type 0 where
  pub signature_accepted : Bool
  pub order_id : Option Text

unfoldable pub store_webhook : Option ℕ → Bool → ℕ → Payments → Payments
store_webhook tenant verified now s = record s {
  webhooks =
      record {
        tenant_id = tenant;
        signature_verified = verified;
        processed = true;
        processed_at = some now;
      }
      ∷ s.webhooks;
}

-- A verified delivery for a row that was found.
unfoldable pub receive_row :
    Checkout → TransactionType → ℕ → Payments → Result (WebhookAnswer × Payments)
unfolding provider_for find_transaction store_webhook
receive_row env own id s = do
  w ← find_transaction id s
  flow ← provider_for own w.transaction_type
  v ← query_and_apply env flow none (audit_payment (webhook_received flow) none (open_payment w s))
  ok (acknowledged, store_webhook (some w.tenant_id) true env.now (save_payment id v s))

unfoldable pub receive_order :
    Checkout → TransactionType → Option ℕ → Payments → Result (WebhookAnswer × Payments)
unfolding receive_row store_webhook
receive_order env own none s = ok (unknown_reference, store_webhook none true env.now s)
receive_order env own (some id) s = receive_row env own id s

-- `process_webhook`
unfoldable pub process_webhook :
    Checkout → TransactionType → Delivery → Payments → Result (WebhookAnswer × Payments)
unfolding receive_order store_webhook find_reference
process_webhook env own h s =
    if not (env.is_configured && h.signature_accepted)
    then ok (rejected, store_webhook none false env.now s)
    else if is_blank h.order_id
    then ok (malformed, store_webhook none true env.now s)
    else receive_order env own (find_reference (or_else h.order_id []) s.transactions) s
