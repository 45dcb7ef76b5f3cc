-- ===== src/Collections/Dispatch.antt =====
-- `_provider_for` of selcom_payment_provider.py: it does not matter whose provider is handed a
-- payment.
use infinity_radius.Prelude.{ℕ, Option, none, some, ◌≡◌, refl, ap}
use infinity_radius.Core.Errors.{Result, ok, ◌>>=◌}
use infinity_radius.Core.Enums.{TransactionType, collection, captive_portal}
use infinity_radius.Collections.Tables.{
  Transaction, Checkout, Payments, find_transaction, open_payment, save_payment,
}
use infinity_radius.Collections.Provider.{
  provider_for, query_and_apply, query_row, reconcile, Delivery, receive_row, receive_order,
  process_webhook,
}

provider_for-same :
    (a b : TransactionType) (t : Option TransactionType) → provider_for a t ≡ provider_for b t
unfolding provider_for
provider_for-same a b none = refl
provider_for-same collection collection (some t) = refl
provider_for-same captive_portal captive_portal (some t) = refl
provider_for-same collection captive_portal (some collection) = refl
provider_for-same collection captive_portal (some captive_portal) = refl
provider_for-same captive_portal collection (some collection) = refl
provider_for-same captive_portal collection (some captive_portal) = refl

query_row-same :
    (env : Checkout) (a b : TransactionType) (id : ℕ) (s : Payments)
    → query_row env a id s ≡ query_row env b id s
unfolding query_row
query_row-same env a b id s =
    ap (λ (k : Transaction → Result Payments). find_transaction id s >>= k)
      (λ i w. provider_for-same a b w.transaction_type i >>= λ flow.
        query_and_apply env flow none (open_payment w s) >>= λ v. ok (save_payment id v s))

receive_row-same :
    (env : Checkout) (a b : TransactionType) (id : ℕ) (s : Payments)
    → receive_row env a id s ≡ receive_row env b id s
unfolding receive_row
receive_row-same env a b id s = simp (provider_for-same a b)

receive_order-same :
    (env : Checkout) (a b : TransactionType) (o : Option ℕ) (s : Payments)
    → receive_order env a o s ≡ receive_order env b o s
unfolding receive_order
receive_order-same env a b none s = refl
receive_order-same env a b (some id) s = receive_row-same env a b id s

-- Reconciling a transaction, and processing a webhook, give the same result, errors included,
-- whichever flow's provider receives the call.
pub any_provider_serves :
    (env : Checkout) (a b : TransactionType) (id : ℕ) (h : Delivery) (s : Payments)
    → (reconcile env a id s ≡ reconcile env b id s)
      × (process_webhook env a h s ≡ process_webhook env b h s)
unfolding reconcile process_webhook
any_provider_serves env a b id h s =
    (query_row-same env a b id s, rw (receive_order-same env a b _ s) refl)
