-- ===== src/Portal/System.antt =====
-- The tables under the requests of the portal, of the tenants' collections, of Selcom's webhook and
-- of the sweeps, in any order: a step is a request that was committed.
use infinity_radius.Prelude.{
  ℕ, Bool, true, false, Option, none, some, ◌≡◌, refl, sym, arith, ℤ, Text, lookup, insert,
  some_inj,
}
use infinity_radius.Core.Errors.{ok}
use infinity_radius.Core.Enums.{TransactionType, ActivationStatus}
use infinity_radius.Wallet.Tables.{Books}
use infinity_radius.Wallet.Calls.{Call, apply, collect}
use infinity_radius.Collections.Tables.{Transaction, Checkout, Payments}
use infinity_radius.Collections.Provider.{Delivery, WebhookAnswer, reconcile, process_webhook}
use infinity_radius.Collections.Initiation.{initiate_collection}
use infinity_radius.Collections.Credits.{credits, IsPaidOnce}
use infinity_radius.Collections.Rows.{Evolves, Grows, Grows-refl, Grows-trans}
use infinity_radius.Collections.Effects.{
  Effect, untouched, Effect-IsPaidOnce, Effect-Grows, query_row-Effect, process_webhook-Effect,
  initiate_collection-Effect,
}
use infinity_radius.Billing.Tables.{Billing}
use infinity_radius.Portal.Tables.{CaptiveSession, Portal}
use infinity_radius.Portal.Sessions.{issue, issue_row}
use infinity_radius.Portal.Payment.{Drawn, InitiateResult, initiate_payment, finalize_payment}
use infinity_radius.Portal.Activation.{run_activation}
use infinity_radius.Portal.Attempts.{
  left_alone, started, initiate_payment-Outcome, finalize_payment-Effect,
}
use infinity_radius.Portal.Grants.{run_activation-Activated, Activated-Effect}
use infinity_radius.Wallet.Operations.{
  create_adjustment, settle_pending, record_refund, record_reversal, set_commission_rate,
  debit_bucket, move_bucket, create_entry, transfer_bucket, reserve_for_withdrawal,
  release_reservation, complete_disbursement, reverse_disbursement,
}

-- A call of the wallet service that is not the credit of a payment.
unfoldable pub spares_payments : Call → Bool
spares_payments (collect gross reference_type id) = false
spares_payments _ = true

pub data Step : Portal → Portal → Type 0 where
  reconciled :
      (env : Checkout) (own : TransactionType) (id : ℕ) {s : Portal} {p : Payments}
      → reconcile env own id s.payments ≡ ok p
      → Step s (record s { payments = p })
  delivered :
      (env : Checkout) (own : TransactionType) (h : Delivery) (a : WebhookAnswer) {s : Portal}
      {p : Payments}
      → process_webhook env own h s.payments ≡ ok (a, p)
      → Step s (record s { payments = p })
  -- The id of a new row is drawn (uuid4), and is taken to be new.
  collected :
      (env : Checkout) (is_customer : ℕ → Bool) (t actor id : ℕ) (amount : ℤ)
      (currency phone : Text) (customer : Option ℕ) {s : Portal} {p : Payments}
      → lookup id s.payments.transactions ≡ none
      → initiate_collection env is_customer t actor id amount currency phone customer s.payments
        ≡ ok p
      → Step s (record s { payments = p })
  bought :
      (env : Checkout) (drawn : Drawn) (allowed : Bool) (intent : Option ℕ) (plan : ℕ)
      (phone : Text) (r : InitiateResult) {s s' : Portal}
      → lookup drawn.transaction_id s.payments.transactions ≡ none
      → initiate_payment env drawn allowed intent plan phone s ≡ ok (r, s')
      → Step s s'
  finalized :
      (env : Checkout) (id : ℕ) {s : Portal} {p : Payments}
      → finalize_payment env id s.payments ≡ ok p
      → Step s (record s { payments = p })
  activated :
      (now id : ℕ) (provisioned : Bool) (a : ActivationStatus) {s s' : Portal}
      → run_activation now id provisioned s ≡ ok (a, s')
      → Step s s'
  issued :
      (now ttl : ℕ) (has_key : Bool) (id router : ℕ) (mac : Option Text) {s s' : Portal}
      → lookup id s.sessions ≡ none
      → issue now ttl has_key id router mac s ≡ some s'
      → Step s s'
  -- What the tenant does with its wallet and with its customers, packages and vouchers.
  called :
      (t : ℕ) (c : Call) {s : Portal} {books : Books}
      → spares_payments c ≡ true
      → apply t c s.payments.books ≡ ok books
      → Step s (record s { payments = record s.payments { books = books } })
  billed : (b : Billing) {s : Portal} → Step s (record s { billing = b })

pub data Steps : Portal → Portal → Type 0 where
  done : {s : Portal} → Steps s s
  next : {s s' s'' : Portal} → Step s s' → Steps s' s'' → Steps s s''

-- Such a call writes no gross entry.
apply-credits :
    (k t : ℕ) (c : Call) (b b' : Books)
    → spares_payments c ≡ true
    → apply t c b ≡ ok b'
    → credits k b'.ledger ≡ credits k b.ledger
unfolding apply create_adjustment settle_pending record_refund record_reversal set_commission_rate
    debit_bucket move_bucket create_entry credits spares_payments transfer_bucket
    reserve_for_withdrawal release_reservation complete_disbursement reverse_disbursement
apply-credits k t (collect x r i) b b' h e = cc
apply-credits k t c b b' h e = ground arith

issue_row_lem :
    (now ttl : ℕ) (has_key : Bool) (id router : ℕ) (mac : Option Text) (o : Option ℕ)
    (s s' : Portal)
    → issue_row now ttl has_key id router mac o s ≡ some s'
    → (c : CaptiveSession) × (s' ≡ record s { sessions = insert id c s.sessions })
unfolding issue_row
issue_row_lem now ttl has_key id router mac none s s' e = cc
issue_row_lem now ttl true id router mac (some t) s s' e = (_, sym (some_inj e))
issue_row_lem now ttl false id router mac (some t) s s' e = cc

pub issue_lem :
    (now ttl : ℕ) (has_key : Bool) (id router : ℕ) (mac : Option Text) (s s' : Portal)
    → issue now ttl has_key id router mac s ≡ some s'
    → (c : CaptiveSession) × (s' ≡ record s { sessions = insert id c s.sessions })
unfolding issue
issue_lem now ttl has_key id router mac s s' e =
    issue_row_lem now ttl has_key id router mac (lookup router s.routers) s s' e

pub Step-Effect : (s s' : Portal) → Step s s' → (o : Option ℕ) × Effect o s.payments s'.payments
unfolding reconcile
Step-Effect s s' (reconciled env own id e) = (none, query_row-Effect env own id s.payments _ e)
Step-Effect s s' (delivered env own h a e) =
    (none, process_webhook-Effect env own h s.payments _ a e)
Step-Effect s s' (collected env is_customer t actor id amount currency phone customer l e) = (
  none,
  initiate_collection-Effect env is_customer t actor id amount currency phone customer s.payments _
      l e,
)
Step-Effect s s' (bought env drawn allowed intent plan phone r l e) =
    elim (initiate_payment-Outcome env drawn allowed intent plan phone s s' r l e) [
      | left_alone _ _ q _ ↦ (none, rw (q) (untouched refl (λ k. refl)))
      | started _ sid c m u a _ ↦ (some sid, a.effect)
    ]
Step-Effect s s' (finalized env id e) = (none, finalize_payment-Effect env id s.payments _ e)
Step-Effect s s' (activated now id provisioned a e) =
    (none, Activated-Effect id s s' (run_activation-Activated now id provisioned s s' a e))
Step-Effect s s' (issued now ttl has_key id router mac l e) =
    let (c, q) = issue_lem now ttl has_key id router mac s s' e in
    (none, rw (q) (untouched refl (λ k. refl)))
Step-Effect s s' (called t c h e) =
    (none, untouched refl (λ k. apply-credits k t c s.payments.books _ h e))
Step-Effect s s' (billed b) = (none, untouched refl (λ k. refl))

Step-IsPaidOnce :
    (s s' : Portal)
    → Step s s'
    → ((j : ℕ) → IsPaidOnce j s.payments)
    → (k : ℕ) → IsPaidOnce k s'.payments
Step-IsPaidOnce s s' x h k =
    let (o, e) = Step-Effect s s' x in Effect-IsPaidOnce o s.payments s'.payments e h k

-- From tables where every transaction is paid as it should be, any committed requests leave it so:
-- reconciliations and webhooks through either flow's provider, collections and portal purchases
-- under unused ids, direct finalizations, activations, new sessions, wallet calls that are not the
-- credit of a payment, and any change of customers, packages and vouchers. The ledger then holds
-- exactly one gross credit for a COMPLETED transaction, of its amount and to its tenant, and none
-- for any other.
pub Steps-IsPaidOnce :
    (k : ℕ) (s s' : Portal)
    → ((j : ℕ) → IsPaidOnce j s.payments)
    → Steps s s'
    → IsPaidOnce k s'.payments
Steps-IsPaidOnce k s _ h done = h k
Steps-IsPaidOnce k s s' h (next x xs) = Steps-IsPaidOnce k _ s' (Step-IsPaidOnce s _ x h) xs

Steps-Grows : (s s' : Portal) → Steps s s' → Grows s.payments.transactions s'.payments.transactions
Steps-Grows s _ done = Grows-refl s.payments.transactions
Steps-Grows s s' (next {s' = m} x xs) =
    let (o, e) = Step-Effect s m x in
    Grows-trans s.payments.transactions m.payments.transactions s'.payments.transactions
      (Effect-Grows o s.payments m.payments e) (Steps-Grows m s' xs)

-- A transaction that is there is still there after any committed requests, with the same id,
-- tenant, amount, reference, flow, provider, subscription, customer and session; and if its status
-- was terminal, with that status.
pub Steps-Evolves :
    (k : ℕ) (w : Transaction) (s s' : Portal)
    → lookup k s.payments.transactions ≡ some w
    → Steps s s'
    → (w' : Transaction) × (lookup k s'.payments.transactions ≡ some w') × Evolves w w'
Steps-Evolves k w s s' l xs = Steps-Grows s s' xs k w l
