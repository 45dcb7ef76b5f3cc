-- ===== src/Collections/Changes.antt =====
-- What an order status does to a payment in `apply_order_status`: nothing, a move to a status that
-- pays nothing, or the payment with its credit.
use infinity_radius.Prelude.{
  ℕ, Bool, true, false, Option, none, some, ◌≡◌, refl, arith, Text, text, eq_text, Bool-cases, inl,
  inr, ◌∙◌, ap, sym,
}
use infinity_radius.Core.Errors.{ok, ok_inj, >>=-eq-ok}
use infinity_radius.Core.Enums.{TransactionType, CollectionStatus, is_terminal}
use infinity_radius.Wallet.Tables.{selcom_collection}
use infinity_radius.Wallet.Operations.{process_collection, CollectionResult}
use infinity_radius.Collections.Tables.{Transaction, OrderStatusData, Checkout, Payment}
use infinity_radius.Collections.Status.{
  move_to, collection_status, is_waiting, payment_word, is_verified, mark_paid, finalize_paid,
  apply_completed, apply_waiting, apply_mapped, is_of_flow, apply_order_status, is_review,
  is_stale_pending,
}

-- The columns that stay as they were inserted.
pub record Kept (w w' : Transaction) : Type 0 where
  pub kept_id : w'.id ≡ w.id
  pub kept_tenant : w'.tenant_id ≡ w.tenant_id
  pub kept_amount : w'.amount ≡ w.amount
  pub kept_reference : w'.reference ≡ w.reference
  pub kept_type : w'.transaction_type ≡ w.transaction_type
  pub kept_provider : w'.payment_provider ≡ w.payment_provider
  pub kept_subscription : w'.subscription_id ≡ w.subscription_id
  pub kept_customer : w'.customer_id ≡ w.customer_id
  pub kept_session : w'.captive_session_id ≡ w.captive_session_id

pub Kept-refl : (w : Transaction) → Kept w w
Kept-refl w = record {
  kept_id = refl;
  kept_tenant = refl;
  kept_amount = refl;
  kept_reference = refl;
  kept_type = refl;
  kept_provider = refl;
  kept_subscription = refl;
  kept_customer = refl;
  kept_session = refl;
}

pub Kept-trans : {u v w : Transaction} → Kept u v → Kept v w → Kept u w
Kept-trans h k = record {
  kept_id = k.kept_id ∙ h.kept_id;
  kept_tenant = k.kept_tenant ∙ h.kept_tenant;
  kept_amount = k.kept_amount ∙ h.kept_amount;
  kept_reference = k.kept_reference ∙ h.kept_reference;
  kept_type = k.kept_type ∙ h.kept_type;
  kept_provider = k.kept_provider ∙ h.kept_provider;
  kept_subscription = k.kept_subscription ∙ h.kept_subscription;
  kept_customer = k.kept_customer ∙ h.kept_customer;
  kept_session = k.kept_session ∙ h.kept_session;
}

unfoldable pub is_completed : CollectionStatus → Bool
is_completed CollectionStatus.completed = true
is_completed _ = false

pub data Change : Payment → Payment → Type 0 where
  unchanged : {v : Payment} → Change v v
  shifted :
      {v v' : Payment}
      → is_terminal v.row.status ≡ false
      → is_completed v'.row.status ≡ false
      → Kept v.row v'.row
      → v'.books ≡ v.books
      → v'.prompts ≡ v.prompts
      → v'.row.activation_status ≡ v.row.activation_status
      → Change v v'
  paid :
      (d : OrderStatusData) (flow : TransactionType) (r : CollectionResult) {v v' : Payment}
      → is_terminal v.row.status ≡ false
      → is_of_flow v.row.transaction_type flow ≡ true
      → is_verified d v.row ≡ true
      → v'.row.status ≡ CollectionStatus.completed
      → v'.row.activation_status ≡ (mark_paid flow v.row).activation_status
      → Kept v.row v'.row
      → v'.prompts ≡ v.prompts
      → process_collection v.row.tenant_id v.row.amount selcom_collection (some v.row.id) v.books
        ≡ ok (r, v'.books)
      → Change v v'

-- No word maps to COMPLETED.
pub collection_status-is_completed :
    (s : Text) (c : CollectionStatus) → collection_status s ≡ some c → is_completed c ≡ false
unfolding collection_status is_completed
collection_status-is_completed s c e = ground arith

mark_paid-Kept : (flow : TransactionType) (w : Transaction) → Kept w (mark_paid flow w)
unfolding mark_paid
mark_paid-Kept TransactionType.collection w = Kept-refl w
mark_paid-Kept TransactionType.captive_portal w = ground arith

pub finalize_paid_lem :
    (flow : TransactionType) (v p : Payment)
    → finalize_paid flow v ≡ ok p
    → (r : CollectionResult) × (process_collection v.row.tenant_id v.row.amount selcom_collection
          (some v.row.id)
          v.books
        ≡ ok (r, p.books))
      × (p.row ≡ mark_paid flow v.row)
      × (p.prompts ≡ v.prompts)
unfolding finalize_paid
finalize_paid_lem flow v p e =
    let ((r, books), x, y) =
      >>=-eq-ok
        (process_collection v.row.tenant_id v.row.amount selcom_collection (some v.row.id) v.books)
        (λ c. ok (record v { books = c.1; row = mark_paid flow v.row })) e in
    let z = ok_inj y in
    (
      r,
      x ∙ ap (λ (q : Payment). ok (r, q.books)) (sym z),
      ap (λ (q : Payment). q.row) z,
      ap (λ (q : Payment). q.prompts) z,
    )

module _ (env : Checkout) (flow : TransactionType) (actor : Option ℕ) (resultcode : Option Text)
    (v : Payment) (live : is_terminal v.row.status ≡ false) where
  apply_waiting-Change :
      (mapped : CollectionStatus) (word : Text)
      → is_completed mapped ≡ false
      → Change v (apply_waiting env flow mapped word actor resultcode v)
  unfolding apply_waiting is_completed move_to
  apply_waiting-Change mapped word e = elim (Bool-cases (is_review v.row.status)) [
    | inl y ↦ rw (y) unchanged
    | inr n ↦ rw (n) (elim (Bool-cases (is_stale_pending env v.row)) [
      | inl y ↦ rw (y) (shifted live refl (ground arith) refl refl refl)
      | inr m ↦ rw (m) (shifted live e (ground arith) refl refl refl)
    ])
  ]

  apply_mapped-Change :
      (mapped : Option CollectionStatus) (word : Text)
      → ((c : CollectionStatus) → mapped ≡ some c → is_completed c ≡ false)
      → Change v (apply_mapped env flow mapped word actor resultcode v)
  unfolding apply_mapped is_completed move_to
  apply_mapped-Change none word h = shifted live refl (ground arith) refl refl refl
  apply_mapped-Change (some c) word h = elim (Bool-cases (is_waiting c)) [
    | inl y ↦ rw (y) (apply_waiting-Change c word (h c refl))
    | inr n ↦ rw (n) (shifted live (h c refl) (ground arith) refl refl refl)
  ]

  apply_completed-Change :
      (d : OrderStatusData) (v' : Payment)
      → is_of_flow v.row.transaction_type flow ≡ true
      → apply_completed env flow d actor resultcode v ≡ ok v'
      → Change v v'
  unfolding apply_completed is_completed move_to
  apply_completed-Change d v' f e = elim (Bool-cases (is_verified d v.row)) [
    | inl y ↦
        let (p, x, z) = >>=-eq-ok _ _ (rw (y) at e) in
        let (r, q, w, s) = finalize_paid_lem flow v p x in
        let k = mark_paid-Kept flow v.row in
        paid d flow r live f y (ground arith) (ground arith) (ground arith) (ground arith)
          (ground arith)
    | inr n ↦ rw (ok_inj (rw (n) at e)) (shifted live refl (ground arith) refl refl refl)
  ]

pub apply_order_status-Change :
    (env : Checkout) (flow : TransactionType) (d : OrderStatusData) (actor : Option ℕ)
    (resultcode : Option Text) (v v' : Payment)
    → apply_order_status env flow d actor resultcode v ≡ ok v'
    → Change v v'
unfolding apply_order_status
apply_order_status-Change env flow d actor resultcode v v' e =
    let word = payment_word d.payment_status in
    elim (Bool-cases (is_of_flow v.row.transaction_type flow)) [
      | inr n ↦ absurd (let z = (rw (n) at e) in cc)
      | inl f ↦ elim (Bool-cases (is_terminal v.row.status)) [
        | inl t ↦ rw (ok_inj (rw (f, t) at e)) unchanged
        | inr live ↦ elim (Bool-cases (eq_text word (text "COMPLETED"))) [
          | inl c ↦
              apply_completed-Change env flow actor resultcode v live d v' f (rw (f, live, c) at e)
          | inr m ↦ rw (ok_inj (rw (f, live, m) at e)) (
              apply_mapped-Change env flow actor resultcode v live (collection_status word) word
                (collection_status-is_completed word))
        ]
      ]
    ]
