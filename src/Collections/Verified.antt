-- ===== src/Collections/Verified.antt =====
-- What an order status must say for a payment to become COMPLETED in `apply_order_status`.
use infinity_radius.Prelude.{
  ℕ, Bool, true, false, not, ◌&&◌, Option, none, some, ◌≡◌, refl, sym, ◌∙◌, ap, if◌then◌else◌, Text,
  text, eq_text, eq_text→eq, ℤ, Bool-cases, inl, inr, absurd_Bool, eqb_ℤ→eq, [], upper, ◌∷◌, subst,
  strip, arith,
}
use infinity_radius.Core.Errors.{
  Result, ok, err, ok_inj, >>=-eq-ok, ApiError, unhandled, if_true, if_false,
}
use infinity_radius.Core.Enums.{
  TransactionType, CollectionStatus, is_terminal, ActivationStatus, eq_flow,
}
use infinity_radius.Wallet.Tables.{selcom_collection}
use infinity_radius.Wallet.Operations.{process_collection, CollectionResult}
use infinity_radius.Collections.Tables.{Transaction, OrderStatusData, Checkout, Payment}
use infinity_radius.Collections.Status.{
  payment_word, is_verified, conflicts, is_amount, mark_paid, is_of_flow, apply_order_status,
  apply_waiting, apply_mapped, move_to, is_review, is_waiting, apply_completed, is_stale_pending,
  finalize_paid, collection_status,
}
use infinity_radius.Collections.Changes.{
  is_completed, finalize_paid_lem, collection_status-is_completed,
}

-- A text of the answer that is missing, empty, or the one expected.
pub data Agrees : Option Text → Text → Type 0 where
  missing : (expected : Text) → Agrees none expected
  empty : (expected : Text) → Agrees (some []) expected
  same : (expected : Text) → Agrees (some expected) expected

-- The activation status after a payment in each flow, by the one before.
pub data Awaits : TransactionType → Option ActivationStatus → Option ActivationStatus → Type 0 where
  unchanged : (a : Option ActivationStatus) → Awaits TransactionType.collection a a
  pending :
      (a : Option ActivationStatus)
      → Awaits TransactionType.captive_portal a (some ActivationStatus.pending)

-- What is known when a payment has become COMPLETED.
pub record IsVerifiedPayment (flow : TransactionType) (d : OrderStatusData) (v v' : Payment)
    : Type 0 where
  pub of_flow : v.row.transaction_type ≡ some flow
  pub word : Text
  pub has_word : d.payment_status ≡ some word
  pub says_completed : upper (strip word) ≡ text "COMPLETED"
  pub same_order : Agrees d.order_id v.row.reference
  pub same_amount : d.amount ≡ some v.row.amount
  pub same_currency : Agrees d.currency v.row.currency
  pub share : CollectionResult
  pub credited :
      process_collection v.row.tenant_id v.row.amount selcom_collection (some v.row.id) v.books
      ≡ ok (share, v'.books)
  pub awaits_access : Awaits flow v.row.activation_status v'.row.activation_status

not-conflicts-Agrees :
    (o : Option Text) (expected : Text) → conflicts o expected ≡ false → Agrees o expected
unfolding conflicts
not-conflicts-Agrees none expected h = missing expected
not-conflicts-Agrees (some []) expected h = empty expected
not-conflicts-Agrees (some (c ∷ s)) expected h =
    subst (Agrees (some (c ∷ s))) (eq_text→eq (c ∷ s) expected (ground arith)) (same (c ∷ s))

mark_paid-Awaits :
    (flow : TransactionType) (w : Transaction)
    → Awaits flow w.activation_status (mark_paid flow w).activation_status
unfolding mark_paid
mark_paid-Awaits TransactionType.collection w = unchanged w.activation_status
mark_paid-Awaits TransactionType.captive_portal w = pending w.activation_status

of_flow_lem :
    (o : Option TransactionType) (flow : TransactionType) → is_of_flow o flow ≡ true → o ≡ some flow
unfolding is_of_flow eq_flow
of_flow_lem none flow h = cc
of_flow_lem (some TransactionType.collection) TransactionType.collection h = refl
of_flow_lem (some TransactionType.captive_portal) TransactionType.captive_portal h = refl
of_flow_lem (some TransactionType.collection) TransactionType.captive_portal h = cc
of_flow_lem (some TransactionType.captive_portal) TransactionType.collection h = cc

payment_word_lem :
    (o : Option Text)
    → payment_word o ≡ text "COMPLETED"
    → (s : Text) × (o ≡ some s) × (upper (strip s) ≡ text "COMPLETED")
unfolding payment_word
payment_word_lem none h = cc
payment_word_lem (some s) h = (s, refl, h)

three : (a b c : Bool) → (not a && (b && not c)) ≡ true → (a ≡ false) × (b ≡ true) × (c ≡ false)
three false true false h = (refl, refl, refl)
three true b c h = cc
three false false c h = cc
three false true true h = cc

is_amount_lem : (o : Option ℤ) (a : ℤ) → is_amount o a ≡ true → o ≡ some a
unfolding is_amount
is_amount_lem none a h = cc
is_amount_lem (some b) a h = ap some (eqb_ℤ→eq b a h)

is_verified_lem :
    (d : OrderStatusData) (w : Transaction)
    → is_verified d w ≡ true
    → (conflicts d.order_id w.reference ≡ false)
      × (d.amount ≡ some w.amount)
      × (conflicts d.currency w.currency ≡ false)
unfolding is_verified
is_verified_lem d w h =
    let (p, q, r) =
      three (conflicts d.order_id w.reference) (is_amount d.amount w.amount)
        (conflicts d.currency w.currency) h in
    (p, is_amount_lem d.amount w.amount q, r)

apply_waiting-incomplete :
    (env : Checkout) (flow : TransactionType) (c : CollectionStatus) (word : Text)
    (actor : Option ℕ) (resultcode : Option Text) (v : Payment)
    → is_completed c ≡ false
    → is_completed v.row.status ≡ false
    → is_completed (apply_waiting env flow c word actor resultcode v).row.status ≡ false
unfolding apply_waiting move_to is_completed
apply_waiting-incomplete env flow c word actor resultcode v n m =
    elim (Bool-cases (is_review v.row.status)) [
      | inl y ↦ rw (y) m
      | inr x ↦ elim (Bool-cases (is_stale_pending env v.row)) [
        | inl y ↦ rw (x, y) refl
        | inr z ↦ rw (x, z) n
      ]
    ]

apply_mapped-incomplete :
    (env : Checkout) (flow : TransactionType) (mapped : Option CollectionStatus) (word : Text)
    (actor : Option ℕ) (resultcode : Option Text) (v : Payment)
    → ((c : CollectionStatus) → mapped ≡ some c → is_completed c ≡ false)
    → is_completed v.row.status ≡ false
    → is_completed (apply_mapped env flow mapped word actor resultcode v).row.status ≡ false
unfolding apply_mapped move_to is_completed
apply_mapped-incomplete env flow none word actor resultcode v n m = refl
apply_mapped-incomplete env flow (some c) word actor resultcode v n m =
    elim (Bool-cases (is_waiting c)) [
      | inl y ↦ rw (y) (apply_waiting-incomplete env flow c word actor resultcode v (n c refl) m)
      | inr x ↦ rw (x) (n c refl)
    ]

if_not {ℓ} :
    {V : Type ℓ} (b : Bool) (x : ApiError) (m : Result V) {v : V}
    → (if not b then err x else m) ≡ ok v
    → (b ≡ true) × (m ≡ ok v)
if_not true x m e = (refl, e)
if_not false x m e = cc

completed-IsVerifiedPayment :
    (env : Checkout) (flow : TransactionType) (d : OrderStatusData) (actor : Option ℕ)
    (resultcode : Option Text) (v v' : Payment)
    → is_of_flow v.row.transaction_type flow ≡ true
    → payment_word d.payment_status ≡ text "COMPLETED"
    → apply_completed env flow d actor resultcode v ≡ ok v'
    → is_completed v'.row.status ≡ true
    → IsVerifiedPayment flow d v v'
unfolding apply_completed move_to is_completed
completed-IsVerifiedPayment env flow d actor resultcode v v' f w e c =
    elim (Bool-cases (is_verified d v.row)) [
      | inl y ↦
          let (p, x, z) =
            >>=-eq-ok (finalize_paid flow v) _ (if_true (is_verified d v.row) _ _ y e) in
          let (r, q, kept, _) = finalize_paid_lem flow v p x in
          let (order, amount, currency) = is_verified_lem d v.row y in
          let (s, has, says) = payment_word_lem d.payment_status w in
          record {
            of_flow = of_flow_lem v.row.transaction_type flow f;
            word = s;
            has_word = has;
            says_completed = says;
            same_order = not-conflicts-Agrees d.order_id v.row.reference order;
            same_amount = amount;
            same_currency = not-conflicts-Agrees d.currency v.row.currency currency;
            share = r;
            credited = q ∙ ap (λ (a : Payment). ok (r, a.books)) (sym (ok_inj z));
            awaits_access =
                subst (Awaits flow v.row.activation_status)
                  (sym (
                    ap (λ (a : Payment). a.row.activation_status) (ok_inj z)
                    ∙ ap (λ (a : Transaction). a.activation_status) kept))
                  (mark_paid-Awaits flow v.row);
          }
      | inr n ↦ absurd_Bool (
          sym c
          ∙ ap (λ (a : Payment). is_completed a.row.status)
              (ok_inj (if_false (is_verified d v.row) _ _ n e)))
    ]

-- A payment that was not COMPLETED and that an order status makes COMPLETED belongs to the flow
-- that applied it; the status, trimmed and in capitals, reads COMPLETED; the order id and the
-- currency that it names, where they are there and not empty, are those of the row, and its amount
-- is there and is exactly the row's; the wallet service has credited that amount to the row's
-- tenant under the row's id; and the activation status is PENDING in the captive portal and
-- unchanged in a collection.
pub apply_order_status-IsVerifiedPayment :
    (env : Checkout) (flow : TransactionType) (d : OrderStatusData) (actor : Option ℕ)
    (resultcode : Option Text) (v v' : Payment)
    → is_completed v.row.status ≡ false
    → apply_order_status env flow d actor resultcode v ≡ ok v'
    → is_completed v'.row.status ≡ true
    → IsVerifiedPayment flow d v v'
unfolding apply_order_status
apply_order_status-IsVerifiedPayment env flow d actor resultcode v v' n e c =
    let word = payment_word d.payment_status in
    let at =
      λ (x : Payment) (q : v' ≡ x). sym (ap (λ (y : Payment). is_completed y.row.status) q) ∙ c in
    let f = if_not (is_of_flow v.row.transaction_type flow) unhandled _ e in
    elim (Bool-cases (is_terminal v.row.status)) [
      | inl t ↦ absurd_Bool (sym (at v (ok_inj (if_true (is_terminal v.row.status) _ _ t f.1))) ∙ n)
      | inr live ↦
          let g = if_false (is_terminal v.row.status) _ _ live f.1 in
          elim (Bool-cases (eq_text word (text "COMPLETED"))) [
            | inl w ↦
                completed-IsVerifiedPayment env flow d actor resultcode v v' f.0
                  (eq_text→eq word (text "COMPLETED") w)
                  (if_true (eq_text word (text "COMPLETED")) _ _ w g) c
            | inr m ↦
                let q = ok_inj (if_false (eq_text word (text "COMPLETED")) _ _ m g) in
                absurd_Bool (
                  sym (at _ q)
                  ∙ apply_mapped-incomplete env flow (collection_status word) word actor resultcode
                      v (collection_status-is_completed word) n)
          ]
    ]
