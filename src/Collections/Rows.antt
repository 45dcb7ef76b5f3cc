-- ===== src/Collections/Rows.antt =====
-- How the row of a payment may change from request to request, and what each call does to it.
use infinity_radius.Prelude.{
  ℕ, true, Option, none, some, ◌≡◌, refl, sym, ◌∙◌, ap, subst, arith, ◌==◌, Dict, lookup, insert,
  lookup-insert, Bool-cases, inl, inr, ==→eq, some_inj, none_some, Text,
}
use infinity_radius.Core.Errors.{ok, ok_inj, >>=-eq-ok, unhandled, if_ok}
use infinity_radius.Core.Enums.{TransactionType, is_terminal}
use infinity_radius.Collections.Tables.{
  Transaction, Checkout, Payment, Payments, OrderStatusData, OrderStatusResponse, Reply,
  client_error, answered, find_transaction, open_payment, save_payment, audit_payment,
  webhook_received,
}
use infinity_radius.Collections.Changes.{
  Change, unchanged, shifted, paid, Kept, Kept-refl, Kept-trans, apply_order_status-Change,
}
use infinity_radius.Collections.Provider.{
  apply_first, apply_reply, first_item, query_and_apply, provider_for, query_row, receive_row,
  WebhookAnswer, store_webhook,
}

-- The inserted columns stay, and a terminal status is final.
pub record Evolves (w w' : Transaction) : Type 0 where
  pub kept : Kept w w'
  pub final : is_terminal w.status ≡ true → w'.status ≡ w.status

pub Evolves-refl : (w : Transaction) → Evolves w w
Evolves-refl w = record { kept = Kept-refl w; final = λ h. refl }

pub Evolves-trans : {u v w : Transaction} → Evolves u v → Evolves v w → Evolves u w
Evolves-trans h k = record {
  kept = Kept-trans h.kept k.kept;
  final = λ t. k.final (ap is_terminal (h.final t) ∙ t) ∙ h.final t;
}

pub Change-Evolves : (v v' : Payment) → Change v v' → Evolves v.row v'.row
Change-Evolves v _ unchanged = Evolves-refl v.row
Change-Evolves v v' (shifted live e k b p a) = record { kept = k; final = λ t. cc }
Change-Evolves v v' (paid d flow r live f y c a k p e) = record { kept = k; final = λ t. cc }

-- Every row of the first table is in the second, evolved.
abbrev pub Grows : Dict Transaction → Dict Transaction → Type 0
Grows d d' =
    (k : ℕ) (w : Transaction)
    → lookup k d ≡ some w
    → (w' : Transaction) × (lookup k d' ≡ some w') × Evolves w w'

pub Grows-refl : (d : Dict Transaction) → Grows d d
Grows-refl d k w l = (w, l, Evolves-refl w)

pub Grows-trans : (a b c : Dict Transaction) → Grows a b → Grows b c → Grows a c
Grows-trans a b c h g k w l =
    let (x, m, e) = h k w l in let (y, n, f) = g k x m in (y, n, Evolves-trans e f)

-- A row that is written back evolved.
pub insert-Grows :
    (id : ℕ) (w w' : Transaction) (d : Dict Transaction)
    → lookup id d ≡ some w
    → Evolves w w'
    → Grows d (insert id w' d)
insert-Grows id w w' d l e k u m = elim (Bool-cases (id == k)) [
  | inl y ↦
      let same = some_inj (sym l ∙ ap (λ j. lookup j d) (==→eq id k y) ∙ m) in
      (w', lookup-insert id k w' d ∙ rw (y) refl, subst (λ x. Evolves x w') same e)
  | inr n ↦ (u, lookup-insert id k w' d ∙ rw (n) m, Evolves-refl u)
]

-- A row under a new key.
pub insert_new-Grows :
    (id : ℕ) (w : Transaction) (d : Dict Transaction) → lookup id d ≡ none → Grows d (insert id w d)
insert_new-Grows id w d l k u m = elim (Bool-cases (id == k)) [
  | inl y ↦ none_some (sym l ∙ ap (λ j. lookup j d) (==→eq id k y) ∙ m)
  | inr n ↦ (u, lookup-insert id k w d ∙ rw (n) m, Evolves-refl u)
]

pub find_transaction_lem :
    (id : ℕ) (s : Payments) (w : Transaction)
    → find_transaction id s ≡ ok w
    → lookup id s.transactions ≡ some w
unfolding find_transaction
find_transaction_lem id s w e = ground arith

apply_first-Change :
    (env : Checkout) (flow : TransactionType) (o : Option OrderStatusData) (actor : Option ℕ)
    (resultcode : Option Text) (v v' : Payment)
    → apply_first env flow o actor resultcode v ≡ ok v'
    → Change v v'
unfolding apply_first
apply_first-Change env flow none actor resultcode v v' e = rw (ok_inj e) unchanged
apply_first-Change env flow (some d) actor resultcode v v' e =
    apply_order_status-Change env flow d actor resultcode v v' e

apply_reply-Change :
    (env : Checkout) (flow : TransactionType) (r : Reply OrderStatusResponse) (actor : Option ℕ)
    (v v' : Payment)
    → apply_reply env flow r actor v ≡ ok v'
    → Change v v'
unfolding apply_reply
apply_reply-Change env flow client_error actor v v' e = rw (ok_inj e) unchanged
apply_reply-Change env flow (answered r) actor v v' e =
    apply_first-Change env flow (first_item r.items) actor r.resultcode v v' e

pub query_and_apply-Change :
    (env : Checkout) (flow : TransactionType) (actor : Option ℕ) (v v' : Payment)
    → query_and_apply env flow actor v ≡ ok v'
    → Change v v'
unfolding query_and_apply
query_and_apply-Change env flow actor v v' e =
    apply_reply-Change env flow env.order_status actor v v'
      (if_ok env.is_configured (apply_reply env flow env.order_status actor v) unhandled e)

-- What a reconciliation has done: the row was there, and was written back after a change.
pub query_row_lem :
    (env : Checkout) (own : TransactionType) (id : ℕ) (s s' : Payments)
    → query_row env own id s ≡ ok s'
    → (w : Transaction) × (v' : Payment) × (lookup id s.transactions ≡ some w)
      × (s' ≡ save_payment id v' s)
      × Change (open_payment w s) v'
unfolding query_row
query_row_lem env own id s s' e =
    let (w, f, e₁) = >>=-eq-ok (find_transaction id s) _ e in
    let (flow, p, e₂) = >>=-eq-ok (provider_for own w.transaction_type) _ e₁ in
    let (v, q, e₃) = >>=-eq-ok (query_and_apply env flow none (open_payment w s)) _ e₂ in
    (
      w,
      v,
      find_transaction_lem id s w f,
      ok_inj e₃,
      query_and_apply-Change env flow none (open_payment w s) v q,
    )

-- The same of a delivery whose row was found; the webhook row is stored beside it.
pub receive_row_lem :
    (env : Checkout) (own : TransactionType) (id : ℕ) (s s' : Payments) (a : WebhookAnswer)
    → receive_row env own id s ≡ ok (a, s')
    → (w : Transaction) × (v : Payment) × (v' : Payment) × (lookup id s.transactions ≡ some w)
      × (v.row ≡ w)
      × (v.books ≡ s.books)
      × (s' ≡ store_webhook (some w.tenant_id) true env.now (save_payment id v' s))
      × Change v v'
unfolding receive_row open_payment
receive_row_lem env own id s s' a e =
    let (w, f, e₁) = >>=-eq-ok (find_transaction id s) _ e in
    let (flow, p, e₂) = >>=-eq-ok (provider_for own w.transaction_type) _ e₁ in
    let v = audit_payment (webhook_received flow) none (open_payment w s) in
    let (v', q, e₃) = >>=-eq-ok (query_and_apply env flow none v) _ e₂ in
    (
      w,
      v,
      v',
      find_transaction_lem id s w f,
      refl,
      refl,
      ap (λ (c : WebhookAnswer × Payments). c.1) (ok_inj e₃),
      query_and_apply-Change env flow none v v' q,
    )
