-- ===== src/Collections/Effects.antt =====
-- What a request may do to the payments, whichever it is: write back a row that was there, insert
-- a row, or leave the rows alone. Each call of selcom_payment_provider.py and collections.py is one
-- of these.
use infinity_radius.Prelude.{
  ℕ, Bool, true, false, Option, none, some, ◌∷◌, ◌≡◌, refl, sym, ◌∙◌, ap, subst, arith, lookup,
  insert, Text, ℤ, Bool-cases, not, ◌&&◌, inl, inr, is_blank, eq_text, text, ltb_ℤ, pos,
}
use infinity_radius.Core.Errors.{
  ok, ok_inj, >>=-eq-ok, unhandled, collection_disabled, if_ok, collection_production_disabled,
  unsupported_currency, amount_not_positive, or_raise, validation, invalid_phone,
}
use infinity_radius.Core.Enums.{TransactionType}
use infinity_radius.Collections.Tables.{
  Checkout, Payment, Payments, Reply, client_error, answered, open_payment, save_payment,
  WalletPaymentResponse, audit_payment, collection_created,
}
use infinity_radius.Collections.Changes.{Kept, is_completed}
use infinity_radius.Collections.Credits.{
  credits, IsPaidOnce, KeepsCredits, Change-credits, save_payment-IsPaidOnce, insert-IsPaidOnce,
  same-PaidRow,
}
use infinity_radius.Collections.Rows.{
  Evolves, Change-Evolves, Grows, Grows-refl, insert-Grows, insert_new-Grows, query_row_lem,
  receive_row_lem,
}
use infinity_radius.Collections.Provider.{
  query_row, store_webhook, receive_order, process_webhook, WebhookAnswer, Delivery, receive_row,
}
use infinity_radius.Collections.Initiation.{
  create_order_and_send_stk, apply_prompt, send_prompt, initiate_collection, is_whole,
  check_customer, new_collection,
}
use infinity_radius.Payouts.Guards.{guarded}
use infinity_radius.Phones.{normalize_tz_phone}

-- The index is the captive session of the row that is inserted, if any.
pub data Effect (o : Option ℕ) : Payments → Payments → Type 0 where
  written :
      (id : ℕ) (v v' : Payment) {s s' : Payments}
      → lookup id s.transactions ≡ some v.row
      → v.books ≡ s.books
      → KeepsCredits id v v'
      → Evolves v.row v'.row
      → s'.transactions ≡ insert id v'.row s.transactions
      → s'.books ≡ v'.books
      → Effect o s s'
  inserted :
      (id : ℕ) (v : Payment) {s s' : Payments}
      → lookup id s.transactions ≡ none
      → v.row.id ≡ id
      → is_completed v.row.status ≡ false
      → v.row.captive_session_id ≡ o
      → v.books ≡ s.books
      → s'.transactions ≡ insert id v.row s.transactions
      → s'.books ≡ v.books
      → Effect o s s'
  untouched :
      {s s' : Payments}
      → s'.transactions ≡ s.transactions
      → ((k : ℕ) → credits k s'.books.ledger ≡ credits k s.books.ledger)
      → Effect o s s'

pub Effect-IsPaidOnce :
    (o : Option ℕ) (s s' : Payments)
    → Effect o s s'
    → ((j : ℕ) → IsPaidOnce j s)
    → (k : ℕ) → IsPaidOnce k s'
unfolding save_payment
Effect-IsPaidOnce o s s' (written id v v' l b c g t e) h k =
    rw (t, e) (save_payment-IsPaidOnce id k v v' s l b c h)
Effect-IsPaidOnce o s s' (inserted id v l i n p b t e) h k =
    rw (t, e) (insert-IsPaidOnce id k v s l i n b h)
Effect-IsPaidOnce o s s' (untouched t e) h k =
    rw (t) (same-PaidRow k s.books.ledger s'.books.ledger (lookup k s.transactions) (e k) (h k))

pub Effect-Grows :
    (o : Option ℕ) (s s' : Payments) → Effect o s s' → Grows s.transactions s'.transactions
Effect-Grows o s s' (written id v v' l b c g t e) =
    subst (Grows s.transactions) (sym t) (insert-Grows id v.row v'.row s.transactions l g)
Effect-Grows o s s' (inserted id v l i n p b t e) =
    subst (Grows s.transactions) (sym t) (insert_new-Grows id v.row s.transactions l)
Effect-Grows o s s' (untouched t e) =
    subst (Grows s.transactions) (sym t) (Grows-refl s.transactions)

pub query_row-Effect :
    (env : Checkout) (own : TransactionType) (id : ℕ) (s s' : Payments)
    → query_row env own id s ≡ ok s'
    → Effect none s s'
unfolding open_payment save_payment
query_row-Effect env own id s s' e =
    let (w, v', l, q, c) = query_row_lem env own id s s' e in
    let v = open_payment w s in
    written id v v' l refl (Change-credits id v v' c) (Change-Evolves v v' c)
      (ap (λ (x : Payments). x.transactions) q) (ap (λ (x : Payments). x.books) q)

pub receive_row-Effect :
    (env : Checkout) (own : TransactionType) (id : ℕ) (s s' : Payments) (a : WebhookAnswer)
    → receive_row env own id s ≡ ok (a, s')
    → Effect none s s'
unfolding store_webhook save_payment
receive_row-Effect env own id s s' a e =
    let (w, v, v', l, r, b, q, c) = receive_row_lem env own id s s' a e in
    written id v v' (l ∙ ap some (sym r)) b (Change-credits id v v' c) (Change-Evolves v v' c)
      (ap (λ (x : Payments). x.transactions) q) (ap (λ (x : Payments). x.books) q)

store_webhook-Effect :
    (t : Option ℕ) (verified : Bool) (now : ℕ) (s : Payments)
    → Effect none s (store_webhook t verified now s)
unfolding store_webhook
store_webhook-Effect t verified now s = untouched refl (λ k. refl)

receive_order-Effect :
    (env : Checkout) (own : TransactionType) (o : Option ℕ) (s s' : Payments) (a : WebhookAnswer)
    → receive_order env own o s ≡ ok (a, s')
    → Effect none s s'
unfolding receive_order store_webhook
receive_order-Effect env own none s s' a e =
    rw (ap (λ (p : WebhookAnswer × Payments). p.1) (ok_inj e))
      (store_webhook-Effect none true env.now s)
receive_order-Effect env own (some id) s s' a e = receive_row-Effect env own id s s' a e

pub process_webhook-Effect :
    (env : Checkout) (own : TransactionType) (h : Delivery) (s s' : Payments) (a : WebhookAnswer)
    → process_webhook env own h s ≡ ok (a, s')
    → Effect none s s'
unfolding process_webhook store_webhook
process_webhook-Effect env own h s s' a e =
    let second = λ (p : WebhookAnswer × Payments). p.1 in
    elim (Bool-cases (not (env.is_configured && h.signature_accepted))) [
      | inl y ↦ rw (ap second (ok_inj (rw (y) at e))) (store_webhook-Effect none false env.now s)
      | inr n ↦ elim (Bool-cases (is_blank h.order_id)) [
        | inl y ↦
            rw (ap second (ok_inj (rw (n, y) at e))) (store_webhook-Effect none true env.now s)
        | inr m ↦ receive_order-Effect env own _ s s' a (rw (n, m) at e)
      ]
    ]

apply_prompt_lem :
    (env : Checkout) (flow : TransactionType) (actor : Option ℕ) (r : Reply WalletPaymentResponse)
    (v : Payment)
    → let v' = apply_prompt env flow actor r v in
      (is_completed v'.row.status ≡ false) × Kept v.row v'.row × (v'.books ≡ v.books)
unfolding apply_prompt is_completed
apply_prompt_lem env flow actor client_error v = (refl, ground arith, refl)
apply_prompt_lem env flow actor (answered r) v = (refl, ground arith, refl)

send_prompt_lem :
    (env : Checkout) (flow : TransactionType) (actor : Option ℕ) (r : Reply (Unit {0}))
    (v : Payment)
    → let v' = send_prompt env flow actor r v in
      (is_completed v'.row.status ≡ false) × Kept v.row v'.row × (v'.books ≡ v.books)
unfolding send_prompt is_completed
send_prompt_lem env flow actor client_error v = (refl, ground arith, refl)
send_prompt_lem env flow actor (answered r) v =
    apply_prompt_lem env flow actor env.wallet_payment (record v { prompts = v.row.id ∷ v.prompts })

-- The prompt of a new row: it is not COMPLETED after it, and keeps its columns and the books.
pub create_order_lem :
    (env : Checkout) (flow : TransactionType) (actor : Option ℕ) (v v' : Payment)
    → create_order_and_send_stk env flow actor v ≡ ok v'
    → (is_completed v'.row.status ≡ false) × Kept v.row v'.row × (v'.books ≡ v.books)
unfolding create_order_and_send_stk
create_order_lem env flow actor v v' e =
    let sent = send_prompt env flow actor env.create_order v in
    let z = if_ok (env.is_configured && is_whole v.row.amount) (ok sent) unhandled e in
    subst
      (λ (x : Payment).
        (is_completed x.row.status ≡ false) × Kept v.row x.row × (x.books ≡ v.books))
      (sym (ok_inj z)) (send_prompt_lem env flow actor env.create_order v)

pub initiate_collection-Effect :
    (env : Checkout) (is_customer : ℕ → Bool) (t actor id : ℕ) (amount : ℤ) (currency phone : Text)
    (customer : Option ℕ) (s s' : Payments)
    → lookup id s.transactions ≡ none
    → initiate_collection env is_customer t actor id amount currency phone customer s ≡ ok s'
    → Effect none s s'
unfolding initiate_collection save_payment open_payment
initiate_collection-Effect env is_customer t actor id amount currency phone customer s s' l e =
    let e₁ = guarded env.selcom_collection_enabled collection_disabled _ e in
    let e₂ =
      guarded env.selcom_collection_production_enabled collection_production_disabled _ e₁.1 in
    let e₃ = guarded (eq_text currency (text "TZS")) unsupported_currency _ e₂.1 in
    let e₄ = guarded (ltb_ℤ (pos 0) amount) amount_not_positive _ e₃.1 in
    let (number, f, e₅) =
      >>=-eq-ok (or_raise (normalize_tz_phone phone) (validation invalid_phone)) _ e₄.1 in
    let (done, g, e₆) = >>=-eq-ok (check_customer is_customer customer) _ e₅ in
    let w = new_collection env t id customer amount currency number in
    let v = audit_payment collection_created (some actor) (open_payment w s) in
    let (v', c, e₇) =
      >>=-eq-ok (create_order_and_send_stk env TransactionType.collection (some actor) v) _ e₆ in
    let (n, k, b) = create_order_lem env TransactionType.collection (some actor) v v' c in
    let q = ok_inj e₇ in
    inserted id v' l k.kept_id n k.kept_session b (ap (λ (x : Payments). x.transactions) q)
      (ap (λ (x : Payments). x.books) q)
