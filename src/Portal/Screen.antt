-- ===== src/Portal/Screen.antt =====
-- The waiting screen of captive_portal.py against the row of the payment and the ledger.
use infinity_radius.Prelude.{
  ℕ, Bool, true, false, Option, none, some, List, [], ◌∷◌, ◌≡◌, refl, sym, ◌∙◌, ap, arith,
  if◌then◌else◌, lookup, Bool-cases, inl, inr, absurd_Bool,
}
use infinity_radius.Core.Enums.{CollectionStatus, ActivationStatus, is_terminal}
use infinity_radius.Collections.Tables.{Transaction}
use infinity_radius.Collections.Changes.{is_completed}
use infinity_radius.Collections.Credits.{credits, due, PaidRow, IsPaidOnce}
use infinity_radius.Portal.Tables.{Portal}
use infinity_radius.Portal.Activation.{is_active}
use infinity_radius.Portal.PublicView.{
  PublicStatus, PaymentView, public_activation, is_live, is_under_review, with_login, paid_view,
  view_row, get_payment_status, find_customer,
}
use infinity_radius.Billing.Tables.{Customer}
use infinity_radius.Wallet.Tables.{LedgerEntry}

unfoldable pub says_paid : PublicStatus → Bool
says_paid PublicStatus.completed = true
says_paid _ = false

unfoldable pub says_failed : PublicStatus → Bool
says_failed PublicStatus.failed = true
says_failed _ = false

unfoldable pub is_given : Option ℕ → Bool
is_given none = false
is_given (some n) = true

-- What the screen may say of a row: that it is paid exactly if it is COMPLETED; that it failed only
-- if it ended unpaid; and the credentials only if it is paid and access is active.
pub record IsHonest (w : Transaction) (view : PaymentView) : Type 0 where
  pub paid_iff : says_paid view.status ≡ is_completed w.status
  pub failed_only :
      says_failed view.status ≡ true
      → (is_terminal w.status ≡ true) × (is_completed w.status ≡ false)
  pub login_only :
      is_given view.login_subscription ≡ true
      → (is_completed w.status ≡ true) × (is_active w.activation_status ≡ true)
  pub review_pays_nothing : view.under_review ≡ true → is_terminal w.status ≡ false

with_login-kept :
    (a : Option ℕ) (c : Option Customer) (view : PaymentView)
    → ((with_login a c view).status ≡ view.status)
      × ((with_login a c view).under_review ≡ view.under_review)
unfolding with_login
with_login-kept (some a) (some c) view = (refl, refl)
with_login-kept (some a) none view = (refl, refl)
with_login-kept none c view = (refl, refl)

live-is_active :
    (o : Option ActivationStatus) → is_live (public_activation o) ≡ true → is_active o ≡ true
unfolding is_live public_activation is_active
live-is_active o h = ground arith

review-live :
    (c : CollectionStatus)
    → is_under_review c ≡ true
    → (is_terminal c ≡ false) × (is_completed c ≡ false)
unfolding is_under_review is_terminal is_completed
review-live c h = ground arith

live_unpaid : (c : CollectionStatus) → is_terminal c ≡ false → is_completed c ≡ false
unfolding is_terminal is_completed
live_unpaid c h = ground arith

paid_view-IsHonest :
    (w : Transaction) (s : Portal) → is_completed w.status ≡ true → IsHonest w (paid_view w s)
unfolding paid_view is_given says_paid says_failed
paid_view-IsHonest w s c = elim (Bool-cases (is_live (public_activation w.activation_status))) [
  | inl y ↦
      let (q, r) = with_login-kept w.subscription_id (find_customer w.customer_id s) _ in
      rw (y) (record {
        paid_iff = ap says_paid q ∙ sym c;
        failed_only = λ h. absurd_Bool (sym h ∙ ap says_failed q);
        login_only = λ h. (c, live-is_active w.activation_status y);
        review_pays_nothing = λ h. absurd_Bool (sym h ∙ r);
      })
  | inr n ↦ rw (n) (record {
    paid_iff = sym c;
    failed_only = λ h. cc;
    login_only = λ h. cc;
    review_pays_nothing = λ h. cc;
  })
]

view_row-IsHonest : (w : Transaction) (s : Portal) → IsHonest w (view_row w s)
unfolding view_row is_given says_paid says_failed
view_row-IsHonest w s = elim (Bool-cases (is_under_review w.status)) [
  | inl y ↦
      let (live, unpaid) = review-live w.status y in
      rw (y) (record {
        paid_iff = sym unpaid;
        failed_only = λ h. cc;
        login_only = λ h. cc;
        review_pays_nothing = λ h. live;
      })
  | inr n ↦ elim (Bool-cases (is_completed w.status)) [
    | inl c ↦ elim (Bool-cases (is_terminal w.status)) [
      | inl t ↦ rw (n, t, c) (paid_view-IsHonest w s c)
      | inr t ↦ rw (n, t, c) (paid_view-IsHonest w s c)
    ]
    | inr u ↦ elim (Bool-cases (is_terminal w.status)) [
      | inl t ↦
          rw (n, t, u)
            (record {
              paid_iff = sym u;
              failed_only = λ h. (t, u);
              login_only = λ h. cc;
              review_pays_nothing = λ h. cc;
            })
      | inr t ↦
          rw (n, t, u)
            (record {
              paid_iff = sym u;
              failed_only = λ h. cc;
              login_only = λ h. cc;
              review_pays_nothing = λ h. cc;
            })
    ]
  ]
]

paid_credits :
    (k : ℕ) (ledger : List LedgerEntry) (w : Transaction)
    → PaidRow k ledger (some w)
    → credits k ledger ≡ (if is_completed w.status then (w.tenant_id, w.amount) ∷ [] else [])
unfolding PaidRow due
paid_credits k ledger w h = h.1

-- For a transaction that is paid as it should be, the waiting screen says completed exactly if the
-- row is COMPLETED, and exactly then the ledger holds its one gross credit, else none; it says
-- failed only of a terminal status that is not COMPLETED; it gives the credentials only if the row
-- is COMPLETED and its activation is ACTIVE; and it says under review only of a status that is not
-- terminal.
pub get_payment_status-IsHonest :
    (k : ℕ) (w : Transaction) (s : Portal)
    → lookup k s.payments.transactions ≡ some w
    → IsPaidOnce k s.payments
    → let view = get_payment_status (some k) s in
      IsHonest w view
      × (credits k s.payments.books.ledger
          ≡ (if says_paid view.status then (w.tenant_id, w.amount) ∷ [] else []))
unfolding get_payment_status
get_payment_status-IsHonest k w s l h =
    let x = view_row-IsHonest w s in
    rw (l) (
      x,
      paid_credits k s.payments.books.ledger w (rw (l) at h)
          ∙ ap (λ (b : Bool). if b then (w.tenant_id, w.amount) ∷ [] else []) (sym x.paid_iff),
    )
