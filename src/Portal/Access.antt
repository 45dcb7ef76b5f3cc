-- ===== src/Portal/Access.antt =====
-- The payments for which access was provisioned.
use infinity_radius.Prelude.{
  ℕ, true, some, List, [], ◌∷◌, ◌≡◌, refl, ◌∙◌, ap, arith, lookup, Dict, inl, inr, lookup-insert,
  eq→==,
}
use infinity_radius.Core.Enums.{CollectionStatus, is_terminal}
use infinity_radius.Collections.Tables.{Transaction}
use infinity_radius.Collections.Changes.{is_completed}
use infinity_radius.Collections.Rows.{Grows}
use infinity_radius.Collections.Effects.{Effect-Grows}
use infinity_radius.Portal.Tables.{Portal}
use infinity_radius.Portal.Attempts.{left_alone, started, initiate_payment-Outcome}
use infinity_radius.Portal.Grants.{Activated, nothing, marked, run_activation-Activated}
use infinity_radius.Portal.System.{
  Step, reconciled, delivered, collected, bought, finalized, activated, issued, called, billed,
  Steps, done, next, Step-Effect, issue_lem,
}

-- Each of these transactions is there, and is COMPLETED.
abbrev pub ArePaid : Dict Transaction → List ℕ → Type 0
ArePaid d [] = Unit {0}
ArePaid d (k ∷ ks) =
    ((w : Transaction) × (lookup k d ≡ some w) × (is_completed w.status ≡ true)) × ArePaid d ks

completed-is_terminal : (c : CollectionStatus) → is_completed c ≡ true → is_terminal c ≡ true
unfolding is_completed is_terminal
completed-is_terminal c h = ground arith

Grows-ArePaid : (d d' : Dict Transaction) (ks : List ℕ) → Grows d d' → ArePaid d ks → ArePaid d' ks
Grows-ArePaid d d' [] g h = tt
Grows-ArePaid d d' (k ∷ ks) g ((w, l, c), h) =
    let (w', l', e) = g k w l in
    (
      (w', l', ap is_completed (e.final (completed-is_terminal w.status c)) ∙ c),
      Grows-ArePaid d d' ks g h,
    )

-- Only an activation adds to the list, and then a payment that is COMPLETED.
Activated-grants :
    (id : ℕ) (s s' : Portal)
    → Activated id s s'
    → ArePaid s'.payments.transactions s.grants
    → ArePaid s'.payments.transactions s'.grants
Activated-grants id s s' (nothing q) h = rw (ap (λ (x : Portal). x.grants) q) h
Activated-grants id s s' (marked w l c m) h = elim m.granted [
  | inl same ↦ rw (same) h
  | inr (more, a) ↦
      let w' = record w { activation_status = m.activation; activated_at = m.at } in
      rw (more)
        ((w', ap (lookup id) m.rows ∙ lookup-insert id id w' _ ∙ rw (eq→== id id refl) refl, c), h)
]

Step-grants :
    (s s' : Portal)
    → Step s s'
    → ArePaid s'.payments.transactions s.grants
    → ArePaid s'.payments.transactions s'.grants
Step-grants s _ (reconciled env own id e) h = h
Step-grants s _ (delivered env own d a e) h = h
Step-grants s _ (collected env is_customer t actor id amount currency phone customer l e) h = h
Step-grants s s' (bought env drawn allowed intent plan phone r l e) h =
    elim (initiate_payment-Outcome env drawn allowed intent plan phone s s' r l e) [
      | left_alone _ _ q _ ↦ rw (ap (λ (x : Portal). x.grants) q) h
      | started _ sid c m u a _ ↦ rw (a.no_grant) h
    ]
Step-grants s _ (finalized env id e) h = h
Step-grants s s' (activated now id provisioned a e) h =
    Activated-grants id s s' (run_activation-Activated now id provisioned s s' a e) h
Step-grants s s' (issued now ttl has_key id router mac l e) h =
    let (c, q) = issue_lem now ttl has_key id router mac s s' e in
    rw (ap (λ (x : Portal). x.grants) q) h
Step-grants s _ (called t c g e) h = h
Step-grants s _ (billed b) h = h

-- From tables where access was provisioned only for COMPLETED payments, any committed requests
-- leave it so: every transaction for which RADIUS was provisioned is there and COMPLETED, also
-- after later requests.
pub Steps-ArePaid :
    (s s' : Portal)
    → ArePaid s.payments.transactions s.grants
    → Steps s s'
    → ArePaid s'.payments.transactions s'.grants
Steps-ArePaid s _ h done = h
Steps-ArePaid s s' h (next {s' = m} x xs) =
    let (o, e) = Step-Effect s m x in
    let kept =
      Grows-ArePaid s.payments.transactions m.payments.transactions s.grants
        (Effect-Grows o s.payments m.payments e) h in
    Steps-ArePaid m s' (Step-grants s m x kept) xs
