-- ===== src/Portal/Duplicates.antt =====
-- The sessions of the attempts, and the branch of `initiate_payment` that reuses an attempt.
use infinity_radius.Prelude.{
  ℕ, Bool, true, false, not, Option, none, some, [], ◌∷◌, ◌≡◌, refl, sym, ◌∙◌, ap, subst, arith,
  lookup, insert, Dict, inl, inr, lookup-insert, ◌==◌, ==→eq, Text, Bool-cases, some_inj,
  absurd_Bool, lookup-insert_self,
}
use infinity_radius.Core.Errors.{ok, if_false}
use infinity_radius.Collections.Tables.{Transaction, Payments, Checkout}
use infinity_radius.Collections.Effects.{
  Effect, written, inserted, untouched, query_row-Effect, process_webhook-Effect,
  initiate_collection-Effect,
}
use infinity_radius.Portal.Tables.{CaptiveSession, Portal}
use infinity_radius.Portal.Sessions.{is_unset}
use infinity_radius.Portal.Payment.{
  Drawn, InitiateResult, find_attempt, is_number, initiate_payment, is_live_attempt,
}
use infinity_radius.Collections.Provider
use infinity_radius.Portal.System.{
  Step, Steps, done, next, reconciled, delivered, collected, bought, finalized, activated, issued,
  issue_lem, called, billed,
}
use infinity_radius.Portal.Attempts.{
  Outcome, left_alone, started, IsReuse, is_duplicate, initiate_payment-Outcome,
  finalize_payment-Effect,
}
use infinity_radius.Portal.Grants.{run_activation-Activated, Activated-sessions, Activated-Effect}

unfoldable pub is_spent : Option CaptiveSession → Bool
unfolding is_unset
is_spent none = false
is_spent (some c) = not (is_unset c.consumed_at)

-- The session of a row, if it has one, is spent.
abbrev pub SpentRow : Dict CaptiveSession → Option ℕ → Type 0
SpentRow sessions none = Unit {0}
SpentRow sessions (some sid) = is_spent (lookup sid sessions) ≡ true

abbrev pub AreSpent : Dict CaptiveSession → Dict Transaction → Type 0
AreSpent sessions [] = Unit {0}
AreSpent sessions ((k, w) ∷ d) = SpentRow sessions w.captive_session_id × AreSpent sessions d

lookup-SpentRow :
    (sessions : Dict CaptiveSession) (k : ℕ) (w : Transaction) (d : Dict Transaction)
    → AreSpent sessions d
    → lookup k d ≡ some w
    → SpentRow sessions w.captive_session_id
unfolding lookup
lookup-SpentRow sessions k w [] h l = cc
lookup-SpentRow sessions k w ((j, u) ∷ d) h l = elim (Bool-cases (j == k)) [
  | inl y ↦
      subst (λ (x : Transaction). SpentRow sessions x.captive_session_id) (some_inj (rw (y) at l))
        h.0
  | inr n ↦ lookup-SpentRow sessions k w d h.1 (rw (n) at l)
]

insert-AreSpent :
    (sessions : Dict CaptiveSession) (k : ℕ) (w : Transaction) (d : Dict Transaction)
    → SpentRow sessions w.captive_session_id
    → AreSpent sessions d
    → AreSpent sessions (insert k w d)
unfolding insert
insert-AreSpent sessions k w [] p h = (p, tt)
insert-AreSpent sessions k w ((j, u) ∷ d) p h = elim (Bool-cases (j == k)) [
  | inl y ↦ rw (y) (p, h.1)
  | inr n ↦ rw (n) (h.0, insert-AreSpent sessions k w d p h.1)
]

-- What an effect leaves, if the session of a row that it inserts is spent.
Effect-AreSpent :
    (sessions : Dict CaptiveSession) (o : Option ℕ) (s s' : Payments)
    → Effect o s s'
    → SpentRow sessions o
    → AreSpent sessions s.transactions
    → AreSpent sessions s'.transactions
Effect-AreSpent sessions o s s' (written id v v' l b c g t e) p h = rw (t) (
    insert-AreSpent sessions id v'.row s.transactions
      (subst (SpentRow sessions) (sym g.kept.kept_session)
        (lookup-SpentRow sessions id v.row s.transactions h l))
      h)
Effect-AreSpent sessions o s s' (inserted id v l i n q b t e) p h =
    rw (t)
      (insert-AreSpent sessions id v.row s.transactions (subst (SpentRow sessions) (sym q) p) h)
Effect-AreSpent sessions o s s' (untouched t e) p h = rw (t) h

is_number_lem : (o : Option ℕ) (n : ℕ) → is_number o n ≡ true → o ≡ some n
unfolding is_number
is_number_lem none n h = cc
is_number_lem (some m) n h = ground arith

live-number :
    (sid plan : ℕ) (phone : Text) (w : Transaction)
    → is_number w.captive_session_id sid ≡ false
    → is_live_attempt sid plan phone w ≡ true
    → ⊥
unfolding is_live_attempt
live-number sid plan phone w n y = ground arith

-- An attempt that is found has a session that is spent.
find_attempt-spent :
    (sessions : Dict CaptiveSession) (sid plan : ℕ) (phone : Text) (k : ℕ) (d : Dict Transaction)
    → AreSpent sessions d
    → find_attempt sid plan phone d ≡ some k
    → is_spent (lookup sid sessions) ≡ true
unfolding find_attempt
find_attempt-spent sessions sid plan phone k [] h e = cc
find_attempt-spent sessions sid plan phone k ((j, w) ∷ d) h e =
    elim (Bool-cases (is_number w.captive_session_id sid)) [
      | inl y ↦ subst (SpentRow sessions) (is_number_lem w.captive_session_id sid y) h.0
      | inr n ↦ elim (Bool-cases (is_live_attempt sid plan phone w)) [
        | inl y ↦ absurd (live-number sid plan phone w n y)
        | inr m ↦
            find_attempt-spent sessions sid plan phone k d h.1
              (if_false (is_live_attempt sid plan phone w) _ _ m e)
      ]
    ]

-- Sessions that were spent stay so.
abbrev StaySpent : Dict CaptiveSession → Dict CaptiveSession → Type 0
StaySpent d d' = (sid : ℕ) → is_spent (lookup sid d) ≡ true → is_spent (lookup sid d') ≡ true

SpentRow-mono :
    (d d' : Dict CaptiveSession) (o : Option ℕ) → StaySpent d d' → SpentRow d o → SpentRow d' o
SpentRow-mono d d' none m h = tt
SpentRow-mono d d' (some sid) m h = m sid h

AreSpent-mono :
    (d d' : Dict CaptiveSession) (t : Dict Transaction)
    → StaySpent d d'
    → AreSpent d t
    → AreSpent d' t
AreSpent-mono d d' [] m h = tt
AreSpent-mono d d' ((k, w) ∷ t) m h =
    (SpentRow-mono d d' w.captive_session_id m h.0, AreSpent-mono d d' t m h.1)

consumed-StaySpent :
    (sid now : ℕ) (c : CaptiveSession) (d : Dict CaptiveSession)
    → StaySpent d (insert sid (record c { consumed_at = some now }) d)
unfolding is_spent
consumed-StaySpent sid now c d j h =
    ground (arith, lookup-insert sid j (record c { consumed_at = some now }) d)

new-StaySpent :
    (id : ℕ) (c : CaptiveSession) (d : Dict CaptiveSession)
    → lookup id d ≡ none
    → StaySpent d (insert id c d)
unfolding is_spent
new-StaySpent id c d l j h = elim (Bool-cases (id == j)) [
  | inl y ↦ absurd (
      let e = sym (ap (λ k. is_spent (lookup k d)) (==→eq id j y)) ∙ ap is_spent l in
      absurd_Bool (sym h ∙ e))
  | inr n ↦ rw (lookup-insert id j c d, n) h
]

bought-AreSpent :
    (now : ℕ) (s s' : Portal) (r : InitiateResult)
    → Outcome now s r s'
    → AreSpent s.sessions s.payments.transactions
    → AreSpent s'.sessions s'.payments.transactions
unfolding is_spent is_unset
bought-AreSpent now s s' r (left_alone _ _ q _) h =
    subst (λ (x : Portal). AreSpent x.sessions x.payments.transactions) (sym q) h
bought-AreSpent now s s' r (started _ sid c m u a _) h =
    let c' = record c { consumed_at = some now } in
    let d = insert sid c' s.sessions in
    subst (λ x. AreSpent x s'.payments.transactions) (sym a.spent)
      (Effect-AreSpent d (some sid) s.payments s'.payments a.effect
        (ap is_spent (lookup-insert_self sid c' s.sessions))
        (AreSpent-mono s.sessions d s.payments.transactions
          (consumed-StaySpent sid now c s.sessions) h))

Step-AreSpent :
    (s s' : Portal)
    → Step s s'
    → AreSpent s.sessions s.payments.transactions
    → AreSpent s'.sessions s'.payments.transactions
unfolding Provider.reconcile
Step-AreSpent s _ (reconciled env own id {p = p} e) h =
    Effect-AreSpent s.sessions none s.payments p (query_row-Effect env own id s.payments p e) tt h
Step-AreSpent s _ (delivered env own x a {p = p} e) h =
    Effect-AreSpent s.sessions none s.payments p (process_webhook-Effect env own x s.payments p a e)
      tt h
Step-AreSpent s _ (collected env is_customer t actor id amount currency phone customer {p = p} l e)
      h =
    Effect-AreSpent s.sessions none s.payments p
      (initiate_collection-Effect env is_customer t actor id amount currency phone customer
        s.payments p l e)
      tt h
Step-AreSpent s s' (bought env drawn allowed intent plan phone r l e) h =
    bought-AreSpent env.now s s' r
      (initiate_payment-Outcome env drawn allowed intent plan phone s s' r l e) h
Step-AreSpent s _ (finalized env id {p = p} e) h =
    Effect-AreSpent s.sessions none s.payments p (finalize_payment-Effect env id s.payments p e) tt
      h
Step-AreSpent s s' (activated now id provisioned a e) h =
    let x = run_activation-Activated now id provisioned s s' a e in
    subst (λ y. AreSpent y s'.payments.transactions) (sym (Activated-sessions id s s' x))
      (Effect-AreSpent s.sessions none s.payments s'.payments (Activated-Effect id s s' x) tt h)
Step-AreSpent s s' (issued now ttl has_key id router mac l e) h =
    let (c, q) = issue_lem now ttl has_key id router mac s s' e in
    subst (λ (x : Portal). AreSpent x.sessions x.payments.transactions) (sym q)
      (AreSpent-mono s.sessions _ s.payments.transactions (new-StaySpent id c s.sessions l) h)
Step-AreSpent s _ (called t c g e) h = h
Step-AreSpent s _ (billed b) h = h

Steps-AreSpent :
    (s s' : Portal)
    → AreSpent s.sessions s.payments.transactions
    → Steps s s'
    → AreSpent s'.sessions s'.payments.transactions
Steps-AreSpent s _ h done = h
Steps-AreSpent s s' h (next {s' = m} x xs) = Steps-AreSpent m s' (Step-AreSpent s m x h) xs

unspent : (c : CaptiveSession) → is_unset c.consumed_at ≡ true → is_spent (some c) ≡ false
unfolding is_spent
unspent c u = rw (u) refl

no_reuse : (s : Portal) → AreSpent s.sessions s.payments.transactions → IsReuse s → ⊥
no_reuse s h r = absurd_Bool (
    sym (
      find_attempt-spent s.sessions r.sid r.plan r.phone r.attempt s.payments.transactions h
        r.is_found)
    ∙ ap is_spent r.is_there
    ∙ unspent r.session r.is_open)

-- From tables where the session of every transaction that has one is spent, after any committed
-- requests, one after the other, a call of initiate_payment that does not raise, under an unused
-- id, never answers duplicate: the branch that hands a customer the attempt that is under way is
-- not reached.
pub initiate_payment_never_reuses :
    (s s' s'' : Portal) (env : Checkout) (drawn : Drawn) (allowed : Bool) (intent : Option ℕ)
    (plan : ℕ) (phone : Text) (r : InitiateResult)
    → AreSpent s.sessions s.payments.transactions
    → Steps s s'
    → lookup drawn.transaction_id s'.payments.transactions ≡ none
    → initiate_payment env drawn allowed intent plan phone s' ≡ ok (r, s'')
    → is_duplicate r ≡ false
initiate_payment_never_reuses s s' s'' env drawn allowed intent plan phone r h xs l e =
    elim (initiate_payment-Outcome env drawn allowed intent plan phone s' s'' r l e) [
      | left_alone _ _ q d ↦ elim (Bool-cases (is_duplicate r)) [
        | inl y ↦ absurd (no_reuse s' (Steps-AreSpent s s' h xs) (d y))
        | inr n ↦ n
      ]
      | started _ sid c m u a n ↦ n
    ]
