-- ===== src/Portal/Attempts.antt =====
-- What `initiate_payment` and `finalize_payment` of captive_portal.py do to the tables.
use infinity_radius.Prelude.{
  ℕ, Bool, true, false, not, Option, none, some, ◌≡◌, refl, sym, ◌∙◌, ap, subst, arith,
  if◌then◌else◌, lookup, insert, Text, Bool-cases, inl, inr, ◌&&◌, ◌==◌, ℤ, absurd_Bool, List,
}
use infinity_radius.Core.Errors.{
  ok, ok_inj, >>=-eq-ok, guarded, or_raise, validation, session_expired, package_of_other_tenant,
  if_true, or_raise_lem, package_not_active, if_false, invalid_phone, no_longer_payable,
  no_subscription,
}
use infinity_radius.Core.Enums.{CollectionStatus, TransactionType, is_terminal, ActivationStatus}
use infinity_radius.Wallet.Tables.{Books, transaction}
use infinity_radius.Collections.Tables.{
  Checkout, Payment, Payments, open_payment, save_payment, find_transaction, audit_payment,
  payment_initiated, payment_completed, PaymentAudit,
}
use infinity_radius.Collections.Changes.{Kept, is_completed}
use infinity_radius.Collections.Credits.{KeepsCredits, credit-KeepsCredits}
use infinity_radius.Collections.Rows.{Evolves, Evolves-refl, find_transaction_lem}
use infinity_radius.Collections.Effects.{Effect, written, inserted, create_order_lem}
use infinity_radius.Billing.Tables.{Package, get_package}
use infinity_radius.Portal.Tables.{CaptiveSession, Portal}
use infinity_radius.Portal.Sessions.{resolve, usable, is_unset, consume}
use infinity_radius.Portal.Payment.{
  Drawn, InitiateResult, start_attempt, start_or_reuse, pay_in_session, initiate_payment,
  finalize_row, finalize_payment, new_attempt, find_attempt, both_set, duplicate, is_sent,
}
use infinity_radius.Billing.Subscriptions.{create_awaiting_payment, is_active_package}
use infinity_radius.Collections.Initiation.{create_order_and_send_stk}
use infinity_radius.Phones.{normalize_tz_phone}
use infinity_radius.Wallet.Operations.{process_collection}
use infinity_radius.Customers.{get_or_create_by_phone}

unfoldable pub is_duplicate : InitiateResult → Bool
is_duplicate (duplicate k amount) = true
is_duplicate _ = false

-- A new attempt in a session: its row is inserted and the session is spent.
pub record IsAttempt (sid now : ℕ) (c : CaptiveSession) (s s' : Portal) : Type 0 where
  pub effect : Effect (some sid) s.payments s'.payments
  pub spent : s'.sessions ≡ insert sid (record c { consumed_at = some now }) s.sessions
  pub no_grant : s'.grants ≡ s.grants

either_status :
    (b : Bool) (k : ℕ) (amount : ℤ)
    → is_duplicate (if b then InitiateResult.pending k amount else InitiateResult.failed k amount)
      ≡ false
unfolding is_duplicate
either_status true k amount = refl
either_status false k amount = refl

pub start_attempt_lem :
    (env : Checkout) (drawn : Drawn) (sid : ℕ) (c : CaptiveSession) (p : Package) (phone : Text)
    (s s' : Portal) (r : InitiateResult)
    → lookup drawn.transaction_id s.payments.transactions ≡ none
    → start_attempt env drawn sid c p phone s ≡ ok (r, s')
    → IsAttempt sid env.now c s s' × (is_duplicate r ≡ false)
unfolding is_duplicate start_attempt save_payment open_payment consume
start_attempt_lem env drawn sid c p phone s s' r l e =
    let ((customer, b₁), f, e₁) =
      >>=-eq-ok
        (get_or_create_by_phone c.tenant_id drawn.customer_id drawn.customer_number phone s.billing)
        _ e in
    let (b₂, g, e₂) =
      >>=-eq-ok (create_awaiting_payment c.tenant_id drawn.subscription_id customer p.id b₁) _ e₁ in
    let w = new_attempt env drawn sid c customer p phone in
    let v = audit_payment payment_initiated none (open_payment w s.payments) in
    let (v', h, e₃) =
      >>=-eq-ok (create_order_and_send_stk env TransactionType.captive_portal none v) _ e₂ in
    let (n, k, b) = create_order_lem env TransactionType.captive_portal none v v' h in
    let q = ap (λ (x : InitiateResult × Portal). x.1) (ok_inj e₃) in
    (
      record {
        effect =
            inserted drawn.transaction_id v' l k.kept_id n k.kept_session b
              (ap (λ (x : Portal). x.payments.transactions) q)
              (ap (λ (x : Portal). x.payments.books) q);
        spent = ap (λ (x : Portal). x.sessions) q;
        no_grant = ap (λ (x : Portal). x.grants) q;
      },
      ap (λ (x : InitiateResult × Portal). is_duplicate x.0) (ok_inj e₃)
          ∙ either_status (is_sent v'.row.status) drawn.transaction_id p.price_tzs,
    )

-- An attempt was found for a session that is not spent.
pub record IsReuse (s : Portal) : Type 0 where
  pub sid : ℕ
  pub session : CaptiveSession
  pub plan : ℕ
  pub phone : Text
  pub attempt : ℕ
  pub is_there : lookup sid s.sessions ≡ some session
  pub is_open : is_unset session.consumed_at ≡ true
  pub is_found : find_attempt sid plan phone s.payments.transactions ≡ some attempt

-- A call of `initiate_payment` that did not raise left the tables alone but for an audit row, or
-- started an attempt in
-- a session that was not spent and had no live attempt of the kind.
pub data Outcome (now : ℕ) (s : Portal) : InitiateResult → Portal → Type 0 where
  left_alone :
      (r : InitiateResult) (audit : List PaymentAudit) {s' : Portal}
      → s' ≡ record s { payments = record s.payments { audit = audit } }
      → (is_duplicate r ≡ true → IsReuse s)
      → Outcome now s r s'
  started :
      (r : InitiateResult) (sid : ℕ) (c : CaptiveSession) {s' : Portal}
      → lookup sid s.sessions ≡ some c
      → is_unset c.consumed_at ≡ true
      → IsAttempt sid now c s s'
      → is_duplicate r ≡ false
      → Outcome now s r s'

usable_lem :
    (now id sid : ℕ) (o : Option CaptiveSession) (c : CaptiveSession)
    → usable now id o ≡ some (sid, c)
    → (o ≡ some c) × (id ≡ sid) × (is_unset c.consumed_at ≡ true)
unfolding usable
usable_lem now id sid none c e = cc
usable_lem now id sid (some x) c e = ground arith

pub resolve_lem :
    (now : ℕ) (intent : Option ℕ) (s : Portal) (sid : ℕ) (c : CaptiveSession)
    → resolve now intent s ≡ some (sid, c)
    → (lookup sid s.sessions ≡ some c) × (is_unset c.consumed_at ≡ true)
unfolding resolve
resolve_lem now none s sid c e = cc
resolve_lem now (some id) s sid c e =
    let (l, q, u) = usable_lem now id sid (lookup id s.sessions) c e in
    (subst (λ j. lookup j s.sessions ≡ some c) q l, u)

other_answer :
    (s : Portal) (r r' : InitiateResult)
    → r ≡ r'
    → is_duplicate r' ≡ false
    → is_duplicate r ≡ true
    → IsReuse s
other_answer s r r' q n d = absurd_Bool (sym d ∙ ap is_duplicate q ∙ n)

start_or_reuse-Outcome :
    (env : Checkout) (drawn : Drawn) (sid : ℕ) (c : CaptiveSession) (p : Package) (phone : Text)
    (o : Option ℕ) (s s' : Portal) (r : InitiateResult)
    → find_attempt sid p.id phone s.payments.transactions ≡ o
    → lookup drawn.transaction_id s.payments.transactions ≡ none
    → lookup sid s.sessions ≡ some c
    → is_unset c.consumed_at ≡ true
    → start_or_reuse env drawn sid c p phone s o ≡ ok (r, s')
    → Outcome env.now s r s'
unfolding start_or_reuse
start_or_reuse-Outcome env drawn sid c p phone (some k) s s' r f l m u e =
    left_alone r _ (ap (λ (x : InitiateResult × Portal). x.1) (ok_inj e)) (λ d. record {
      sid = sid;
      session = c;
      plan = p.id;
      phone = phone;
      attempt = k;
      is_there = m;
      is_open = u;
      is_found = f;
    })
start_or_reuse-Outcome env drawn sid c p phone none s s' r f l m u e =
    let (a, n) = start_attempt_lem env drawn sid c p phone s s' r l e in started r sid c m u a n

pay_in_session-Outcome :
    (env : Checkout) (drawn : Drawn) (allowed : Bool) (sid : ℕ) (c : CaptiveSession) (plan : ℕ)
    (phone : Text) (s s' : Portal) (r : InitiateResult)
    → lookup drawn.transaction_id s.payments.transactions ≡ none
    → lookup sid s.sessions ≡ some c
    → is_unset c.consumed_at ≡ true
    → pay_in_session env drawn allowed sid c plan phone s ≡ ok (r, s')
    → Outcome env.now s r s'
unfolding pay_in_session is_duplicate
pay_in_session-Outcome env drawn allowed sid c plan phone s s' r l m u e =
    let (p, f, e₁) =
      >>=-eq-ok
        (or_raise (get_package c.tenant_id plan s.billing) (validation package_of_other_tenant)) _
        e in
    let e₂ = guarded (p.tenant_id == c.tenant_id) package_of_other_tenant _ e₁ in
    let e₃ = guarded (is_active_package p.status) package_not_active _ e₂.1 in
    let (number, g, e₄) =
      >>=-eq-ok (or_raise (normalize_tz_phone phone) (validation invalid_phone)) _ e₃.1 in
    elim (Bool-cases allowed) [
      | inl y ↦
          start_or_reuse-Outcome env drawn sid c p number _ s s' r refl l m u
            (if_true allowed _ _ y e₄)
      | inr n ↦
          let q = ok_inj (if_false allowed _ _ n e₄) in
          left_alone r _ (ap (λ (x : InitiateResult × Portal). x.1) q) (
            other_answer s r InitiateResult.rate_limited
              (ap (λ (x : InitiateResult × Portal). x.0) q) refl)
    ]

pub initiate_payment-Outcome :
    (env : Checkout) (drawn : Drawn) (allowed : Bool) (intent : Option ℕ) (plan : ℕ) (phone : Text)
    (s s' : Portal) (r : InitiateResult)
    → lookup drawn.transaction_id s.payments.transactions ≡ none
    → initiate_payment env drawn allowed intent plan phone s ≡ ok (r, s')
    → Outcome env.now s r s'
unfolding initiate_payment is_duplicate
initiate_payment-Outcome env drawn allowed intent plan phone s s' r l e =
    let open_gate = env.selcom_collection_enabled && env.selcom_collection_production_enabled in
    elim (Bool-cases open_gate) [
      | inl y ↦
          let ((sid, c), f, e₁) =
            >>=-eq-ok (or_raise (resolve env.now intent s) (validation session_expired))
              (λ found. pay_in_session env drawn allowed found.0 found.1 plan phone s)
              (if_true open_gate _ _ y e) in
          let (m, u) = resolve_lem env.now intent s sid c (or_raise_lem _ _ f) in
          pay_in_session-Outcome env drawn allowed sid c plan phone s s' r l m u e₁
      | inr n ↦
          let q = ok_inj (if_false open_gate _ _ n e) in
          left_alone r _ (ap (λ (x : InitiateResult × Portal). x.1) q) (
            other_answer s r InitiateResult.unavailable
              (ap (λ (x : InitiateResult × Portal). x.0) q) refl)
    ]

not-false : (b : Bool) → not b ≡ true → b ≡ false
not-false true h = cc
not-false false h = refl

finalized-Kept :
    (v v' : Payment) (now : ℕ) (books : Books)
    → v'
      ≡ audit_payment payment_completed none (record v {
        books = books;
        row = record v.row {
          status = CollectionStatus.completed;
          completed_at = some now;
          activation_status = some ActivationStatus.pending;
        };
      })
    → Kept v.row v'.row
finalized-Kept v v' now books q =
    subst (λ (x : Payment). Kept v.row x.row) (sym q)
      (record {
        kept_id = refl;
        kept_tenant = refl;
        kept_amount = refl;
        kept_reference = refl;
        kept_type = refl;
        kept_provider = refl;
        kept_subscription = refl;
        kept_customer = refl;
        kept_session = refl;
      })

finalize_row_lem :
    (env : Checkout) (id : ℕ) (v v' : Payment)
    → finalize_row env v ≡ ok v'
    → KeepsCredits id v v' × Evolves v.row v'.row
unfolding finalize_row
finalize_row_lem env id v v' e =
    let w = v.row in
    elim (Bool-cases (is_completed w.status)) [
      | inl y ↦
          subst (λ (x : Payment). KeepsCredits id v x × Evolves v.row x.row)
            (sym (ok_inj (if_true (is_completed w.status) _ _ y e)))
            (λ i h. (i, h, λ j n. refl), Evolves-refl w)
      | inr n ↦
          let e₁ =
            guarded (not (is_terminal w.status)) no_longer_payable _
              (if_false (is_completed w.status) _ _ n e) in
          let e₂ = guarded (both_set w.subscription_id w.customer_id) no_subscription _ e₁.1 in
          let ((r, books), p, e₃) =
            >>=-eq-ok (process_collection w.tenant_id w.amount transaction (some w.id) v.books) _
              e₂.1 in
          let q = ok_inj e₃ in
          let live = not-false (is_terminal w.status) e₁.0 in
          let k = finalized-Kept v v' env.now books q in
          (
            credit-KeepsCredits id v v' transaction r live (ap (λ (x : Payment). x.row.status) q) k
                (p ∙ ap (λ (x : Payment). ok (r, x.books)) (sym q)),
            record { kept = k; final = λ t. cc },
          )
    ]

pub finalize_payment-Effect :
    (env : Checkout) (id : ℕ) (s s' : Payments)
    → finalize_payment env id s ≡ ok s'
    → Effect none s s'
unfolding finalize_payment open_payment save_payment
finalize_payment-Effect env id s s' e =
    let (w, f, e₁) = >>=-eq-ok (find_transaction id s) _ e in
    let v = open_payment w s in
    let (v', g, e₂) = >>=-eq-ok (finalize_row env v) _ e₁ in
    let (c, h) = finalize_row_lem env id v v' g in
    let q = ok_inj e₂ in
    written id v v' (find_transaction_lem id s w f) refl c h
      (ap (λ (x : Payments). x.transactions) q) (ap (λ (x : Payments). x.books) q)
