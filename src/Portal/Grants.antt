-- ===== src/Portal/Grants.antt =====
-- What `run_activation` of captive_activation.py does to the tables: the money, the status of the
-- payment and the sessions are out of its reach.
use infinity_radius.Prelude.{
  ℕ, Bool, true, false, Option, none, some, ◌∷◌, ◌≡◌, refl, sym, ◌∙◌, ap, subst, if◌then◌else◌,
  lookup, insert, Bool-cases, inl, inr, ◌⊎◌, some_inj,
}
use infinity_radius.Core.Errors.{
  ok, ok_inj, >>=-eq-ok, guarded, if_true, if_false, or_raise, not_found, unhandled, not_paid,
}
use infinity_radius.Core.Enums.{ActivationStatus}
use infinity_radius.Collections.Tables.{Transaction, open_payment, find_transaction}
use infinity_radius.Collections.Changes.{is_completed}
use infinity_radius.Collections.Credits.{credits, due}
use infinity_radius.Collections.Rows.{Evolves, find_transaction_lem}
use infinity_radius.Collections.Effects.{Effect, written, untouched}
use infinity_radius.Portal.Tables.{Portal}
use infinity_radius.Portal.Activation.{
  put_row, grant_access, grant_linked, activate_access, record_failure, record_outcome,
  run_activation, is_active, activate_pending,
}

-- A write of the two activation columns of a COMPLETED row, and the grant that goes with it.
pub record IsMarked (id : ℕ) (w : Transaction) (s s' : Portal) : Type 0 where
  pub activation : Option ActivationStatus
  pub at : Option ℕ
  pub rows :
      s'.payments.transactions
      ≡ insert id
          (record w { activation_status = activation; activated_at = at })
          s.payments.transactions
  pub same_books : s'.payments.books ≡ s.payments.books
  pub same_prompts : s'.payments.prompts ≡ s.payments.prompts
  pub same_sessions : s'.sessions ≡ s.sessions
  pub granted :
      (s'.grants ≡ s.grants)
      ⊎ ((s'.grants ≡ id ∷ s.grants) × (activation ≡ some ActivationStatus.active))

pub data Activated (id : ℕ) (s : Portal) : Portal → Type 0 where
  nothing : {s' : Portal} → s' ≡ s → Activated id s s'
  marked :
      (w : Transaction) {s' : Portal}
      → lookup id s.payments.transactions ≡ some w
      → is_completed w.status ≡ true
      → IsMarked id w s s'
      → Activated id s s'

some_if :
    {A : Type 0} (b : Bool) (x : A) {y : A}
    → some y ≡ (if b then some x else none)
    → (b ≡ true) × (y ≡ x)
some_if true x e = (refl, some_inj e)
some_if false x e = cc

grant_access_lem :
    (now id : ℕ) (w : Transaction) (sid cid : ℕ) (provisioned : Bool) (s s' : Portal)
    → grant_access now id w sid cid provisioned s ≡ ok (some s')
    → IsMarked id w s s'
unfolding grant_access put_row
grant_access_lem now id w sid cid provisioned s s' e =
    let (subscription, f, e₁) =
      >>=-eq-ok (or_raise (lookup sid s.billing.subscriptions) not_found) _ e in
    let (customer, g, e₂) = >>=-eq-ok (or_raise (lookup cid s.billing.customers) unhandled) _ e₁ in
    let (p, h, e₃) =
      >>=-eq-ok (or_raise (lookup subscription.package_id s.billing.packages) unhandled) _ e₂ in
    let (b, k, e₄) = >>=-eq-ok (activate_pending now w.tenant_id sid subscription s.billing) _ e₃ in
    let (y, q) = some_if provisioned _ (ok_inj e₄) in
    record {
      activation = some ActivationStatus.active;
      at = some now;
      rows = ap (λ (x : Portal). x.payments.transactions) q;
      same_books = ap (λ (x : Portal). x.payments.books) q;
      same_prompts = ap (λ (x : Portal). x.payments.prompts) q;
      same_sessions = ap (λ (x : Portal). x.sessions) q;
      granted = inr (ap (λ (x : Portal). x.grants) q, refl);
    }

grant_linked_lem :
    (now id : ℕ) (w : Transaction) (sid cid : Option ℕ) (provisioned : Bool) (s s' : Portal)
    → grant_linked now id w sid cid provisioned s ≡ ok (some s')
    → IsMarked id w s s'
unfolding grant_linked
grant_linked_lem now id w (some sid) (some cid) provisioned s s' e =
    grant_access_lem now id w sid cid provisioned s s' e
grant_linked_lem now id w (some sid) none provisioned s s' e = cc
grant_linked_lem now id w none cid provisioned s s' e = cc

-- An attempt that did not raise found the payment COMPLETED.
activate_access_lem :
    (now id : ℕ) (provisioned : Bool) (s : Portal) (o : Option Portal)
    → activate_access now id provisioned s ≡ ok o
    → (w : Transaction) × (lookup id s.payments.transactions ≡ some w)
      × (is_completed w.status ≡ true)
      × ((s' : Portal) → o ≡ some s' → (s' ≡ s) ⊎ IsMarked id w s s')
unfolding activate_access
activate_access_lem now id provisioned s o e =
    let (w, f, e₁) = >>=-eq-ok (find_transaction id s.payments) _ e in
    let (c, e₂) = guarded (is_completed w.status) not_paid _ e₁ in
    (
      w,
      find_transaction_lem id s.payments w f,
      c,
      λ s' q.
          let e₃ = e₂ ∙ ap ok q in
          elim (Bool-cases (is_active w.activation_status)) [
            | inl y ↦ inl (some_inj (ok_inj (if_true (is_active w.activation_status) _ _ y e₃)))
            | inr n ↦ inr (
                grant_linked_lem now id w w.subscription_id w.customer_id provisioned s s'
                  (if_false (is_active w.activation_status) _ _ n e₃))
          ],
    )

record_failure_lem :
    (id : ℕ) (w : Transaction) (s s' : Portal)
    → lookup id s.payments.transactions ≡ some w
    → record_failure id s ≡ ok s'
    → IsMarked id w s s'
unfolding record_failure put_row
record_failure_lem id w s s' l e =
    let (u, f, e₁) = >>=-eq-ok (find_transaction id s.payments) _ e in
    let same = some_inj (sym l ∙ find_transaction_lem id s.payments u f) in
    let q = ok_inj e₁ in
    subst (λ (x : Transaction). IsMarked id x s s') (sym same)
      (record {
        activation = some ActivationStatus.failed;
        at = u.activated_at;
        rows = ap (λ (x : Portal). x.payments.transactions) q;
        same_books = ap (λ (x : Portal). x.payments.books) q;
        same_prompts = ap (λ (x : Portal). x.payments.prompts) q;
        same_sessions = ap (λ (x : Portal). x.sessions) q;
        granted = inl (ap (λ (x : Portal). x.grants) q);
      })

record_outcome-Activated :
    (id : ℕ) (w : Transaction) (s s' : Portal) (o : Option Portal) (a : ActivationStatus)
    → lookup id s.payments.transactions ≡ some w
    → is_completed w.status ≡ true
    → ((x : Portal) → o ≡ some x → (x ≡ s) ⊎ IsMarked id w s x)
    → record_outcome id s o ≡ ok (a, s')
    → Activated id s s'
unfolding record_outcome
record_outcome-Activated id w s s' (some x) a l c h e =
    let q = ap (λ (y : ActivationStatus × Portal). y.1) (ok_inj e) in
    subst (Activated id s) (sym q) (elim (h x refl) [ inl y ↦ nothing y | inr m ↦ marked w l c m ])
record_outcome-Activated id w s s' none a l c h e =
    let (x, f, e₁) = >>=-eq-ok (record_failure id s) _ e in
    let q = ap (λ (y : ActivationStatus × Portal). y.1) (ok_inj e₁) in
    subst (Activated id s) (sym q) (marked w l c (record_failure_lem id w s x l f))

pub run_activation-Activated :
    (now id : ℕ) (provisioned : Bool) (s s' : Portal) (a : ActivationStatus)
    → run_activation now id provisioned s ≡ ok (a, s')
    → Activated id s s'
unfolding run_activation
run_activation-Activated now id provisioned s s' a e =
    let (o, f, e₁) = >>=-eq-ok (activate_access now id provisioned s) _ e in
    let (w, l, c, h) = activate_access_lem now id provisioned s o f in
    record_outcome-Activated id w s s' o a l c h e₁

marked-Evolves :
    (w : Transaction) (a : Option ActivationStatus) (at : Option ℕ)
    → Evolves w (record w { activation_status = a; activated_at = at })
marked-Evolves w a at = record {
  kept = record {
    kept_id = refl;
    kept_tenant = refl;
    kept_amount = refl;
    kept_reference = refl;
    kept_type = refl;
    kept_provider = refl;
    kept_subscription = refl;
    kept_customer = refl;
    kept_session = refl;
  };
  final = λ t. refl;
}

-- The payments after it: one row is written back, and is due what it was.
pub Activated-Effect :
    (id : ℕ) (s s' : Portal) → Activated id s s' → Effect none s.payments s'.payments
unfolding open_payment due
Activated-Effect id s s' (nothing q) =
    untouched (ap (λ (x : Portal). x.payments.transactions) q)
      (λ k. ap (λ (x : Portal). credits k x.payments.books.ledger) q)
Activated-Effect id s s' (marked w l c m) =
    let v = open_payment w s.payments in
    let w' = record w { activation_status = m.activation; activated_at = m.at } in
    written id v (record v { row = w' }) l refl (λ i h. (i, h, λ j n. refl)) (marked-Evolves w _ _)
      m.rows m.same_books

pub Activated-sessions : (id : ℕ) (s s' : Portal) → Activated id s s' → s'.sessions ≡ s.sessions
Activated-sessions id s s' (nothing q) = ap (λ (x : Portal). x.sessions) q
Activated-sessions id s s' (marked w l c m) = m.same_sessions
