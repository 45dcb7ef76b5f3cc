-- ===== src/Payouts/Reachable.antt =====
-- The amounts and the balances over any steps, and what they let a reviewer do.
use infinity_radius.Prelude.{false, ℕ, Text, ◌≡◌, Option, lookup, some, is_empty, ◌||◌, strip, none}
use infinity_radius.Core.Enums.{WithdrawalStatus}
use infinity_radius.Payouts.Moves.{Move, Moves, edit, ◌⨟◌, advance, stay, send}
use infinity_radius.Payouts.Review.{on_row, Method, run_method, reject}
use infinity_radius.Payouts.Tables.{save, Store, Work, Env, open_work, Withdrawal, find}
use infinity_radius.Wallet.Tables.{Books, locked_wallet}
use infinity_radius.Payouts.Transitions.{transition}
use infinity_radius.Payouts.Service.{new_withdrawal, requested_work}
use infinity_radius.Payouts.System.{
  Steps, Step, next, method, done, request, call, Steps-IsBacked, raised,
}
use infinity_radius.Wallet.Safety.{IsFunded, apply-IsFunded}
use infinity_radius.Wallet.Calls.{Call, apply}
use infinity_radius.Payouts.Liveness.{
  AllPositive, positive_insert, positive_lookup, reject_withdrawal-succeeds,
}
use infinity_radius.Core.Errors.{ok, >>=-eq-ok, ok_inj}
use infinity_radius.Payouts.Backing.{IsBacked, find_lem}
use infinity_radius.Payouts.Gates.{request_withdrawal-IsPermitted}
use infinity_radius.Payouts.Requests.{request_withdrawal_lem}
use infinity_radius.Payouts.Funds.{Moves-Settles}
use infinity_radius.Payouts.Methods.{run_method-Moves}

method_AllPositive :
    (env : Env) (m : Method) (tenant : Option ℕ) (id : ℕ) (s s' : Store)
    → AllPositive s.withdrawals
    → on_row tenant id (run_method env m) s ≡ ok s'
    → AllPositive s'.withdrawals
unfolding on_row open_work save
method_AllPositive env m tenant id s s' h e =
    let (w, e₁, e₂) = >>=-eq-ok (find tenant id s) _ e in
    let (v, e₃, e₄) = >>=-eq-ok (run_method env m (open_work w s)) _ e₂ in
    let settled = Moves-Settles (open_work w s) v (run_method-Moves env m (open_work w s) v e₃) in
    rw (ok_inj e₄) (
      positive_insert id v.row s.withdrawals h (
        rw (settled.same_amount)
          (positive_lookup id w s.withdrawals h (find_lem tenant id s w e₁))))

pub Step-AllPositive :
    (s s' : Store) → Step s s' → AllPositive s.withdrawals → AllPositive s'.withdrawals
unfolding save new_withdrawal requested_work open_work
Step-AllPositive s s' (method env m tenant id e) h = method_AllPositive env m tenant id s s' h e
Step-AllPositive s s' (request env mode enabled t actor id key d x l e) h =
    let permitted = request_withdrawal-IsPermitted env mode enabled t actor id key d x s s' e in
    let (books, v, r, ms, p) = request_withdrawal_lem env mode enabled t actor id key d x s s' e in
    rw (p) (
      positive_insert id v.row s.withdrawals h
        (rw ((Moves-Settles _ v ms).same_amount) permitted.amount_positive))
Step-AllPositive s _ (raised env m tenant id e) h = h
Step-AllPositive s _ (call t c g e) h = h

Steps-AllPositive :
    (s s' : Store) → Steps s s' → AllPositive s.withdrawals → AllPositive s'.withdrawals
Steps-AllPositive s _ done h = h
Steps-AllPositive s s' (next x xs) h = Steps-AllPositive _ s' xs (Step-AllPositive s _ x h)

-- No tenant has a balance below zero.
abbrev pub AllFunded : Books → Type 0
AllFunded b = (u : ℕ) → IsFunded (locked_wallet u b.wallets)

call-AllFunded :
    (t : ℕ) (c : Call) (b b' : Books) → AllFunded b → apply t c b ≡ ok b' → AllFunded b'
call-AllFunded t c b b' h e u = apply-IsFunded t u c b b' (h t) (h u) e

Move-AllFunded : (v v' : Work) → Move v v' → AllFunded v.books → AllFunded v'.books
unfolding transition apply
Move-AllFunded _ _ (edit v row audit a b c s) h = h
Move-AllFunded _ _ (advance v s actor g) h = h
Move-AllFunded _ _ (send v actor s) h = h
Move-AllFunded _ _ (Move.release v s actor books r e) h =
    call-AllFunded v.row.tenant_id (Call.release v.row.amount) v.books books h e
Move-AllFunded _ _ (Move.complete v actor books o e) h =
    call-AllFunded v.row.tenant_id (Call.complete v.row.amount (some v.row.id)) v.books books h e
Move-AllFunded _ _ (Move.reverse v actor books s e) h =
    call-AllFunded v.row.tenant_id (Call.reverse v.row.amount (some v.row.id)) v.books books h e

Moves-AllFunded : (v v' : Work) → Moves v v' → AllFunded v.books → AllFunded v'.books
Moves-AllFunded v _ stay h = h
Moves-AllFunded v v' (m ⨟ ms) h = Moves-AllFunded _ v' ms (Move-AllFunded v _ m h)

method-AllFunded :
    (env : Env) (m : Method) (tenant : Option ℕ) (id : ℕ) (s s' : Store)
    → AllFunded s.books
    → on_row tenant id (run_method env m) s ≡ ok s'
    → AllFunded s'.books
unfolding on_row open_work save
method-AllFunded env m tenant id s s' h e =
    let (w, e₁, e₂) = >>=-eq-ok (find tenant id s) _ e in
    let (v, e₃, e₄) = >>=-eq-ok (run_method env m (open_work w s)) _ e₂ in
    rw (ok_inj e₄)
      (Moves-AllFunded (open_work w s) v (run_method-Moves env m (open_work w s) v e₃) h)

pub Step-AllFunded : (s s' : Store) → Step s s' → AllFunded s.books → AllFunded s'.books
unfolding save requested_work open_work apply
Step-AllFunded s s' (method env m tenant id e) h = method-AllFunded env m tenant id s s' h e
Step-AllFunded s s' (request env mode enabled t actor id key d x l e) h =
    let (books, v, r, ms, p) = request_withdrawal_lem env mode enabled t actor id key d x s s' e in
    rw (p) (Moves-AllFunded _ v ms (call-AllFunded t (Call.reserve x) s.books books h r))
Step-AllFunded s _ (raised env m tenant id e) h = h
Step-AllFunded s _ (call t c {books = books} g e) h = call-AllFunded t c s.books books h e

Steps-AllFunded : (s s' : Store) → Steps s s' → AllFunded s.books → AllFunded s'.books
Steps-AllFunded s _ done h = h
Steps-AllFunded s s' (next x xs) h = Steps-AllFunded _ s' xs (Step-AllFunded s _ x h)

-- From tables where no tenant has a balance below zero, any requests, committed or raised (methods
-- on withdrawals, new requests, other wallet calls), leave all five balances of every tenant at or
-- above zero.
pub Steps-IsFunded :
    (u : ℕ) (s s' : Store)
    → AllFunded s.books
    → Steps s s'
    → IsFunded (locked_wallet u s'.books.wallets)
Steps-IsFunded u s s' h xs = Steps-AllFunded s s' xs h u

-- From tables where every withdrawal has a positive amount, no balance is below zero and the
-- tenant of a withdrawal is backed, after any requests, committed or raised: the rejection, with a
-- reason that is not blank, of that withdrawal in PENDING_APPROVAL succeeds.
pub Steps-rejectable :
    (env : Env) (actor id : ℕ) (reason : Text) (w : Withdrawal) (s s' : Store)
    → AllPositive s.withdrawals
    → AllFunded s.books
    → IsBacked w.tenant_id s
    → Steps s s'
    → lookup id s'.withdrawals ≡ some w
    → w.status ≡ WithdrawalStatus.pending_approval
    → (is_empty reason || is_empty (strip reason)) ≡ false
    → (s'' : Store) × (on_row none id (run_method env (reject actor reason)) s' ≡ ok s'')
Steps-rejectable env actor id reason w s s' h f k xs l p n =
    reject_withdrawal-succeeds env actor id reason w s' (Steps-AllPositive s s' xs h)
      (Steps-IsBacked w.tenant_id s s' k xs)
      ((Steps-AllFunded s s' xs f w.tenant_id).available_nonneg) l p n
