-- ===== src/Payouts/Requests.antt =====
-- A request of a withdrawal against the wallet columns.
use infinity_radius.Prelude.{
  refl, true, false, ℤ, ◌+ℤ◌, ℕ, ◌≡◌, Option, Dict, parts_eq, ◌==◌, eq_of_parts, Bool, pos, lookup,
  int_laws, Text, none, insert, Bool-cases, inl, ap, ==→eq, ◌∙◌, inr,
}
use infinity_radius.Core.Enums.{WithdrawalStatus, SettlementMode}
use infinity_radius.Wallet.Tables.{
  get_bucket, set_bucket, Books, locked_wallet, locked_wallet-insert_self,
}
use infinity_radius.Payouts.Service.{
  reserved_or_exceeds, request_withdrawal, requested_work, new_withdrawal, check_request,
  issue_and_send_otp,
}
use infinity_radius.Payouts.Funds.{held, paid, holds_funds, Settles, Moves-Settles}
use infinity_radius.Payouts.Tables.{Withdrawal, save, Env, open_work, Work, Store}
use infinity_radius.Core.Errors.{
  Result, ok, err, validation, rate_limited, not_found, >>=-eq-ok, conflict, unhandled, ok_inj,
}
use infinity_radius.Wallet.Operations.{reserve_for_withdrawal}
use infinity_radius.Payouts.Review.{is_success}
use infinity_radius.Wallet.Effects.{reserve_for_withdrawal_lem}
use infinity_radius.Payouts.Backing.{IsBacked, total, share_own, share_other, total-add}
use infinity_radius.Payouts.Moves.{Moves}
use infinity_radius.Payouts.Methods.{issue_and_send_otp-Moves}
use infinity_radius.Wallet.Safety.{apply-isolation}
use infinity_radius.Wallet.Calls.{reserve, apply}

new_column :
    (a a' c c₂ c' x x' : ℤ) → c' +ℤ a ≡ c₂ +ℤ a' → c₂ ≡ c +ℤ a → c ≡ x → x' ≡ x +ℤ a' → c' ≡ x'
new_column a a' c c₂ c' x x' h i j k =
    let (h₁, h₂) = parts_eq h in
    let (i₁, i₂) = parts_eq i in
    let (j₁, j₂) = parts_eq j in let (k₁, k₂) = parts_eq k in eq_of_parts _ _ (omega int_laws)

reserve_columns :
    (t : ℕ) (amount : ℤ) (b b' : Books)
    → reserve_for_withdrawal t amount b ≡ ok b'
    → let w = locked_wallet t b.wallets in
      let w' = locked_wallet t b'.wallets in
      (w'.reserved_balance_tzs ≡ w.reserved_balance_tzs +ℤ amount)
      × (w'.total_disbursed_tzs ≡ w.total_disbursed_tzs +ℤ pos 0)
unfolding get_bucket set_bucket
reserve_columns t amount b b' e =
    let e₁ = reserve_for_withdrawal_lem t b b' amount e in
    (
      rw (e₁, locked_wallet-insert_self) (eq_of_parts _ _ (omega int_laws)),
      rw (e₁, locked_wallet-insert_self) (eq_of_parts _ _ (omega int_laws)),
    )

pub reserved_lem : (r : Result Books) (b : Books) → reserved_or_exceeds r ≡ ok b → r ≡ ok b
unfolding reserved_or_exceeds
reserved_lem (ok x) b e = e
reserved_lem (err (validation m)) b e = cc
reserved_lem (err not_found) b e = cc
reserved_lem (err conflict) b e = cc
reserved_lem (err unhandled) b e = cc
reserved_lem (err (rate_limited n)) b e = cc

-- A request that succeeds has reserved the amount, and has made moves of the new draft.
pub request_withdrawal_lem :
    (env : Env) (mode : Option SettlementMode) (enabled : Option Bool) (t actor id : ℕ) (key : Text)
    (destination_id : ℕ) (amount : ℤ) (s s' : Store)
    → request_withdrawal env mode enabled t actor id key destination_id amount s ≡ ok s'
    → let row = new_withdrawal env t actor id key destination_id amount in
      (books : Books) × (v : Work) × (reserve_for_withdrawal t amount s.books ≡ ok books)
      × Moves (requested_work actor row books s) v
      × (s' ≡ save id v s)
unfolding request_withdrawal
request_withdrawal_lem env mode enabled t actor id key destination_id amount s s' e =
    let row = new_withdrawal env t actor id key destination_id amount in
    let (email, _, e₁) = >>=-eq-ok (check_request env mode enabled t destination_id amount s) _ e in
    let (books, e₂, e₃) =
      >>=-eq-ok (reserved_or_exceeds (reserve_for_withdrawal t amount s.books)) _ e₁ in
    let (v, e₄, e₅) =
      >>=-eq-ok (issue_and_send_otp env email actor false (requested_work actor row books s)) _
        e₃ in
    (
      books,
      v,
      reserved_lem _ books e₂,
      issue_and_send_otp-Moves env _ v email actor false e₄,
      ok_inj e₅,
    )

draft_funds :
    (w : Withdrawal) → w.status ≡ WithdrawalStatus.draft → (held w ≡ w.amount) × (paid w ≡ pos 0)
unfolding held paid holds_funds is_success
draft_funds w d = (rw (d), rw (d))

module _ (f : Withdrawal → ℤ) (u id : ℕ) (w w' : Withdrawal) (d : Dict Withdrawal) where
  added :
      (w.tenant_id == u) ≡ true
      → lookup id d ≡ none
      → w'.tenant_id ≡ w.tenant_id
      → total f u (insert id w' d) ≡ total f u d +ℤ f w'
  added same l t = rw (share_own f u w' (ap (λ x. x == u) t ∙ same)) at (total-add f u id w' d l)

  not_added :
      (w.tenant_id == u) ≡ false
      → lookup id d ≡ none
      → w'.tenant_id ≡ w.tenant_id
      → total f u (insert id w' d) ≡ total f u d
  not_added other l t =
      let e = rw (share_other f u w' (ap (λ x. x == u) t ∙ other)) at (total-add f u id w' d l) in
      let (h₁, h₂) = parts_eq e in eq_of_parts _ _ (omega int_laws)

-- A new row saved with its reservation.
request-IsBacked :
    (u id : ℕ) (row : Withdrawal) (books : Books) (v : Work) (s : Store)
    → IsBacked u s
    → lookup id s.withdrawals ≡ none
    → row.status ≡ WithdrawalStatus.draft
    → reserve_for_withdrawal row.tenant_id row.amount s.books ≡ ok books
    → Settles row v.row books.wallets v.books.wallets
    → IsBacked u (save id v s)
unfolding save
request-IsBacked u id row books v s h l d r k =
    let (p, q) = draft_funds row d in
    elim (Bool-cases (row.tenant_id == u)) [
      | inl same ↦
          let e = ==→eq row.tenant_id u same in
          let (r₁, r₂) = reserve_columns row.tenant_id row.amount s.books books r in
          record {
            reserved_backed =
                new_column _ _ _ _ _ _ _ (rw (p, e) at k.reserved_moves) (rw (e) at r₁)
                  h.reserved_backed (added held u id row v.row s.withdrawals same l k.same_tenant);
            disbursed_backed =
                new_column _ _ _ _ _ _ _ (rw (q, e) at k.disbursed_moves) (rw (e) at r₂)
                  h.disbursed_backed (added paid u id row v.row s.withdrawals same l k.same_tenant);
          }
      | inr other ↦
          let e =
            k.others_stay u other
            ∙ apply-isolation row.tenant_id u (reserve row.amount) s.books books other
                (unfold apply in r) in
          record {
            reserved_backed =
                rw (e, not_added held u id row v.row s.withdrawals other l k.same_tenant)
                  h.reserved_backed;
            disbursed_backed =
                rw (e, not_added paid u id row v.row s.withdrawals other l k.same_tenant)
                  h.disbursed_backed;
          }
    ]

-- A request that succeeds, for an id that is not in use, keeps every tenant backed.
pub request_withdrawal-IsBacked :
    (env : Env) (mode : Option SettlementMode) (enabled : Option Bool) (u t actor id : ℕ)
    (key : Text) (destination_id : ℕ) (amount : ℤ) (s s' : Store)
    → IsBacked u s
    → lookup id s.withdrawals ≡ none
    → request_withdrawal env mode enabled t actor id key destination_id amount s ≡ ok s'
    → IsBacked u s'
unfolding requested_work open_work new_withdrawal
request_withdrawal-IsBacked env mode enabled u t actor id key destination_id amount s s' h l e =
    let (books, v, r, m, p) =
      request_withdrawal_lem env mode enabled t actor id key destination_id amount s s' e in
    rw (p) (request-IsBacked u id _ books v s h l refl r (Moves-Settles _ v m))
