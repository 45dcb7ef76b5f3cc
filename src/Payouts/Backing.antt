-- ===== src/Payouts/Backing.antt =====
-- The wallet columns of a tenant against all the tenant's withdrawals.
use infinity_radius.Prelude.{
  [], ◌∷◌, Bool-cases, arith, inl, inr, ==→eq, ap, ◌∙◌, some_inj, none_some, sym,
}
use infinity_radius.Prelude.{
  true, false, ℤ, pos, ℕ, ◌+ℤ◌, lookup, if◌then◌else◌, Dict, ◌≡◌, insert, Option, ◌==◌, parts_eq,
  eq_of_parts, some, none, int_laws,
}
use infinity_radius.Payouts.Tables.{Withdrawal, find, save, Store, Work, open_work, Env}
use infinity_radius.Payouts.Review.{on_row, Method, run_method}
use infinity_radius.Wallet.Tables.{locked_wallet}
use infinity_radius.Core.Errors.{ok, >>=-eq-ok, ApiError, or_raise, not_found, ok_inj}
use infinity_radius.Payouts.Funds.{held, Settles, paid, Moves-Settles}
use infinity_radius.Payouts.Methods.{run_method-Moves}

-- The sum of a figure over a tenant's rows.
abbrev pub share : (Withdrawal → ℤ) → ℕ → Withdrawal → ℤ
share f t w = if w.tenant_id == t then f w else pos 0

unfoldable pub total : (Withdrawal → ℤ) → ℕ → Dict Withdrawal → ℤ
total f t [] = pos 0
total f t ((k, w) ∷ d) = share f t w +ℤ total f t d

-- A tenant's reserved column is what the tenant's withdrawals hold, and the disbursed column is what
-- they have paid.
pub record IsBacked (t : ℕ) (s : Store) : Type 0 where
  pub reserved_backed :
      (locked_wallet t s.books.wallets).reserved_balance_tzs ≡ total held t s.withdrawals
  pub disbursed_backed :
      (locked_wallet t s.books.wallets).total_disbursed_tzs ≡ total paid t s.withdrawals

swap_total : (a b x y z : ℤ) → x +ℤ a ≡ y +ℤ b → (z +ℤ x) +ℤ a ≡ (z +ℤ y) +ℤ b
swap_total a b x y z h = let (h₁, h₂) = parts_eq h in eq_of_parts _ _ (omega int_laws)

add_total : (a x y z : ℤ) → x ≡ y +ℤ a → z +ℤ x ≡ (z +ℤ y) +ℤ a
add_total a x y z h = let (h₁, h₂) = parts_eq h in eq_of_parts _ _ (omega int_laws)

swap_head : (a b x : ℤ) → (b +ℤ x) +ℤ a ≡ (a +ℤ x) +ℤ b
swap_head a b x = eq_of_parts _ _ (omega int_laws)

total-replace :
    (f : Withdrawal → ℤ) (t k : ℕ) (w w' : Withdrawal) (d : Dict Withdrawal)
    → lookup k d ≡ some w
    → total f t (insert k w' d) +ℤ share f t w ≡ total f t d +ℤ share f t w'
unfolding total lookup insert
total-replace f t k w w' [] h = cc
total-replace f t k w w' ((j, x) ∷ d) h = elim (Bool-cases (j == k)) [
  | inl same ↦
      rw (same, some_inj (rw (same) at h)) (swap_head (share f t w) (share f t w') (total f t d))
  | inr other ↦ rw (other) (swap_total _ _ _ _ _ (total-replace f t k w w' d (rw (other) at h)))
]

pub total-add :
    (f : Withdrawal → ℤ) (t k : ℕ) (w : Withdrawal) (d : Dict Withdrawal)
    → lookup k d ≡ none
    → total f t (insert k w d) ≡ total f t d +ℤ share f t w
unfolding total lookup insert
total-add f t k w [] h = eq_of_parts _ _ (omega int_laws)
total-add f t k w ((j, x) ∷ d) h = elim (Bool-cases (j == k)) [
  | inl same ↦ none_some (sym (rw (same) at h))
  | inr other ↦ rw (other) (add_total _ _ _ _ (total-add f t k w d (rw (other) at h)))
]

or_raise_lem {ℓ} :
    {A : Type ℓ} (o : Option A) (e : ApiError) {a : A} → or_raise o e ≡ ok a → o ≡ some a
or_raise_lem none e h = cc
or_raise_lem (some a) e h = cc

pub find_lem :
    (tenant : Option ℕ) (id : ℕ) (s : Store) (w : Withdrawal)
    → find tenant id s ≡ ok w
    → lookup id s.withdrawals ≡ some w
unfolding find
find_lem none id s w e = or_raise_lem (lookup id s.withdrawals) not_found e
find_lem (some t) id s w e = ground arith

column_sum : (a a' c c' x x' : ℤ) → c' +ℤ a ≡ c +ℤ a' → c ≡ x → x' +ℤ a ≡ x +ℤ a' → c' ≡ x'
column_sum a a' c c' x x' h i j =
    let (h₁, h₂) = parts_eq h in
    let (i₁, i₂) = parts_eq i in let (j₁, j₂) = parts_eq j in eq_of_parts _ _ (omega int_laws)

zero_sum : (x y : ℤ) → x +ℤ pos 0 ≡ y +ℤ pos 0 → x ≡ y
zero_sum x y h = let (h₁, h₂) = parts_eq h in eq_of_parts _ _ (omega int_laws)

pub share_own :
    (f : Withdrawal → ℤ) (u : ℕ) (w : Withdrawal) → (w.tenant_id == u) ≡ true → share f u w ≡ f w
share_own f u w h = ground arith

pub share_other :
    (f : Withdrawal → ℤ) (u : ℕ) (w : Withdrawal) → (w.tenant_id == u) ≡ false → share f u w ≡ pos 0
share_other f u w h = ground arith

module _ (f : Withdrawal → ℤ) (u id : ℕ) (w w' : Withdrawal) (d : Dict Withdrawal) where
  column :
      (c c' : ℤ)
      → (w.tenant_id == u) ≡ true
      → lookup id d ≡ some w
      → w'.tenant_id ≡ w.tenant_id
      → c ≡ total f u d
      → c' +ℤ f w ≡ c +ℤ f w'
      → c' ≡ total f u (insert id w' d)
  column c c' same l t i h =
      let j = total-replace f u id w w' d l in
      column_sum (f w) (f w') c c' (total f u d) _ h i
        (rw (share_own f u w same, share_own f u w' (ap (λ x. x == u) t ∙ same)) at j)

  other_column :
      (w.tenant_id == u) ≡ false
      → lookup id d ≡ some w
      → w'.tenant_id ≡ w.tenant_id
      → total f u (insert id w' d) ≡ total f u d
  other_column other l t =
      let j = total-replace f u id w w' d l in
      zero_sum _ _
        (rw (share_other f u w other, share_other f u w' (ap (λ x. x == u) t ∙ other)) at j)

-- One row and its tenant's wallet changed.
save-IsBacked :
    (u id : ℕ) (w : Withdrawal) (v : Work) (s : Store)
    → IsBacked u s
    → lookup id s.withdrawals ≡ some w
    → Settles w v.row s.books.wallets v.books.wallets
    → IsBacked u (save id v s)
unfolding save held paid
save-IsBacked u id w v s h l k = elim (Bool-cases (w.tenant_id == u)) [
  | inl same ↦
      let e = ==→eq w.tenant_id u same in
      record {
        reserved_backed =
            column held u id w v.row s.withdrawals _ _ same l k.same_tenant h.reserved_backed
              (rw e at k.reserved_moves);
        disbursed_backed =
            column paid u id w v.row s.withdrawals _ _ same l k.same_tenant h.disbursed_backed
              (rw e at k.disbursed_moves);
      }
  | inr other ↦ record {
    reserved_backed =
        rw
          (
            k.others_stay u other,
            other_column held u id w v.row s.withdrawals other l k.same_tenant,
          )
          h.reserved_backed;
    disbursed_backed =
        rw
          (
            k.others_stay u other,
            other_column paid u id w v.row s.withdrawals other l k.same_tenant,
          )
          h.disbursed_backed;
  }
]

pub on_row-IsBacked :
    (env : Env) (m : Method) (tenant : Option ℕ) (id u : ℕ) (s s' : Store)
    → IsBacked u s
    → on_row tenant id (run_method env m) s ≡ ok s'
    → IsBacked u s'
unfolding on_row open_work
on_row-IsBacked env m tenant id u s s' h e =
    let (w, e₁, e₂) = >>=-eq-ok (find tenant id s) _ e in
    let (v, e₃, e₄) = >>=-eq-ok (run_method env m (open_work w s)) _ e₂ in
    rw (ok_inj e₄) (
      save-IsBacked u id w v s h (find_lem tenant id s w e₁)
        (Moves-Settles (open_work w s) v (run_method-Moves env m (open_work w s) v e₃)))
