-- ===== src/Payouts/Liveness.antt =====
-- The rejection of a withdrawal under review, and the funds that it gives back.
use infinity_radius.Prelude.{
  refl, true, false, [], ◌∷◌, some, pos, Dict, lookup, insert, ℕ, ◌<ℤ◌, ◌≡◌, ◌≤ℤ◌, Bool-cases,
  arith, ◌==◌, int_laws, inl, ℤ, inr, Text, is_empty, ◌||◌, strip, none, ◌+ℤ◌, ◌-ℤ◌, eq→==, ◌∙◌,
  some_inj,
}
use infinity_radius.Core.Enums.{WithdrawalStatus, reserved, available}
use infinity_radius.Payouts.Funds.{held, holds_funds}
use infinity_radius.Payouts.Backing.{total, share, IsBacked, share_own}
use infinity_radius.Wallet.Operations.{release_reservation, transfer_bucket, move_bucket}
use infinity_radius.Payouts.Review.{
  on_row, run_method, reject_withdrawal, reject, is_pending_approval,
}
use infinity_radius.Payouts.Tables.{Withdrawal, find, open_work, Env, Store, save}
use infinity_radius.Wallet.Tables.{get_bucket, set_bucket, Books, locked_wallet, put_wallet}
use infinity_radius.Core.Errors.{ok}
use infinity_radius.Payouts.Transitions.{transition}
use infinity_radius.Wallet.Effects.{transferred}

-- Every withdrawal has a positive amount.
unfoldable pub AllPositive : Dict Withdrawal → Type 0
AllPositive [] = Unit {0}
AllPositive ((k, w) ∷ d) = (pos 0 <ℤ w.amount) × AllPositive d

pub positive_lookup :
    (k : ℕ) (w : Withdrawal) (d : Dict Withdrawal)
    → AllPositive d
    → lookup k d ≡ some w
    → pos 0 <ℤ w.amount
unfolding AllPositive lookup
positive_lookup k w [] h e = cc
positive_lookup k w ((j, x) ∷ d) (p, h) e = elim (Bool-cases (j == k)) [
  | inl same ↦ rw (some_inj (rw (same) at e)) at p
  | inr other ↦ positive_lookup k w d h (rw (other) at e)
]

pub positive_insert :
    (k : ℕ) (w : Withdrawal) (d : Dict Withdrawal)
    → AllPositive d
    → pos 0 <ℤ w.amount
    → AllPositive (insert k w d)
unfolding AllPositive insert
positive_insert k w [] h p = (p, tt)
positive_insert k w ((j, x) ∷ d) (q, h) p = elim (Bool-cases (j == k)) [
  | inl same ↦ rw (same) (p, h)
  | inr other ↦ rw (other) (q, positive_insert k w d h p)
]

held_share-nonneg : (t : ℕ) (w : Withdrawal) → pos 0 <ℤ w.amount → pos 0 ≤ℤ share held t w
unfolding held
held_share-nonneg t w p = ground arith

total_held-nonneg : (t : ℕ) (d : Dict Withdrawal) → AllPositive d → pos 0 ≤ℤ total held t d
unfolding AllPositive total
total_held-nonneg t [] h = omega arith
total_held-nonneg t ((k, w) ∷ d) (p, h) =
    omega (int_laws, held_share-nonneg t w p, total_held-nonneg t d h)

-- What a tenant's withdrawals hold is at least what one of them holds.
held_covered :
    (t k : ℕ) (w : Withdrawal) (d : Dict Withdrawal)
    → AllPositive d
    → lookup k d ≡ some w
    → share held t w ≤ℤ total held t d
unfolding AllPositive total lookup
held_covered t k w [] h e = cc
held_covered t k w ((j, x) ∷ d) (p, h) e = elim (Bool-cases (j == k)) [
  | inl same ↦ rw (← some_inj (rw (same) at e)) (omega (int_laws, total_held-nonneg t d h))
  | inr other ↦ omega (int_laws, held_share-nonneg t x p, held_covered t k w d h (rw (other) at e))
]

pub release_succeeds :
    (t : ℕ) (amount : ℤ) (b : Books)
    → pos 0 <ℤ amount
    → amount ≤ℤ (locked_wallet t b.wallets).reserved_balance_tzs
    → pos 0 ≤ℤ (locked_wallet t b.wallets).available_balance_tzs
    → (b' : Books) × (release_reservation t amount b ≡ ok b')
unfolding release_reservation transfer_bucket move_bucket get_bucket set_bucket
release_succeeds t amount b p r a =
    let w = locked_wallet t b.wallets in
    let left : pos 0 ≤ℤ w.reserved_balance_tzs +ℤ (pos 0 -ℤ amount) = omega int_laws in
    let room : pos 0 ≤ℤ w.available_balance_tzs +ℤ amount = omega int_laws in
    (put_wallet t (transferred reserved available amount w) b, ground arith)

pending_held : (w : Withdrawal) → w.status ≡ WithdrawalStatus.pending_approval → held w ≡ w.amount
unfolding held holds_funds
pending_held w p = rw (p)

is_pending :
    (s : WithdrawalStatus) → s ≡ WithdrawalStatus.pending_approval → is_pending_approval s ≡ true
unfolding is_pending_approval
is_pending s p = rw (p)

-- The reservation of a withdrawal that holds its funds is covered.
pub holding_covered :
    (id : ℕ) (w : Withdrawal) (s : Store)
    → AllPositive s.withdrawals
    → IsBacked w.tenant_id s
    → lookup id s.withdrawals ≡ some w
    → holds_funds w.status ≡ true
    → w.amount ≤ℤ (locked_wallet w.tenant_id s.books.wallets).reserved_balance_tzs
unfolding held
holding_covered id w s h k l p =
    let t = w.tenant_id in
    let all : held w ≡ w.amount = rw (p) refl in
    let own = share_own held t w (eq→== t t refl) ∙ all in
    rw (k.reserved_backed) (rw (own) at (held_covered t id w s.withdrawals h l))

-- The reservation of a withdrawal under review is covered.
reserve_covers_pending :
    (id : ℕ) (w : Withdrawal) (s : Store)
    → AllPositive s.withdrawals
    → IsBacked w.tenant_id s
    → lookup id s.withdrawals ≡ some w
    → w.status ≡ WithdrawalStatus.pending_approval
    → w.amount ≤ℤ (locked_wallet w.tenant_id s.books.wallets).reserved_balance_tzs
reserve_covers_pending id w s h k l p =
    let t = w.tenant_id in
    let own = share_own held t w (eq→== t t refl) ∙ pending_held w p in
    rw (k.reserved_backed) (rw (own) at (held_covered t id w s.withdrawals h l))

-- In tables where all amounts are positive and the tenant is backed and has no debt, a reviewer's
-- rejection, with a reason, of a withdrawal in PENDING_APPROVAL succeeds.
pub reject_withdrawal-succeeds :
    (env : Env) (actor id : ℕ) (reason : Text) (w : Withdrawal) (s : Store)
    → AllPositive s.withdrawals
    → IsBacked w.tenant_id s
    → pos 0 ≤ℤ (locked_wallet w.tenant_id s.books.wallets).available_balance_tzs
    → lookup id s.withdrawals ≡ some w
    → w.status ≡ WithdrawalStatus.pending_approval
    → (is_empty reason || is_empty (strip reason)) ≡ false
    → (s' : Store) × (on_row none id (run_method env (reject actor reason)) s ≡ ok s')
unfolding on_row run_method reject_withdrawal find open_work
reject_withdrawal-succeeds env actor id reason w s h k a l p n =
    let t = w.tenant_id in
    let (books, e) =
      release_succeeds t w.amount s.books (positive_lookup id w s.withdrawals h l)
        (reserve_covers_pending id w s h k l p) a in
    let row = record w {
      reviewed_by = some actor;
      reviewed_at = some env.now;
      completed_at = some env.now;
    } in
    let v = record (open_work w s) { row = row; books = books } in
    (
      save id (transition WithdrawalStatus.rejected (some actor) v) s,
      ground (arith, is_pending w.status p),
    )
