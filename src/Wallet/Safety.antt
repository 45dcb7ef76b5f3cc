-- ===== src/Wallet/Safety.antt =====
-- The wallets of the other tenants, and the balances against zero.
use infinity_radius.Prelude.{
  ℕ, ◌≡◌, refl, inl, inr, false, Option, none, some, List, [], ◌∷◌, arith, ◌==◌, Bool-cases, ℤ, pos,
  ◌≤ℤ◌, ◌<ℤ◌, int_laws, Dict, or_else, insert,
}
use infinity_radius.Wallet.Calls.{Call, apply, set_rate, settle, run, committed}
use infinity_radius.Wallet.Tables.{
  Wallet, get_bucket, set_bucket, Books, locked_wallet, locked_wallet-insert,
}
use infinity_radius.Wallet.Operations.{
  move_bucket, process_collection, create_adjustment, settle_pending, reserve_for_withdrawal,
  release_reservation, complete_disbursement, reverse_disbursement, record_refund, record_reversal,
  set_commission_rate, transfer_bucket, debit_bucket, create_entry,
}
use infinity_radius.Core.Enums.{WalletBucket, pending, available}
use infinity_radius.Core.Errors.{ok, Result, err}
use infinity_radius.Wallet.Effects.{transferred, settle_pending_lem}

-- No balance is negative.
pub record IsFunded (w : Wallet) : Type 0 where
  pub available_nonneg : pos 0 ≤ℤ w.available_balance_tzs
  pub pending_nonneg : pos 0 ≤ℤ w.pending_balance_tzs
  pub reserved_nonneg : pos 0 ≤ℤ w.reserved_balance_tzs
  pub frozen_nonneg : pos 0 ≤ℤ w.frozen_balance_tzs
  pub disbursed_nonneg : pos 0 ≤ℤ w.total_disbursed_tzs

move_bucket-IsFunded :
    (w w' : Wallet) (bucket : WalletBucket) (delta v : ℤ)
    → IsFunded w
    → move_bucket w bucket delta ≡ ok (v, w')
    → IsFunded w'
unfolding move_bucket get_bucket set_bucket
move_bucket-IsFunded w w' WalletBucket.available delta v h e = ground (arith)
move_bucket-IsFunded w w' _ delta v h e = ground (arith)

-- A call of one tenant that succeeds leaves the wallet of every other tenant as it was.
pub apply-isolation :
    (t u : ℕ) (c : Call) (b b' : Books)
    → (t == u) ≡ false
    → apply t c b ≡ ok b'
    → locked_wallet u b'.wallets ≡ locked_wallet u b.wallets
unfolding apply process_collection create_adjustment settle_pending reserve_for_withdrawal
    release_reservation complete_disbursement reverse_disbursement record_refund record_reversal
    set_commission_rate transfer_bucket debit_bucket create_entry
apply-isolation t u (set_rate r) b b' ne e = grind (arith, locked_wallet-insert)
apply-isolation t u _ b b' ne e = grind (arith, locked_wallet-insert)

-- The tenant's wallet after a call, when the others are set aside.
IsFunded-cases :
    (t u : ℕ) (w' : Wallet) (wallets : Dict Wallet)
    → IsFunded w'
    → IsFunded (locked_wallet u wallets)
    → IsFunded (locked_wallet u (insert t w' wallets))
IsFunded-cases t u w' wallets h k = elim (Bool-cases (t == u)) [
  | inl same ↦ rw (locked_wallet-insert, same) h
  | inr other ↦ rw (locked_wallet-insert, other) k
]

settle_pending_bounds :
    (t : ℕ) (amount : Option ℤ) (b b' : Books)
    → settle_pending t amount b ≡ ok b'
    → let w = locked_wallet t b.wallets in
      (pos 0 <ℤ or_else amount w.pending_balance_tzs)
      × (or_else amount w.pending_balance_tzs ≤ℤ w.pending_balance_tzs)
unfolding settle_pending
settle_pending_bounds t none b b' e = ground arith
settle_pending_bounds t (some x) b b' e = ground arith

settle-IsFunded :
    (w : Wallet) (x : ℤ)
    → IsFunded w
    → pos 0 <ℤ x
    → x ≤ℤ w.pending_balance_tzs
    → IsFunded (transferred pending available x w)
unfolding get_bucket set_bucket
settle-IsFunded w x h l g = omega int_laws

-- A call that succeeds keeps the balances of every tenant at or above zero.
pub apply-IsFunded :
    (t u : ℕ) (c : Call) (b b' : Books)
    → IsFunded (locked_wallet t b.wallets)
    → IsFunded (locked_wallet u b.wallets)
    → apply t c b ≡ ok b'
    → IsFunded (locked_wallet u b'.wallets)
unfolding apply process_collection create_adjustment reserve_for_withdrawal release_reservation
    complete_disbursement reverse_disbursement record_refund record_reversal set_commission_rate
    transfer_bucket debit_bucket create_entry
apply-IsFunded t u (settle x) b b' h k e =
    let w = locked_wallet t b.wallets in
    let y = or_else x w.pending_balance_tzs in
    let (low, high) = settle_pending_bounds t x b b' e in
    rw (settle_pending_lem t b b' y x refl e)
      (IsFunded-cases t u _ b.wallets (settle-IsFunded w y h low high) k)
apply-IsFunded t u (set_rate r) b b' h k e = grind (arith, IsFunded-cases, move_bucket-IsFunded)
apply-IsFunded t u _ b b' h k e = grind (arith, IsFunded-cases, move_bucket-IsFunded)

-- From books where no tenant has a balance below zero, any sequence of calls, failing ones
-- included, leaves all five balances of every tenant at or above zero.
pub run-IsFunded :
    (u : ℕ) (calls : List (ℕ × Call)) (b : Books)
    → ((t : ℕ) → IsFunded (locked_wallet t b.wallets))
    → IsFunded (locked_wallet u (run calls b).wallets)
unfolding run
run-IsFunded u [] b h = h u
run-IsFunded u ((t, c) ∷ calls) b h =
    run-IsFunded u calls (committed (apply t c b) b) (λ v. go v (apply t c b) refl)
  where
    go :
        (v : ℕ) (r : Result Books)
        → apply t c b ≡ r
        → IsFunded (locked_wallet v (committed r b).wallets)
    go v (ok b') e = apply-IsFunded t v c b b' (h t) (h v) e
    go v (err x) e = h v
