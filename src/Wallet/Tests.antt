-- ===== src/Wallet/Tests.antt =====
-- Calls of the wallet service, run on concrete books.
use infinity_radius.Prelude.{
  refl, some, none, pos, [], ◌∷◌, ◌≤ℤ◌, List, lookup, ℕ, arith, ◌≡◌, ◌+ℤ◌, ◌*◌, ◌≤◌, ◌+◌, ◌<◌,
  insert, ◌-ℤ◌,
}
use infinity_radius.Wallet.Calls.{
  collect, settle, reserve, set_rate, Call, run, apply, run-IsReconciled,
}
use infinity_radius.Wallet.Tables.{
  Books, locked_wallet, selcom_collection, new_wallet, get_bucket, set_bucket,
}
use infinity_radius.Wallet.Ledger.{IsReconciled}
use infinity_radius.Wallet.Safety.{IsFunded, run-IsFunded, apply-isolation}
use infinity_radius.Core.Errors.{Result, ok, err}
use infinity_radius.Wallet.Split.{
  HasValidRates, apply-HasValidRates, process_collection_succeeds, split_fee_rounds,
}
use infinity_radius.Wallet.Operations.{
  CollectionResult, set_commission_rate, reserve_for_withdrawal, split_fee, process_collection,
  require_active, transfer_bucket, move_bucket, settle_pending, complete_disbursement,
  record_refund, debit_bucket, create_entry,
}
use infinity_radius.Core.Money.{round_half_up}

abbrev empty_books : Books
empty_books = record { wallets = []; ledger = []; settlements = []; commission_rates = [] }

empty-IsReconciled : IsReconciled 1 empty_books
unfolding locked_wallet lookup ◌+ℤ◌
empty-IsReconciled = record {
  pending_sum = refl;
  frozen_sum = refl;
  disbursed_sum = refl;
  spendable_sum = refl;
}

-- A rate of 7.5 percent, a collection of 1001 cents, a settlement, a withdrawal, and a refund that is
-- refused.
abbrev day : List (ℕ × Call)
day =
    (1, set_rate (pos 750))
    ∷ (1, collect (pos 1001) selcom_collection (some 4))
    ∷ (1, settle none)
    ∷ (1, reserve (pos 900))
    ∷ (1, Call.complete (pos 900) (some 7))
    ∷ (1, Call.refund (pos 9999) none)
    ∷ []

-- Rounding half up: the fee is 75 cents, the share 926.
day_balance : (locked_wallet 1 (run day empty_books).wallets).available_balance_tzs ≡ pos 26
unfolding run set_commission_rate process_collection require_active split_fee round_half_up
    move_bucket settle_pending reserve_for_withdrawal complete_disbursement record_refund
    debit_bucket transfer_bucket create_entry get_bucket set_bucket locked_wallet lookup insert ◌+ℤ◌
    ◌-ℤ◌
day_balance = refl

run-IsReconciled_example : IsReconciled 1 (run day empty_books)
run-IsReconciled_example = run-IsReconciled 1 day empty_books empty-IsReconciled

empty-IsFunded : (t : ℕ) → IsFunded (locked_wallet t empty_books.wallets)
unfolding locked_wallet lookup
empty-IsFunded t = record {
  available_nonneg = omega arith;
  pending_nonneg = omega arith;
  reserved_nonneg = omega arith;
  frozen_nonneg = omega arith;
  disbursed_nonneg = omega arith;
}

run-IsFunded_example : IsFunded (locked_wallet 1 (run day empty_books).wallets)
run-IsFunded_example = run-IsFunded 1 day empty_books empty-IsFunded

abbrev books_or : Result Books → Books
books_or (ok b) = b
books_or (err e) = empty_books

abbrev funded : Books
funded = record empty_books {
  wallets = (1, record new_wallet { available_balance_tzs = pos 500 }) ∷ [];
  commission_rates = (1, 750) ∷ [];
}

abbrev reserved_books : Books
reserved_books = books_or (apply 1 (reserve (pos 300)) funded)

reserved_ok : apply 1 (reserve (pos 300)) funded ≡ ok reserved_books
unfolding apply reserve_for_withdrawal transfer_bucket move_bucket get_bucket set_bucket
    locked_wallet lookup insert ◌+ℤ◌ ◌-ℤ◌
reserved_ok = refl

apply-isolation_example : locked_wallet 2 reserved_books.wallets ≡ locked_wallet 2 funded.wallets
apply-isolation_example =
    apply-isolation 1 2 (reserve (pos 300)) funded reserved_books refl reserved_ok

funded-HasValidRates : HasValidRates funded
unfolding lookup
funded-HasValidRates = record { at_tenant = λ t. λ rate. λ h. ground arith }

apply-HasValidRates_example : HasValidRates reserved_books
apply-HasValidRates_example =
    apply-HasValidRates 1 (reserve (pos 300)) funded reserved_books funded-HasValidRates reserved_ok

split_fee_rounds_example :
    (fee : ℕ) × (split_fee (pos 1001) 750 ≡ pos fee)
    × (10000 * fee ≤ 1001 * 750 + 5000)
    × (1001 * 750 < 10000 * fee + 5000)
    × (fee ≤ 1001)
split_fee_rounds_example = split_fee_rounds 1001 750 (omega arith)

rate_active : lookup 1 funded.commission_rates ≡ some 750
unfolding lookup
rate_active = refl

no_debt : pos 0 ≤ℤ (locked_wallet 1 funded.wallets).pending_balance_tzs
unfolding locked_wallet lookup
no_debt = omega arith

process_collection_succeeds_example :
    (r : CollectionResult) × (b' : Books) × (process_collection 1
        (pos 1001)
        selcom_collection
        none
        funded
      ≡ ok (r, b'))
    × (r.platform_fee +ℤ r.tenant_share ≡ pos 1001)
    × (pos 0 ≤ℤ r.platform_fee)
    × (pos 0 ≤ℤ r.tenant_share)
    × ((locked_wallet 1 b'.wallets).pending_balance_tzs
        ≡ (locked_wallet 1 funded.wallets).pending_balance_tzs +ℤ r.tenant_share)
process_collection_succeeds_example =
    process_collection_succeeds 1 1000 750 selcom_collection none funded rate_active (omega arith)
      no_debt
