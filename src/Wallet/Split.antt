-- ===== src/Wallet/Split.antt =====
-- The commission split of a collection: exact, within bounds, and never refused for a positive
-- amount under a rate of at most 100 percent.
use infinity_radius.Prelude.{
  ℕ, suc, ◌+◌, ◌*◌, ◌≤◌, ◌<◌, ◌≡◌, refl, Option, some, arith, pos, ◌+ℤ◌, ◌-ℤ◌, ◌≤ℤ◌, int_laws,
  lookup, lookup-insert,
}
use infinity_radius.Wallet.Tables.{
  Books, get_bucket, set_bucket, ReferenceType, locked_wallet, locked_wallet-insert_self,
}
use infinity_radius.Core.Money.{round_half_up}
use infinity_radius.Wallet.Operations.{
  split_fee, process_collection, require_active, move_bucket, CollectionResult, create_entry,
  create_adjustment, settle_pending, reserve_for_withdrawal, release_reservation,
  complete_disbursement, reverse_disbursement, record_refund, record_reversal, set_commission_rate,
  transfer_bucket, debit_bucket,
}
use infinity_radius.Core.Errors.{ok}
use infinity_radius.Wallet.Effects.{collected}
use infinity_radius.Wallet.Calls.{apply, Call, set_rate}

-- Every active rate is at most 100 percent.
pub record HasValidRates (b : Books) : Type 0 where
  pub at_tenant : (t rate : ℕ) → lookup t b.commission_rates ≡ some rate → rate ≤ 10000

fee_bound : (n rate : ℕ) → rate ≤ 10000 → round_half_up (n * rate) 10000 ≤ n
unfolding round_half_up
fee_bound n rate h = let bound : n * rate ≤ n * 10000 = grind arith in omega arith

-- For a gross amount that is not negative and a rate of at most 100 percent, the fee is the
-- commission rounded half up to a cent, and not more than the gross amount.
pub split_fee_rounds :
    (n rate : ℕ)
    → rate ≤ 10000
    → (fee : ℕ) × (split_fee (pos n) rate ≡ pos fee)
      × (10000 * fee ≤ n * rate + 5000)
      × (n * rate < 10000 * fee + 5000)
      × (fee ≤ n)
unfolding split_fee
split_fee_rounds n rate h =
    (round_half_up (n * rate) 10000, refl, omega arith, omega arith, fee_bound n rate h)

-- A positive collection of a tenant with a rate of at most 100 percent is never refused while its
-- pending balance is not negative: the fee and the share are not negative and add up to the gross
-- amount, and the share goes to the pending balance.
pub process_collection_succeeds :
    (t n rate : ℕ) (rt : ReferenceType) (id : Option ℕ) (b : Books)
    → lookup t b.commission_rates ≡ some rate
    → rate ≤ 10000
    → pos 0 ≤ℤ (locked_wallet t b.wallets).pending_balance_tzs
    → let gross = pos (suc n) in
      (r : CollectionResult) × (b' : Books) × (process_collection t gross rt id b ≡ ok (r, b'))
      × (r.platform_fee +ℤ r.tenant_share ≡ gross)
      × (pos 0 ≤ℤ r.platform_fee)
      × (pos 0 ≤ℤ r.tenant_share)
      × ((locked_wallet t b'.wallets).pending_balance_tzs
          ≡ (locked_wallet t b.wallets).pending_balance_tzs +ℤ r.tenant_share)
unfolding process_collection require_active move_bucket get_bucket set_bucket
process_collection_succeeds t n rate rt id b active h funded =
    let (fee, e, _, _, le) = split_fee_rounds (suc n) rate h in
    let gross = pos (suc n) in
    let p = (locked_wallet t b.wallets).pending_balance_tzs in
    let share : pos 0 ≤ℤ gross -ℤ split_fee gross rate = rw e (omega int_laws) in
    let room : pos 0 ≤ℤ p +ℤ (gross -ℤ split_fee gross rate) = omega int_laws in
    (
      record { platform_fee = split_fee gross rate; tenant_share = gross -ℤ split_fee gross rate },
      collected t gross (split_fee gross rate) rt id (p +ℤ (gross -ℤ split_fee gross rate)) b,
      ground arith,
      omega int_laws,
      rw e (omega arith),
      share,
      unfold create_entry in rw locked_wallet-insert_self,
    )

-- A call that succeeds leaves every commission rate at 100 percent at most, if it was so before.
pub apply-HasValidRates :
    (t : ℕ) (c : Call) (b b' : Books) → HasValidRates b → apply t c b ≡ ok b' → HasValidRates b'
unfolding apply create_adjustment settle_pending reserve_for_withdrawal release_reservation
    complete_disbursement reverse_disbursement record_refund record_reversal set_commission_rate
    transfer_bucket debit_bucket create_entry process_collection move_bucket
apply-HasValidRates t (set_rate r) b b' h e = record {
  at_tenant = λ u. λ rate. λ l. grind (arith, lookup-insert, h.at_tenant u rate);
}
apply-HasValidRates t c b b' h e = record {
  at_tenant = λ u. λ rate. λ l. h.at_tenant u rate (ground arith);
}
