-- ===== src/Payouts/System.antt =====
-- The tables under the methods of `PayoutService` and the other methods of `WalletService`, in any
-- order: a step is a request that was committed, or a method that raised, of which only what it has
-- sent to Selcom stays.
use infinity_radius.Wallet.Calls.{Call, apply, collect, adjust, settle, set_rate}
use infinity_radius.Prelude.{true, false, ℕ, Bool, Option, ◌≡◌, Text, ℤ, lookup, none, arith}
use infinity_radius.Core.Enums.{WalletBucket, SettlementMode}
use infinity_radius.Payouts.Tables.{Store, Env}
use infinity_radius.Wallet.Operations.{
  process_collection, create_adjustment, settle_pending, record_refund, record_reversal,
  set_commission_rate, debit_bucket, move_bucket, create_entry,
}
use infinity_radius.Payouts.Backing.{IsBacked, on_row-IsBacked}
use infinity_radius.Payouts.Review.{Method, on_row, run_method}
use infinity_radius.Payouts.Requests.{request_withdrawal-IsBacked}
use infinity_radius.Core.Errors.{ok, ApiError, err}
use infinity_radius.Wallet.Tables.{
  get_bucket, set_bucket, Books, locked_wallet, locked_wallet-insert,
}
use infinity_radius.Payouts.Service.{request_withdrawal}
use infinity_radius.Payouts.Contact.{sent_by}

-- Calls of the wallet service that leave the reserved and the disbursed column to the withdrawals.
unfoldable pub spares_withdrawals : Call → Bool
spares_withdrawals (collect gross reference_type id) = true
spares_withdrawals (adjust WalletBucket.available d x r a) = true
spares_withdrawals (adjust WalletBucket.pending d x r a) = true
spares_withdrawals (adjust WalletBucket.frozen d x r a) = true
spares_withdrawals (settle x) = true
spares_withdrawals (Call.refund x id) = true
spares_withdrawals (Call.reversal x id) = true
spares_withdrawals (set_rate r) = true
spares_withdrawals _ = false

pub data Step : Store → Store → Type 0 where
  method :
      (env : Env) (m : Method) (tenant : Option ℕ) (id : ℕ) {s s' : Store}
      → on_row tenant id (run_method env m) s ≡ ok s'
      → Step s s'
  raised :
      (env : Env) (m : Method) (tenant : Option ℕ) (id : ℕ) {s : Store} {x : ApiError}
      → on_row tenant id (run_method env m) s ≡ err x
      → Step s (record s { submissions = sent_by env m tenant id s })
  -- The id of a new row is drawn (uuid4), and is taken to be new.
  request :
      (env : Env) (mode : Option SettlementMode) (enabled : Option Bool) (t actor id : ℕ)
      (key : Text) (destination_id : ℕ) (amount : ℤ) {s s' : Store}
      → lookup id s.withdrawals ≡ none
      → request_withdrawal env mode enabled t actor id key destination_id amount s ≡ ok s'
      → Step s s'
  call :
      (t : ℕ) (c : Call) {s : Store} {books : Books}
      → spares_withdrawals c ≡ true
      → apply t c s.books ≡ ok books
      → Step s (record s { books = books })

pub data Steps : Store → Store → Type 0 where
  done : {s : Store} → Steps s s
  next : {s s' s'' : Store} → Step s s' → Steps s' s'' → Steps s s''

spared :
    (t u : ℕ) (c : Call) (b b' : Books)
    → spares_withdrawals c ≡ true
    → apply t c b ≡ ok b'
    → let w = locked_wallet u b.wallets in
      let w' = locked_wallet u b'.wallets in
      (w'.reserved_balance_tzs ≡ w.reserved_balance_tzs)
      × (w'.total_disbursed_tzs ≡ w.total_disbursed_tzs)
unfolding apply process_collection create_adjustment settle_pending record_refund record_reversal
    set_commission_rate debit_bucket move_bucket create_entry get_bucket set_bucket
    spares_withdrawals
spared t u (adjust WalletBucket.available d x r a) b b' h e =
    (grind (arith, locked_wallet-insert), grind (arith, locked_wallet-insert))
spared t u c b b' h e = (grind (arith, locked_wallet-insert), grind (arith, locked_wallet-insert))

pub Step-IsBacked : (u : ℕ) (s s' : Store) → Step s s' → IsBacked u s → IsBacked u s'
Step-IsBacked u s s' (method env m tenant id e) h = on_row-IsBacked env m tenant id u s s' h e
Step-IsBacked u s s' (request env mode enabled t actor id key d x l e) h =
    request_withdrawal-IsBacked env mode enabled u t actor id key d x s s' h l e
Step-IsBacked u s _ (raised env m tenant id e) h = record {
  reserved_backed = h.reserved_backed;
  disbursed_backed = h.disbursed_backed;
}
Step-IsBacked u s _ (call t c {books = books} g e) h =
    let (p, q) = spared t u c s.books books g e in
    record {
      reserved_backed = rw (p) h.reserved_backed;
      disbursed_backed = rw (q) h.disbursed_backed;
    }

-- From tables where a tenant is backed, any requests, committed or raised (methods of the payout
-- service on any withdrawals, whatever Selcom and the mail service answer, new requests under
-- unused ids, and wallet calls that leave the reserved and the disbursed column alone) leave the
-- tenant backed: the reserved column is the sum of the amounts of the tenant's withdrawals in
-- DRAFT, PENDING_APPROVAL, APPROVED, PROCESSING and AMBIGUOUS, and the disbursed column that of
-- the ones in SUCCESS.
pub Steps-IsBacked : (u : ℕ) (s s' : Store) → IsBacked u s → Steps s s' → IsBacked u s'
Steps-IsBacked u s _ h done = h
Steps-IsBacked u s s' h (next x xs) = Steps-IsBacked u _ s' (Step-IsBacked u s _ x h) xs
