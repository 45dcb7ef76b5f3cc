-- ===== src/Wallet/Calls.antt =====
-- The methods as calls of one type, and sequences of calls, against the ledger.
use infinity_radius.Prelude.{
  ℕ, ◌≡◌, refl, Option, none, some, List, [], ◌∷◌, arith, ℤ, pos, ◌-ℤ◌, int_laws, or_else, Text,
}
use infinity_radius.Wallet.Effects.{
  moved, transferred, settle_pending_lem, complete_disbursement_lem, reverse_disbursement_lem,
  debit_bucket_lem, create_adjustment_lem, record_refund_lem, record_reversal_lem,
  process_collection_lem, settlement_log,
}
use infinity_radius.Core.Errors.{Result, ok, err}
use infinity_radius.Wallet.Tables.{
  ReferenceType, Books, Wallet, get_bucket, set_bucket, locked_wallet-insert, locked_wallet,
}
use infinity_radius.Wallet.Operations.{
  process_collection, create_adjustment, settle_pending, reserve_for_withdrawal, signed,
  release_reservation, complete_disbursement, reverse_disbursement, record_refund, record_reversal,
  set_commission_rate, transfer_bucket, move_bucket, split_fee, create_entry,
}
use infinity_radius.Core.Enums.{
  WalletBucket, LedgerDirection, available, pending, adjustment, reserved, total_disbursed,
  tenant_share, disbursement, disbursement_reversal, credit, LedgerEntryType, debit, collection,
  platform_fee,
}
use infinity_radius.Wallet.Ledger.{moves, is_recall, is_disbursement, IsReconciled, settlement}
use infinity_radius.Wallet.Reconciliation.{
  Justifies, entry-IsReconciled, settlement-IsReconciled, note-IsReconciled,
}

-- A call of the service, by its arguments after the tenant.
pub data Call : Type 0 where
  collect : ℤ → ReferenceType → Option ℕ → Call
  adjust : WalletBucket → LedgerDirection → ℤ → Text → ℕ → Call
  settle : Option ℤ → Call
  reserve release : ℤ → Call
  complete reverse refund reversal : ℤ → Option ℕ → Call
  set_rate : ℤ → Call

abbrev pub second {ℓ κ} : {A : Type ℓ} {B : Type κ} → Result (A × B) → Result B
second (ok (a, b)) = ok b
second (err e) = err e

second_lem {ℓ κ} :
    {A : Type ℓ} {B : Type κ} (r : Result (A × B)) {b : B}
    → second r ≡ ok b
    → (a : A) × (r ≡ ok (a, b))
second_lem (ok (a, b)) e = (a, cc)
second_lem (err x) e = cc

unfoldable pub apply : ℕ → Call → Books → Result Books
apply t (collect gross reference_type reference_id) b =
    second (process_collection t gross reference_type reference_id b)
apply t (adjust bucket direction amount reason actor) b =
    create_adjustment t bucket direction amount reason actor b
apply t (settle amount) b = settle_pending t amount b
apply t (reserve amount) b = reserve_for_withdrawal t amount b
apply t (release amount) b = release_reservation t amount b
apply t (complete amount id) b = complete_disbursement t amount id b
apply t (reverse amount id) b = reverse_disbursement t amount id b
apply t (refund amount id) b = record_refund t amount id b
apply t (reversal amount id) b = record_reversal t amount id b
apply t (set_rate rate) b = set_commission_rate t rate b

-- The books after a request: those of a call that raised are as before.
abbrev pub committed : Result Books → Books → Books
committed (ok b') b = b'
committed (err e) b = b

-- A sequence of requests; one that raises is rolled back.
unfoldable pub run : List (ℕ × Call) → Books → Books
unfolding apply
run [] b = b
run ((t, c) ∷ calls) b = run calls (committed (apply t c b) b)

module _ (t : ℕ) (w : Wallet) (amount : ℤ) where
  complete-Justifies :
      Justifies w
        (transferred reserved total_disbursed amount w)
        disbursement
        credit
        (some total_disbursed)
        amount
  unfolding get_bucket set_bucket moves signed is_recall is_disbursement
  complete-Justifies = omega int_laws

  reverse-Justifies :
      Justifies w
        (transferred total_disbursed available amount w)
        disbursement_reversal
        credit
        (some available)
        amount
  unfolding get_bucket set_bucket moves signed is_recall is_disbursement
  reverse-Justifies = omega int_laws

  refund-Justifies :
      Justifies w
        (moved available (pos 0 -ℤ amount) w)
        LedgerEntryType.refund
        debit
        (some available)
        amount
  unfolding get_bucket set_bucket moves signed is_recall is_disbursement
  refund-Justifies = omega int_laws

  reversal-Justifies :
      Justifies w
        (moved pending (pos 0 -ℤ amount) w)
        LedgerEntryType.reversal
        debit
        (some pending)
        amount
  unfolding get_bucket set_bucket moves signed is_recall is_disbursement
  reversal-Justifies = omega int_laws

  share-Justifies : Justifies w (moved pending amount w) tenant_share credit (some pending) amount
  unfolding get_bucket set_bucket moves signed is_recall is_disbursement
  share-Justifies = omega int_laws

  adjust-Justifies :
      (bucket : WalletBucket) (direction : LedgerDirection)
      → Justifies w
          (moved bucket (signed direction amount) w)
          adjustment
          direction
          (some bucket)
          amount
  unfolding get_bucket set_bucket moves is_recall is_disbursement
  adjust-Justifies available d = omega int_laws
  adjust-Justifies _ d = omega int_laws

module _ (t u : ℕ) (b b' : Books) (h : IsReconciled u b) where
  reserve-IsReconciled : (amount : ℤ) → apply t (reserve amount) b ≡ ok b' → IsReconciled u b'
  unfolding apply reserve_for_withdrawal transfer_bucket move_bucket get_bucket set_bucket
  reserve-IsReconciled amount e = grind (int_laws, locked_wallet-insert)

  release-IsReconciled : (amount : ℤ) → apply t (release amount) b ≡ ok b' → IsReconciled u b'
  unfolding apply release_reservation transfer_bucket move_bucket get_bucket set_bucket
  release-IsReconciled amount e = grind (int_laws, locked_wallet-insert)

  settle-IsReconciled : (amount : Option ℤ) → apply t (settle amount) b ≡ ok b' → IsReconciled u b'
  unfolding apply get_bucket set_bucket settlement
  settle-IsReconciled amount e =
      let w = locked_wallet t b.wallets in
      let x = or_else amount w.pending_balance_tzs in
      rw (settle_pending_lem t b b' x amount refl e) (
        settlement-IsReconciled t u (transferred pending available x w) b (settlement_log t b b' x)
          refl (omega int_laws) refl refl (omega int_laws) h)

  complete-IsReconciled :
      (amount : ℤ) (id : Option ℕ) → apply t (complete amount id) b ≡ ok b' → IsReconciled u b'
  unfolding apply
  complete-IsReconciled amount id e =
      let (v, e') = complete_disbursement_lem t b b' amount id e in
      rw e' (entry-IsReconciled t u _ b _ _ _ _ _ _ _ _ (complete-Justifies t _ amount) h)

  reverse-IsReconciled :
      (amount : ℤ) (id : Option ℕ) → apply t (reverse amount id) b ≡ ok b' → IsReconciled u b'
  unfolding apply
  reverse-IsReconciled amount id e =
      let (v, e') = reverse_disbursement_lem t b b' amount id e in
      rw e' (entry-IsReconciled t u _ b _ _ _ _ _ _ _ _ (reverse-Justifies t _ amount) h)

  refund-IsReconciled :
      (amount : ℤ) (id : Option ℕ) → apply t (refund amount id) b ≡ ok b' → IsReconciled u b'
  unfolding apply
  refund-IsReconciled amount id e =
      let (v, e') = debit_bucket_lem t b b' amount _ _ id (record_refund_lem t b b' amount id e) in
      rw e' (entry-IsReconciled t u _ b _ _ _ _ _ _ _ _ (refund-Justifies t _ amount) h)

  reversal-IsReconciled :
      (amount : ℤ) (id : Option ℕ) → apply t (reversal amount id) b ≡ ok b' → IsReconciled u b'
  unfolding apply
  reversal-IsReconciled amount id e =
      let (v, e') =
        debit_bucket_lem t b b' amount _ _ id (record_reversal_lem t b b' amount id e) in
      rw e' (entry-IsReconciled t u _ b _ _ _ _ _ _ _ _ (reversal-Justifies t _ amount) h)

  adjust-IsReconciled :
      (bucket : WalletBucket) (direction : LedgerDirection) (amount : ℤ) (reason : Text) (actor : ℕ)
      → apply t (adjust bucket direction amount reason actor) b ≡ ok b'
      → IsReconciled u b'
  unfolding apply
  adjust-IsReconciled bucket direction amount reason actor e =
      let (v, e') = create_adjustment_lem t b b' amount bucket direction reason actor e in
      rw e' (
        entry-IsReconciled t u _ b _ _ _ _ _ _ _ _ (adjust-Justifies t _ amount bucket direction) h)

  set_rate-IsReconciled : (rate : ℤ) → apply t (set_rate rate) b ≡ ok b' → IsReconciled u b'
  unfolding apply set_commission_rate
  set_rate-IsReconciled rate e =
      grind (arith, h.pending_sum, h.frozen_sum, h.disbursed_sum, h.spendable_sum)

  collect-IsReconciled :
      (gross : ℤ) (reference_type : ReferenceType) (id : Option ℕ)
      → apply t (collect gross reference_type id) b ≡ ok b'
      → IsReconciled u b'
  unfolding apply
  collect-IsReconciled gross reference_type id e =
      let (r, e₁) = second_lem (process_collection t gross reference_type id b) e in
      let (rate, v, _, e₂) = process_collection_lem t gross reference_type id b b' r e₁ in
      let rt = some reference_type in
      let fee = split_fee gross rate in
      let noted =
        note-IsReconciled t u b collection credit gross none rt id none
          (unfold is_disbursement in refl) (unfold is_recall in refl) h in
      let charged =
        note-IsReconciled t u _ platform_fee debit fee none rt id none
          (unfold is_disbursement in refl) (unfold is_recall in refl) noted in
      rw e₂ (
        unfold create_entry in
        entry-IsReconciled t u _ _ _ _ _ _ _ _ _ _ (share-Justifies t _ (gross -ℤ fee)) charged)

-- A call that succeeds keeps every tenant's wallet reconciled.
pub apply-IsReconciled :
    (t u : ℕ) (c : Call) (b b' : Books) → IsReconciled u b → apply t c b ≡ ok b' → IsReconciled u b'
apply-IsReconciled t u (collect g rt id) b b' h e = collect-IsReconciled t u b b' h g rt id e
apply-IsReconciled t u (adjust k d x r a) b b' h e = adjust-IsReconciled t u b b' h k d x r a e
apply-IsReconciled t u (settle x) b b' h e = settle-IsReconciled t u b b' h x e
apply-IsReconciled t u (reserve x) b b' h e = reserve-IsReconciled t u b b' h x e
apply-IsReconciled t u (release x) b b' h e = release-IsReconciled t u b b' h x e
apply-IsReconciled t u (complete x id) b b' h e = complete-IsReconciled t u b b' h x id e
apply-IsReconciled t u (reverse x id) b b' h e = reverse-IsReconciled t u b b' h x id e
apply-IsReconciled t u (refund x id) b b' h e = refund-IsReconciled t u b b' h x id e
apply-IsReconciled t u (reversal x id) b b' h e = reversal-IsReconciled t u b b' h x id e
apply-IsReconciled t u (set_rate r) b b' h e = set_rate-IsReconciled t u b b' h r e

committed-IsReconciled :
    (t u : ℕ) (c : Call) (b : Books) → IsReconciled u b → IsReconciled u (committed (apply t c b) b)
committed-IsReconciled t u c b h = go (apply t c b) refl
  where
    go : (r : Result Books) → apply t c b ≡ r → IsReconciled u (committed r b)
    go (ok b') e = apply-IsReconciled t u c b b' h e
    go (err x) e = h

-- From books that are reconciled for a tenant, any sequence of calls for any tenants, failing ones
-- included, leaves them so: the pending and frozen balances and the disbursed total are what the
-- ledger and the settlement logs add up to, and so is the sum of available and reserved funds.
pub run-IsReconciled :
    (u : ℕ) (calls : List (ℕ × Call)) (b : Books) → IsReconciled u b → IsReconciled u (run calls b)
unfolding run
run-IsReconciled u [] b h = h
run-IsReconciled u ((t, c) ∷ calls) b h =
    run-IsReconciled u calls (committed (apply t c b) b) (committed-IsReconciled t u c b h)
