-- ===== src/Wallet/Reconciliation.antt =====
-- An entry, written with the change of the wallet that it justifies, keeps the wallet equal to what
-- the ledger and the settlement logs add up to.
use infinity_radius.Prelude.{
  ℕ, ◌≡◌, ◌∙◌, inl, inr, false, Option, none, ◌∷◌, ◌==◌, if◌then◌else◌, ==→eq, Bool-cases, ℤ, pos,
  ◌+ℤ◌, parts_eq, int_laws,
}
use infinity_radius.Core.Enums.{
  WalletBucket, LedgerDirection, LedgerEntryType, pending, frozen, total_disbursed, available,
  reserved,
}
use infinity_radius.Wallet.Tables.{
  Wallet, Books, ReferenceType, locked_wallet, put_wallet, locked_wallet-insert, SettlementLog,
}
use infinity_radius.Wallet.Operations.{signed, create_entry}
use infinity_radius.Wallet.Ledger.{
  IsReconciled, posting, payment_out, payment_back, settlement, moves, is_recall, is_disbursement,
}

-- What an entry of a type, in a direction, adds to a bucket if it names that bucket.
abbrev pub part : WalletBucket → LedgerDirection → Option WalletBucket → ℤ → ℤ
part bucket direction named amount = if moves bucket named then signed direction amount else pos 0

-- The change of a wallet that an entry justifies.
pub record Justifies (w w' : Wallet) (entry_type : LedgerEntryType) (direction : LedgerDirection)
    (named : Option WalletBucket) (amount : ℤ) : Type 0 where
  pub pending_part :
      w'.pending_balance_tzs ≡ w.pending_balance_tzs +ℤ part pending direction named amount
  pub frozen_part :
      w'.frozen_balance_tzs ≡ w.frozen_balance_tzs +ℤ part frozen direction named amount
  pub disbursed_part :
      w'.total_disbursed_tzs +ℤ (if is_recall entry_type then amount else pos 0)
      ≡ w.total_disbursed_tzs +ℤ part total_disbursed direction named amount
  pub spendable_part :
      w'.available_balance_tzs
        +ℤ w'.reserved_balance_tzs
        +ℤ (if is_disbursement entry_type then amount else pos 0)
      ≡ w.available_balance_tzs
        +ℤ w.reserved_balance_tzs
        +ℤ part available direction named amount
        +ℤ part reserved direction named amount

-- Amounts that move balances and sums alike.
shift_recalled : (a a' k p r n : ℤ) → a' +ℤ k ≡ a +ℤ p → a +ℤ r ≡ n → a' +ℤ (k +ℤ r) ≡ p +ℤ n
shift_recalled a a' k p r n x h = omega (int_laws, parts_eq x, parts_eq h)

shift_spendable :
    (x y x' y' k p q d m n s : ℤ)
    → x' +ℤ y' +ℤ k ≡ x +ℤ y +ℤ p +ℤ q
    → x +ℤ y +ℤ d ≡ m +ℤ n +ℤ s
    → x' +ℤ y' +ℤ (k +ℤ d) ≡ (p +ℤ m) +ℤ (q +ℤ n) +ℤ s
shift_spendable x y x' y' k p q d m n s e h = omega (int_laws, parts_eq e, parts_eq h)

shift_settled : (a a' k s n : ℤ) → a' +ℤ k ≡ a → a +ℤ s ≡ n → a' +ℤ (k +ℤ s) ≡ n
shift_settled a a' k s n e h = omega (int_laws, parts_eq e, parts_eq h)

shift_available :
    (x y x' y' k d m s : ℤ)
    → x' +ℤ y' ≡ x +ℤ y +ℤ k
    → x +ℤ y +ℤ d ≡ m +ℤ s
    → x' +ℤ y' +ℤ d ≡ m +ℤ (k +ℤ s)
shift_available x y x' y' k d m s e h = omega (int_laws, parts_eq e, parts_eq h)

module _ (t u : ℕ) (w' : Wallet) (b : Books) where
  pub entry-IsReconciled :
      (entry_type : LedgerEntryType) (direction : LedgerDirection) (named : Option WalletBucket)
      (amount : ℤ) (v : Option ℤ) (rt : Option ReferenceType) (id actor : Option ℕ)
      → Justifies (locked_wallet t b.wallets) w' entry_type direction named amount
      → IsReconciled u b
      → IsReconciled u
          (create_entry t entry_type direction named amount v rt id actor (put_wallet t w' b))
  unfolding create_entry posting payment_out payment_back
  entry-IsReconciled entry_type direction named amount v rt id actor j h =
      elim (Bool-cases (t == u)) [
        | inl same ↦
            let j' : Justifies (locked_wallet u b.wallets) w' entry_type direction named amount =
              rw (==→eq t u same) at j in
            record {
              pending_sum =
                  rw (locked_wallet-insert, same)
                    (grind (int_laws, j'.pending_part, h.pending_sum));
              frozen_sum =
                  rw (locked_wallet-insert, same) (grind (int_laws, j'.frozen_part, h.frozen_sum));
              disbursed_sum =
                  rw (locked_wallet-insert, same)
                    (shift_recalled _ _ _ _ _ _ j'.disbursed_part h.disbursed_sum);
              spendable_sum =
                  rw (locked_wallet-insert, same)
                    (shift_spendable _ _ _ _ _ _ _ _ _ _ _ j'.spendable_part h.spendable_sum);
            }
        | inr other ↦ record {
          pending_sum = rw (locked_wallet-insert, other) (grind (int_laws, h.pending_sum));
          frozen_sum = rw (locked_wallet-insert, other) (grind (int_laws, h.frozen_sum));
          disbursed_sum = rw (locked_wallet-insert, other) (grind (int_laws, h.disbursed_sum));
          spendable_sum = rw (locked_wallet-insert, other) (grind (int_laws, h.spendable_sum));
        }
      ]

-- An entry that names no bucket and is no payment changes no sum.
pub note-IsReconciled :
    (t u : ℕ) (b : Books) (entry_type : LedgerEntryType) (direction : LedgerDirection) (amount : ℤ)
    (v : Option ℤ) (rt : Option ReferenceType) (id actor : Option ℕ)
    → is_disbursement entry_type ≡ false
    → is_recall entry_type ≡ false
    → IsReconciled u b
    → IsReconciled u (create_entry t entry_type direction none amount v rt id actor b)
unfolding create_entry posting payment_out payment_back moves
note-IsReconciled t u b entry_type direction amount v rt id actor d r h = record {
  pending_sum = grind (int_laws, h.pending_sum);
  frozen_sum = grind (int_laws, h.frozen_sum);
  disbursed_sum = rw r (grind (int_laws, h.disbursed_sum));
  spendable_sum = elim (Bool-cases (t == u)) [
    | inl same ↦ rw (d, same) (grind (int_laws, h.spendable_sum))
    | inr other ↦ rw other (grind (int_laws, h.spendable_sum))
  ];
}

-- A settlement moves an amount from pending to available, with its log.
module _ (t u : ℕ) (w' : Wallet) (b : Books) (l : SettlementLog) (to_tenant : l.tenant_id ≡ t) where
  pub settlement-IsReconciled :
      let w = locked_wallet t b.wallets in
      w'.pending_balance_tzs +ℤ l.net_amount ≡ w.pending_balance_tzs
      → w'.frozen_balance_tzs ≡ w.frozen_balance_tzs
      → w'.total_disbursed_tzs ≡ w.total_disbursed_tzs
      → w'.available_balance_tzs +ℤ w'.reserved_balance_tzs
        ≡ w.available_balance_tzs +ℤ w.reserved_balance_tzs +ℤ l.net_amount
      → IsReconciled u b
      → IsReconciled u (record (put_wallet t w' b) { settlements = l ∷ b.settlements })
  unfolding settlement
  settlement-IsReconciled p f d s h = elim (Bool-cases (t == u)) [
    | inl same ↦
        let e = ==→eq t u same in
        let w = locked_wallet u b.wallets in
        let p' : w'.pending_balance_tzs +ℤ l.net_amount ≡ w.pending_balance_tzs = rw e at p in
        let f' : w'.frozen_balance_tzs ≡ w.frozen_balance_tzs = rw e at f in
        let d' : w'.total_disbursed_tzs ≡ w.total_disbursed_tzs = rw e at d in
        let s' : w'.available_balance_tzs +ℤ w'.reserved_balance_tzs
            ≡ w.available_balance_tzs +ℤ w.reserved_balance_tzs +ℤ l.net_amount =
          rw e at s in
        record {
          pending_sum =
              rw (locked_wallet-insert, to_tenant, same) (shift_settled _ _ _ _ _ p' h.pending_sum);
          frozen_sum = rw (locked_wallet-insert, same) (f' ∙ h.frozen_sum);
          disbursed_sum = rw (locked_wallet-insert, same, d') h.disbursed_sum;
          spendable_sum =
              rw (locked_wallet-insert, to_tenant, same)
                (shift_available _ _ _ _ _ _ _ _ s' h.spendable_sum);
        }
    | inr other ↦ record {
      pending_sum = rw (locked_wallet-insert, to_tenant, other) (grind (int_laws, h.pending_sum));
      frozen_sum = rw (locked_wallet-insert, other) h.frozen_sum;
      disbursed_sum = rw (locked_wallet-insert, other) h.disbursed_sum;
      spendable_sum =
          rw (locked_wallet-insert, to_tenant, other) (grind (int_laws, h.spendable_sum));
    }
  ]
