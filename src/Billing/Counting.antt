-- ===== src/Billing/Counting.antt =====
-- How many rows of a table have a property.
use infinity_radius.Prelude.{
  ℕ, ◌+◌, Bool, true, false, Option, none, some, [], ◌∷◌, ◌≡◌, arith, ◌==◌, Dict, lookup, insert,
  Bool-cases, inl, inr,
}

unfoldable pub one_if : Bool → ℕ
one_if true = 1
one_if false = 0

unfoldable pub count_rows {ℓ} : {V : Type ℓ} → (V → Bool) → Dict V → ℕ
unfolding one_if
count_rows p [] = 0
count_rows p ((k, v) ∷ d) = one_if (p v) + count_rows p d

unfoldable pub count_row {ℓ} : {V : Type ℓ} → (V → Bool) → Option V → ℕ
unfolding one_if
count_row p none = 0
count_row p (some v) = one_if (p v)

pub count_rows-insert {ℓ} :
    {V : Type ℓ} (p : V → Bool) (k : ℕ) (v : V) (d : Dict V)
    → count_rows p (insert k v d) + count_row p (lookup k d) ≡ count_rows p d + one_if (p v)
unfolding count_rows count_row lookup insert
count_rows-insert p k v [] = omega arith
count_rows-insert p k v ((j, w) ∷ d) = elim (Bool-cases (j == k)) [
  | inl y ↦ rw (y) (omega arith)
  | inr n ↦ rw (n) (omega (arith, count_rows-insert p k v d))
]
