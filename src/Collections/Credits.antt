-- ===== src/Collections/Credits.antt =====
-- The ledger against the payments: what was credited for a transaction.
use infinity_radius.Prelude.{
  ℕ, Bool, true, false, ◌&&◌, Option, none, some, List, [], ◌∷◌, ◌≡◌, refl, sym, ◌∙◌, arith,
  if◌then◌else◌, ◌==◌, ℤ, lookup, lookup-insert, Bool-cases, inl, inr, ==→eq, eq→==, ap, subst,
}
use infinity_radius.Core.Errors.{ok}
use infinity_radius.Core.Enums.{LedgerEntryType, CollectionStatus, is_terminal}
use infinity_radius.Wallet.Tables.{selcom_collection, LedgerEntry, Books, ReferenceType}
use infinity_radius.Wallet.Operations.{process_collection, CollectionResult, create_entry}
use infinity_radius.Wallet.Effects.{process_collection_lem}
use infinity_radius.Collections.Tables.{Transaction, Payment, Payments, save_payment}
use infinity_radius.Collections.Changes.{Change, unchanged, shifted, paid, Kept, is_completed}

unfoldable pub is_gross : LedgerEntryType → Bool
is_gross LedgerEntryType.collection = true
is_gross _ = false

unfoldable pub refers : ℕ → Option ℕ → Bool
refers k none = false
refers k (some j) = j == k

-- The gross entries for a transaction: the tenant that each credits, and the amount.
unfoldable pub credits : ℕ → List LedgerEntry → List (ℕ × ℤ)
unfolding is_gross refers
credits k [] = []
credits k (e ∷ es) =
    let rest = credits k es in
    if is_gross e.entry_type && refers k e.reference_id
    then (e.tenant_id, e.amount) ∷ rest
    else rest

-- What there should be: one credit, of the amount of the row to its tenant, if it is COMPLETED.
unfoldable pub due : Transaction → List (ℕ × ℤ)
unfolding is_completed
due w = if is_completed w.status then (w.tenant_id, w.amount) ∷ [] else []

unfoldable pub PaidRow : ℕ → List LedgerEntry → Option Transaction → Type 0
PaidRow k ledger none = credits k ledger ≡ []
PaidRow k ledger (some w) = (w.id ≡ k) × (credits k ledger ≡ due w)

abbrev pub IsPaidOnce : ℕ → Payments → Type 0
IsPaidOnce k s = PaidRow k s.books.ledger (lookup k s.transactions)

pub process_collection-credits :
    (k t id : ℕ) (gross : ℤ) (reference_type : ReferenceType) (b b' : Books) (r : CollectionResult)
    → process_collection t gross reference_type (some id) b ≡ ok (r, b')
    → credits k b'.ledger
      ≡ (if id == k then (t, gross) ∷ credits k b.ledger else credits k b.ledger)
unfolding create_entry credits
process_collection-credits k t id gross reference_type b b' r e =
    let (rate, v, x, y) = process_collection_lem t gross reference_type (some id) b b' r e in
    rw (y) refl

unpaid-due : (w : Transaction) → is_completed w.status ≡ false → due w ≡ []
unfolding due
unpaid-due w h = rw (h) refl

live-incomplete : (c : CollectionStatus) → is_terminal c ≡ false → is_completed c ≡ false
unfolding is_terminal is_completed
live-incomplete c h = ground arith

paid-due :
    (w w' : Transaction)
    → Kept w w'
    → w'.status ≡ CollectionStatus.completed
    → due w' ≡ (w.tenant_id, w.amount) ∷ []
unfolding due is_completed
paid-due w w' k c = ground arith

ne_trans : (a b c : ℕ) → a ≡ b → (b == c) ≡ false → (a == c) ≡ false
ne_trans a b c e h = ground arith

-- What was credited for a row is still what is due to it, and the rest of the ledger credits the
-- other transactions as before.
abbrev pub KeepsCredits : ℕ → Payment → Payment → Type 0
KeepsCredits id v v' =
    v.row.id ≡ id
    → credits id v.books.ledger ≡ due v.row
    → (v'.row.id ≡ id)
      × (credits id v'.books.ledger ≡ due v'.row)
      × ((j : ℕ) → (id == j) ≡ false → credits j v'.books.ledger ≡ credits j v.books.ledger)

-- The one credit of a payment that is now COMPLETED.
pub credit-KeepsCredits :
    (id : ℕ) (v v' : Payment) (reference_type : ReferenceType) (r : CollectionResult)
    → is_terminal v.row.status ≡ false
    → v'.row.status ≡ CollectionStatus.completed
    → Kept v.row v'.row
    → process_collection v.row.tenant_id v.row.amount reference_type (some v.row.id) v.books
      ≡ ok (r, v'.books)
    → KeepsCredits id v v'
credit-KeepsCredits id v v' reference_type r live c k e i h =
    let credited = λ (j : ℕ).
      process_collection-credits j v.row.tenant_id v.row.id v.row.amount reference_type v.books
        v'.books r e in
    let was = h ∙ unpaid-due v.row (live-incomplete v.row.status live) in
    (
      k.kept_id ∙ i,
      credited id ∙ rw (eq→== v.row.id id i, was, paid-due v.row v'.row k c) refl,
      λ j n. credited j ∙ rw (ne_trans v.row.id id j i n) refl,
    )

pub Change-credits : (id : ℕ) (v v' : Payment) → Change v v' → KeepsCredits id v v'
Change-credits id v _ unchanged i h = (i, h, λ j n. refl)
Change-credits id v v' (shifted live e k b p a) i h =
    let same = λ (j : ℕ). ap (λ (x : Books). credits j x.ledger) b in
    (
      k.kept_id ∙ i,
      same id
          ∙ h
          ∙ unpaid-due v.row (live-incomplete v.row.status live)
          ∙ sym (unpaid-due v'.row e),
      λ j n. same j,
    )
Change-credits id v v' (paid d flow r live f y c a k p e) i h =
    credit-KeepsCredits id v v' selcom_collection r live c k e i h

pub same-PaidRow :
    (j : ℕ) (ledger ledger' : List LedgerEntry) (o : Option Transaction)
    → credits j ledger' ≡ credits j ledger
    → PaidRow j ledger o
    → PaidRow j ledger' o
unfolding PaidRow
same-PaidRow j ledger ledger' none e h = e ∙ h
same-PaidRow j ledger ledger' (some w) e h = (h.0, e ∙ h.1)

-- A row that is written back after a change leaves every transaction paid as it should be.
pub save_payment-IsPaidOnce :
    (id k : ℕ) (v v' : Payment) (s : Payments)
    → lookup id s.transactions ≡ some v.row
    → v.books ≡ s.books
    → KeepsCredits id v v'
    → ((j : ℕ) → IsPaidOnce j s)
    → IsPaidOnce k (save_payment id v' s)
unfolding save_payment PaidRow
save_payment-IsPaidOnce id k v v' s l b c h =
    let (i, was) = subst (λ o. PaidRow id s.books.ledger o) l (h id) in
    let same = λ (j : ℕ). ap (λ (x : Books). credits j x.ledger) b in
    let (same_id, now, others) = c i (same id ∙ was) in
    rw (lookup-insert id k v'.row s.transactions) (elim (Bool-cases (id == k)) [
      | inl y ↦ rw (y, sym (==→eq id k y)) (same_id, now)
      | inr n ↦ rw (n) (same-PaidRow k s.books.ledger v'.books.ledger _ (others k n ∙ same k) (h k))
    ])

-- A new row that is not COMPLETED, with the ledger as it was.
pub insert-IsPaidOnce :
    (id k : ℕ) (v : Payment) (s : Payments)
    → lookup id s.transactions ≡ none
    → v.row.id ≡ id
    → is_completed v.row.status ≡ false
    → v.books ≡ s.books
    → ((j : ℕ) → IsPaidOnce j s)
    → IsPaidOnce k (save_payment id v s)
unfolding save_payment PaidRow
insert-IsPaidOnce id k v s l i c b h =
    let was = subst (λ o. PaidRow id s.books.ledger o) l (h id) in
    let same = λ (j : ℕ). ap (λ (x : Books). credits j x.ledger) b in
    rw (lookup-insert id k v.row s.transactions) (elim (Bool-cases (id == k)) [
      | inl y ↦ rw (y, sym (==→eq id k y)) (i, same id ∙ was ∙ sym (unpaid-due v.row c))
      | inr n ↦ rw (n) (same-PaidRow k s.books.ledger v.books.ledger _ (same k) (h k))
    ])
