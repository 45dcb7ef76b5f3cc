-- ===== src/Payouts/Funds.antt =====
-- What a withdrawal holds of its tenant's wallet, and what the moves do to it.
use infinity_radius.Payouts.Moves.{
  still_doubted, ambiguous_failed, reviewed, doubted, to_review, to_selcom, draft_cancelled,
  review_cancelled, review_rejected, approved_failed, processing_failed, edit, advance, send,
  release, complete,
}
use infinity_radius.Prelude.{
  refl, Bool, ℤ, true, if◌then◌else◌, Dict, ◌+ℤ◌, ℕ, ◌≡◌, false, pos, parts_eq, eq_of_parts, ◌∙◌,
  ◌==◌, int_laws, insert, arith, some, ap,
}
use infinity_radius.Core.Enums.{WithdrawalStatus}
use infinity_radius.Payouts.Tables.{Withdrawal, Work}
use infinity_radius.Payouts.Review.{is_success}
use infinity_radius.Wallet.Tables.{
  Wallet, locked_wallet, locked_wallet-insert_self, locked_wallet-insert, get_bucket, set_bucket,
  Books,
}
use infinity_radius.Payouts.Moves.{
  Advance, Release, Move, Moves, to_review, ◌⨟◌, to_selcom, draft_cancelled, reviewed,
  review_cancelled, stay, doubted, review_rejected, approved_failed, processing_failed,
}
use infinity_radius.Payouts.Transitions.{is_open, transition}
use infinity_radius.Wallet.Operations.{
  create_entry, release_reservation, complete_disbursement, reverse_disbursement,
}
use infinity_radius.Core.Errors.{ok}
use infinity_radius.Wallet.Effects.{
  release_reservation_lem, complete_disbursement_lem, reverse_disbursement_lem,
}

-- The statuses in which the amount of a withdrawal is reserved.
unfoldable pub holds_funds : WithdrawalStatus → Bool
holds_funds WithdrawalStatus.draft = true
holds_funds WithdrawalStatus.pending_approval = true
holds_funds WithdrawalStatus.approved = true
holds_funds WithdrawalStatus.processing = true
holds_funds WithdrawalStatus.ambiguous = true
holds_funds _ = false

unfoldable pub held : Withdrawal → ℤ
unfolding holds_funds
held w = if holds_funds w.status then w.amount else pos 0

-- What a withdrawal has paid out.
unfoldable pub paid : Withdrawal → ℤ
unfolding is_success
paid w = if is_success w.status then w.amount else pos 0

-- The wallets after a change of a withdrawal account for what it holds and what it has paid, and
-- no other tenant's wallet has changed.
pub record Settles (w w' : Withdrawal) (d d' : Dict Wallet) : Type 0 where
  pub same_id : w'.id ≡ w.id
  pub same_tenant : w'.tenant_id ≡ w.tenant_id
  pub same_amount : w'.amount ≡ w.amount
  pub reserved_moves :
      (locked_wallet w.tenant_id d').reserved_balance_tzs +ℤ held w
      ≡ (locked_wallet w.tenant_id d).reserved_balance_tzs +ℤ held w'
  pub disbursed_moves :
      (locked_wallet w.tenant_id d').total_disbursed_tzs +ℤ paid w
      ≡ (locked_wallet w.tenant_id d).total_disbursed_tzs +ℤ paid w'
  pub others_stay : (u : ℕ) → (w.tenant_id == u) ≡ false → locked_wallet u d' ≡ locked_wallet u d

Settles-refl :
    (w w' : Withdrawal) (d : Dict Wallet)
    → w'.id ≡ w.id
    → w'.tenant_id ≡ w.tenant_id
    → w'.amount ≡ w.amount
    → held w' ≡ held w
    → paid w' ≡ paid w
    → Settles w w' d d
Settles-refl w w' d a b c h p = record {
  same_id = a;
  same_tenant = b;
  same_amount = c;
  reserved_moves = rw (h);
  disbursed_moves = rw (p);
  others_stay = λ u. λ ne. refl;
}

cancel_sums : (x y z a b c : ℤ) → y +ℤ a ≡ x +ℤ b → z +ℤ b ≡ y +ℤ c → z +ℤ a ≡ x +ℤ c
cancel_sums x y z a b c h k =
    let (h₁, h₂) = parts_eq h in let (k₁, k₂) = parts_eq k in eq_of_parts _ _ (omega int_laws)

Settles-trans :
    (w₁ w₂ w₃ : Withdrawal) (d₁ d₂ d₃ : Dict Wallet)
    → Settles w₁ w₂ d₁ d₂
    → Settles w₂ w₃ d₂ d₃
    → Settles w₁ w₃ d₁ d₃
unfolding held paid
Settles-trans w₁ w₂ w₃ d₁ d₂ d₃ h k = record {
  same_id = k.same_id ∙ h.same_id;
  same_tenant = k.same_tenant ∙ h.same_tenant;
  same_amount = k.same_amount ∙ h.same_amount;
  reserved_moves = cancel_sums _ _ _ _ _ _ h.reserved_moves (rw h.same_tenant at k.reserved_moves);
  disbursed_moves =
      cancel_sums _ _ _ _ _ _ h.disbursed_moves (rw h.same_tenant at k.disbursed_moves);
  others_stay = λ u. λ ne. k.others_stay u (rw (h.same_tenant) ne) ∙ h.others_stay u ne;
}

-- A status and a wallet of the tenant changed at once.
put-Settles :
    (w w' : Withdrawal) (t : ℕ) (wallet : Wallet) (d : Dict Wallet)
    → w.tenant_id ≡ t
    → w'.id ≡ w.id
    → w'.tenant_id ≡ w.tenant_id
    → w'.amount ≡ w.amount
    → wallet.reserved_balance_tzs +ℤ held w ≡ (locked_wallet t d).reserved_balance_tzs +ℤ held w'
    → wallet.total_disbursed_tzs +ℤ paid w ≡ (locked_wallet t d).total_disbursed_tzs +ℤ paid w'
    → Settles w w' d (insert t wallet d)
unfolding held paid
put-Settles w w' t wallet d e a b c r p = record {
  same_id = a;
  same_tenant = b;
  same_amount = c;
  reserved_moves = rw (e, locked_wallet-insert_self) r;
  disbursed_moves = rw (e, locked_wallet-insert_self) p;
  others_stay = λ u. λ ne. grind (arith, locked_wallet-insert);
}

same_funds :
    (w w' : Withdrawal)
    → w'.amount ≡ w.amount
    → holds_funds w'.status ≡ holds_funds w.status
    → is_success w'.status ≡ is_success w.status
    → (held w' ≡ held w) × (paid w' ≡ paid w)
unfolding held paid
same_funds w w' a h p = (rw (a, h), rw (a, p))

edit-Settles :
    (w w' : Withdrawal) (d : Dict Wallet)
    → w'.id ≡ w.id
    → w'.tenant_id ≡ w.tenant_id
    → w'.amount ≡ w.amount
    → holds_funds w'.status ≡ holds_funds w.status
    → is_success w'.status ≡ is_success w.status
    → Settles w w' d d
edit-Settles w w' d a b c h p = let (e, f) = same_funds w w' c h p in Settles-refl w w' d a b c e f

Advance-funds :
    (a b : WithdrawalStatus)
    → Advance a b
    → (holds_funds b ≡ holds_funds a) × (is_success b ≡ is_success a)
unfolding holds_funds is_success
Advance-funds _ _ to_review = (refl, refl)
Advance-funds _ _ to_selcom = (refl, refl)
Advance-funds _ _ reviewed = (refl, refl)
Advance-funds _ _ doubted = (refl, refl)
Advance-funds _ _ still_doubted = (refl, refl)

Release-funds :
    (a b : WithdrawalStatus)
    → Release a b
    → (holds_funds a ≡ true)
      × (holds_funds b ≡ false)
      × (is_success a ≡ false)
      × (is_success b ≡ false)
unfolding holds_funds is_success
Release-funds _ _ draft_cancelled = (refl, refl, refl, refl)
Release-funds _ _ review_cancelled = (refl, refl, refl, refl)
Release-funds _ _ review_rejected = (refl, refl, refl, refl)
Release-funds _ _ approved_failed = (refl, refl, refl, refl)
Release-funds _ _ processing_failed = (refl, refl, refl, refl)
Release-funds _ _ ambiguous_failed = (refl, refl, refl, refl)

open-funds :
    (s : WithdrawalStatus) → is_open s ≡ true → (holds_funds s ≡ true) × (is_success s ≡ false)
unfolding is_open holds_funds is_success
open-funds WithdrawalStatus.processing h = (refl, refl)
open-funds WithdrawalStatus.ambiguous h = (refl, refl)
open-funds _ h = cc

Release-Settles :
    (w : Withdrawal) (s : WithdrawalStatus) (b b' : Books)
    → Release w.status s
    → release_reservation w.tenant_id w.amount b ≡ ok b'
    → Settles w (record w { status = s }) b.wallets b'.wallets
unfolding held paid get_bucket set_bucket
Release-Settles w s b b' r e =
    let (h₁, h₂, h₃, h₄) = Release-funds w.status s r in
    rw (release_reservation_lem w.tenant_id b b' w.amount e) (
      put-Settles w _ w.tenant_id _ b.wallets refl refl refl refl
        (rw (h₁, h₂) (eq_of_parts _ _ (omega int_laws))) (rw (h₃, h₄) refl))

complete-Settles :
    (w : Withdrawal) (b b' : Books)
    → is_open w.status ≡ true
    → complete_disbursement w.tenant_id w.amount (some w.id) b ≡ ok b'
    → Settles w (record w { status = WithdrawalStatus.success }) b.wallets b'.wallets
unfolding held paid get_bucket set_bucket create_entry holds_funds is_success
complete-Settles w b b' o e =
    let (h, k) = open-funds w.status o in
    let (v, e₁) = complete_disbursement_lem w.tenant_id b b' w.amount (some w.id) e in
    rw (e₁) (
      put-Settles w _ w.tenant_id _ b.wallets refl refl refl refl
        (rw (h) (eq_of_parts _ _ (omega int_laws))) (rw (k) (eq_of_parts _ _ (omega int_laws))))

reverse-Settles :
    (w : Withdrawal) (b b' : Books)
    → w.status ≡ WithdrawalStatus.success
    → reverse_disbursement w.tenant_id w.amount (some w.id) b ≡ ok b'
    → Settles w (record w { status = WithdrawalStatus.reversed }) b.wallets b'.wallets
unfolding held paid get_bucket set_bucket create_entry holds_funds is_success
reverse-Settles w b b' s e =
    let (v, e₁) = reverse_disbursement_lem w.tenant_id b b' w.amount (some w.id) e in
    rw (e₁) (
      put-Settles w _ w.tenant_id _ b.wallets refl refl refl refl (rw (s) refl)
        (rw (s) (eq_of_parts _ _ (omega int_laws))))

pub Move-Settles : (v v' : Work) → Move v v' → Settles v.row v'.row v.books.wallets v'.books.wallets
unfolding transition holds_funds is_success
Move-Settles _ _ (edit v row audit a b c s) =
    edit-Settles v.row row v.books.wallets a b c (ap holds_funds s) (ap is_success s)
Move-Settles _ _ (advance v s actor g) =
    let (h, p) = Advance-funds v.row.status s g in
    edit-Settles v.row _ v.books.wallets refl refl refl h p
Move-Settles _ _ (send v actor s) =
    edit-Settles v.row _ v.books.wallets refl refl refl (rw (s) refl) (rw (s) refl)
Move-Settles _ _ (release v s actor books r e) = Release-Settles v.row s v.books books r e
Move-Settles _ _ (complete v actor books o e) = complete-Settles v.row v.books books o e
Move-Settles _ _ (Move.reverse v actor books s e) = reverse-Settles v.row v.books books s e

-- Any moves of a withdrawal settle with its tenant's wallet.
pub Moves-Settles :
    (v v' : Work) → Moves v v' → Settles v.row v'.row v.books.wallets v'.books.wallets
Moves-Settles v _ stay = edit-Settles v.row v.row v.books.wallets refl refl refl refl refl
Moves-Settles v v' (m ⨟ ms) =
    Settles-trans v.row _ v'.row v.books.wallets _ v'.books.wallets (Move-Settles v _ m)
      (Moves-Settles _ v' ms)
