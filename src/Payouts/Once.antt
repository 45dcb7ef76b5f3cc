-- ===== src/Payouts/Once.antt =====
-- How often the transfer of a withdrawal is sent to Selcom, over requests that are committed.
use infinity_radius.Prelude.{
  refl, true, false, ◌∷◌, some, [], Bool, ℕ, List, ◌≡◌, if◌then◌else◌, Option, lookup, ◌≤◌, ◌==◌,
  ◌+◌, Bool-cases, inl, ap, arith, sym, inr, ◌∙◌, lookup-insert, ==→eq, Text, ℤ, absurd_Bool,
}
use infinity_radius.Core.Enums.{WithdrawalStatus, SettlementMode}
use infinity_radius.Payouts.Moves.{
  Move, still_doubted, ambiguous_failed, reviewed, doubted, to_review, to_selcom, draft_cancelled,
  review_cancelled, review_rejected, approved_failed, processing_failed, Advance, Release, edit,
  advance, send, release, complete, Moves, ◌⨟◌, stay,
}
use infinity_radius.Payouts.Tables.{Withdrawal, Store, Work, save, open_work, Env, find}
use infinity_radius.Payouts.Transitions.{transition}
use mathlib.Core.Option.{none}
use infinity_radius.Payouts.Funds.{Move-Settles, Moves-Settles}
use infinity_radius.Payouts.Review.{on_row, Method, run_method}
use infinity_radius.Payouts.Service.{requested_work, new_withdrawal, request_withdrawal}
use infinity_radius.Core.Errors.{ok, >>=-eq-ok, ok_inj}
use infinity_radius.Payouts.Requests.{request_withdrawal_lem}
use infinity_radius.Payouts.Backing.{find_lem}
use infinity_radius.Payouts.Methods.{run_method-Moves}

-- A status before the transfer is sent.
unfoldable pub is_unsent : WithdrawalStatus → Bool
is_unsent WithdrawalStatus.draft = true
is_unsent WithdrawalStatus.pending_approval = true
is_unsent WithdrawalStatus.approved = true
is_unsent _ = false

unfoldable pub count : ℕ → List ℕ → ℕ
count n [] = 0
count n (k ∷ ks) = if k == n then count n ks + 1 else count n ks

-- How often a transfer was sent for a row, with the one that may still be sent.
unfoldable pub transfers : Withdrawal → List ℕ → ℕ
unfolding is_unsent count
transfers w submissions =
    if is_unsent w.status then count w.id submissions + 1 else count w.id submissions

-- With no row there was no transfer, and with one it is under its id, and was sent once at most.
unfoldable pub OnceRow : ℕ → List ℕ → Option Withdrawal → Type 0
OnceRow k submissions none = count k submissions ≡ 0
OnceRow k submissions (some w) = (w.id ≡ k) × (transfers w submissions ≤ 1)

abbrev pub IsOnce : ℕ → Store → Type 0
IsOnce k s = OnceRow k s.submissions (lookup k s.withdrawals)

Advance-unsent : (a b : WithdrawalStatus) → Advance a b → is_unsent b ≡ true → is_unsent a ≡ true
unfolding is_unsent
Advance-unsent _ _ to_review h = refl
Advance-unsent _ _ to_selcom h = refl
Advance-unsent _ _ reviewed h = refl
Advance-unsent _ _ doubted h = cc
Advance-unsent _ _ still_doubted h = cc

Release-unsent : (a b : WithdrawalStatus) → Release a b → is_unsent b ≡ false
unfolding is_unsent
Release-unsent _ _ draft_cancelled = refl
Release-unsent _ _ review_cancelled = refl
Release-unsent _ _ review_rejected = refl
Release-unsent _ _ approved_failed = refl
Release-unsent _ _ processing_failed = refl
Release-unsent _ _ ambiguous_failed = refl

-- A change of status that sends nothing, and does not go back before the transfer.
kept_transfers :
    (w w' : Withdrawal) (xs : List ℕ)
    → w'.id ≡ w.id
    → (is_unsent w'.status ≡ true → is_unsent w.status ≡ true)
    → transfers w' xs ≤ transfers w xs
unfolding transfers
kept_transfers w w' xs e h = rw (e) (elim (Bool-cases (is_unsent w'.status)) [
  | inl y ↦ rw (y, h y) (omega arith)
  | inr n ↦ rw (n) (grind arith)
])

transfers_sent :
    (w : Withdrawal) (xs : List ℕ)
    → w.status ≡ WithdrawalStatus.approved
    → transfers (record w { status = WithdrawalStatus.processing }) (w.id ∷ xs) ≤ transfers w xs
unfolding transfers is_unsent count
transfers_sent w xs s = rw (s) (ground arith)

Move-transfers :
    (v v' : Work) → Move v v' → transfers v'.row v'.submissions ≤ transfers v.row v.submissions
unfolding transition is_unsent
Move-transfers _ _ (edit v row audit a b c s) =
    kept_transfers v.row row v.submissions a (λ h. ap is_unsent (sym s) ∙ h)
Move-transfers _ _ (advance v s actor g) =
    kept_transfers v.row _ v.submissions refl (Advance-unsent v.row.status s g)
Move-transfers _ _ (send v actor s) = transfers_sent v.row v.submissions s
Move-transfers _ _ (release v s actor books r e) =
    kept_transfers v.row _ v.submissions refl (λ h. absurd_Bool (sym h ∙ Release-unsent _ _ r))
Move-transfers _ _ (complete v actor books o e) =
    kept_transfers v.row _ v.submissions refl (λ h. absurd_Bool (sym h))
Move-transfers _ _ (Move.reverse v actor books s e) =
    kept_transfers v.row _ v.submissions refl (λ h. absurd_Bool (sym h))

Move-others :
    (k : ℕ) (v v' : Work)
    → Move v v'
    → (v.row.id == k) ≡ false
    → count k v'.submissions ≡ count k v.submissions
unfolding transition count
Move-others k _ _ (edit v row audit a b c s) h = refl
Move-others k _ _ (advance v s actor g) h = refl
Move-others k _ _ (send v actor s) h = rw (h) refl
Move-others k _ _ (release v s actor books r e) h = refl
Move-others k _ _ (complete v actor books o e) h = refl
Move-others k _ _ (Move.reverse v actor books s e) h = refl

pub Moves-transfers :
    (v v' : Work) → Moves v v' → transfers v'.row v'.submissions ≤ transfers v.row v.submissions
Moves-transfers v _ stay = omega arith
Moves-transfers v v' (m ⨟ ms) = omega (arith, Move-transfers v _ m, Moves-transfers _ v' ms)

Moves-others :
    (k : ℕ) (v v' : Work)
    → Moves v v'
    → (v.row.id == k) ≡ false
    → count k v'.submissions ≡ count k v.submissions
Moves-others k v _ stay h = refl
Moves-others k v v' (m ⨟ ms) h =
    Moves-others k _ v' ms (ap (λ x. x == k) (Move-Settles v _ m).same_id ∙ h)
    ∙ Move-others k v _ m h

row-OnceRow :
    (k : ℕ) (xs : List ℕ) (o : Option Withdrawal) (w : Withdrawal)
    → o ≡ some w
    → OnceRow k xs o
    → (w.id ≡ k) × (transfers w xs ≤ 1)
unfolding OnceRow
row-OnceRow k xs o w e h = rw e at h

other-OnceRow :
    (k : ℕ) (xs ys : List ℕ) (o : Option Withdrawal)
    → count k ys ≡ count k xs
    → OnceRow k xs o
    → OnceRow k ys o
unfolding OnceRow transfers
other-OnceRow k xs ys none e h = e ∙ h
other-OnceRow k xs ys (some w) e (p, h) = (p, rw (p, e) (rw (p) at h))

no_row : (k : ℕ) (xs : List ℕ) (o : Option Withdrawal) → o ≡ none → OnceRow k xs o → count k xs ≡ 0
unfolding OnceRow
no_row k xs o e h = rw e at h

new_transfers :
    (w : Withdrawal) (xs : List ℕ)
    → w.status ≡ WithdrawalStatus.draft
    → count w.id xs ≡ 0
    → transfers w xs ≤ 1
unfolding transfers is_unsent
new_transfers w xs d h = rw (d) (omega arith)

-- A row that moves, saved at its key.
saved-IsOnce :
    (k id : ℕ) (v v' : Work) (s : Store)
    → v.row.id ≡ id
    → v.submissions ≡ s.submissions
    → transfers v.row v.submissions ≤ 1
    → IsOnce k s
    → Moves v v'
    → IsOnce k (save id v' s)
unfolding save OnceRow
saved-IsOnce k id v v' s e x t h ms = elim (Bool-cases (id == k)) [
  | inl same ↦
      rw (lookup-insert, same)
        (
          (Moves-Settles v v' ms).same_id ∙ e ∙ ==→eq id k same,
          omega (arith, Moves-transfers v v' ms),
        )
  | inr other ↦
      rw (lookup-insert, other)
        (other-OnceRow k s.submissions v'.submissions (lookup k s.withdrawals)
          (Moves-others k v v' ms (ap (λ y. y == k) e ∙ other) ∙ ap (count k) x) h)
]

-- A method on a row keeps every withdrawal's transfer at one.
pub on_row-IsOnce :
    (env : Env) (m : Method) (tenant : Option ℕ) (id k : ℕ) (s s' : Store)
    → ((j : ℕ) → IsOnce j s)
    → on_row tenant id (run_method env m) s ≡ ok s'
    → IsOnce k s'
unfolding on_row open_work
on_row-IsOnce env m tenant id k s s' h e =
    let (w, e₁, e₂) = >>=-eq-ok (find tenant id s) _ e in
    let (v, e₃, e₄) = >>=-eq-ok (run_method env m (open_work w s)) _ e₂ in
    let (p, q) = row-OnceRow id s.submissions _ w (find_lem tenant id s w e₁) (h id) in
    rw (ok_inj e₄) (
      saved-IsOnce k id (open_work w s) v s p refl q (h k)
        (run_method-Moves env m (open_work w s) v e₃))

pub request_withdrawal-IsOnce :
    (env : Env) (mode : Option SettlementMode) (enabled : Option Bool) (t actor id : ℕ) (key : Text)
    (destination_id : ℕ) (amount : ℤ) (k : ℕ) (s s' : Store)
    → ((j : ℕ) → IsOnce j s)
    → lookup id s.withdrawals ≡ none
    → request_withdrawal env mode enabled t actor id key destination_id amount s ≡ ok s'
    → IsOnce k s'
unfolding requested_work open_work new_withdrawal
request_withdrawal-IsOnce env mode enabled t actor id key destination_id amount k s s' h l e =
    let (books, v, r, m, p) =
      request_withdrawal_lem env mode enabled t actor id key destination_id amount s s' e in
    rw (p) (
      saved-IsOnce k id _ v s refl refl
        (new_transfers _ s.submissions refl (no_row id s.submissions _ l (h id))) (h k) m)
