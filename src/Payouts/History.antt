-- ===== src/Payouts/History.antt =====
-- The events of a withdrawal against its status: the graph of statuses, and what is final.
use infinity_radius.Payouts.Moves.{Move, stay}
use infinity_radius.Prelude.{
  refl, true, false, ◌∷◌, some, ℕ, List, ◌≡◌, Option, sym, ◌⊎◌, ◌∙◌, inl, inr, absurd_Bool,
}
use infinity_radius.Core.Enums.{WithdrawalStatus, is_final}
use infinity_radius.Payouts.Moves.{
  still_doubted, ambiguous_failed, reviewed, doubted, to_review, to_selcom, draft_cancelled,
  review_cancelled, review_rejected, approved_failed, processing_failed, Advance, Release, Moves,
  ◌⨟◌, edit, advance, send, release, complete,
}
use infinity_radius.Payouts.Transitions.{is_open, transition}
use infinity_radius.Payouts.Tables.{Work, WithdrawalEvent, Env}
use infinity_radius.Payouts.Review.{Method, run_method}
use infinity_radius.Core.Errors.{ok}
use infinity_radius.Payouts.Methods.{run_method-Moves}

-- The changes of status that there are.
pub data Edge : WithdrawalStatus → WithdrawalStatus → Type 0 where
  advanced : {a b : WithdrawalStatus} → Advance a b → Edge a b
  sent_out : Edge WithdrawalStatus.approved WithdrawalStatus.processing
  released : {a b : WithdrawalStatus} → Release a b → Edge a b
  processing_done : Edge WithdrawalStatus.processing WithdrawalStatus.success
  ambiguous_done : Edge WithdrawalStatus.ambiguous WithdrawalStatus.success
  undone : Edge WithdrawalStatus.success WithdrawalStatus.reversed

-- From one status and list of events to another, one event for each edge, for one withdrawal.
pub data Trail (id : ℕ)
    : WithdrawalStatus
      → List WithdrawalEvent
      → WithdrawalStatus
      → List WithdrawalEvent
      → Type 0 where
  here : {a : WithdrawalStatus} {es : List WithdrawalEvent} → Trail id a es a es
  along :
      {a b c : WithdrawalStatus} {es es' : List WithdrawalEvent} (actor : Option ℕ)
      → Edge a b
      → Trail id b
          (record { withdrawal_id = id; from_status = some a; to_status = b; actor_id = actor }
            ∷ es)
          c
          es'
      → Trail id a es c es'

open_done : (s : WithdrawalStatus) → is_open s ≡ true → Edge s WithdrawalStatus.success
unfolding is_open
open_done WithdrawalStatus.processing h = processing_done
open_done WithdrawalStatus.ambiguous h = ambiguous_done
open_done _ h = cc

-- The events that moves write are the trail of the status.
pub Moves-Trail :
    (v v' : Work) → Moves v v' → Trail v.row.id v.row.status v.events v'.row.status v'.events
unfolding transition
Moves-Trail v _ stay = here
Moves-Trail v v' (edit _ row audit a b c s ⨟ ms) = rw (← a, ← s) (Moves-Trail _ v' ms)
Moves-Trail v v' (advance _ s actor g ⨟ ms) = along actor (advanced g) (Moves-Trail _ v' ms)
Moves-Trail v v' (send _ actor s ⨟ ms) = along actor (rw (s) sent_out) (Moves-Trail _ v' ms)
Moves-Trail v v' (release _ s actor books r e ⨟ ms) = along actor (released r) (Moves-Trail _ v' ms)
Moves-Trail v v' (complete _ actor books o e ⨟ ms) =
    along actor (open_done v.row.status o) (Moves-Trail _ v' ms)
Moves-Trail v v' (Move.reverse _ actor books s e ⨟ ms) =
    along actor (rw (s) undone) (Moves-Trail _ v' ms)

Advance-start : (a b : WithdrawalStatus) → Advance a b → is_final a ≡ false
unfolding is_final
Advance-start _ _ to_review = refl
Advance-start _ _ to_selcom = refl
Advance-start _ _ reviewed = refl
Advance-start _ _ doubted = refl
Advance-start _ _ still_doubted = refl

Release-start : (a b : WithdrawalStatus) → Release a b → is_final a ≡ false
unfolding is_final
Release-start _ _ draft_cancelled = refl
Release-start _ _ review_cancelled = refl
Release-start _ _ review_rejected = refl
Release-start _ _ approved_failed = refl
Release-start _ _ processing_failed = refl
Release-start _ _ ambiguous_failed = refl

-- A final status is left by no edge, but for SUCCESS, which may be reversed.
final_cases :
    (a b : WithdrawalStatus)
    → Edge a b
    → is_final a ≡ true
    → (a ≡ WithdrawalStatus.success) × (b ≡ WithdrawalStatus.reversed)
unfolding is_final
final_cases _ _ undone h = (refl, refl)
final_cases _ _ sent_out h = cc
final_cases _ _ processing_done h = cc
final_cases _ _ ambiguous_done h = cc
final_cases a b (advanced g) h = absurd_Bool (sym h ∙ Advance-start a b g)
final_cases a b (released r) h = absurd_Bool (sym h ∙ Release-start a b r)

reversed_stays :
    (id : ℕ) (a b : WithdrawalStatus) (es es' : List WithdrawalEvent)
    → Trail id a es b es'
    → a ≡ WithdrawalStatus.reversed
    → b ≡ WithdrawalStatus.reversed
unfolding is_final
reversed_stays id a _ es _ here h = h
reversed_stays id a b es es' (along actor g t) h =
    let (p, q) = final_cases a _ g (rw (h)) in reversed_stays id _ b _ es' t q

-- On a trail from a final status the status stays, or SUCCESS becomes REVERSED.
pub final_Trail :
    (id : ℕ) (a b : WithdrawalStatus) (es es' : List WithdrawalEvent)
    → Trail id a es b es'
    → is_final a ≡ true
    → ((b ≡ a) × (es' ≡ es)) ⊎ ((a ≡ WithdrawalStatus.success) × (b ≡ WithdrawalStatus.reversed))
final_Trail id a _ es _ here h = inl (refl, refl)
final_Trail id a b es es' (along actor g t) h =
    let (p, q) = final_cases a _ g h in inr (p, reversed_stays id _ b _ es' t q)

-- A method that succeeds writes one event for each change of status, newest first, for this
-- withdrawal, each from the status before it, along the edges of the graph of statuses.
pub run_method-Trail :
    (env : Env) (m : Method) (v v' : Work)
    → run_method env m v ≡ ok v'
    → Trail v.row.id v.row.status v.events v'.row.status v'.events
run_method-Trail env m v v' e = Moves-Trail v v' (run_method-Moves env m v v' e)

-- On a withdrawal in a final status, a method that succeeds changes neither the status nor the
-- events, or it has reversed a withdrawal that had succeeded.
pub run_method-final :
    (env : Env) (m : Method) (v v' : Work)
    → is_final v.row.status ≡ true
    → run_method env m v ≡ ok v'
    → ((v'.row.status ≡ v.row.status) × (v'.events ≡ v.events))
      ⊎ ((v.row.status ≡ WithdrawalStatus.success) × (v'.row.status ≡ WithdrawalStatus.reversed))
run_method-final env m v v' h e = final_Trail v.row.id _ _ _ _ (run_method-Trail env m v v' e) h
