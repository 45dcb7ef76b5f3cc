-- ===== src/Payouts/Answers.antt =====
-- When an answer of Selcom makes a withdrawal a success, and when a withdrawal is left as it is.
use infinity_radius.Prelude.{
  refl, true, false, text, some, none, Option, ◌≡◌, ℤ, Text, ◌⊎◌, eq_text→eq, pos, ◌≤ℤ◌, arith,
  Bool-cases, ℕ, ◌+ℤ◌, eqb_ℤ, eqb_ℤ→eq, inl, inr, Option-cases, sym, ap, ◌∙◌, none_some,
  absurd_Bool,
}
use infinity_radius.Core.Enums.{WithdrawalStatus, ProviderAmountMatch}
use infinity_radius.Payouts.Transitions.{
  ProviderResult, apply_provider_result, apply_outcome, apply_success, is_open, flag_ambiguous,
  fail_withdrawal, transition,
}
use infinity_radius.Payouts.Provider.{
  differs, charge_explains, amount_match, interpret_resultcode, match_provider_amount,
  stripped_code, SelcomResultOutcome,
}
use infinity_radius.Payouts.Tables.{Withdrawal, Work}
use infinity_radius.Payouts.Review.{is_success}
use infinity_radius.Core.Errors.{ok, >>=-eq-ok, ok_inj}
use infinity_radius.Wallet.Operations.{release_reservation}
use infinity_radius.Payouts.Refinement.{transition-status}

-- What the answer has to say of the amount: nothing, the amount itself, or the amount with a charge
-- that was stored and is not negative.
unfoldable pub AmountFits : Option ℤ → Withdrawal → Type 0
AmountFits none w = Unit {0}
AmountFits (some a) w =
    (a ≡ w.amount) ⊎ ((c : ℤ) × (w.provider_charge ≡ some c) × (pos 0 ≤ℤ c) × (a ≡ w.amount +ℤ c))

-- What the answer says of a text that is stored is nothing, or the same.
unfoldable pub TextFits : Option Text → Text → Type 0
TextFits none expected = Unit {0}
TextFits (some s) expected = s ≡ expected

pub record Confirms (r : ProviderResult) (w : Withdrawal) : Type 0 where
  pub code_done : stripped_code r.resultcode ≡ text "000"
  pub trans_id_fits : TextFits r.trans_id w.idempotency_key
  pub currency_fits : TextFits r.currency w.currency
  pub amount_fits : AmountFits r.amount w

differs_lem : (o : Option Text) (t : Text) → differs o t ≡ false → TextFits o t
unfolding differs TextFits
differs_lem none t h = tt
differs_lem (some s) t h = eq_text→eq s t (ground arith)

charge_lem :
    (a x : ℤ) (charge : Option ℤ)
    → charge_explains a x charge ≡ true
    → (c : ℤ) × (charge ≡ some c) × (pos 0 ≤ℤ c) × (a ≡ x +ℤ c)
unfolding charge_explains
charge_lem a x none h = cc
charge_lem a x (some c) h = (c, refl, ground arith, ground (arith, eqb_ℤ→eq a (x +ℤ c)))

amount_lem :
    (o : Option ℤ) (w : Withdrawal) (m : ProviderAmountMatch)
    → amount_match o w.amount w.provider_charge ≡ some m
    → AmountFits o w
unfolding amount_match match_provider_amount AmountFits
amount_lem none w m h = tt
amount_lem (some a) w m h = elim (Bool-cases (eqb_ℤ a w.amount)) [
  | inl same ↦ inl (eqb_ℤ→eq a w.amount same)
  | inr other ↦ elim (Bool-cases (charge_explains a w.amount w.provider_charge)) [
    | inl c ↦ inr (charge_lem a w.amount w.provider_charge c)
    | inr c ↦ none_some (rw (other, c) at h)
  ]
]

interpret_success :
    (c : Option Text)
    → interpret_resultcode c ≡ SelcomResultOutcome.success
    → stripped_code c ≡ text "000"
unfolding interpret_resultcode
interpret_success c h = ground (arith, eq_text→eq (stripped_code c) (text "000"))

not_success {ℓ} :
    {A : Type ℓ} (x : WithdrawalStatus) (u v' : Work)
    → is_success x ≡ false
    → v'.row.status ≡ WithdrawalStatus.success
    → u.row.status ≡ x
    → ok u ≡ ok v'
    → A
unfolding is_success
not_success x u v' n s k e =
    absurd_Bool
      (sym (ap is_success s) ∙ ap (λ w. is_success w.row.status) (ok_inj e) ∙ ap is_success k ∙ n)

module _ (now : ℕ) (r : ProviderResult) (actor : Option ℕ) (v v' : Work)
    (n : is_success v.row.status ≡ false) (s : v'.row.status ≡ WithdrawalStatus.success) where
  not_flagged {ℓ} : {A : Type ℓ} (code : Text) → ok (flag_ambiguous code actor v) ≡ ok v' → A
  unfolding flag_ambiguous transition is_success
  not_flagged code e =
      not_success WithdrawalStatus.ambiguous (flag_ambiguous code actor v) v' refl s refl e

  apply_success_lem :
      apply_success now r actor v ≡ ok v'
      → TextFits r.trans_id v.row.idempotency_key
        × TextFits r.currency v.row.currency
        × AmountFits r.amount v.row
  unfolding apply_success
  apply_success_lem e = elim (Bool-cases (differs r.trans_id v.row.idempotency_key)) [
    | inl d ↦ not_flagged _ (rw (d) at e)
    | inr i ↦ elim (Bool-cases (differs r.currency v.row.currency)) [
      | inl d ↦ not_flagged _ (rw (i, d) at e)
      | inr j ↦ elim (Option-cases (amount_match r.amount v.row.amount v.row.provider_charge)) [
        | inl d ↦ not_flagged _ (rw (i, j, d) at e)
        | inr (m, k) ↦ (differs_lem _ _ i, differs_lem _ _ j, amount_lem r.amount v.row m k)
      ]
    ]
  ]

  not_failed {ℓ} : {A : Type ℓ} (u : Work) → fail_withdrawal now actor u ≡ ok v' → A
  unfolding fail_withdrawal is_success
  not_failed u e =
      let (books, _, e₁) =
        >>=-eq-ok (release_reservation u.row.tenant_id u.row.amount u.books) _ e in
      let u' = record u { row = record u.row { completed_at = some now }; books = books } in
      not_success WithdrawalStatus.failed (transition WithdrawalStatus.failed actor u') v' refl s
        (transition-status WithdrawalStatus.failed actor u') e₁

  apply_outcome_lem :
      (o : SelcomResultOutcome)
      → apply_outcome o now r actor v ≡ ok v'
      → (o ≡ SelcomResultOutcome.success)
        × TextFits r.trans_id v.row.idempotency_key
        × TextFits r.currency v.row.currency
        × AmountFits r.amount v.row
  unfolding apply_outcome
  apply_outcome_lem SelcomResultOutcome.success e =
      let (i, j, k) = apply_success_lem e in (refl, i, j, k)
  apply_outcome_lem SelcomResultOutcome.inprogress e =
      not_success v.row.status
        (record v {
          row = record v.row { provider_result_code = some (stripped_code r.resultcode) };
        })
        v' n s refl e
  apply_outcome_lem SelcomResultOutcome.ambiguous e = not_flagged _ e
  apply_outcome_lem SelcomResultOutcome.fail e = not_failed _ e

-- On a withdrawal that is not a SUCCESS yet, an answer makes it one only if it was PROCESSING or
-- AMBIGUOUS, the code without its spaces is 000, and each of key, currency and amount is either
-- not in the answer or fits: the withdrawal's own key and currency, and its amount, or its amount
-- with the stored charge, if that is not negative.
pub apply_provider_result-success :
    (now : ℕ) (r : ProviderResult) (actor : Option ℕ) (v v' : Work)
    → is_success v.row.status ≡ false
    → apply_provider_result now r actor v ≡ ok v'
    → v'.row.status ≡ WithdrawalStatus.success
    → (is_open v.row.status ≡ true) × Confirms r v.row
unfolding apply_provider_result is_success
apply_provider_result-success now r actor v v' n e s = elim (Bool-cases (is_open v.row.status)) [
  | inl o ↦
      let (p, i, j, k) =
        apply_outcome_lem now r actor v v' n s (interpret_resultcode r.resultcode) (rw (o) at e) in
      (
        o,
        record {
          code_done = interpret_success r.resultcode p;
          trans_id_fits = i;
          currency_fits = j;
          amount_fits = k;
        },
      )
  | inr c ↦ not_success v.row.status v v' n s refl (rw (c) at e)
]
