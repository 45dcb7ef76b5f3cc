-- ===== src/Payouts/Codes.antt =====
-- What a one-time code that is accepted has met.
use infinity_radius.Prelude.{
  refl, true, false, some, none, Text, Option, ◌≡◌, Bool, Bool-cases, ℕ, inl, arith, inr,
  eq_text→eq, ◌∙◌, ap, absurd_Bool, sym, if◌then◌else◌, is_empty, ◌<◌, subst, eq_text, is_blank,
  ◌≤◌, ◌∷◌,
}
use infinity_radius.Payouts.Tables.{Env, Withdrawal, Settings}
use infinity_radius.Payouts.TwoFactor.{
  verify_hash, verify_stored, verify, hash_code, is_exhausted, email_changed, otp_secret,
  otp_expired,
}
use infinity_radius.Core.Errors.{
  ok, >>=-eq-ok, Result, err, ok_inj, validation, verification_unavailable, or_raise,
}
use mathlib.Core.List.{[]}

-- The address that a code went to against the profile's.
pub data SameAddress : Option Text → Option Text → Type 0 where
  no_profile : (sent : Option Text) → SameAddress none sent
  unchanged : (address : Text) → SameAddress (some address) (some address)

blank_lem :
    (o : Option Text) (secret : Text)
    → (if is_blank o
        then err (validation verification_unavailable)
        else or_raise o (validation verification_unavailable))
      ≡ ok secret
    → (o ≡ some secret) × (is_empty secret ≡ false)
blank_lem none secret e = cc
blank_lem (some []) secret e = cc
blank_lem (some (c ∷ s)) secret e =
    let q = ok_inj e in (ap some (sym q), subst (λ x. is_empty x ≡ false) (sym q) refl)

expiry_lem :
    (now : ℕ) (o : Option ℕ) → otp_expired now o ≡ false → (at : ℕ) × (o ≡ some at) × (now ≤ at)
unfolding otp_expired
expiry_lem now none h = cc
expiry_lem now (some at) h = (at, refl, ground arith)

-- The code is the one that was sent, the challenge is still open, and the address is still the same.
pub record Accepts (env : Env) (code : Text) (w : Withdrawal) : Type 0 where
  pub secret : Text
  pub is_secret : env.settings.otp_verification_secret ≡ some secret
  pub has_secret : is_empty secret ≡ false
  pub hash_matches : w.two_factor_code_hash ≡ some (env.hmac secret w.id code)
  pub attempts_left : w.two_factor_attempts < env.settings.withdrawal_otp_max_attempts
  pub expires_at : ℕ
  pub has_expiry : w.two_factor_expires_at ≡ some expires_at
  pub not_past : env.now ≤ expires_at
  pub same_address : SameAddress env.profile_email w.otp_sent_to_email

-- What the settings say of the secret, and the row of the challenge.
otp_secret_lem :
    (c : Settings) (secret : Text)
    → otp_secret c ≡ ok secret
    → (c.otp_verification_secret ≡ some secret) × (is_empty secret ≡ false)
unfolding otp_secret
otp_secret_lem c secret e = blank_lem c.otp_verification_secret secret e

challenge_lem :
    (env : Env) (w : Withdrawal)
    → is_exhausted env w ≡ false
    → (w.two_factor_attempts < env.settings.withdrawal_otp_max_attempts)
      × ((at : ℕ) × (w.two_factor_expires_at ≡ some at) × (env.now ≤ at))
unfolding is_exhausted
challenge_lem env w h = (ground arith, expiry_lem env.now w.two_factor_expires_at (ground arith))

email_lem :
    (profile sent : Option Text) → email_changed profile sent ≡ false → SameAddress profile sent
unfolding email_changed
email_lem none sent h = no_profile sent
email_lem (some a) none h = cc
email_lem (some a) (some b) h =
    subst (λ x. SameAddress (some a) (some x)) (sym (eq_text→eq b a (ground arith))) (unchanged a)

matched :
    (b : Bool) (x y w : Withdrawal)
    → ◌≡◌ {A = Result (Bool × Withdrawal)} (ok (if b then (true, x) else (false, y))) (ok (true, w))
    → (b ≡ true) × (w ≡ x)
matched true x y w e = (refl, ap (λ (p : Bool × Withdrawal). p.1) (ok_inj e))
matched false x y w e = cc

verify_hash-true :
    (env : Env) (code stored : Text) (w w' : Withdrawal)
    → verify_hash env code stored w ≡ ok (true, w')
    → (secret : Text) × (otp_secret env.settings ≡ ok secret)
      × (stored ≡ env.hmac secret w.id code)
      × (w' ≡ record w { two_factor_confirmed_at = some env.now })
unfolding verify_hash hash_code
verify_hash-true env code stored w w' e =
    let (candidate, e₁, e₂) = >>=-eq-ok (hash_code env w.id code) _ e in
    let (secret, known, e₃) = >>=-eq-ok (otp_secret env.settings) _ e₁ in
    let (same, q) = matched (eq_text candidate stored) _ _ w' e₂ in
    (secret, known, sym (eq_text→eq candidate stored same) ∙ ok_inj e₃, q)

accepted : Result (Bool × Withdrawal) → Bool
accepted (ok (b, w)) = b
accepted (err e) = false

not_accepted {ℓ} :
    {A : Type ℓ} {w w' : Withdrawal}
    → ◌≡◌ {A = Result (Bool × Withdrawal)} (ok (false, w)) (ok (true, w'))
    → A
unfolding accepted
not_accepted h = absurd_Bool (sym (ap accepted h))

verify_stored-Accepts :
    (env : Env) (code : Text) (stored : Option Text) (w w' : Withdrawal)
    → w.two_factor_code_hash ≡ stored
    → verify_stored env code stored w ≡ ok (true, w')
    → Accepts env code w × (w' ≡ record w { two_factor_confirmed_at = some env.now })
unfolding verify_stored
verify_stored-Accepts env code none w w' p h = not_accepted h
verify_stored-Accepts env code (some stored) w w' p h = elim (Bool-cases (is_exhausted env w)) [
  | inl x ↦ not_accepted (rw (x) at h)
  | inr x ↦ elim (Bool-cases (email_changed env.profile_email w.otp_sent_to_email)) [
    | inl y ↦ not_accepted (rw (x, y) at h)
    | inr y ↦
        let (secret, known, q, c) = verify_hash-true env code stored w w' (rw (x, y) at h) in
        let (is, has) = otp_secret_lem env.settings secret known in
        let (left, (at, expiry, soon)) = challenge_lem env w x in
        (
          record {
            secret = secret;
            is_secret = is;
            has_secret = has;
            hash_matches = p ∙ ap some q;
            attempts_left = left;
            expires_at = at;
            has_expiry = expiry;
            not_past = soon;
            same_address = email_lem env.profile_email w.otp_sent_to_email y;
          },
          c,
        )
  ]
]

-- If the check of a code says yes, a secret that is not empty is configured, and the stored hash
-- is the keyed hash under it of that code for this withdrawal; fewer attempts were made than the
-- settings allow; the challenge has an expiry that is not past; the address that the code went to
-- is the profile's, if there is one; and the row has the time of confirmation and is else
-- unchanged.
pub verify-Accepts :
    (env : Env) (code : Text) (w w' : Withdrawal)
    → verify env code w ≡ ok (true, w')
    → Accepts env code w × (w' ≡ record w { two_factor_confirmed_at = some env.now })
unfolding verify
verify-Accepts env code w w' e = verify_stored-Accepts env code w.two_factor_code_hash w w' refl e
