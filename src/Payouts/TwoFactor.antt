-- ===== src/Payouts/TwoFactor.antt =====
-- apps/api/app/services/two_factor.py: the one-time code of a withdrawal. The keyed hash is outside
-- the program and comes with the environment.
use infinity_radius.Prelude.{
  ℕ, ◌+◌, Bool, true, false, ◌||◌, not, Option, none, some, ltb, leb, if◌then◌else◌, Text, eq_text,
  is_blank,
}
use infinity_radius.Payouts.Tables.{Settings, Env, Withdrawal}
use infinity_radius.Core.Errors.{
  ◌>>=◌, Result, err, ok, validation, verification_unavailable, or_raise,
}

-- `_otp_secret`
unfoldable pub otp_secret : Settings → Result Text
otp_secret c =
    if is_blank c.otp_verification_secret
    then err (validation verification_unavailable)
    else or_raise c.otp_verification_secret (validation verification_unavailable)

unfoldable pub hash_code : Env → ℕ → Text → Result Text
unfolding otp_secret
hash_code env withdrawal_id code = do
  secret ← otp_secret env.settings
  ok (env.hmac secret withdrawal_id code)

-- `issue_challenge`: a new hash and expiry, and the attempts start again.
unfoldable pub issue_challenge : Env → Text → Withdrawal → Result Withdrawal
unfolding hash_code
issue_challenge env sent_to_email w = do
  hash ← hash_code env w.id env.drawn_code
  ok (record w {
    two_factor_code_hash = some hash;
    two_factor_expires_at = some (env.now + env.settings.withdrawal_otp_ttl_seconds);
    two_factor_attempts = 0;
    two_factor_confirmed_at = none;
    otp_sent_to_email = some sent_to_email;
  })

-- `_otp_expired`
unfoldable pub otp_expired : ℕ → Option ℕ → Bool
otp_expired now none = true
otp_expired now (some expires_at) = ltb expires_at now

unfoldable pub is_exhausted : Env → Withdrawal → Bool
unfolding otp_expired
is_exhausted env w =
    leb env.settings.withdrawal_otp_max_attempts w.two_factor_attempts
    || otp_expired env.now w.two_factor_expires_at

-- `current_email is not None and withdrawal.otp_sent_to_email != current_email`
unfoldable pub email_changed : Option Text → Option Text → Bool
email_changed none sent = false
email_changed (some current) none = true
email_changed (some current) (some sent) = not (eq_text sent current)

-- `verify`: whether the code is right, and the row with the attempt or the confirmation in it.
unfoldable pub verify_hash : Env → Text → Text → Withdrawal → Result (Bool × Withdrawal)
unfolding hash_code
verify_hash env code stored w = do
  candidate ← hash_code env w.id code
  ok (
      if eq_text candidate stored
      then (true, record w { two_factor_confirmed_at = some env.now })
      else (false, record w { two_factor_attempts = w.two_factor_attempts + 1 }))

unfoldable pub verify_stored : Env → Text → Option Text → Withdrawal → Result (Bool × Withdrawal)
unfolding verify_hash
verify_stored env code none w = ok (false, w)
verify_stored env code (some stored) w =
    if is_exhausted env w
    then ok (false, w)
    else if email_changed env.profile_email w.otp_sent_to_email
    then ok (false, w)
    else verify_hash env code stored w

unfoldable pub verify : Env → Text → Withdrawal → Result (Bool × Withdrawal)
unfolding verify_stored
verify env code w = verify_stored env code w.two_factor_code_hash w
