-- ===== src/Payouts/Limits.antt =====
-- The limits of `_enforce_withdrawal_limits`, as inequalities on what the tenant asked for today.
use infinity_radius.Prelude.{
  ℕ, ◌+◌, ◌-◌, ◌%◌, ◌≤◌, Bool, true, false, ◌&&◌, not, Option, none, some, [], ◌∷◌, ◌≡◌, refl, sym,
  ◌==◌, leb, arith, if◌then◌else◌, ℤ, pos, ◌+ℤ◌, ◌≤ℤ◌, int_laws, Dict, eq_of_parts, subst,
}
use infinity_radius.Core.Enums.{WithdrawalStatus}
use infinity_radius.Core.Errors.{ok, guarded, Message, require}
use infinity_radius.Billing.Counting.{count_rows, one_if}
use infinity_radius.Payouts.Tables.{Env, Withdrawal}
use infinity_radius.Payouts.Backing.{total, share}
use infinity_radius.Payouts.Service.{
  counts_toward_limit, is_todays, daily_totals, is_below, is_above, is_over_count,
  enforce_withdrawal_limits,
}

-- A bound that is set is kept.
pub data AtLeast : Option ℤ → ℤ → Type 0 where
  no_minimum : (a : ℤ) → AtLeast none a
  minimum : (limit a : ℤ) → limit ≤ℤ a → AtLeast (some limit) a

pub data AtMost : Option ℤ → ℤ → Type 0 where
  no_maximum : (a : ℤ) → AtMost none a
  maximum : (limit a : ℤ) → a ≤ℤ limit → AtMost (some limit) a

pub data AtMostTimes : Option ℕ → ℕ → Type 0 where
  no_count : (n : ℕ) → AtMostTimes none n
  counted : (limit n : ℕ) → n ≤ limit → AtMostTimes (some limit) n

-- A withdrawal that is under way or was paid, reversed or not.
unfoldable pub is_live : WithdrawalStatus → Bool
is_live WithdrawalStatus.draft = true
is_live WithdrawalStatus.pending_approval = true
is_live WithdrawalStatus.approved = true
is_live WithdrawalStatus.processing = true
is_live WithdrawalStatus.ambiguous = true
is_live WithdrawalStatus.success = true
is_live WithdrawalStatus.reversed = true
is_live _ = false

-- What a tenant asked for since a time: the sum of the amounts, and how often.
abbrev pub asked : ℕ → Withdrawal → ℤ
asked since w = if leb since w.created_at && is_live w.status then w.amount else pos 0

abbrev pub is_asked : ℕ → ℕ → Withdrawal → Bool
is_asked t since w = w.tenant_id == t && (leb since w.created_at && is_live w.status)

counts_lem : (s : WithdrawalStatus) → counts_toward_limit s ≡ is_live s
unfolding counts_toward_limit is_live
counts_lem WithdrawalStatus.draft = refl
counts_lem WithdrawalStatus.pending_approval = refl
counts_lem WithdrawalStatus.approved = refl
counts_lem WithdrawalStatus.processing = refl
counts_lem WithdrawalStatus.ambiguous = refl
counts_lem WithdrawalStatus.success = refl
counts_lem WithdrawalStatus.failed = refl
counts_lem WithdrawalStatus.rejected = refl
counts_lem WithdrawalStatus.cancelled = refl
counts_lem WithdrawalStatus.reversed = refl

is_todays_lem : (t since : ℕ) (w : Withdrawal) → is_todays t since w ≡ is_asked t since w
unfolding is_todays
is_todays_lem t since w = rw (counts_lem w.status) refl

add_none : (x : ℤ) → x ≡ pos 0 +ℤ x
add_none x = eq_of_parts _ _ (omega int_laws)

-- A row against the sums of the rows after it.
abbrev with_row : Bool → Withdrawal → ℤ → ℕ → ℤ × ℕ
with_row b w x n = if b then (w.amount +ℤ x, n + 1) else (x, n)

asked_sum :
    (t since : ℕ) (w : Withdrawal) (x : ℤ) (n : ℕ)
    → (with_row (is_asked t since w) w x n).0 ≡ share (asked since) t w +ℤ x
asked_sum t since w x n = ground (arith, add_none x)

asked_count : (b : Bool) (w : Withdrawal) (x : ℤ) (n : ℕ) → (with_row b w x n).1 ≡ one_if b + n
unfolding one_if
asked_count true w x n = omega arith
asked_count false w x n = omega arith

require_lem : (b : Bool) (m : Message) → require b m ≡ ok tt → b ≡ true
require_lem true m e = refl
require_lem false m e = cc

pub daily_totals_lem :
    (t since : ℕ) (d : Dict Withdrawal) → (daily_totals t since d).0 ≡ total (asked since) t d
unfolding daily_totals total
daily_totals_lem t since [] = refl
daily_totals_lem t since ((k, w) ∷ d) =
    rw (is_todays_lem t since w, sym (daily_totals_lem t since d))
      (asked_sum t since w (daily_totals t since d).0 (daily_totals t since d).1)

pub daily_count_lem :
    (t since : ℕ) (d : Dict Withdrawal)
    → (daily_totals t since d).1 ≡ count_rows (is_asked t since) d
unfolding daily_totals count_rows one_if
daily_count_lem t since [] = refl
daily_count_lem t since ((k, w) ∷ d) =
    rw (is_todays_lem t since w, sym (daily_count_lem t since d))
      (asked_count (is_asked t since w) w (daily_totals t since d).0 (daily_totals t since d).1)

at_least_lem : (o : Option ℤ) (a : ℤ) → not (is_below a o) ≡ true → AtLeast o a
unfolding is_below
at_least_lem none a h = no_minimum a
at_least_lem (some l) a h = minimum l a (grind int_laws)

at_most_lem : (o : Option ℤ) (a : ℤ) → not (is_above a o) ≡ true → AtMost o a
unfolding is_above
at_most_lem none a h = no_maximum a
at_most_lem (some l) a h = maximum l a (grind int_laws)

count_lem : (o : Option ℕ) (n : ℕ) → not (is_over_count n o) ≡ true → AtMostTimes o n
unfolding is_over_count
count_lem none n h = no_count n
count_lem (some l) n h = counted l n (ground arith)

-- A request within the limits of the settings, with the day from midnight UTC.
pub record WithinLimits (env : Env) (t : ℕ) (amount : ℤ) (d : Dict Withdrawal) : Type 0 where
  pub over_minimum : AtLeast env.settings.withdrawal_min_amount_tzs amount
  pub under_maximum : AtMost env.settings.withdrawal_max_single_amount_tzs amount
  pub under_daily :
      AtMost env.settings.withdrawal_daily_limit_tzs
        (total (asked (env.now - env.now % 86400)) t d +ℤ amount)
  pub under_count :
      AtMostTimes env.settings.withdrawal_daily_count_limit
        (count_rows (is_asked t (env.now - env.now % 86400)) d + 1)

pub enforce_withdrawal_limits-WithinLimits :
    (env : Env) (t : ℕ) (amount : ℤ) (d : Dict Withdrawal)
    → enforce_withdrawal_limits env t amount d ≡ ok tt
    → WithinLimits env t amount d
unfolding enforce_withdrawal_limits
enforce_withdrawal_limits-WithinLimits env t amount d e =
    let since = env.now - env.now % 86400 in
    let (h₁, e₁) = guarded (not (is_below amount env.settings.withdrawal_min_amount_tzs)) _ _ e in
    let (h₂, e₂) =
      guarded (not (is_above amount env.settings.withdrawal_max_single_amount_tzs)) _ _ e₁ in
    let (h₃, e₃) =
      guarded
        (not
          (is_above ((daily_totals t since d).0 +ℤ amount) env.settings.withdrawal_daily_limit_tzs))
        _ _ e₂ in
    let h₄ =
      require_lem
        (not (
          is_over_count ((daily_totals t since d).1 + 1) env.settings.withdrawal_daily_count_limit))
        _ e₃ in
    record {
      over_minimum = at_least_lem _ _ h₁;
      under_maximum = at_most_lem _ _ h₂;
      under_daily =
          subst (λ x. AtMost env.settings.withdrawal_daily_limit_tzs (x +ℤ amount))
            (daily_totals_lem t since d) (at_most_lem _ _ h₃);
      under_count =
          subst (λ n. AtMostTimes env.settings.withdrawal_daily_count_limit (n + 1))
            (daily_count_lem t since d) (count_lem _ _ h₄);
    }
