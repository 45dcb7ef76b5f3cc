-- ===== src/Core/Money.antt =====
-- apps/api/app/core/money.py: rounding to cents. An exact decimal value is a fraction of a cent,
-- `n / d` with `d` a power of ten; a rounded value is an integer of cents.
use infinity_radius.Prelude.{ℕ, suc, ◌+◌, ◌*◌, ◌/◌, ℤ, pos, negsuc, sub_ℕ}

-- ROUND_HALF_UP of the magnitude.
unfoldable pub round_half_up : ℕ → ℕ → ℕ
round_half_up n d = (2 * n + d) / (2 * d)

-- `value.quantize(Decimal("0.01"), rounding=ROUND_HALF_UP)`: half a cent is rounded away from zero.
unfoldable pub quantize_tzs : ℤ → ℕ → ℤ
unfolding round_half_up
quantize_tzs (pos n) d = pos (round_half_up n d)
quantize_tzs (negsuc n) d = sub_ℕ 0 (round_half_up (suc n) d)
