-- ===== src/Billing/Tests.antt =====
-- The theorems of vouchers at concrete inputs.
use infinity_radius.Prelude.{
  ℕ, text, some, none, pos, [], ◌∷◌, ◌≡◌, ◌≤◌, refl, lookup, Option, arith, Text, if◌then◌else◌,
  insert, leb, eq_text,
}
use infinity_radius.Core.Enums.{PackageStatus, PackageActivationType}
use infinity_radius.Core.Errors.{Result, ok, err, conflict}
use infinity_radius.Billing.Tables.{Billing}
use infinity_radius.Billing.Vouchers.{
  Draw, generate_batch, redeem, redeem_row, find_code, new_batch, new_voucher,
}
use infinity_radius.Billing.Generation.{holders, BatchEnds, generate_batch_returns}
use infinity_radius.Billing.Redemption.{IsUsed, redeem_once}
use infinity_radius.Billing.Counting.{count_rows}
use infinity_radius.Customers.{new_customer, self_made}

abbrev shop : Billing
shop = record {
  packages =
      (
        2,
        record {
          id = 2;
          tenant_id = 1;
          price_tzs = pos 100000;
          duration_minutes = some 60;
          activation_type = PackageActivationType.immediate;
          status = PackageStatus.active;
        },
      )
      ∷ [];
  customers = (4, new_customer 4 1 1 (self_made (text "255712345678"))) ∷ [];
  subscriptions = [];
  batches = [];
  vouchers = [];
  audit = [];
}

-- Every second draw repeats the code before it.
abbrev draws : ℕ → Draw
draws n =
    if leb 2 n then record { id = 22; body = text "B" } else record { id = 20; body = text "A" }

abbrev billing_of : Option (Result Billing) → Billing
billing_of (some (ok b)) = b
billing_of _ = shop

abbrev generated_shop : Billing
generated_shop = billing_of (generate_batch 40 1 9 11 2 2 (some (text "X")) draws shop)

abbrev stocked : Billing
stocked = record shop {
  batches = (11, new_batch 1 9 11 2 1 none) ∷ [];
  vouchers = (20, new_voucher 1 11 20 (text "XA")) ∷ [];
}

abbrev redeemed : Billing
redeemed = billing_of (some (redeem 1000 1 9 5 (text "XA") 4 stocked))

no_vouchers : (code : Text) → holders 1 code shop.vouchers ≤ 1
unfolding count_rows
no_vouchers code = omega arith

generate_batch_returns_example :
    (r : Result Billing) × (generate_batch 40 1 9 11 2 2 (some (text "X")) draws shop ≡ some r)
    × BatchEnds 1 (new_batch 1 9 11 2 2 (some (text "X"))) r
generate_batch_returns_example =
    generate_batch_returns 40 1 9 11 2 2 (some (text "X")) draws shop (omega arith) no_vouchers

generated_ok : generate_batch 40 1 9 11 2 2 (some (text "X")) draws shop ≡ some (ok generated_shop)
unfolding generate_batch lookup insert eq_text
generated_ok = refl

redeemed_ok : redeem 1000 1 9 5 (text "XA") 4 stocked ≡ ok redeemed
unfolding redeem lookup insert eq_text
redeemed_ok = refl

redeem_once_example :
    (voucher : ℕ) × (find_code 1 (text "XA") stocked.vouchers ≡ some voucher)
    × IsUsed voucher 4 5 redeemed
    × (redeem_row 1001 1 9 6 voucher 4 redeemed ≡ err conflict)
redeem_once_example = redeem_once 1000 1 9 5 4 (text "XA") stocked redeemed 1001 1 9 6 4 redeemed_ok
