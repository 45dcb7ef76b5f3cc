-- ===== src/Settlement/Tests.antt =====
-- The theorems of the settlement mode at concrete inputs.
use infinity_radius.Prelude.{ℕ, some, List, [], ◌∷◌, ◌≡◌, ◌≤◌, refl, arith, true, false, text, pos}
use infinity_radius.Core.Errors.{ok}
use infinity_radius.Core.Enums.{SettlementMode}
use infinity_radius.Payouts.Samples.{env, start}
use infinity_radius.Payouts.Service.{request_withdrawal}
use infinity_radius.Settlement.Custody.{direct_refuses}
use infinity_radius.Settlement.{get_active, mode_of, TenantSettlementConfig, tenant_mode, set_mode}
use infinity_radius.Settlement.Versions.{
  current_rows, history, set_mode-history, Changes, done, changed, Changes-current_rows,
}

abbrev managed : List TenantSettlementConfig
managed =
    record {
      id = 5;
      tenant_id = 1;
      mode = SettlementMode.platform_managed_wallet;
      is_active = true;
      created_by = some 3;
    }
    ∷ []

abbrev direct_again : List TenantSettlementConfig
direct_again =
    record {
      id = 6;
      tenant_id = 1;
      mode = SettlementMode.direct_merchant_settlement;
      is_active = true;
      created_by = some 4;
    }
    ∷ record {
      id = 5;
      tenant_id = 1;
      mode = SettlementMode.platform_managed_wallet;
      is_active = false;
      created_by = some 3;
    }
    ∷ []

switched_on : set_mode 1 SettlementMode.platform_managed_wallet (some 3) 5 [] ≡ ok managed
unfolding set_mode
switched_on = refl

switched_off :
    set_mode 1 SettlementMode.direct_merchant_settlement (some 4) 6 managed ≡ ok direct_again
unfolding set_mode
switched_off = refl

both-Changes : Changes [] direct_again
both-Changes =
    changed 1 SettlementMode.platform_managed_wallet (some 3) 5 switched_on
      (changed 1 SettlementMode.direct_merchant_settlement (some 4) 6 switched_off done)

none_current : (t : ℕ) → current_rows t [] ≤ 1
unfolding current_rows
none_current t = omega arith

set_mode-history_example :
    (tenant_mode 1 direct_again ≡ SettlementMode.direct_merchant_settlement)
    × (tenant_mode 2 direct_again ≡ tenant_mode 2 managed)
    × (history direct_again
        ≡ record {
          id = 6;
          tenant_id = 1;
          mode = SettlementMode.direct_merchant_settlement;
          created_by = some 4;
        }
          ∷ history managed)
set_mode-history_example =
    set_mode-history 1 2 SettlementMode.direct_merchant_settlement (some 4) 6 managed direct_again
      refl switched_off

Changes-current_rows_example : current_rows 1 direct_again ≤ 1
Changes-current_rows_example = Changes-current_rows [] direct_again 1 both-Changes none_current

direct_refuses_example : ¬ (
    request_withdrawal env
      (mode_of (get_active 1 direct_again))
      (some true)
      1
      9
      7
      (text "W7")
      5
      (pos 1000)
      start
    ≡ ok start)
direct_refuses_example =
    direct_refuses managed direct_again (some 4) 6 env (some true) 1 9 7 (text "W7") 5 (pos 1000)
      start start switched_off
