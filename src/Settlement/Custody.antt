-- ===== src/Settlement/Custody.antt =====
-- Withdrawals of a tenant whose settlement mode is read from the table.
use infinity_radius.Prelude.{ℕ, Option, List, ◌≡◌, ap, ℤ, Text, Bool}
use infinity_radius.Core.Errors.{ok}
use infinity_radius.Core.Enums.{SettlementMode}
use infinity_radius.Payouts.Tables.{Env, Store}
use infinity_radius.Payouts.Service.{request_withdrawal, get_mode}
use infinity_radius.Payouts.Gates.{request_withdrawal-IsPermitted}
use infinity_radius.Settlement.{TenantSettlementConfig, get_active, mode_of, tenant_mode, set_mode}
use infinity_radius.Settlement.Versions.{set_mode-tenant_mode}

-- A request that succeeds is one of a tenant whose active row keeps its wallet on the platform.
pub request_withdrawal_needs_custody :
    (rows : List TenantSettlementConfig) (env : Env) (enabled : Option Bool) (t actor id : ℕ)
    (key : Text) (destination_id : ℕ) (amount : ℤ) (s s' : Store)
    → request_withdrawal env
        (mode_of (get_active t rows))
        enabled
        t
        actor
        id
        key
        destination_id
        amount
        s
      ≡ ok s'
    → tenant_mode t rows ≡ SettlementMode.platform_managed_wallet
unfolding tenant_mode get_mode
request_withdrawal_needs_custody rows env enabled t actor id key d amount s s' e =
    let p = request_withdrawal-IsPermitted env _ enabled t actor id key d amount s s' e in
    ap get_mode p.managed

-- Once a change has put a tenant in direct merchant settlement, a request of a withdrawal by that
-- tenant, with the mode read from the table that the change left, does not succeed.
pub direct_refuses :
    (rows rows' : List TenantSettlementConfig) (admin : Option ℕ) (version : ℕ) (env : Env)
    (enabled : Option Bool) (t actor id : ℕ) (key : Text) (destination_id : ℕ) (amount : ℤ)
    (s s' : Store)
    → set_mode t SettlementMode.direct_merchant_settlement admin version rows ≡ ok rows'
    → ¬ (
        request_withdrawal env
          (mode_of (get_active t rows'))
          enabled
          t
          actor
          id
          key
          destination_id
          amount
          s
        ≡ ok s')
direct_refuses rows rows' admin version env enabled t actor id key d amount s s' e r =
    let h =
      set_mode-tenant_mode t rows SettlementMode.direct_merchant_settlement admin version rows' e in
    let k = request_withdrawal_needs_custody rows' env enabled t actor id key d amount s s' r in cc
