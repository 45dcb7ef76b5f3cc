-- ===== src/Settlement.antt =====
-- apps/api/app/services/settlement_config.py: who keeps the money of a tenant, as versions.
pub mod Versions
pub mod Custody
mod Tests
use infinity_radius.Prelude.{
  ℕ, Bool, true, false, ◌&&◌, not, Option, none, some, List, [], ◌∷◌, ◌==◌, if◌then◌else◌,
}
use infinity_radius.Core.Errors.{Result, ok, err, ◌>>=◌, ◌>>◌, require, already_in_mode}
use infinity_radius.Core.Enums.{SettlementMode, eq_mode}
use infinity_radius.Payouts.Service.{get_mode}

pub record TenantSettlementConfig : Type 0 where
  pub id : ℕ
  pub tenant_id : ℕ
  pub mode : SettlementMode
  pub is_active : Bool
  pub created_by : Option ℕ

unfoldable pub is_current : ℕ → TenantSettlementConfig → Bool
is_current t c = c.tenant_id == t && c.is_active

-- `get_active_for_tenant`: the table has a unique index on the active rows of a tenant
-- (uq_tenant_settlement_config_active), so that any order gives the same row.
unfoldable pub get_active : ℕ → List TenantSettlementConfig → Option TenantSettlementConfig
unfolding is_current
get_active t [] = none
get_active t (c ∷ rows) = if is_current t c then some c else get_active t rows

abbrev pub mode_of : Option TenantSettlementConfig → Option SettlementMode
mode_of none = none
mode_of (some c) = some c.mode

-- `SettlementConfigService.get_mode`, on the row that is active.
unfoldable pub tenant_mode : ℕ → List TenantSettlementConfig → SettlementMode
unfolding get_active get_mode
tenant_mode t rows = get_mode (mode_of (get_active t rows))

-- `self.repo.update(current, is_active=False)`
unfoldable pub retire : ℕ → List TenantSettlementConfig → List TenantSettlementConfig
unfolding is_current
retire t [] = []
retire t (c ∷ rows) =
    let rest = retire t rows in
    if is_current t c then record c { is_active = false } ∷ rows else c ∷ rest

unfoldable pub retire_current :
    ℕ → Option TenantSettlementConfig → List TenantSettlementConfig → List TenantSettlementConfig
unfolding retire
retire_current t none rows = rows
retire_current t (some c) rows = retire t rows

-- `SettlementMode(current.mode) is mode`
unfoldable pub is_in_mode : Option TenantSettlementConfig → SettlementMode → Bool
unfolding eq_mode
is_in_mode none mode = false
is_in_mode (some c) mode = eq_mode c.mode mode

-- `SettlementConfigService.set_mode`, with the newest row first; its audit row is left out.
unfoldable pub set_mode :
    ℕ
    → SettlementMode
    → Option ℕ
    → ℕ
    → List TenantSettlementConfig
    → Result (List TenantSettlementConfig)
unfolding get_active is_in_mode retire_current
set_mode t mode actor id rows = do
  let current = get_active t rows
  require (not (is_in_mode current mode)) already_in_mode
  let row : TenantSettlementConfig = record {
    id = id;
    tenant_id = t;
    mode = mode;
    is_active = true;
    created_by = actor;
  }
  ok (row ∷ retire_current t current rows)
