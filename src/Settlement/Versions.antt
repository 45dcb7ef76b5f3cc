-- ===== src/Settlement/Versions.antt =====
-- The versions of a tenant's settlement mode.
use infinity_radius.Prelude.{
  ℕ, ◌+◌, ◌≤◌, true, false, not, Option, none, some, List, [], ◌∷◌, ◌≡◌, refl, sym, subst, ◌==◌,
  arith, Bool-cases, inl, inr, ==→eq,
}
use infinity_radius.Core.Errors.{ok, ok_inj, guarded, already_in_mode}
use infinity_radius.Core.Enums.{SettlementMode}
use infinity_radius.Payouts.Service.{get_mode}
use infinity_radius.Billing.Counting.{one_if}
use infinity_radius.Settlement.{
  TenantSettlementConfig, is_current, get_active, tenant_mode, retire, retire_current, is_in_mode,
  set_mode,
}

unfoldable pub current_rows : ℕ → List TenantSettlementConfig → ℕ
unfolding one_if
current_rows t [] = 0
current_rows t (c ∷ rows) = one_if (is_current t c) + current_rows t rows

-- What a row says, less whether it is active.
pub record Version : Type 0 where
  pub id : ℕ
  pub tenant_id : ℕ
  pub mode : SettlementMode
  pub created_by : Option ℕ

unfoldable pub history : List TenantSettlementConfig → List Version
history [] = []
history (c ∷ rows) =
    record { id = c.id; tenant_id = c.tenant_id; mode = c.mode; created_by = c.created_by }
    ∷ history rows

retire-current_rows :
    (t : ℕ) (rows : List TenantSettlementConfig)
    → current_rows t rows ≤ 1
    → current_rows t (retire t rows) ≡ 0
unfolding current_rows retire is_current one_if
retire-current_rows t [] h = refl
retire-current_rows t (c ∷ rows) h = ground (arith, retire-current_rows t rows)

none-current_rows :
    (t : ℕ) (rows : List TenantSettlementConfig)
    → get_active t rows ≡ none
    → current_rows t rows ≡ 0
unfolding current_rows get_active one_if
none-current_rows t [] h = refl
none-current_rows t (c ∷ rows) h = ground (arith, none-current_rows t rows)

current_rows-other :
    (t u : ℕ) (rows : List TenantSettlementConfig)
    → (t == u) ≡ false
    → current_rows u (retire t rows) ≡ current_rows u rows
unfolding current_rows retire is_current one_if
current_rows-other t u [] n = refl
current_rows-other t u (c ∷ rows) n = ground (arith, current_rows-other t u rows n)

get_active-other :
    (t u : ℕ) (rows : List TenantSettlementConfig)
    → (t == u) ≡ false
    → get_active u (retire t rows) ≡ get_active u rows
unfolding get_active retire is_current
get_active-other t u [] n = refl
get_active-other t u (c ∷ rows) n = ground (arith, get_active-other t u rows n)

history-retire :
    (t : ℕ) (rows : List TenantSettlementConfig) → history (retire t rows) ≡ history rows
unfolding history retire
history-retire t [] = refl
history-retire t (c ∷ rows) = ground (arith, history-retire t rows)

module _ (t : ℕ) (rows : List TenantSettlementConfig) where
  retired-current_rows :
      (o : Option TenantSettlementConfig)
      → get_active t rows ≡ o
      → current_rows t rows ≤ 1
      → current_rows t (retire_current t o rows) ≡ 0
  unfolding retire_current
  retired-current_rows none e h = none-current_rows t rows e
  retired-current_rows (some c) e h = retire-current_rows t rows h

  module _ (u : ℕ) (n : (t == u) ≡ false) where
    retired-other :
        (o : Option TenantSettlementConfig)
        → (current_rows u (retire_current t o rows) ≡ current_rows u rows)
          × (get_active u (retire_current t o rows) ≡ get_active u rows)
    unfolding retire_current
    retired-other none = (refl, refl)
    retired-other (some c) = (current_rows-other t u rows n, get_active-other t u rows n)

  retired-history :
      (o : Option TenantSettlementConfig) → history (retire_current t o rows) ≡ history rows
  unfolding retire_current
  retired-history none = refl
  retired-history (some c) = history-retire t rows

  abbrev switched : SettlementMode → Option ℕ → ℕ → List TenantSettlementConfig
  switched mode actor id =
      record { id = id; tenant_id = t; mode = mode; is_active = true; created_by = actor }
      ∷ retire_current t (get_active t rows) rows

  set_mode_lem :
      (mode : SettlementMode) (actor : Option ℕ) (id : ℕ) (rows' : List TenantSettlementConfig)
      → set_mode t mode actor id rows ≡ ok rows'
      → rows' ≡ switched mode actor id
  unfolding set_mode
  set_mode_lem mode actor id rows' e =
      ok_inj (guarded (not (is_in_mode (get_active t rows) mode)) already_in_mode _ e).1

  switched-tenant_mode :
      (mode : SettlementMode) (actor : Option ℕ) (id : ℕ)
      → tenant_mode t (switched mode actor id) ≡ mode
  unfolding tenant_mode get_active is_current get_mode
  switched-tenant_mode mode actor id = ground arith

  pub set_mode-tenant_mode :
      (mode : SettlementMode) (actor : Option ℕ) (id : ℕ) (rows' : List TenantSettlementConfig)
      → set_mode t mode actor id rows ≡ ok rows'
      → tenant_mode t rows' ≡ mode
  set_mode-tenant_mode mode actor id rows' e =
      rw (set_mode_lem mode actor id rows' e) (switched-tenant_mode mode actor id)

-- A change of a tenant's mode that does not raise puts it in that mode, leaves every other
-- tenant's mode as it was, and adds one version to the history, in which nothing else changes.
pub set_mode-history :
    (t u : ℕ) (mode : SettlementMode) (actor : Option ℕ) (id : ℕ)
    (rows rows' : List TenantSettlementConfig)
    → (t == u) ≡ false
    → set_mode t mode actor id rows ≡ ok rows'
    → (tenant_mode t rows' ≡ mode)
      × (tenant_mode u rows' ≡ tenant_mode u rows)
      × (history rows'
          ≡ record { id = id; tenant_id = t; mode = mode; created_by = actor } ∷ history rows)
unfolding tenant_mode get_active is_current history get_mode
set_mode-history t u mode actor id rows rows' n e = rw (set_mode_lem t rows mode actor id rows' e) (
  ground arith,
  ground (arith, (retired-other t rows u n (get_active t rows)).1),
  rw (retired-history t rows (get_active t rows)) refl,
)

-- Committed changes, one after the other.
pub data Changes : List TenantSettlementConfig → List TenantSettlementConfig → Type 0 where
  done : {rows : List TenantSettlementConfig} → Changes rows rows
  changed :
      (t : ℕ) (mode : SettlementMode) (actor : Option ℕ) (id : ℕ)
      {rows rows' rows'' : List TenantSettlementConfig}
      → set_mode t mode actor id rows ≡ ok rows'
      → Changes rows' rows''
      → Changes rows rows''

switched-current_rows :
    (t u : ℕ) (mode : SettlementMode) (actor : Option ℕ) (id : ℕ)
    (rows : List TenantSettlementConfig)
    → ((v : ℕ) → current_rows v rows ≤ 1)
    → current_rows u (switched t rows mode actor id) ≤ 1
unfolding current_rows is_current one_if
switched-current_rows t u mode actor id rows h =
    let o = get_active t rows in
    elim (Bool-cases (t == u)) [
      | inl y ↦ ground (
        arith,
        subst (λ v. current_rows v (retire_current t o rows) ≡ 0) (==→eq t u y)
            (retired-current_rows t rows o refl (h t)),
      )
      | inr n ↦ ground (arith, (retired-other t rows u n o).0, h u)
    ]

-- From a table with at most one active row for each tenant, any committed changes of mode, one
-- after the other, leave at most one.
pub Changes-current_rows :
    (rows rows' : List TenantSettlementConfig) (t : ℕ)
    → Changes rows rows'
    → ((u : ℕ) → current_rows u rows ≤ 1)
    → current_rows t rows' ≤ 1
Changes-current_rows rows rows' t done h = h t
Changes-current_rows rows rows'' t (changed u mode actor id {rows' = rows'} e c) h =
    Changes-current_rows rows' rows'' t c (λ v.
      subst (λ x. current_rows v x ≤ 1) (sym (set_mode_lem u rows mode actor id rows' e))
        (switched-current_rows u v mode actor id rows h))
