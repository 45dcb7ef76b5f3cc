-- ===== src/Portal/Tables.antt =====
-- What the portal works on: the payments, the subscriptions, the routers and the sessions.
use infinity_radius.Prelude.{ℕ, Option, List, Dict, Text}
use infinity_radius.Collections.Tables.{Payments}
use infinity_radius.Billing.Tables.{Billing}

pub record CaptiveSession : Type 0 where
  pub id : ℕ
  pub tenant_id : ℕ
  pub router_id : ℕ
  pub mac_address : Option Text
  pub consumed_at : Option ℕ
  pub expires_at : ℕ

-- The tables; the tenant of each router; and the transactions for which access was provisioned,
-- newest first, which the RADIUS server keeps and no rollback takes back.
pub record Portal : Type 0 where
  pub payments : Payments
  pub billing : Billing
  pub routers : Dict ℕ
  pub sessions : Dict CaptiveSession
  pub grants : List ℕ
