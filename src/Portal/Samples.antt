-- ===== src/Portal/Samples.antt =====
-- Tables, settings and answers to run the portal on: a purchase, its reconciliation by the other
-- flow's provider, and its activation.
use infinity_radius.Prelude.{true, text, some, none, pos, [], ◌∷◌}
use infinity_radius.Core.Enums.{
  PackageStatus, PackageActivationType, TransactionType, ActivationStatus,
}
use infinity_radius.Core.Errors.{Result, ok, err}
use infinity_radius.Collections.Tables.{Checkout, Payments, OrderStatusData, answered}
use infinity_radius.Collections.Provider.{reconcile}
use infinity_radius.Billing.Tables.{Billing}
use infinity_radius.Portal.Tables.{CaptiveSession, Portal}
use infinity_radius.Portal.Payment.{Drawn, InitiateResult, initiate_payment}
use infinity_radius.Portal.Activation.{run_activation}

abbrev pub order : OrderStatusData
order = record {
  order_id = none;
  amount = some (pos 100000);
  payment_status = some (text " completed");
  transid = some (text "DIK1");
  channel = some (text "MPESA");
  reference = none;
  currency = none;
}

abbrev pub env : Checkout
env = record {
  now = 1000;
  selcom_collection_enabled = true;
  selcom_collection_production_enabled = true;
  is_configured = true;
  selcom_collection_pending_review_minutes = pos 30;
  drawn_hex = text "ab";
  drawn_transid = text "txn-1";
  create_order = answered tt;
  wallet_payment = answered (record { resultcode = some (text "111"); message = none });
  order_status = answered (record { resultcode = some (text "000"); items = order ∷ [] });
}

abbrev pub drawn : Drawn
drawn = record { customer_id = 4; customer_number = 1; subscription_id = 5; transaction_id = 10 }

abbrev pub session : CaptiveSession
session = record {
  id = 3;
  tenant_id = 1;
  router_id = 7;
  mac_address = none;
  consumed_at = none;
  expires_at = 1900;
}

abbrev pub billing : Billing
billing = record {
  packages =
      (
        2,
        record {
          id = 2;
          tenant_id = 1;
          price_tzs = pos 100000;
          duration_minutes = some 60;
          activation_type = PackageActivationType.immediate;
          status = PackageStatus.active;
        },
      )
      ∷ [];
  customers = [];
  subscriptions = [];
  batches = [];
  vouchers = [];
  audit = [];
}

abbrev pub payments : Payments
payments = record {
  transactions = [];
  books = record { wallets = []; ledger = []; settlements = []; commission_rates = (1, 500) ∷ [] };
  webhooks = [];
  audit = [];
  prompts = [];
}

abbrev pub start : Portal
start = record {
  payments = payments;
  billing = billing;
  routers = (7, 1) ∷ [];
  sessions = (3, session) ∷ [];
  grants = [];
}

-- The tables after a call that is known not to raise.
abbrev pub portal_of {ℓ} : {A : Type ℓ} → Result (A × Portal) → Portal
portal_of (ok (a, s)) = s
portal_of (err e) = start

abbrev pub payments_of : Result Payments → Payments
payments_of (ok p) = p
payments_of (err e) = payments

abbrev pub bought_result : Result (InitiateResult × Portal)
bought_result = initiate_payment env drawn true (some 3) 2 (text "0712 345-678") start

abbrev pub bought_state : Portal
bought_state = portal_of bought_result

abbrev pub paid_result : Result Payments
paid_result = reconcile env TransactionType.collection 10 bought_state.payments

abbrev pub paid_state : Portal
paid_state = record bought_state { payments = payments_of paid_result }

abbrev pub active_result : Result (ActivationStatus × Portal)
active_result = run_activation 1001 10 true paid_state

abbrev pub active_state : Portal
active_state = portal_of active_result
