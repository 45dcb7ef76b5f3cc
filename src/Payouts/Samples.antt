-- ===== src/Payouts/Samples.antt =====
-- Settings, answers and rows to run the methods on.
use infinity_radius.Prelude.{true, false, text, some, none, pos, [], ◌∷◌, ◌++◌}
use infinity_radius.Core.Enums.{WithdrawalStatus}
use infinity_radius.Payouts.Tables.{
  Settings, TransactionData, TransactionResponse, Env, Withdrawal, Work, answered, transport_error,
  Store,
}
use infinity_radius.Payouts.Transitions.{ProviderResult}
use infinity_radius.Core.Errors.{Result, ok, err}
use infinity_radius.Wallet.Tables.{new_wallet}

abbrev pub settings : Settings
settings = record {
  selcom_disbursement_enabled = true;
  is_production = false;
  selcom_production_payouts_enabled = false;
  selcom_withdrawal_approval_threshold_tzs = pos 100000;
  withdrawal_min_amount_tzs = some (pos 100);
  withdrawal_max_single_amount_tzs = none;
  withdrawal_daily_limit_tzs = some (pos 1000);
  withdrawal_daily_count_limit = some 2;
  withdrawal_otp_max_attempts = 3;
  withdrawal_otp_ttl_seconds = 600;
  withdrawal_otp_max_sends = 3;
  withdrawal_otp_resend_cooldown_seconds = 60;
  otp_verification_secret = some (text "k");
  super_admin_review_email = none;
}

abbrev pub transfer_data : TransactionData
transfer_data = record {
  trans_id = some (text "W7");
  status = none;
  amount = some (pos 1015);
  currency = some (text "TZS");
  selcom_receipt = some (text "R1");
}

abbrev pub completed_answer : TransactionResponse
completed_answer = record { resultcode = some (text " 000"); data_part = some transfer_data }

abbrev pub env : Env
env = record {
  now = 90000;
  settings = settings;
  hmac = λ secret. λ id. λ code. secret ++ id ∷ code;
  drawn_code = text "1234";
  profile_email = some (text "a@b");
  email_verified = true;
  email_sent = true;
  destinations =
      (
        5,
        record {
          id = 5;
          tenant_id = 1;
          destination_code = some (text "MPESA");
          account_number = some (text "255");
        },
      )
      ∷ [];
  account_lookup =
      answered (some (record { account_name = some (text "Asha"); total_charges = some (pos 15) }));
  transaction_process = answered completed_answer;
  transaction_query = transport_error;
}

abbrev pub row_at : WithdrawalStatus → Withdrawal
row_at status = record {
  id = 7;
  tenant_id = 1;
  destination_id = 5;
  amount = pos 1000;
  currency = text "TZS";
  status = status;
  created_at = 89000;
  idempotency_key = text "W7";
  provider_reference = none;
  submitted_at = none;
  completed_at = none;
  approval_required = false;
  verified_recipient_name = none;
  provider_charge = some (pos 15);
  provider_result_code = none;
  requested_by = 9;
  reviewed_by = none;
  reviewed_at = none;
  two_factor_code_hash = some (text "k" ++ 7 ∷ text "1234");
  two_factor_expires_at = some 90100;
  two_factor_attempts = 1;
  two_factor_confirmed_at = none;
  otp_last_sent_at = some 89500;
  otp_send_count = 1;
  otp_sent_to_email = some (text "a@b");
}

-- The row with the tables of a tenant whose reserved and disbursed columns hold its amount.
abbrev pub work_at : WithdrawalStatus → Work
work_at status = record {
  row = row_at status;
  books = record {
    wallets =
        (1, record new_wallet { reserved_balance_tzs = pos 1000; total_disbursed_tzs = pos 1000 })
        ∷ [];
    ledger = [];
    settlements = [];
    commission_rates = [];
  };
  events = [];
  audit = [];
  submissions = [];
}

abbrev pub completed_result : ProviderResult
completed_result = record {
  resultcode = some (text " 000");
  amount = some (pos 1015);
  currency = some (text "TZS");
  trans_id = some (text "W7");
  reference = text "R1";
}

abbrev pub work_or : WithdrawalStatus → Result Work → Work
work_or status (ok v) = v
work_or status (err e) = work_at status

-- A tenant with 5000 cents to spend.
abbrev pub start : Store
start = record {
  withdrawals = [];
  books = record {
    wallets = (1, record new_wallet { available_balance_tzs = pos 5000 }) ∷ [];
    ledger = [];
    settlements = [];
    commission_rates = [];
  };
  events = [];
  audit = [];
  submissions = [];
}
