-- ===== src/Payouts/Tables.antt =====
-- Rows of apps/api/app/models/finance.py that a withdrawal is made of, the settings that the service
-- reads, and what Selcom's client may answer. Times are seconds since the epoch; texts that are only
-- stored for people to read (reasons, messages, notes) are left out.
use infinity_radius.Prelude.{
  ℕ, Bool, Option, none, some, List, ◌∷◌, ◌==◌, if◌then◌else◌, ℤ, Dict, lookup, insert, Text,
}
use infinity_radius.Core.Enums.{WithdrawalStatus}
use infinity_radius.Wallet.Tables.{Books}
use infinity_radius.Core.Errors.{◌>>=◌, Result, or_raise, not_found, ok, err}

pub record Withdrawal : Type 0 where
  pub id : ℕ
  pub tenant_id : ℕ
  pub destination_id : ℕ
  pub amount : ℤ
  pub currency : Text
  pub status : WithdrawalStatus
  pub created_at : ℕ
  pub idempotency_key : Text
  pub provider_reference : Option Text
  pub submitted_at : Option ℕ
  pub completed_at : Option ℕ
  pub approval_required : Bool
  pub verified_recipient_name : Option Text
  pub provider_charge : Option ℤ
  pub provider_result_code : Option Text
  pub requested_by : ℕ
  pub reviewed_by : Option ℕ
  pub reviewed_at : Option ℕ
  pub two_factor_code_hash : Option Text
  pub two_factor_expires_at : Option ℕ
  pub two_factor_attempts : ℕ
  pub two_factor_confirmed_at : Option ℕ
  pub otp_last_sent_at : Option ℕ
  pub otp_send_count : ℕ
  pub otp_sent_to_email : Option Text

pub record WithdrawalEvent : Type 0 where
  pub withdrawal_id : ℕ
  pub from_status : Option WithdrawalStatus
  pub to_status : WithdrawalStatus
  pub actor_id : Option ℕ

pub record WithdrawalDestination : Type 0 where
  pub id : ℕ
  pub tenant_id : ℕ
  pub destination_code : Option Text
  pub account_number : Option Text

-- The actions of the audit rows that the service writes.
pub data AuditAction : Type 0 where
  requested otp_requested otp_sent otp_resent otp_verified : AuditAction
  otp_locked otp_expired otp_failed super_admin_email_sent super_admin_email_failed : AuditAction
  reached : WithdrawalStatus → AuditAction

pub record AuditEntry : Type 0 where
  pub action : AuditAction
  pub target_id : ℕ
  pub actor_id : Option ℕ

-- The settings of apps/api/app/core/config.py that the service reads.
pub record Settings : Type 0 where
  pub selcom_disbursement_enabled : Bool
  pub is_production : Bool
  pub selcom_production_payouts_enabled : Bool
  pub selcom_withdrawal_approval_threshold_tzs : ℤ
  pub withdrawal_min_amount_tzs : Option ℤ
  pub withdrawal_max_single_amount_tzs : Option ℤ
  pub withdrawal_daily_limit_tzs : Option ℤ
  pub withdrawal_daily_count_limit : Option ℕ
  pub withdrawal_otp_max_attempts : ℕ
  pub withdrawal_otp_ttl_seconds : ℕ
  pub withdrawal_otp_max_sends : ℕ
  pub withdrawal_otp_resend_cooldown_seconds : ℕ
  pub otp_verification_secret : Option Text
  pub super_admin_review_email : Option Text

-- What a call of Selcom's client ends in: the errors of selcom_business/errors.py, a body that came
-- back and does not validate (an exception that the service does not catch), or a response.
pub data Answer (A : Type 0) : Type 0 where
  transport_error api_error not_configured unreadable : Answer A
  answered : A → Answer A

pub record AccountLookupData : Type 0 where
  pub account_name : Option Text
  pub total_charges : Option ℤ

pub record TransactionData : Type 0 where
  pub trans_id : Option Text
  pub status : Option Text
  pub amount : Option ℤ
  pub currency : Option Text
  pub selcom_receipt : Option Text

pub record TransactionResponse : Type 0 where
  pub resultcode : Option Text
  pub data_part : Option TransactionData

-- What a call reads of the world outside: the clock, the settings, the keyed hash, the code that is
-- drawn, the profile and its verification, the destination book, the mail service, and Selcom's answers.
pub record Env : Type 0 where
  pub now : ℕ
  pub settings : Settings
  pub hmac : Text → ℕ → Text → Text
  pub drawn_code : Text
  pub profile_email : Option Text
  pub email_verified : Bool
  pub email_sent : Bool
  pub destinations : Dict WithdrawalDestination
  pub account_lookup : Answer (Option AccountLookupData)
  pub transaction_process : Answer TransactionResponse
  pub transaction_query : Answer TransactionResponse

-- `destination_repo.get_by_id(tenant_id=t, id=id)`
unfoldable pub own_destination : ℕ → Option WithdrawalDestination → Option WithdrawalDestination
own_destination t none = none
own_destination t (some d) = if d.tenant_id == t then some d else none

unfoldable pub get_destination : ℕ → ℕ → Env → Option WithdrawalDestination
unfolding own_destination
get_destination t id env = own_destination t (lookup id env.destinations)

-- A withdrawal that a request has locked, with the tables that the request writes beside it. The
-- last list has the withdrawals for which a transfer was sent to Selcom, newest first.
pub record Work : Type 0 where
  pub row : Withdrawal
  pub books : Books
  pub events : List WithdrawalEvent
  pub audit : List AuditEntry
  pub submissions : List ℕ

pub record Store : Type 0 where
  pub withdrawals : Dict Withdrawal
  pub books : Books
  pub events : List WithdrawalEvent
  pub audit : List AuditEntry
  pub submissions : List ℕ

-- `get_by_id_for_update`, with or without a tenant.
unfoldable pub find : Option ℕ → ℕ → Store → Result Withdrawal
find none id s = or_raise (lookup id s.withdrawals) not_found
find (some t) id s = do
  w ← or_raise (lookup id s.withdrawals) not_found
  if w.tenant_id == t then ok w else err not_found

-- The row taken out of the store, and written back at its key.
unfoldable pub open_work : Withdrawal → Store → Work
open_work w s = record {
  row = w;
  books = s.books;
  events = s.events;
  audit = s.audit;
  submissions = s.submissions;
}

unfoldable pub save : ℕ → Work → Store → Store
save id v s = record {
  withdrawals = insert id v.row s.withdrawals;
  books = v.books;
  events = v.events;
  audit = v.audit;
  submissions = v.submissions;
}

abbrev pub write_audit : AuditAction → Option ℕ → Work → Work
write_audit action actor v = record v {
  audit = record { action = action; target_id = v.row.id; actor_id = actor } ∷ v.audit;
}
