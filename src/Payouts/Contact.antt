-- ===== src/Payouts/Contact.antt =====
-- What a request has sent to Selcom by the time that it ends, also if it raises: the tables are rolled
-- back then, and a transfer is not.
use infinity_radius.Prelude.{ℕ, Option, List}
use infinity_radius.Core.Errors.{Result, ok, err}
use infinity_radius.Payouts.Tables.{
  Env, Work, Store, Answer, TransactionResponse, Withdrawal, transport_error, api_error,
  not_configured, unreadable, answered, find, open_work,
}
use infinity_radius.Payouts.Review.{Method, run_method}

-- The same call with its answers lost; a client that is not configured sends nothing.
abbrev pub lost_answer : Answer TransactionResponse → Answer TransactionResponse
lost_answer not_configured = not_configured
lost_answer transport_error = transport_error
lost_answer api_error = transport_error
lost_answer unreadable = transport_error
lost_answer (answered p) = transport_error

abbrev pub lost : Env → Env
lost env = record env {
  transaction_process = lost_answer env.transaction_process;
  transaction_query = transport_error;
}

-- The transfers of a run that ended; one that raised says nothing of its own.
abbrev pub logged : Result Work → List ℕ → List ℕ
logged (ok v) before = v.submissions
logged (err e) before = before

-- All that a method does before the answer to a transfer is the same whatever the answer is, so what
-- it sends is what it sends where every answer is lost: nothing raises after the sending then.
unfoldable pub contacted : Env → Method → Work → List ℕ
unfolding run_method
contacted env m v = logged (run_method (lost env) m v) v.submissions

abbrev pub contacted_row : Env → Method → Store → Result Withdrawal → List ℕ
contacted_row env m s (err e) = s.submissions
contacted_row env m s (ok w) = contacted env m (open_work w s)

unfoldable pub sent_by : Env → Method → Option ℕ → ℕ → Store → List ℕ
unfolding find contacted
sent_by env m tenant id s = contacted_row env m s (find tenant id s)
