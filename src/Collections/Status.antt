-- ===== src/Collections/Status.antt =====
-- `transition`, `fail` and `apply_order_status` of selcom_payment_provider.py, with what a verified
-- payment means in each flow: `_credit_tenant_wallet` of collections.py and
-- `_finalize_captive_payment` of captive_portal.py.
use infinity_radius.Prelude.{
  ℕ, ◌+◌, ◌*◌, Bool, true, false, ◌&&◌, ◌||◌, not, Option, none, some, [], leb, if◌then◌else◌, ℤ,
  pos, pos_part, leb_ℤ, eqb_ℤ, Text, text, eq_text, is_blank, is_empty, strip, upper,
}
use infinity_radius.Core.Errors.{Result, ok, err, ◌>>=◌, unhandled}
use infinity_radius.Core.Enums.{
  CollectionStatus, TransactionType, ActivationStatus, is_terminal, eq_flow,
}
use infinity_radius.Wallet.Tables.{selcom_collection}
use infinity_radius.Wallet.Operations.{process_collection}
use infinity_radius.Collections.Tables.{
  Transaction, OrderStatusData, Checkout, Payment, audit_payment, reached,
}

-- `transition`: the row with its other columns already written.
unfoldable pub move_to : TransactionType → CollectionStatus → Option ℕ → Payment → Payment
move_to flow to_status actor v =
    audit_payment (reached flow to_status) actor
      (record v { row = record v.row { status = to_status } })

-- `fail`
unfoldable pub fail_payment : Checkout → TransactionType → Option ℕ → Payment → Payment
unfolding move_to
fail_payment env flow actor v =
    move_to flow CollectionStatus.failed actor
      (record v { row = record v.row { failed_at = some env.now } })

-- `_PAYMENT_STATUS_TO_COLLECTION_STATUS`
unfoldable pub collection_status : Text → Option CollectionStatus
collection_status s =
    if eq_text s (text "PENDING")
    then some CollectionStatus.pending
    else if eq_text s (text "INPROGRESS")
    then some CollectionStatus.inprogress
    else if eq_text s (text "CANCELLED")
    then some CollectionStatus.cancelled
    else if eq_text s (text "USERCANCELLED") || eq_text s (text "USERCANCELED")
    then some CollectionStatus.usercancelled
    else if eq_text s (text "REJECTED")
    then some CollectionStatus.rejected
    else if eq_text s (text "DECLINED")
    then some CollectionStatus.declined
    else if eq_text s (text "FAILED")
    then some CollectionStatus.failed
    else if eq_text s (text "EXPIRED")
    then some CollectionStatus.expired
    else none

-- `mapped_status in _NON_TERMINAL_MAPPED_TARGETS`
unfoldable pub is_waiting : CollectionStatus → Bool
is_waiting CollectionStatus.pending = true
is_waiting CollectionStatus.inprogress = true
is_waiting _ = false

-- `(status_data.payment_status or "").strip().upper()`
unfoldable pub payment_word : Option Text → Text
unfolding strip upper
payment_word none = []
payment_word (some s) = upper (strip s)

-- `_is_stale_pending`: no later than the threshold after the prompt was asked, or no threshold.
unfoldable pub has_elapsed : ℕ → ℕ → Option ℕ → Bool
has_elapsed now minutes none = false
has_elapsed now minutes (some at) = leb (at + minutes * 60) now

unfoldable pub is_stale_pending : Checkout → Transaction → Bool
unfolding has_elapsed
is_stale_pending env w =
    let minutes = env.selcom_collection_pending_review_minutes in
    not (leb_ℤ minutes (pos 0)) && has_elapsed env.now (pos_part minutes) w.stk_requested_at

-- `value and value != expected`
unfoldable pub conflicts : Option Text → Text → Bool
conflicts none expected = false
conflicts (some s) expected = not (is_empty s) && not (eq_text s expected)

-- `value is not None and value == expected`
unfoldable pub is_amount : Option ℤ → ℤ → Bool
is_amount none expected = false
is_amount (some a) expected = eqb_ℤ a expected

-- What a COMPLETED answer has to agree with before any money is credited.
unfoldable pub is_verified : OrderStatusData → Transaction → Bool
unfolding conflicts is_amount
is_verified d w =
    not (conflicts d.order_id w.reference)
    && (is_amount d.amount w.amount && not (conflicts d.currency w.currency))

-- `a or b`
unfoldable pub or_option : Option Text → Option Text → Option Text
or_option a b = if is_blank a then b else a

-- What the flow does once a payment is verified.
unfoldable pub mark_paid : TransactionType → Transaction → Transaction
mark_paid TransactionType.collection w = w
mark_paid TransactionType.captive_portal w = record w {
  activation_status = some ActivationStatus.pending;
}

unfoldable pub finalize_paid : TransactionType → Payment → Result Payment
unfolding mark_paid
finalize_paid flow v = do
  (_, books) ←
      process_collection v.row.tenant_id v.row.amount selcom_collection (some v.row.id) v.books
  ok (record v { books = books; row = mark_paid flow v.row })

-- The COMPLETED branch.
unfoldable pub apply_completed :
    Checkout → TransactionType → OrderStatusData → Option ℕ → Option Text → Payment → Result Payment
unfolding is_verified finalize_paid move_to or_option
apply_completed env flow d actor resultcode v =
    if is_verified d v.row
    then (finalize_paid flow v >>= λ paid. ok (
        move_to flow CollectionStatus.completed actor (record paid {
          row = record paid.row {
            provider_reference =
                or_option d.transid (or_option d.reference paid.row.provider_reference);
            channel = d.channel;
            provider_resultcode = if is_blank resultcode then some (text "000") else resultcode;
            provider_message = some (text "COMPLETED");
            completed_at = some env.now;
          };
        })))
    else ok (move_to flow CollectionStatus.ambiguous actor v)

-- The two columns that the other branches write.
abbrev pub with_answer : Option Text → Option Text → Payment → Payment
with_answer message resultcode v = record v {
  row = record v.row { provider_message = message; provider_resultcode = resultcode };
}

-- `status == CollectionStatus.REQUIRES_REVIEW.value`
unfoldable pub is_review : CollectionStatus → Bool
is_review CollectionStatus.requires_review = true
is_review _ = false

-- A status that means "still waiting".
unfoldable pub apply_waiting :
    Checkout
    → TransactionType
    → CollectionStatus
    → Text
    → Option ℕ
    → Option Text
    → Payment
    → Payment
unfolding is_stale_pending is_review move_to
apply_waiting env flow mapped word actor resultcode v =
    if is_review v.row.status
    then v
    else if is_stale_pending env v.row
    then move_to flow CollectionStatus.requires_review actor (with_answer (some word) resultcode v)
    else move_to flow mapped actor (with_answer (some word) resultcode v)

unfoldable pub apply_mapped :
    Checkout
    → TransactionType
    → Option CollectionStatus
    → Text
    → Option ℕ
    → Option Text
    → Payment
    → Payment
unfolding is_waiting apply_waiting move_to
apply_mapped env flow none word actor resultcode v =
    move_to flow CollectionStatus.ambiguous actor
      (record v { row = record v.row { provider_resultcode = resultcode } })
apply_mapped env flow (some mapped) word actor resultcode v =
    if is_waiting mapped
    then apply_waiting env flow mapped word actor resultcode v
    else move_to flow mapped actor (record v {
      row = record v.row {
        provider_message = some word;
        provider_resultcode = resultcode;
        failed_at = some env.now;
      };
    })

-- `transaction_type == flow.transaction_type`
unfoldable pub is_of_flow : Option TransactionType → TransactionType → Bool
unfolding eq_flow
is_of_flow none flow = false
is_of_flow (some f) flow = eq_flow f flow

unfoldable pub apply_order_status :
    Checkout → TransactionType → OrderStatusData → Option ℕ → Option Text → Payment → Result Payment
unfolding is_of_flow is_terminal payment_word collection_status apply_completed apply_mapped
apply_order_status env flow d actor resultcode v =
    let word = payment_word d.payment_status in
    if not (is_of_flow v.row.transaction_type flow)
    then err unhandled
    else if is_terminal v.row.status
    then ok v
    else if eq_text word (text "COMPLETED")
    then apply_completed env flow d actor resultcode v
    else ok (apply_mapped env flow (collection_status word) word actor resultcode v)
