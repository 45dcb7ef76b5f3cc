-- ===== src/Portal/PublicView.antt =====
-- `get_payment_status` and `mask_msisdn` of captive_portal.py: what the waiting screen is told.
use infinity_radius.Prelude.{
  ℕ, zero, suc, ◌-◌, Bool, true, false, ◌&&◌, not, Option, none, some, [], ◌∷◌, ◌++◌, if◌then◌else◌,
  ltb, ℤ, lookup, Text,
}
use infinity_radius.Core.Enums.{CollectionStatus, ActivationStatus, is_terminal}
use infinity_radius.Collections.Tables.{Transaction}
use infinity_radius.Collections.Changes.{is_completed}
use infinity_radius.Billing.Tables.{Customer}
use infinity_radius.Portal.Tables.{Portal}

abbrev pub length : Text → ℕ
length [] = 0
length (c ∷ s) = suc (length s)

abbrev pub take : ℕ → Text → Text
take zero s = []
take (suc n) [] = []
take (suc n) (c ∷ s) = c ∷ take n s

abbrev pub drop : ℕ → Text → Text
drop zero s = s
drop (suc n) [] = []
drop (suc n) (c ∷ s) = drop n s

-- `"*" * n`
abbrev pub stars : ℕ → Text
stars zero = []
stars (suc n) = b'*' ∷ stars n

unfoldable pub mask_msisdn : Text → Text
mask_msisdn phone =
    let n = length phone in
    if ltb n 7 then stars n else take 4 phone ++ (stars (n - 7) ++ drop (n - 3) phone)

pub data PublicStatus : Type 0 where
  not_found pending failed completed : PublicStatus

pub data PublicActivation : Type 0 where
  pending activating active failed : PublicActivation

-- `_PUBLIC_ACTIVATION`; with no activation status it is "pending".
unfoldable pub public_activation : Option ActivationStatus → PublicActivation
public_activation none = PublicActivation.pending
public_activation (some ActivationStatus.pending) = PublicActivation.pending
public_activation (some ActivationStatus.activating) = PublicActivation.activating
public_activation (some ActivationStatus.active) = PublicActivation.active
public_activation (some ActivationStatus.failed) = PublicActivation.failed
public_activation (some ActivationStatus.requires_review) = PublicActivation.failed

-- `_UNDER_REVIEW_STATUSES`
unfoldable pub is_under_review : CollectionStatus → Bool
is_under_review CollectionStatus.requires_review = true
is_under_review CollectionStatus.ambiguous = true
is_under_review _ = false

-- The answer. The password is derived from the subscription, which stands for it here.
pub record PaymentView : Type 0 where
  pub status : PublicStatus
  pub under_review : Bool
  pub amount : Option ℤ
  pub payer_phone_masked : Option Text
  pub activation_status : Option PublicActivation
  pub login_username : Option Text
  pub login_subscription : Option ℕ

unfoldable pub masked : Option Text → Option Text
unfolding mask_msisdn
masked none = none
masked (some []) = none
masked (some (c ∷ s)) = some (mask_msisdn (c ∷ s))

abbrev pub plain_view : PublicStatus → Bool → Transaction → PaymentView
plain_view status under_review w = record {
  status = status;
  under_review = under_review;
  amount = some w.amount;
  payer_phone_masked = masked w.payer_phone;
  activation_status = none;
  login_username = none;
  login_subscription = none;
}

unfoldable pub is_live : PublicActivation → Bool
is_live PublicActivation.active = true
is_live _ = false

-- The credentials, for a subscription and a customer that are there.
unfoldable pub with_login : Option ℕ → Option Customer → PaymentView → PaymentView
with_login (some sid) (some c) view = record view {
  login_username = some c.phone;
  login_subscription = some sid;
}
with_login _ _ view = view

unfoldable pub find_customer : Option ℕ → Portal → Option Customer
find_customer none s = none
find_customer (some id) s = lookup id s.billing.customers

unfoldable pub paid_view : Transaction → Portal → PaymentView
unfolding public_activation is_live with_login find_customer
paid_view w s =
    let activation = public_activation w.activation_status in
    let view = record (plain_view PublicStatus.completed false w) {
      activation_status = some activation;
    } in
    if is_live activation
    then with_login w.subscription_id (find_customer w.customer_id s) view
    else view

unfoldable pub view_row : Transaction → Portal → PaymentView
unfolding is_under_review is_completed is_terminal paid_view
view_row w s =
    if is_under_review w.status
    then plain_view PublicStatus.pending true w
    else if is_terminal w.status && not (is_completed w.status)
    then plain_view PublicStatus.failed false w
    else if not (is_completed w.status)
    then plain_view PublicStatus.pending false w
    else paid_view w s

abbrev pub nothing_to_show : PaymentView
nothing_to_show = record {
  status = PublicStatus.not_found;
  under_review = false;
  amount = none;
  payer_phone_masked = none;
  activation_status = none;
  login_username = none;
  login_subscription = none;
}

unfoldable pub view_found : Option Transaction → Portal → PaymentView
unfolding view_row
view_found none s = nothing_to_show
view_found (some w) s = view_row w s

-- `get_payment_status`; what the token stands for is an argument.
unfoldable pub get_payment_status : Option ℕ → Portal → PaymentView
unfolding view_found
get_payment_status none s = nothing_to_show
get_payment_status (some id) s = view_found (lookup id s.payments.transactions) s
