-- ===== src/Core/Errors.antt =====
-- apps/api/app/core/errors.py: the domain errors and the responses that they become. A message
-- is an enumeration value, one for each text that a service raises.
use infinity_radius.Prelude.{ℕ, Bool, true, false, Option, none, some, ◌≡◌, refl, if◌then◌else◌}

-- The texts of `DomainValidationError`.
pub data Message : Type 0 where
  gross_amount_not_positive adjustment_not_positive settle_not_positive : Message
  reserve_not_positive release_not_positive disbursement_not_positive : Message
  reversal_not_positive refund_not_positive amount_not_positive : Message
  adjustment_without_reason rejection_without_reason reversal_without_reason : Message
  bucket_below_zero settle_over_pending no_commercial_terms rate_out_of_range : Message
  destination_of_other_tenant direct_settlement disbursement_disabled payouts_not_enabled : Message
  email_not_verified below_minimum above_maximum above_daily_limit above_daily_count : Message
  exceeds_available_balance verification_unavailable : Message
  only_requester wrong_status max_sends_reached : Message
  customer_of_other_tenant package_of_other_tenant package_not_active package_gone : Message
  batch_gone quantity_out_of_range codes_exhausted : Message
  no_longer_payable session_expired invalid_phone unsupported_currency : Message
  collection_disabled collection_production_disabled no_subscription not_paid : Message
  not_pending provider_not_configured already_in_mode : Message

-- The last is an exception of another class, which `unhandled_exception_handler` answers.
pub data ApiError : Type 0 where
  not_found conflict : ApiError
  validation : Message → ApiError
  rate_limited : ℕ → ApiError
  unhandled : ApiError

-- What a call of a service gives back. An error carries no state: the session of a request that
-- raises is never committed.
pub data Result {ℓ} (A : Type ℓ) : Type ℓ where
  ok : A → Result A
  err : ApiError → Result A

-- What a service does next is done only after a call that did not raise.
infixl 5 ◌>>=◌ ◌>>◌
abbrev pub ◌>>=◌ {ℓ₁ ℓ₂} :
    {V : Type ℓ₁} {W : Type ℓ₂} (called : Result V) (after : V → Result W) → Result W
(err raised) >>= after = err raised
(ok value) >>= after = after value

abbrev pub ◌>>◌ {ℓ} : {W : Type ℓ} (check : Result (Unit {0})) (after : Result W) → Result W
check >> after = check >>= λ done. after

-- `if not test: raise DomainValidationError(message)`
abbrev pub require : Bool → Message → Result (Unit {0})
require true m = ok tt
require false m = err (validation m)

-- A row that has to be there.
abbrev pub or_raise {ℓ} : {A : Type ℓ} → Option A → ApiError → Result A
or_raise none e = err e
or_raise (some a) e = ok a

-- `status_code` of each error class.
unfoldable pub status_code : ApiError → ℕ
status_code not_found = 404
status_code conflict = 409
status_code (validation m) = 422
status_code (rate_limited n) = 429
status_code unhandled = 500

-- The `Retry-After` header of `api_error_handler`.
unfoldable pub retry_after_header : ApiError → Option ℕ
retry_after_header (rate_limited n) = some n
retry_after_header e = none

-- A chain that did not raise came through each call.
pub >>=-eq-ok {ℓ₁ ℓ₂} :
    {V : Type ℓ₁} {W : Type ℓ₂} (called : Result V) (after : V → Result W) {w : W}
    → (called >>= after) ≡ ok w
    → (v : V) × (called ≡ ok v) × (after v ≡ ok w)
>>=-eq-ok (err raised) after e = cc
>>=-eq-ok (ok value) after e = (value, refl, e)

pub ok_inj {ℓ} : {A : Type ℓ} {a b : A} → ok a ≡ ok b → b ≡ a
ok_inj h = cc

pub guarded {ℓ} :
    {B : Type ℓ} (b : Bool) (m : Message) (k : Unit {0} → Result B) {x : B}
    → (require b m >>= k) ≡ ok x
    → (b ≡ true) × (k tt ≡ ok x)
guarded true m k e = (refl, e)
guarded false m k e = cc

pub if_ok {ℓ} :
    {V : Type ℓ} (b : Bool) (m : Result V) (x : ApiError) {v : V}
    → (if b then m else err x) ≡ ok v
    → m ≡ ok v
if_ok true m x e = e
if_ok false m x e = cc

-- The branch that a test takes, and the row that `or_raise` found.
pub if_true {ℓ} :
    {A : Type ℓ} (b : Bool) (x y : A) {z : A} → b ≡ true → (if b then x else y) ≡ z → x ≡ z
if_true true x y h e = e
if_true false x y h e = cc

pub if_false {ℓ} :
    {A : Type ℓ} (b : Bool) (x y : A) {z : A} → b ≡ false → (if b then x else y) ≡ z → y ≡ z
if_false false x y h e = e
if_false true x y h e = cc

pub or_raise_lem {ℓ} :
    {A : Type ℓ} (o : Option A) (x : ApiError) {a : A} → or_raise o x ≡ ok a → o ≡ some a
or_raise_lem none x e = cc
or_raise_lem (some a) x e = cc
