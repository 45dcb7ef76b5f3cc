-- ===== src/Payouts/Provider.antt =====
-- selcom_business/schemas.py `interpret_resultcode`, and `match_provider_amount` of payouts.py.
use infinity_radius.Prelude.{
  Bool, false, ◌&&◌, ◌||◌, not, Option, none, some, [], if◌then◌else◌, ℤ, pos, ◌+ℤ◌, leb_ℤ, eqb_ℤ,
  Text, text, eq_text, is_empty, is_blank, strip,
}
use infinity_radius.Core.Enums.{
  ProviderAmountMatch, principal_exact, principal_plus_stored_provider_charge,
}
use infinity_radius.Payouts.Tables.{TransactionData}

pub data SelcomResultOutcome : Type 0 where
  success inprogress ambiguous fail : SelcomResultOutcome

-- `(resultcode or "").strip()`
unfoldable pub stripped_code : Option Text → Text
unfolding strip
stripped_code none = []
stripped_code (some c) = strip c

-- An unknown or missing code is a failure.
unfoldable pub interpret_resultcode : Option Text → SelcomResultOutcome
interpret_resultcode resultcode =
    let code = stripped_code resultcode in
    if eq_text code (text "000")
    then SelcomResultOutcome.success
    else if eq_text code (text "111") || eq_text code (text "927")
    then SelcomResultOutcome.inprogress
    else if eq_text code (text "999")
    then SelcomResultOutcome.ambiguous
    else SelcomResultOutcome.fail

-- The stored charge explains the provider's amount.
unfoldable pub charge_explains : ℤ → ℤ → Option ℤ → Bool
charge_explains provider_amount withdrawal_amount none = false
charge_explains provider_amount withdrawal_amount (some charge) =
    leb_ℤ (pos 0) charge && eqb_ℤ provider_amount (withdrawal_amount +ℤ charge)

unfoldable pub match_provider_amount : ℤ → ℤ → Option ℤ → Option ProviderAmountMatch
unfolding charge_explains
match_provider_amount provider_amount withdrawal_amount stored_charge =
    if eqb_ℤ provider_amount withdrawal_amount
    then some principal_exact
    else if charge_explains provider_amount withdrawal_amount stored_charge
    then some principal_plus_stored_provider_charge
    else none

-- No amount reported is nothing to check.
unfoldable pub amount_match : Option ℤ → ℤ → Option ℤ → Option ProviderAmountMatch
amount_match none withdrawal_amount stored_charge = some principal_exact
amount_match (some a) withdrawal_amount stored_charge =
    match_provider_amount a withdrawal_amount stored_charge

-- `value is not None and value != expected`
unfoldable pub differs : Option Text → Text → Bool
differs none expected = false
differs (some s) expected = not (eq_text s expected)

-- `value or fallback`
unfoldable pub or_text : Option Text → Text → Text
or_text none fallback = fallback
or_text (some s) fallback = if is_empty s then fallback else s

-- `(data.status if data else None) or ""`
unfoldable pub data_status : Option TransactionData → Text
data_status none = []
data_status (some d) = or_text d.status []

-- `query.resultcode or {"COMPLETED": "000", …}.get(status, query.resultcode)`
unfoldable pub query_resultcode : Option Text → Option TransactionData → Option Text
query_resultcode resultcode d =
    let status = data_status d in
    if not (is_blank resultcode)
    then resultcode
    else if eq_text status (text "COMPLETED")
    then some (text "000")
    else if eq_text status (text "ACCEPTED")
    then some (text "111")
    else if eq_text status (text "FAILED")
    then some (text "900")
    else resultcode
