-- ===== src/Phones/Tests.antt =====
-- The theorems of phone numbers at concrete inputs.
use infinity_radius.Prelude.{true, text, some, none, ◌∷◌, ◌≡◌, refl, Text}
use infinity_radius.Phones.{normalize_tz_phone, is_subscriber, with_country}
use infinity_radius.Phones.Canonical.{normalize_tz_phone-canonical, normalize_tz_phone-forms}

spaced : normalize_tz_phone (text " 0712 345-678") ≡ some (text "255712345678")
unfolding normalize_tz_phone
spaced = refl

short : normalize_tz_phone (text "+25571234567") ≡ none
unfolding normalize_tz_phone
short = refl

good : is_subscriber (text "712345678") ≡ true
unfolding is_subscriber
good = refl

normalize_tz_phone-canonical_example :
    (n : Text) × (is_subscriber n ≡ true)
    × (text "255712345678" ≡ with_country n)
    × (normalize_tz_phone (text "255712345678") ≡ some (text "255712345678"))
normalize_tz_phone-canonical_example =
    normalize_tz_phone-canonical (text " 0712 345-678") (text "255712345678") spaced

normalize_tz_phone-forms_example :
    (normalize_tz_phone (b'0' ∷ text "712345678") ≡ some (with_country (text "712345678")))
    × (normalize_tz_phone (with_country (text "712345678"))
        ≡ some (with_country (text "712345678")))
    × (normalize_tz_phone (b'+' ∷ with_country (text "712345678"))
        ≡ some (with_country (text "712345678")))
normalize_tz_phone-forms_example = normalize_tz_phone-forms (text "712345678") good
