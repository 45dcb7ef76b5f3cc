-- ===== src/Phones.antt =====
-- apps/api/app/core/phone.py: Tanzanian mobile numbers. The classes `\d` and `\s` are read on ASCII.
pub mod Canonical
mod Tests
use infinity_radius.Prelude.{
  ℕ, zero, suc, Bool, true, false, ◌&&◌, ◌||◌, not, Option, none, some, [], ◌∷◌, ◌++◌, leb, ◌==◌,
  if◌then◌else◌, Text, text, is_space, strip,
}

-- `\d`
unfoldable pub is_digit : ℕ → Bool
is_digit c = leb b'0' c && leb c b'9'

-- `[\s\-()]`
unfoldable pub is_punctuation : ℕ → Bool
unfolding is_space
is_punctuation c = is_space c || (c == b'-' || (c == b'(' || c == b')'))

-- `re.sub(r"[\s\-()]", "", …)`
unfoldable pub clean : Text → Text
unfolding is_punctuation
clean [] = []
clean (c ∷ s) = if is_punctuation c then clean s else c ∷ clean s

-- `\d{n}$`
unfoldable pub are_digits : ℕ → Text → Bool
unfolding is_digit
are_digits zero [] = true
are_digits zero (c ∷ s) = false
are_digits (suc n) [] = false
are_digits (suc n) (c ∷ s) = is_digit c && are_digits n s

-- `[67]\d{8}$`
unfoldable pub is_subscriber : Text → Bool
unfolding are_digits
is_subscriber [] = false
is_subscriber (c ∷ s) = (c == b'6' || c == b'7') && are_digits 8 s

-- `_LOCAL`
unfoldable pub match_local : Text → Option Text
unfolding is_subscriber
match_local [] = none
match_local (c ∷ s) = if c == b'0' && is_subscriber s then some s else none

-- `255([67]\d{8})$`
unfoldable pub match_country : Text → Option Text
unfolding is_subscriber
match_country (a ∷ (b ∷ (c ∷ s))) =
    if (a == b'2' && (b == b'5' && c == b'5')) && is_subscriber s then some s else none
match_country _ = none

-- `_INTERNATIONAL`
unfoldable pub match_international : Text → Option Text
unfolding match_country
match_international [] = none
match_international (c ∷ s) = if c == b'+' then match_country s else match_country (c ∷ s)

abbrev pub with_country : Text → Text
with_country s = b'2' ∷ (b'5' ∷ (b'5' ∷ s))

-- The second pattern is tried where the first fails; neither matching is a `ValueError`.
unfoldable pub first_match : Option Text → Option Text → Option Text
first_match (some s) other = some (with_country s)
first_match none (some s) = some (with_country s)
first_match none none = none

unfoldable pub normalize_tz_phone : Text → Option Text
unfolding strip clean match_local match_international first_match
normalize_tz_phone raw =
    let cleaned = clean (strip raw) in
    first_match (match_local cleaned) (match_international cleaned)

unfoldable pub is_some {ℓ} : {A : Type ℓ} → Option A → Bool
is_some none = false
is_some (some a) = true

unfoldable pub is_valid_tz_phone : Text → Bool
unfolding is_some normalize_tz_phone
is_valid_tz_phone raw = is_some (normalize_tz_phone raw)
