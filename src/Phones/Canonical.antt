-- ===== src/Phones/Canonical.antt =====
-- The canonical form of a number in core/phone.py, and the three ways of writing it.
use infinity_radius.Prelude.{
  ℕ, zero, suc, Bool, true, false, ◌&&◌, ◌||◌, Option, none, some, [], ◌∷◌, ◌≡◌, refl, ◌==◌, Text,
  is_space, drop_space, strip, arith,
}
use infinity_radius.Phones.{
  is_digit, is_punctuation, clean, are_digits, is_subscriber, match_local, match_country,
  match_international, with_country, first_match, normalize_tz_phone,
}
use mathlib.Core.List.{reverse, reverse-append, ◌++◌, reverse-reverse}

-- No character of the text is taken out by cleaning.
abbrev IsPlain : Text → Type 0
IsPlain [] = Unit {0}
IsPlain (c ∷ s) = (is_punctuation c ≡ false) × IsPlain s

clean-plain : (s : Text) → IsPlain s → clean s ≡ s
unfolding clean
clean-plain [] h = refl
clean-plain (c ∷ s) h = rw (h.0, clean-plain s h.1)

digit-IsPlain : (c : ℕ) → is_digit c ≡ true → is_punctuation c ≡ false
unfolding is_digit is_punctuation is_space
digit-IsPlain c h = ground arith

are_digits-IsPlain : (n : ℕ) (s : Text) → are_digits n s ≡ true → IsPlain s
unfolding are_digits
are_digits-IsPlain zero [] h = tt
are_digits-IsPlain zero (c ∷ s) h = cc
are_digits-IsPlain (suc n) [] h = cc
are_digits-IsPlain (suc n) (c ∷ s) h = ground (arith, digit-IsPlain c, are_digits-IsPlain n s)

plain-drop_space : (s : Text) → IsPlain s → drop_space s ≡ s
unfolding drop_space is_punctuation
plain-drop_space [] h = refl
plain-drop_space (c ∷ s) h = ground arith

IsPlain-snoc : (s : Text) (c : ℕ) → IsPlain s → is_punctuation c ≡ false → IsPlain (s ++ c ∷ [])
IsPlain-snoc [] c h e = (e, tt)
IsPlain-snoc (x ∷ s) c h e = (h.0, IsPlain-snoc s c h.1 e)

IsPlain-reverse : (s : Text) → IsPlain s → IsPlain (reverse s)
IsPlain-reverse [] h = tt
IsPlain-reverse (c ∷ s) h =
    rw (reverse-append (c ∷ []) s) (IsPlain-snoc (reverse s) c (IsPlain-reverse s h.1) h.0)

strip-plain : (s : Text) → IsPlain s → strip s ≡ s
unfolding strip
strip-plain s h =
    rw (plain-drop_space s h, plain-drop_space (reverse s) (IsPlain-reverse s h), reverse-reverse)

-- A text that cleaning leaves alone is matched as it stands.
plain_lem :
    (s : Text)
    → IsPlain s
    → normalize_tz_phone s ≡ first_match (match_local s) (match_international s)
unfolding normalize_tz_phone
plain_lem s h = rw (strip-plain s h, clean-plain s h)

both : (a b : Bool) → (a && b) ≡ true → (a ≡ true) × (b ≡ true)
both true b h = (refl, h)
both false b h = cc

first_digit-IsPlain : (c : ℕ) → (c == b'6' || c == b'7') ≡ true → is_punctuation c ≡ false
unfolding is_punctuation is_space
first_digit-IsPlain c h = ground arith

subscriber-IsPlain : (s : Text) → is_subscriber s ≡ true → IsPlain s
unfolding is_subscriber
subscriber-IsPlain [] h = cc
subscriber-IsPlain (c ∷ s) h =
    let (p, q) = both _ _ h in (first_digit-IsPlain c p, are_digits-IsPlain 8 s q)

module _ (s : Text) (h : is_subscriber s ≡ true) where
  local_form : normalize_tz_phone (b'0' ∷ s) ≡ some (with_country s)
  unfolding match_local is_punctuation is_space first_match
  local_form = rw (plain_lem (b'0' ∷ s) (refl, subscriber-IsPlain s h), h) refl

  country_form : normalize_tz_phone (with_country s) ≡ some (with_country s)
  unfolding match_local match_international match_country is_punctuation is_space first_match
  country_form =
      rw (plain_lem (with_country s) (refl, (refl, (refl, subscriber-IsPlain s h))), h) refl

  plus_form : normalize_tz_phone (b'+' ∷ with_country s) ≡ some (with_country s)
  unfolding match_local match_international match_country is_punctuation is_space first_match
  plus_form =
      rw
        (
          plain_lem (b'+' ∷ with_country s) (refl, (refl, (refl, (refl, subscriber-IsPlain s h)))),
          h,
        )
        refl

match_local_lem : (s n : Text) → match_local s ≡ some n → is_subscriber n ≡ true
unfolding match_local
match_local_lem [] n e = cc
match_local_lem (c ∷ s) n e = ground arith

match_country_lem : (s n : Text) → match_country s ≡ some n → is_subscriber n ≡ true
unfolding match_country
match_country_lem (a ∷ (b ∷ (c ∷ s))) n e = ground arith
match_country_lem [] n e = cc
match_country_lem (a ∷ []) n e = cc
match_country_lem (a ∷ (b ∷ [])) n e = cc

match_international_lem : (s n : Text) → match_international s ≡ some n → is_subscriber n ≡ true
unfolding match_international
match_international_lem [] n e = cc
match_international_lem (c ∷ s) n e =
    ground (arith, match_country_lem s n, match_country_lem (c ∷ s) n)

first_match_lem :
    (a b : Option Text) (p : Text)
    → ((n : Text) → a ≡ some n → is_subscriber n ≡ true)
    → ((n : Text) → b ≡ some n → is_subscriber n ≡ true)
    → first_match a b ≡ some p
    → (n : Text) × (is_subscriber n ≡ true) × (p ≡ with_country n)
unfolding first_match
first_match_lem (some n) b p h k e = (n, h n refl, cc)
first_match_lem none (some n) p h k e = (n, k n refl, cc)
first_match_lem none none p h k e = cc

-- A number that is accepted is 255 and a subscriber number: nine digits, the first a 6 or a 7.
-- Normalising it again gives it back.
pub normalize_tz_phone-canonical :
    (raw p : Text)
    → normalize_tz_phone raw ≡ some p
    → (n : Text) × (is_subscriber n ≡ true) × (p ≡ with_country n) × (normalize_tz_phone p ≡ some p)
unfolding normalize_tz_phone
normalize_tz_phone-canonical raw p e =
    let c = clean (strip raw) in
    let (n, h, q) =
      first_match_lem (match_local c) (match_international c) p (match_local_lem c)
        (match_international_lem c) e in
    (n, h, q, rw (q) (country_form n h))

-- The three ways of writing a subscriber number, 0…, 255… and +255…, give the same number.
pub normalize_tz_phone-forms :
    (s : Text)
    → is_subscriber s ≡ true
    → (normalize_tz_phone (b'0' ∷ s) ≡ some (with_country s))
      × (normalize_tz_phone (with_country s) ≡ some (with_country s))
      × (normalize_tz_phone (b'+' ∷ with_country s) ≡ some (with_country s))
normalize_tz_phone-forms s h = (local_form s h, country_form s h, plus_form s h)
