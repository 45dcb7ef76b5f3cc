-- ===== src/Portal/RateLimit.antt =====
-- captive_rate_limit.py: counters of payment attempts in fixed windows. The counters are Redis
-- keys; a key names its dimension, its subject and its window.
use infinity_radius.Prelude.{
  ℕ, ◌+◌, ◌/◌, Bool, true, false, ◌&&◌, Option, none, some, List, [], ◌∷◌, ◌==◌, if◌then◌else◌, ℤ,
  pos, pos_part, leb_ℤ, Text, eq_text,
}

pub data Dimension : Type 0 where
  session phone router : Dimension

pub data Key : Type 0 where
  session_key : ℕ → ℕ → Key
  phone_key : Text → ℕ → Key
  router_key : ℕ → ℕ → Key

unfoldable pub eq_key : Key → Key → Bool
unfolding eq_text
eq_key (session_key a b) (session_key c d) = a == c && b == d
eq_key (phone_key a b) (phone_key c d) = eq_text a c && b == d
eq_key (router_key a b) (router_key c d) = a == c && b == d
eq_key _ _ = false

abbrev pub Counters : Type 0
Counters = List (Key × ℕ)

-- The counter of a key that is not there is zero.
unfoldable pub read : Key → Counters → ℕ
unfolding eq_key
read k [] = 0
read k ((j, n) ∷ c) = if eq_key j k then n else read k c

-- `INCR`, and `EXPIRE` after the first hit, which deletes the key at once if the window is not
-- positive.
unfoldable pub hit_count : ℤ → Key → Counters → ℕ × Counters
unfolding read
hit_count window k c =
    let n = read k c + 1 in
    if leb_ℤ window (pos 0) && n == 1 then (n, (k, 0) ∷ c) else (n, (k, n) ∷ c)

-- `_hit`: whether Redis answers is an argument, and it fails open.
unfoldable pub hit : Bool → ℤ → Key → ℤ → Counters → Bool × Counters
unfolding hit_count
hit answers window k limit c =
    if answers then (let (n, c') = hit_count window k c in (leb_ℤ (pos n) limit, c')) else (true, c)

-- One dimension of `check`: a limit that is not positive is no limit.
unfoldable pub check_one : Bool → ℤ → Key → ℤ → Counters → Bool × Counters
unfolding hit
check_one answers window k limit c =
    if leb_ℤ limit (pos 0) then (true, c) else hit answers window k limit c

pub record Limits : Type 0 where
  pub window_seconds : ℤ
  pub per_session : ℤ
  pub per_phone : ℤ
  pub per_router : ℤ

-- `bucket`
unfoldable pub bucket_of : ℤ → ℕ → ℕ
bucket_of window now = if leb_ℤ window (pos 0) then 0 else now / pos_part window

-- The narrowest dimension that rejected, with the counters as they were after it.
unfoldable pub decide :
    Bool → Bool → Bool → Counters → Counters → Counters → Option Dimension × Counters
decide true true true c₁ c₂ c₃ = (none, c₃)
decide true true false c₁ c₂ c₃ = (some router, c₃)
decide true false d c₁ c₂ c₃ = (some phone, c₂)
decide false b d c₁ c₂ c₃ = (some session, c₁)

-- `check`: a rejection leaves the later counters alone, and takes no count back.
unfoldable pub check : Bool → Limits → ℕ → ℕ → Text → ℕ → Counters → Option Dimension × Counters
check answers l now sid number rid c =
    let bucket = bucket_of l.window_seconds now in
    let r₁ = check_one answers l.window_seconds (session_key sid bucket) l.per_session c in
    let r₂ = check_one answers l.window_seconds (phone_key number bucket) l.per_phone r₁.1 in
    let r₃ = check_one answers l.window_seconds (router_key rid bucket) l.per_router r₂.1 in
    decide r₁.0 r₂.0 r₃.0 r₁.1 r₂.1 r₃.1
