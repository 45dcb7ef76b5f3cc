-- ===== src/Portal/Quota.antt =====
-- How many attempts the limiter of captive_rate_limit.py lets through in one window.
use infinity_radius.Prelude.{
  ℕ, ◌+◌, ◌-◌, ◌≤◌, Bool, true, false, ◌&&◌, Option, none, some, List, [], ◌∷◌, ◌≡◌, refl, sym, ◌∙◌,
  arith, ◌==◌, leb, if◌then◌else◌, ℤ, pos, leb_ℤ, Text, Bool-cases, inl, inr, subst, leb→le, ==→eq,
}
use infinity_radius.Portal.RateLimit.{
  Dimension, Key, session_key, phone_key, router_key, eq_key, Counters, read, hit_count, hit,
  check_one, Limits, bucket_of, check, decide,
}

-- An attempt: the session, the number and the router.
pub record Attempt : Type 0 where
  pub sid : ℕ
  pub number : Text
  pub rid : ℕ

unfoldable pub passes : Option Dimension → Bool
passes none = true
passes (some d) = false

-- How many attempts of a session are let through, all of them at one time.
unfoldable pub let_through : Limits → ℕ → ℕ → List Attempt → Counters → ℕ
unfolding passes
let_through l now sid [] c = 0
let_through l now sid (a ∷ rest) c =
    let (r, c') = check true l now a.sid a.number a.rid c in
    let n = let_through l now sid rest c' in if a.sid == sid && passes r then n + 1 else n

module _ (window : ℤ) (positive : leb_ℤ window (pos 0) ≡ false) where
  -- A hit of another key is not seen; a hit of the key counts one.
  check_one-read_other :
      (k j : Key) (limit : ℤ) (c : Counters)
      → eq_key j k ≡ false
      → read k (check_one true window j limit c).1 ≡ read k c
  unfolding check_one hit hit_count read
  check_one-read_other k j limit c n = ground arith

  check_one-read_self :
      (k : Key) (limit : ℕ) (c : Counters)
      → eq_key k k ≡ true
      → leb_ℤ (pos limit) (pos 0) ≡ false
      → (read k (check_one true window k (pos limit) c).1 ≡ read k c + 1)
        × ((check_one true window k (pos limit) c).0 ≡ leb (read k c + 1) limit)
  unfolding check_one hit hit_count read
  check_one-read_self k limit c e p = (ground arith, ground arith)

session_key_refl :
    (sid bucket : ℕ) → eq_key (session_key sid bucket) (session_key sid bucket) ≡ true
unfolding eq_key
session_key_refl sid bucket = ground arith

session_key_ne :
    (a b bucket : ℕ)
    → (a == b) ≡ false
    → eq_key (session_key a bucket) (session_key b bucket) ≡ false
unfolding eq_key
session_key_ne a b bucket h = rw (h) refl

decide-read :
    (k : Key) (n : ℕ) (a b d : Bool) (c₁ c₂ c₃ : Counters)
    → read k c₁ ≡ n
    → read k c₂ ≡ n
    → read k c₃ ≡ n
    → read k (decide a b d c₁ c₂ c₃).1 ≡ n
unfolding decide
decide-read k n true true true c₁ c₂ c₃ p q r = r
decide-read k n true true false c₁ c₂ c₃ p q r = r
decide-read k n true false d c₁ c₂ c₃ p q r = q
decide-read k n false b d c₁ c₂ c₃ p q r = p

decide-passes :
    (a b d : Bool) (c₁ c₂ c₃ : Counters) → passes (decide a b d c₁ c₂ c₃).0 ≡ true → a ≡ true
unfolding decide passes
decide-passes true b d c₁ c₂ c₃ h = refl
decide-passes false b d c₁ c₂ c₃ h = h

phone_key_ne :
    (a b : ℕ) (number : Text) (bucket : ℕ)
    → eq_key (phone_key number b) (session_key a bucket) ≡ false
unfolding eq_key
phone_key_ne a b number bucket = refl

router_key_ne : (a b rid bucket : ℕ) → eq_key (router_key rid b) (session_key a bucket) ≡ false
unfolding eq_key
router_key_ne a b rid bucket = refl

counted :
    (b : Bool) (n m most : ℕ)
    → n ≤ most - (m + 1)
    → (b ≡ true → m + 1 ≤ most)
    → (if b then n + 1 else n) ≤ most - m
counted true n m most h k = let y = k refl in omega arith
counted false n m most h k = omega arith

module _ (l : Limits) (limit now : ℕ) (limited : l.per_session ≡ pos limit)
    (above_zero : leb_ℤ (pos limit) (pos 0) ≡ false)
    (positive : leb_ℤ l.window_seconds (pos 0) ≡ false) where
  abbrev bucket : ℕ
  bucket = bucket_of l.window_seconds now

  later_reads :
      (sid : ℕ) (number : Text) (rid : ℕ) (c : Counters)
      → let k = session_key sid bucket in
        let r₂ = check_one true l.window_seconds (phone_key number bucket) l.per_phone c in
        let r₃ = check_one true l.window_seconds (router_key rid bucket) l.per_router r₂.1 in
        (read k r₂.1 ≡ read k c) × (read k r₃.1 ≡ read k c)
  later_reads sid number rid c =
      let k = session_key sid bucket in
      let r₂ = check_one true l.window_seconds (phone_key number bucket) l.per_phone c in
      let p =
        check_one-read_other l.window_seconds positive k (phone_key number bucket) l.per_phone c
          (phone_key_ne sid bucket number bucket) in
      (
        p,
        check_one-read_other l.window_seconds positive k (router_key rid bucket) l.per_router r₂.1
              (router_key_ne sid bucket rid bucket)
            ∙ p,
      )

  -- After one attempt: the counter of its session has gone up, and it passed only below the limit.
  check-read_self :
      (sid : ℕ) (number : Text) (rid : ℕ) (c : Counters)
      → let k = session_key sid bucket in
        let (r, c') = check true l now sid number rid c in
        (read k c' ≡ read k c + 1) × (passes r ≡ true → read k c + 1 ≤ limit)
  unfolding check passes
  check-read_self sid number rid c =
      let k = session_key sid bucket in
      let r₁ = check_one true l.window_seconds k l.per_session c in
      let r₂ = check_one true l.window_seconds (phone_key number bucket) l.per_phone r₁.1 in
      let r₃ = check_one true l.window_seconds (router_key rid bucket) l.per_router r₂.1 in
      let (p, q) =
        subst
          (λ (x : ℤ).
            (read k (check_one true l.window_seconds k x c).1 ≡ read k c + 1)
            × ((check_one true l.window_seconds k x c).0 ≡ leb (read k c + 1) limit))
          (sym limited)
          (check_one-read_self l.window_seconds positive k limit c (session_key_refl sid bucket)
            above_zero) in
      let e₂ = later_reads sid number rid r₁.1 in
      (
        decide-read k (read k c + 1) r₁.0 r₂.0 r₃.0 r₁.1 r₂.1 r₃.1 p (e₂.0 ∙ p) (e₂.1 ∙ p),
        λ h. leb→le _ _ (sym q ∙ decide-passes r₁.0 r₂.0 r₃.0 r₁.1 r₂.1 r₃.1 h),
      )

  check-read_other :
      (sid other : ℕ) (number : Text) (rid : ℕ) (c : Counters)
      → (other == sid) ≡ false
      → let k = session_key sid bucket in read k (check true l now other number rid c).1 ≡ read k c
  unfolding check
  check-read_other sid other number rid c n =
      let k = session_key sid bucket in
      let r₁ = check_one true l.window_seconds (session_key other bucket) l.per_session c in
      let r₂ = check_one true l.window_seconds (phone_key number bucket) l.per_phone r₁.1 in
      let r₃ = check_one true l.window_seconds (router_key rid bucket) l.per_router r₂.1 in
      let p =
        check_one-read_other l.window_seconds positive k (session_key other bucket) l.per_session c
          (session_key_ne other sid bucket n) in
      let e₂ = later_reads sid number rid r₁.1 in
      decide-read k (read k c) r₁.0 r₂.0 r₃.0 r₁.1 r₂.1 r₃.1 p (e₂.0 ∙ p) (e₂.1 ∙ p)

  -- While Redis answers, with a positive window and a positive limit for sessions, of any attempts
  -- at one time the limiter lets through for one session at most the limit less what its counter in
  -- that window reads before them.
  pub let_through-le-limit :
      (sid : ℕ) (attempts : List Attempt) (c : Counters)
      → let_through l now sid attempts c ≤ limit - read (session_key sid bucket) c
  unfolding let_through
  let_through-le-limit sid [] c = omega arith
  let_through-le-limit sid (a ∷ rest) c =
      let r = check true l now a.sid a.number a.rid c in
      let ih = let_through-le-limit sid rest r.1 in
      elim (Bool-cases (a.sid == sid)) [
        | inl y ↦
            let e = ==→eq a.sid sid y in
            let (p, q) = check-read_self a.sid a.number a.rid c in
            let p' =
              subst (λ j. read (session_key j bucket) r.1 ≡ read (session_key j bucket) c + 1) e
                p in
            let q' =
              subst (λ j. passes r.0 ≡ true → read (session_key j bucket) c + 1 ≤ limit) e q in
            rw (y) (
              counted (passes r.0) (let_through l now sid rest r.1)
                (read (session_key sid bucket) c) limit
                (subst (λ (x : ℕ). let_through l now sid rest r.1 ≤ limit - x) p' ih) q')
        | inr n ↦ rw (n) (
            subst (λ (x : ℕ). let_through l now sid rest r.1 ≤ limit - x)
              (check-read_other sid a.sid a.number a.rid c n) ih)
      ]
