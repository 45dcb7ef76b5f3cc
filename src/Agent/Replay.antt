-- ===== src/Agent/Replay.antt =====
-- A request that comes a second time.
use infinity_radius.Prelude.{
  ℕ, ◌+◌, ◌≤◌, ◌<◌, ◌≡◌, refl, arith, Text, Option, some, none, List, [], ◌∷◌, true, false,
  eq_text_refl, ◌∙◌, Bool-cases, ◌*◌, inl, inr, absurd_Bool, sym, ap,
}
use infinity_radius.Agent.Nonces.{
  Seen, purge_expired, contains, seen_before, AgentSettings, SignedRequest, within_skew,
  is_authentic, verify_agent_signature, text_or_empty,
}

-- From one time until another the nonce is in the cache.
unfoldable pub Remembered : Text → ℕ → ℕ → Seen → Type 0
Remembered nonce since until seen =
    (now : ℕ) → since ≤ now → now < until → contains nonce (purge_expired now seen) ≡ true

-- Requests served one after the other, at times that never go back, and the cache after them.
unfoldable pub Ordered : ℕ → List (ℕ × SignedRequest) → ℕ → Type 0
Ordered since [] until = since ≤ until
Ordered since ((t, r) ∷ rs) until = (since ≤ t) × Ordered t rs until

unfoldable pub serve :
    (Text → Text → Text) → (Text → Text) → AgentSettings → List (ℕ × SignedRequest) → Seen → Seen
serve hmac digest c [] seen = seen
serve hmac digest c ((t, r) ∷ rs) seen =
    serve hmac digest c rs (verify_agent_signature hmac digest c t r seen).1

purge-purge :
    (nonce : Text) (now later : ℕ) (seen : Seen)
    → now ≤ later
    → contains nonce (purge_expired later (purge_expired now seen))
      ≡ contains nonce (purge_expired later seen)
unfolding purge_expired contains
purge-purge nonce now later [] h = refl
purge-purge nonce now later ((n, e) ∷ seen) h = grind (arith, purge-purge nonce now later seen h)

contains-own :
    (nonce : Text) (e now : ℕ) (seen : Seen)
    → now < e
    → contains nonce (purge_expired now ((nonce, e) ∷ seen)) ≡ true
unfolding purge_expired contains
contains-own nonce e now seen h = ground (arith, eq_text_refl nonce)

contains-other :
    (nonce n : Text) (e now : ℕ) (seen : Seen)
    → contains nonce (purge_expired now seen) ≡ true
    → contains nonce (purge_expired now ((n, e) ∷ seen)) ≡ true
unfolding purge_expired contains
contains-other nonce n e now seen h = ground arith

-- A later call of the cache forgets no nonce before its time.
seen_before-Remembered :
    (nonce other : Text) (since until ttl now : ℕ) (seen : Seen)
    → Remembered nonce since until seen
    → since ≤ now
    → Remembered nonce now until (seen_before ttl now other seen).1
unfolding Remembered seen_before
seen_before-Remembered nonce other since until ttl now seen h g later k l =
    let kept = purge-purge nonce now later seen k ∙ h later (omega arith) l in
    elim (Bool-cases (contains other (purge_expired now seen))) [
      | inl c ↦ rw (c) kept
      | inr c ↦ rw (c) (contains-other nonce other (now + ttl) later (purge_expired now seen) kept)
    ]

later-Remembered :
    (nonce : Text) (since now until : ℕ) (seen : Seen)
    → since ≤ now
    → Remembered nonce since until seen
    → Remembered nonce now until seen
unfolding Remembered
later-Remembered nonce since now until seen g h later k l = h later (omega arith) l

Remembered-now :
    (nonce : Text) (now until : ℕ) (seen : Seen)
    → Remembered nonce now until seen
    → now < until
    → contains nonce (purge_expired now seen) ≡ true
unfolding Remembered
Remembered-now nonce now until seen h l = h now (omega arith) l

module _ (hmac : Text → Text → Text) (digest : Text → Text) (c : AgentSettings) where
  verify-Remembered :
      (nonce : Text) (since until now : ℕ) (r : SignedRequest) (seen : Seen)
      → Remembered nonce since until seen
      → since ≤ now
      → Remembered nonce now until (verify_agent_signature hmac digest c now r seen).1
  unfolding verify_agent_signature
  verify-Remembered nonce since until now r seen h g =
      elim (Bool-cases (is_authentic hmac digest c now r)) [
        | inl a ↦ rw (a) (
            seen_before-Remembered nonce (text_or_empty r.nonce) since until
              c.nonce_cache_ttl_seconds now seen h g)
        | inr a ↦ rw (a) (later-Remembered nonce since now until seen g h)
      ]

  serve-Remembered :
      (nonce : Text) (since until now : ℕ) (rs : List (ℕ × SignedRequest)) (seen : Seen)
      → Remembered nonce since until seen
      → Ordered since rs now
      → Remembered nonce now until (serve hmac digest c rs seen)
  unfolding serve Ordered
  serve-Remembered nonce since until now [] seen h g =
      later-Remembered nonce since now until seen g h
  serve-Remembered nonce since until now ((t, r) ∷ rs) seen h (g, o) =
      serve-Remembered nonce t until now rs _ (verify-Remembered nonce since until t r seen h g) o

  authentic_skew :
      (now : ℕ) (r : SignedRequest)
      → is_authentic hmac digest c now r ≡ true
      → within_skew c.request_max_skew_seconds now r.request_time ≡ true
  unfolding is_authentic
  authentic_skew now r h = ground arith

  accepted :
      (now : ℕ) (r : SignedRequest) (seen after : Seen)
      → verify_agent_signature hmac digest c now r seen ≡ (true, after)
      → (is_authentic hmac digest c now r ≡ true)
        × ((text_or_empty r.nonce, now + c.nonce_cache_ttl_seconds) ∷ purge_expired now seen
            ≡ after)
  unfolding verify_agent_signature seen_before
  accepted now r seen after e = elim (Bool-cases (is_authentic hmac digest c now r)) [
    | inr a ↦ absurd_Bool (sym (ap (λ p. p.0) (rw (a) at e)))
    | inl a ↦ elim (Bool-cases (contains (text_or_empty r.nonce) (purge_expired now seen))) [
      | inl d ↦ absurd_Bool (sym (ap (λ p. p.0) (rw (a, d) at e)))
      | inr d ↦ (a, ap (λ p. p.1) (rw (a, d) at e))
    ]
  ]

  own-Remembered :
      (nonce : Text) (now until : ℕ) (seen : Seen)
      → Remembered nonce now until ((nonce, until) ∷ seen)
  unfolding Remembered
  own-Remembered nonce now until seen later k l = contains-own nonce until later seen l

  skew_bound :
      (skew now later : ℕ) (t : Option ℕ)
      → within_skew skew now t ≡ true
      → within_skew skew later t ≡ true
      → later ≤ now + 2 * skew
  unfolding within_skew
  skew_bound skew now later none h k = cc
  skew_bound skew now later (some t) h k = ground arith

  -- If the cache remembers a nonce for more than twice the allowed skew, then a request that was
  -- let through is not let through again at any later time, whatever requests are served in
  -- between, as long as the clock never goes back.
  pub verify_agent_signature-replay :
      (now later : ℕ) (r : SignedRequest) (rs : List (ℕ × SignedRequest)) (seen after : Seen)
      → 2 * c.request_max_skew_seconds < c.nonce_cache_ttl_seconds
      → verify_agent_signature hmac digest c now r seen ≡ (true, after)
      → Ordered now rs later
      → (verify_agent_signature hmac digest c later r (serve hmac digest c rs after)).0 ≡ false
  unfolding verify_agent_signature seen_before
  verify_agent_signature-replay now later r rs seen after t e o =
      let (a, d) = accepted now r seen after e in
      let nonce = text_or_empty r.nonce in
      let until = now + c.nonce_cache_ttl_seconds in
      let kept = rw d at (own-Remembered nonce now until (purge_expired now seen)) in
      let still = serve-Remembered nonce now until later rs after kept o in
      elim (Bool-cases (is_authentic hmac digest c later r)) [
        | inr x ↦ rw (x) refl
        | inl x ↦
            let bound =
              skew_bound c.request_max_skew_seconds now later r.request_time
                (authentic_skew now r a) (authentic_skew later r x) in
            rw (x, Remembered-now nonce later until _ still (omega arith)) refl
      ]
