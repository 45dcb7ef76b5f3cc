-- ===== src/Agent/Nonces.antt =====
-- nonce_cache.py, and `verify_agent_signature` of security.py. Both clocks of the process are one
-- here, in seconds; the digest and the keyed hash are parameters.
use infinity_radius.Prelude.{
  ℕ, ◌+◌, ◌-◌, Bool, true, false, ◌&&◌, ◌||◌, not, List, [], ◌∷◌, Text, Option, none, some, eq_text,
  is_blank, leb, if◌then◌else◌, ◌++◌, upper,
}

-- `NonceCache._seen`: each nonce with its expiry.
abbrev pub Seen : Type 0
Seen = List (Text × ℕ)

unfoldable pub purge_expired : ℕ → Seen → Seen
purge_expired now [] = []
purge_expired now ((nonce, expires_at) ∷ seen) =
    if leb expires_at now
    then purge_expired now seen
    else (nonce, expires_at) ∷ purge_expired now seen

unfoldable pub contains : Text → Seen → Bool
contains nonce [] = false
contains nonce ((n, expires_at) ∷ seen) = eq_text n nonce || contains nonce seen

-- Whether the nonce was recorded already, and the cache afterwards.
unfoldable pub seen_before : ℕ → ℕ → Text → Seen → Bool × Seen
unfolding purge_expired contains
seen_before ttl now nonce seen =
    let kept = purge_expired now seen in
    if contains nonce kept then (true, kept) else (false, (nonce, now + ttl) ∷ kept)

-- The settings, and a request with its headers: the timestamp as `int` has read it, if it could.
pub record AgentSettings : Type 0 where
  pub request_max_skew_seconds : ℕ
  pub nonce_cache_ttl_seconds : ℕ
  pub active_signing_keys : List Text

pub record SignedRequest : Type 0 where
  pub timestamp : Option Text
  pub nonce : Option Text
  pub signature : Option Text
  pub request_time : Option ℕ
  pub method : Text
  pub path : Text
  pub body : Text

unfoldable pub signature_is_valid : (Text → Text → Text) → Text → Text → List Text → Bool
signature_is_valid hmac message provided [] = false
signature_is_valid hmac message provided (key ∷ keys) =
    eq_text (hmac key message) provided || signature_is_valid hmac message provided keys

-- `abs(now - request_time) <= max_skew`
unfoldable pub within_skew : ℕ → ℕ → Option ℕ → Bool
within_skew skew now none = false
within_skew skew now (some t) = leb ((now - t) + (t - now)) skew

abbrev pub text_or_empty : Option Text → Text
text_or_empty none = []
text_or_empty (some s) = s

-- `_canonical_message`: five parts with a newline between them, the last the digest of the body. The
-- path has its query with it.
unfoldable pub canonical_message : (Text → Text) → SignedRequest → Text
canonical_message digest r =
    text_or_empty r.timestamp
    ++ (10 ∷ text_or_empty r.nonce)
    ++ (10 ∷ upper r.method)
    ++ (10 ∷ r.path)
    ++ (10 ∷ digest r.body)

-- The checks before the nonce, in their order.
unfoldable pub is_authentic :
    (Text → Text → Text) → (Text → Text) → AgentSettings → ℕ → SignedRequest → Bool
unfolding within_skew signature_is_valid
is_authentic hmac digest c now r =
    not (is_blank r.timestamp || (is_blank r.nonce || is_blank r.signature))
    && (within_skew c.request_max_skew_seconds now r.request_time
        && signature_is_valid hmac (canonical_message digest r) (text_or_empty r.signature)
            c.active_signing_keys)

-- `verify_agent_signature`: whether the request is let through, and the cache afterwards.
unfoldable pub verify_agent_signature :
    (Text → Text → Text) → (Text → Text) → AgentSettings → ℕ → SignedRequest → Seen → Bool × Seen
unfolding is_authentic seen_before
verify_agent_signature hmac digest c now r seen =
    if is_authentic hmac digest c now r
    then (let (replayed, after) =
          seen_before c.nonce_cache_ttl_seconds now (text_or_empty r.nonce) seen in
        (not replayed, after))
    else (false, seen)
