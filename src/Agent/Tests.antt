-- ===== src/Agent/Tests.antt =====
-- A request and its replay.
use infinity_radius.Prelude.{refl, true, false, text, some, [], ◌∷◌, arith, Text, ◌≡◌, eq_text}
use infinity_radius.Agent.Nonces.{
  SignedRequest, AgentSettings, verify_agent_signature, is_authentic, within_skew,
  signature_is_valid, seen_before, purge_expired, contains,
}
use infinity_radius.Agent.Replay.{Ordered, serve, verify_agent_signature-replay}

abbrev keyed : Text → Text → Text
keyed key message = key

abbrev shortened : Text → Text
shortened body = []

abbrev agent : AgentSettings
agent = record {
  request_max_skew_seconds = 300;
  nonce_cache_ttl_seconds = 601;
  active_signing_keys = text "k2" ∷ text "k1" ∷ [];
}

abbrev signed : SignedRequest
signed = record {
  timestamp = some (text "1300");
  nonce = some (text "n");
  signature = some (text "k1");
  request_time = some 1300;
  method = text "post";
  path = text "/routers";
  body = [];
}

abbrev other_request : SignedRequest
other_request = record signed { nonce = some (text "m") }

accepted_once :
    verify_agent_signature keyed shortened agent 1000 signed [] ≡ (true, (text "n", 1601) ∷ [])
unfolding verify_agent_signature is_authentic within_skew signature_is_valid seen_before
    purge_expired contains eq_text
accepted_once = refl

in_order : Ordered 1000 ((1200, other_request) ∷ []) 1600
unfolding Ordered
in_order = (omega arith, omega arith)

verify_agent_signature-replay_example :
    (verify_agent_signature keyed shortened agent 1600 signed
      (serve keyed shortened agent ((1200, other_request) ∷ []) ((text "n", 1601) ∷ []))).0
    ≡ false
verify_agent_signature-replay_example =
    verify_agent_signature-replay keyed shortened agent 1000 1600 signed
      ((1200, other_request) ∷ []) [] ((text "n", 1601) ∷ []) (omega arith) accepted_once in_order

-- With a cache that remembers for twice the skew and no longer, the replay at the last second is
-- let through.
replayed_at_the_edge :
    (verify_agent_signature keyed shortened
      (record agent { nonce_cache_ttl_seconds = 600 })
      1600
      signed
      (verify_agent_signature keyed shortened
        (record agent { nonce_cache_ttl_seconds = 600 })
        1000
        signed
        []).1).0
    ≡ true
unfolding verify_agent_signature is_authentic within_skew signature_is_valid seen_before
    purge_expired contains eq_text
replayed_at_the_edge = refl
