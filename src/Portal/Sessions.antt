-- ===== src/Portal/Sessions.antt =====
-- captive_session.py: sessions of the portal. `none` is `CaptiveSessionError`. What a token stands
-- for (`resolve_captive_intent_token`) is an argument.
use infinity_radius.Prelude.{
  ℕ, ◌+◌, Bool, true, false, ◌&&◌, not, Option, none, some, if◌then◌else◌, leb, lookup, insert,
  Text,
}
use infinity_radius.Portal.Tables.{CaptiveSession, Portal}

-- `CaptivePortalSessionService.issue`; creating the token fails if no key is configured.
unfoldable pub issue_row : ℕ → ℕ → Bool → ℕ → ℕ → Option Text → Option ℕ → Portal → Option Portal
issue_row now ttl has_key id router mac none s = none
issue_row now ttl has_key id router mac (some t) s =
    if has_key
    then some (record s {
      sessions =
          insert id
            (record {
              id = id;
              tenant_id = t;
              router_id = router;
              mac_address = mac;
              consumed_at = none;
              expires_at = now + ttl;
            })
            s.sessions;
    })
    else none

unfoldable pub issue : ℕ → ℕ → Bool → ℕ → ℕ → Option Text → Portal → Option Portal
unfolding issue_row
issue now ttl has_key id router mac s =
    issue_row now ttl has_key id router mac (lookup router s.routers) s

unfoldable pub is_unset : Option ℕ → Bool
is_unset none = true
is_unset (some n) = false

unfoldable pub usable : ℕ → ℕ → Option CaptiveSession → Option (ℕ × CaptiveSession)
unfolding is_unset
usable now id none = none
usable now id (some c) =
    if is_unset c.consumed_at && not (leb c.expires_at now) then some (id, c) else none

-- `resolve`: the key of the row, and the row.
unfoldable pub resolve : ℕ → Option ℕ → Portal → Option (ℕ × CaptiveSession)
unfolding usable
resolve now none s = none
resolve now (some id) s = usable now id (lookup id s.sessions)

-- `consume`
unfoldable pub consume : ℕ → ℕ → CaptiveSession → Portal → Portal
consume now id c s = record s {
  sessions = insert id (record c { consumed_at = some now }) s.sessions;
}
