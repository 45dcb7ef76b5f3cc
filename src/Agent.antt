-- ===== src/Agent.antt =====
-- apps/network-agent/app/core: the signature of a request, the cache of nonces against replays, and
-- the allow-list of addresses.
pub mod Allowlist
pub mod Nonces
pub mod Replay
mod Tests
mod AllowlistTests
