-- ===== src/Relay.antt =====
-- The delivery to the recipients' MX servers, of internal/relay.
pub mod Body
pub mod Domains
pub mod Backoff
pub mod Group
pub mod Deliver
