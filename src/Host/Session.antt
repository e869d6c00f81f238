-- ===== src/Host/Session.antt =====
-- apps/host-agent/src/session.rs: one viewer after another, from the signaling relay to a session.
-- The children are the parts of an attempt, each built on those before it: `Relay`
-- (messages through signaling), `Approval`, `Handshake` (over the data channel), `Attempt`.
pub mod Pings
pub mod Types
pub mod Relay
pub mod Approval
pub mod Handshake
pub mod Attempt
