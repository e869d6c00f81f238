-- ===== src/Transport.antt =====
-- crates/transport: what viewer and host share below the protocol.
pub mod Interface
pub mod World
pub mod Channel
pub mod Url
pub mod Link
pub mod Peer
pub mod FakeSignal
pub mod Net
