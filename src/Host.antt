-- ===== src/Host.antt =====
-- apps/host-agent: the host's side of a connection.
pub mod Attempts
pub mod Session
pub mod Register
