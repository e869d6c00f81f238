-- ===== src/System.antt =====
-- Host and viewer together: apps/host-agent/src/session.rs against crates/viewer-core/src/connect.rs.
pub mod Wire
pub mod Together
