-- ===== src/Console.antt =====
-- The console programs: apps/host-agent/src/main.rs and apps/viewer/src/main.rs.
pub mod Text
pub mod Args
pub mod Approver
pub mod HostAgent
pub mod ViewerApp
