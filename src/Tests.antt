-- ===== src/Tests.antt =====
-- The theorems at concrete inputs, and the stand-ins with which they run.
pub mod Toy
pub mod Code
pub mod Keys
pub mod Identity
pub mod Guard
pub mod Channel
pub mod Host
pub mod Viewer
pub mod Links
pub mod System
pub mod Console
pub mod Programs
pub mod Sockets
