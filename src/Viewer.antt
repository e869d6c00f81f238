-- ===== src/Viewer.antt =====
-- crates/viewer-core: the viewer's side of a connection.
pub mod Connect
pub mod Session
