-- ===== src/Auth.antt =====
-- crates/auth: the one-time code, the password-authenticated key exchange, the sealed messages and
-- the identities. `Error` is error.rs.
pub mod Error
pub mod Code
pub mod Sealed
pub mod Pake
pub mod Identity
