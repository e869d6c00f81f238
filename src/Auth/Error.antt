-- ===== src/Auth/Error.antt =====
-- crates/auth/src/error.rs
use simple_remote.Base.{String}

pub data AuthError : Type 0 where
  wrong_code : AuthError
  malformed : String → AuthError
  bad_signature bad_seal name_too_long : AuthError
