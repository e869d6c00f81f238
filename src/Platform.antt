-- ===== src/Platform.antt =====
-- What viewer and host take from outside the program: the cryptographic libraries, the serialisers,
-- the random generator and the WebRTC peer of crates/transport/src/peer.rs, as far as one attempt
-- sees it. Every field is a parameter of the sessions.
use simple_remote.Base.{ℕ, Option, Result, List}
use simple_remote.Base.Text.{Bytes, Str}
use simple_remote.Protocol.Control.{Control}
use simple_remote.Protocol.PakeMsg.{PakeMsg}
use simple_remote.Protocol.Serde.{Codec}
use simple_remote.Auth.Code.{OneTimeCode}
use simple_remote.Auth.Pake.{PakeLib}
use simple_remote.Auth.Sealed.{Aead}
use simple_remote.Auth.Identity.{Ed25519}
use simple_remote.Transport.Interface.{TransportError}

pub record Platform : Type 1 where
  pub pake_lib : PakeLib
  pub aead : Aead
  pub ed25519 : Ed25519
  pub sha256 : Bytes → Bytes
  pub hex : Codec Bytes Str
  pub pake_codec : Codec PakeMsg Bytes
  pub control_codec : Codec Control Bytes
  -- the `n`-th random value, as a code from `OneTimeCode::generate` or as bytes for the exchange
  pub fresh_code : ℕ → OneTimeCode
  pub fresh_bytes : ℕ → Bytes
  -- `Peer::new`, `create_offer`, `accept_offer`, `accept_answer` and the fingerprints
  pub peer_new : List Str → Result (Unit {0}) TransportError
  pub create_offer : Result Str TransportError
  pub accept_offer : Str → Result Str TransportError
  pub accept_answer : Str → Result (Unit {0}) TransportError
  pub local_fingerprint : Bytes
  pub remote_fingerprint : Option Bytes
