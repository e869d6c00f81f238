-- ===== src/Protocol/Control.antt =====
-- crates/protocol/src/control.rs: the messages of the control data channel, and their size limit.
pub mod Laws
use simple_remote.Base.{
  ℕ, ◌*◌, Bool, Option, none, some, Result, ok, err, length, ltb, if◌then◌else◌,
}
use simple_remote.Base.Text.{Bytes, Str}
use simple_remote.Protocol.Serde.{Codec}

abbrev pub max_control_bytes : ℕ
max_control_bytes = 16 * 1024

pub record Hello : Type 0 where
  pub protocol_version : ℕ
  pub device_key : Bytes
  pub device_name : Str
  pub reconnect_key : Bytes
  pub reconnect_key_sig : Bytes
  pub session_sig : Bytes

pub data RejectReason : Type 0 where
  denied no_response : RejectReason
  version_mismatch : ℕ → RejectReason
  bad_identity : RejectReason

pub data Decision : Type 0 where
  accepted : Decision
  rejected : RejectReason → Decision

pub data Control : Type 0 where
  hello : Hello → Control
  decision : Decision → Control
  ping : ℕ → Control
  pong : ℕ → Control

-- `DecodeError`, without the text that postcard gives.
pub data DecodeError : Type 0 where
  too_large : ℕ → ℕ → DecodeError
  postcard : DecodeError

unfoldable pub encode : Codec Control Bytes → Control → Bytes
encode c msg = c.to_wire msg

unfoldable pub decode : Codec Control Bytes → Bytes → Result Control DecodeError
decode c bytes =
    if ltb max_control_bytes (length bytes)
    then err (too_large (length bytes) max_control_bytes)
    else elim (c.from_wire bytes) [ none ↦ err postcard | some msg ↦ ok msg ]
