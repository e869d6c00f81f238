-- ===== src/Protocol/PakeMsg.antt =====
-- crates/protocol/src/pake_msg.rs: the messages that viewer and host relay through signaling.
use simple_remote.Base.{ℕ, Option}
use simple_remote.Base.Text.{Bytes}
use simple_remote.Protocol.Serde.{Codec}

pub data PakeMsg : Type 0 where
  start : Bytes → PakeMsg
  reply : Bytes → Bytes → PakeMsg
  confirm : Bytes → Bytes → PakeMsg
  answer : Bytes → PakeMsg
  retry_after : ℕ → PakeMsg
  rejected : PakeMsg

unfoldable pub encode : Codec PakeMsg Bytes → PakeMsg → Bytes
encode c msg = c.to_wire msg

unfoldable pub decode : Codec PakeMsg Bytes → Bytes → Option PakeMsg
decode c bytes = c.from_wire bytes
