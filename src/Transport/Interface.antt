-- ===== src/Transport/Interface.antt =====
-- crates/transport: the errors of error.rs and link.rs and the events of peer.rs. Texts that other
-- libraries produce are left out of the errors.
use simple_remote.Base.{ℕ, Option}
use simple_remote.Base.Text.{Bytes}

-- The kinds of `std::io::ErrorKind` that the sources name.
pub data IoKind : Type 0 where
  would_block timed_out connection_reset connection_refused invalid_input not_found other : IoKind

pub data TransportError : Type 0 where
  io : IoKind → TransportError
  rtc : TransportError
  backpressure no_channel : TransportError

pub data LinkError : Type 0 where
  closed : Option ℕ → LinkError
  http : ℕ → LinkError
  insecure_url : LinkError
  io : IoKind → LinkError
  protocol : LinkError

pub data PeerEvent : Type 0 where
  connected channel_open : PeerEvent
  received : Bytes → PeerEvent
  closed : PeerEvent
