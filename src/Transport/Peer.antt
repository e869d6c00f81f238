-- ===== src/Transport/Peer.antt =====
-- crates/transport/src/peer.rs: the sockets of a `Peer`, what it makes of the events of str0m, `send`,
-- and which receive errors leave a socket usable. The WebRTC library and the operating system are
-- parameters. `Poll` has the loop of `poll`.
pub mod Poll
use simple_remote.Base.{
  ℕ, Bool, true, false, Option, none, some, List, [], ◌∷◌, Result, ok, err, map_err, ◌>>=◌, ◌>>◌,
  bytes_eq, codes, ◌==◌, ◌&&◌, any_of, if◌then◌else◌,
}
use simple_remote.Base.Text.{Bytes, Str}
use simple_remote.Transport.Interface.{
  PeerEvent, TransportError, backpressure, no_channel, IoKind, would_block, timed_out,
  connection_reset, connection_refused, invalid_input,
}

abbrev pub control_label : Str
control_label = codes "control"

-- `str0m::Event`; a channel id is a number.
pub data Event : Type 0 where
  connected : Event
  channel_open : ℕ → Str → Event
  channel_data : Bytes → Event
  channel_close : ℕ → Event
  closed other : Event

-- The address of a socket
abbrev pub Addr : Type 0
Addr = Str × ℕ

-- The sockets by their addresses, and the candidates that the library has been given, newest first
pub record Peer : Type 0 where
  pub sockets : List Addr
  pub candidates : List Addr
  pub control : Option ℕ

abbrev pub addr_eq : Addr → Addr → Bool
addr_eq (ip, port) (ip', port') = bytes_eq ip ip' && (port == port')

-- What opening a socket at an address of the machine gives: its `bind`, `set_nonblocking` and
-- `local_addr`, and the library's check of the candidate.
pub record Os : Type 0 where
  pub bind : Str → Result (Unit {0}) IoKind
  pub set_nonblocking : Str → Result (Unit {0}) IoKind
  pub local_addr : Str → Result Addr IoKind
  pub candidate : Addr → Result (Unit {0}) (Unit {0})

-- `sockets.insert`: a socket with the same address is replaced.
unfoldable pub insert : Addr → List Addr → List Addr
insert a sockets = if any_of (addr_eq a) sockets then sockets else a ∷ sockets

module _ (os : Os) where
  -- One round of the loop of `new`
  unfoldable pub open_socket : Str → Peer → Result Peer TransportError
  open_socket ip p = do
    map_err TransportError.io (os.bind ip)
    map_err TransportError.io (os.set_nonblocking ip)
    addr ← map_err TransportError.io (os.local_addr ip)
    map_err (λ _. TransportError.rtc) (os.candidate addr)
    ok (record p { sockets = insert addr p.sockets; candidates = addr ∷ p.candidates })

  unfoldable pub open_sockets : List Str → Peer → Result Peer TransportError
  open_sockets [] p = ok p
  open_sockets (ip ∷ ips) p = do p' ← open_socket ip p; open_sockets ips p'

  unfoldable pub new : List Str → Result Peer TransportError
  new [] = err (TransportError.io invalid_input)
  new (ip ∷ ips) =
      open_sockets (ip ∷ ips) (record { sockets = []; candidates = []; control = none })

unfoldable pub map_event : Event → Peer → Option PeerEvent × Peer
map_event connected p = (some PeerEvent.connected, p)
map_event (channel_open id label) p =
    if bytes_eq label control_label
    then (some PeerEvent.channel_open, record p { control = some id })
    else (none, p)
map_event (channel_data d) p = (some (PeerEvent.received d), p)
map_event (channel_close id) p = elim p.control [
  | none ↦ (none, p)
  | some c ↦ if c == id then (some PeerEvent.closed, p) else (none, p)
]
map_event closed p = (some PeerEvent.closed, p)
map_event other p = (none, p)

-- `channel` says whether the channel still exists, and what its `write` gives.
unfoldable pub send :
    (ℕ → Option (Bytes → Result Bool (Unit {0}))) → Bytes → Peer → Result (Unit {0}) TransportError
send channel bytes p = elim p.control [
  | none ↦ err no_channel
  | some id ↦ elim (channel id) [
    | none ↦ err no_channel
    | some write ↦ elim (write bytes) [
      | err _ ↦ err TransportError.rtc
      | ok wrote ↦ if wrote then ok tt else err backpressure
    ]
  ]
]

unfoldable pub recv_error_is_transient : IoKind → Bool
recv_error_is_transient would_block = true
recv_error_is_transient timed_out = true
recv_error_is_transient connection_reset = true
recv_error_is_transient connection_refused = true
recv_error_is_transient _ = false
