-- ===== src/Transport/Link/Connect.antt =====
-- crates/transport/src/link.rs: `WsLink::connect` and `connect_tcp`. The parser of URLs, sockets and
-- the WebSocket library with its TLS are parameters.
pub mod First
use simple_remote.Base.{
  ℕ, Option, none, some, List, [], ◌∷◌, Result, ok, err, map_err, ◌>>=◌, ◌>>◌, ◌*◌, codes,
  if◌then◌else◌,
}
use simple_remote.Base.Text.{Str}
use simple_remote.Protocol.{Duration, from_secs}
use simple_remote.Transport.Interface.{LinkError, IoKind, not_found, timed_out, insecure_url}
use simple_remote.Transport.Url.{
  Uri, scheme_of, eq_ignore_case, strip_ipv6_brackets, ensure_secure_url,
}
use simple_remote.Transport.Link.{WsLink, WsError, map_tungstenite_err}

abbrev pub connect_timeout : Duration
connect_timeout = from_secs 10

abbrev pub max_message_bytes : ℕ
max_message_bytes = 128 * 1024

-- `tungstenite::HandshakeError`
pub data HandshakeError : Type 0 where
  failure : WsError → HandshakeError
  interrupted : HandshakeError

-- The calls of the operating system, and `client_tls_with_config`, which is told the URL and the
-- largest message.
pub record Network : Type 1 where
  pub Addr : Type 0
  pub Stream : Type 0
  pub to_socket_addrs : Str → ℕ → Result (List Addr) IoKind
  pub tcp_connect : Addr → Duration → Result Stream IoKind
  pub set_nodelay : Stream → Result (Unit {0}) IoKind
  pub set_read_timeout : Stream → Duration → Result (Unit {0}) IoKind
  pub set_write_timeout : Stream → Duration → Result (Unit {0}) IoKind
  pub handshake : Str → Stream → ℕ → Result (Unit {0}) HandshakeError

unfoldable pub map_handshake_err : HandshakeError → LinkError
map_handshake_err (failure e) = map_tungstenite_err e
map_handshake_err interrupted = LinkError.io timed_out

-- `uri.host()`
unfoldable pub host_of : Uri → Result Str LinkError
host_of uri = elim uri.authority [ none ↦ err insecure_url | some a ↦ ok a.host ]

-- `uri.port_u16().unwrap_or(default_port)`
unfoldable pub port_or_default : Option ℕ → Uri → ℕ
port_or_default (some port) uri = port
port_or_default none uri = if eq_ignore_case (scheme_of uri) (codes "wss") then 443 else 80

module _ (net : Network) where
  -- The loop of `connect_tcp`
  unfoldable pub tcp_loop : IoKind → List net.Addr → Result net.Stream LinkError
  tcp_loop last_err [] = err (LinkError.io last_err)
  tcp_loop last_err (addr ∷ more) = elim (net.tcp_connect addr connect_timeout) [
    | ok stream ↦ ok stream
    | err e ↦ tcp_loop e more
  ]

  unfoldable pub connect_tcp : Str → ℕ → Result net.Stream LinkError
  connect_tcp host port = do
    addrs ← map_err LinkError.io (net.to_socket_addrs host port)
    tcp_loop not_found addrs

  -- The rest of `connect`, on the stream
  unfoldable pub upgrade : Str → net.Stream → Result (net.Stream × WsLink) LinkError
  upgrade url stream = do
    map_err LinkError.io (net.set_nodelay stream)
    map_err LinkError.io (net.set_read_timeout stream connect_timeout)
    map_err LinkError.io (net.set_write_timeout stream connect_timeout)
    map_err map_handshake_err (net.handshake url stream max_message_bytes)
    ok (stream, record { closed = none })

  unfoldable pub connect :
      (Str → Option Uri) → (Uri → Option ℕ) → Str → Result (net.Stream × WsLink) LinkError
  connect parse port_u16 url = do
    uri ← ensure_secure_url parse url
    host ← host_of uri
    stream ← connect_tcp (strip_ipv6_brackets host) (port_or_default (port_u16 uri) uri)
    upgrade url stream
