-- ===== src/Tests/Sockets.antt =====
-- The theorems on the sockets, the polling of the peer and the server in memory at concrete inputs.
use simple_remote.Base.{
  ℕ, ◌≡◌, ◌⊎◌, refl, Option, none, some, List, [], ◌∷◌, ◌++◌, ok, err, codes, bytes_eq, ◌==◌, arith,
  if◌then◌else◌,
}
use simple_remote.Base.Text.{Str}
use simple_remote.Protocol.Signaling.{ServerToHost, ViewerToServer}
use simple_remote.Transport.Interface.{PeerEvent, TransportError, would_block, connection_refused}
use simple_remote.Transport.Url.{
  Uri, Authority, ensure_secure_url, strip_ipv6_brackets, strip_prefix, lower, to_ascii_lowercase,
}
use simple_remote.Transport.Url.Laws.{IsSecure}
use simple_remote.Transport.Link.{WsLink}
use simple_remote.Transport.Link.Connect.{
  Network, max_message_bytes, host_of, port_or_default, tcp_loop, connect_tcp, upgrade, connect,
}
use simple_remote.Transport.Link.Connect.First.{FirstOf, connect-IsSecure}
use simple_remote.Base.{Result, inr, inl}
use simple_remote.Transport.Peer.Poll.{Sent}
use simple_remote.Transport.Peer.{Event, Peer, Addr}
use simple_remote.Transport.Peer.Poll.{event, timeout, transmit, failed, Round, poll_loop}
use simple_remote.Transport.Peer.Poll.Events.{Told, poll_loop-Told}
use simple_remote.Transport.FakeSignal.{Inner, FakeViewerLink, new, viewer, host_recv, viewer_send}
use simple_remote.Transport.FakeSignal.Reach.{
  heard, start, viewer_comes, host_receives, viewer_sends,
}
use simple_remote.Transport.FakeSignal.Order.{Announced, Reaches-Announced}
use simple_remote.Tests.Toy.{hex}

-- A host with two addresses, of which the second takes the connection.
abbrev network : Network
network = record {
  Addr = ℕ;
  Stream = ℕ;
  to_socket_addrs = λ host port. ok (1 ∷ port ∷ []);
  tcp_connect = λ a d. if a == 1 then err connection_refused else ok a;
  set_nodelay = λ s. ok tt;
  set_read_timeout = λ s d. ok tt;
  set_write_timeout = λ s d. ok tt;
  handshake = λ url s n. ok tt;
}

abbrev example_url : Str
example_url = codes "wss://example.org"

abbrev parse : Str → Option Uri
parse url =
    if bytes_eq url example_url
    then some (record {
      scheme = some (codes "wss");
      authority = some (record { text = codes "example.org"; host = codes "example.org" });
    })
    else none

abbrev open_link : WsLink
open_link = record { closed = none }

connects : connect network parse (λ u. none) example_url ≡ ok (443, open_link)
unfolding connect ensure_secure_url host_of strip_ipv6_brackets strip_prefix port_or_default
    connect_tcp tcp_loop upgrade lower to_ascii_lowercase
connects = refl

connect-IsSecure_example :
    (uri : Uri) × (authority : Authority) × (addrs : List ℕ) × (parse example_url ≡ some uri)
    × IsSecure uri
    × (uri.authority ≡ some authority)
    × (network.to_socket_addrs (strip_ipv6_brackets authority.host) (port_or_default none uri)
        ≡ ok addrs)
    × FirstOf network addrs 443
    × (network.handshake example_url 443 max_message_bytes ≡ ok tt)
    × (open_link.closed ≡ none)
connect-IsSecure_example =
    connect-IsSecure network parse (λ u. none) example_url 443 open_link connects

abbrev here : Addr
here = (codes "10.0.0.1", 5000)

abbrev peer : Peer
peer = record { sockets = here ∷ []; candidates = here ∷ []; control = none }

-- A round with a datagram to send and nothing to tell, then one in which the channel opens.
abbrev rounds : List Round
rounds =
    record {
      outputs = ok (transmit here here (1 ∷ [])) ∷ ok timeout ∷ [];
      at = 1;
      received = failed would_block ∷ [];
      timed = ok tt;
    }
    ∷ record {
      outputs = ok (event (Event.channel_open 7 (codes "control"))) ∷ ok timeout ∷ [];
      at = 2;
      received = [];
      timed = ok tt;
    }
    ∷ []

poll_loop-Told_example :
    (r : Result (List PeerEvent) TransportError) × (p' : Peer) × (sent : Sent) × (poll_loop 2 rounds
        peer
      ≡ some ((r, p'), sent))
    × (((e : TransportError) × (r ≡ err e))
        ⊎ ((events : List PeerEvent) × (r ≡ ok events) × Told 2 rounds peer events p'))
poll_loop-Told_example = poll_loop-Told 2 rounds peer (tt, inr (tt, inl (omega arith)))

-- A viewer comes, the host hears of it, and the viewer sends a message.
abbrev entered : Inner
entered = (host_recv (viewer new).1).1

abbrev seen : List ServerToHost
seen = [] ++ heard (host_recv (viewer new).1).0

abbrev sender : FakeViewerLink
sender = record { generation = 0; closed_code = none }

Reaches-Announced_example :
    Announced seen (viewer_send (ViewerToServer.relay (9 ∷ [])) sender entered).1
Reaches-Announced_example =
    Reaches-Announced hex 1 seen (viewer_send (ViewerToServer.relay (9 ∷ [])) sender entered).1
      (viewer_sends (ViewerToServer.relay (9 ∷ [])) sender (host_receives (viewer_comes start)))
