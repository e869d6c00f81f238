-- ===== src/Tests/Viewer.antt =====
-- The theorems on the viewer at concrete inputs: a session from joining to the host's decision.
use simple_remote.Base.{◌≡◌, refl, false, some, List, [], ◌∷◌, ◌++◌, Result, ok, codes}
use simple_remote.Base.Text.{Bytes, Str, utf8}
use simple_remote.Base.Utf8.{from_utf8}
use simple_remote.Base.Words.{u64_to_be, from_be}
use simple_remote.Protocol.{default_timeouts}
use simple_remote.Protocol.Control.{Control, Decision, Hello, encode, decode}
use simple_remote.Protocol.PakeMsg
use simple_remote.Protocol.PakeMsg.{PakeMsg}
use simple_remote.Protocol.Signaling.{ServerToViewer, ViewerToServer}
use simple_remote.Auth.Code.{OneTimeCode, as_str}
use simple_remote.Auth.Pake.{
  viewer_start, viewer_finish, code_scalar, host_id_bytes, to_mac, derive_session_keys,
}
use simple_remote.Auth.Sealed.{open_sealed, viewer_side, seal, frame, nonce_for}
use simple_remote.Auth.Identity.{
  DeviceKeys, PeerIdentity, make_hello, verify_hello, to_array, check_device_name, session_message,
  reconnect_message,
}
use simple_remote.Transport.Interface.{channel_open, received}
use simple_remote.Transport.World.{
  Call, link_dropped, World, now, link_recv, link_send, draw, peer_poll, peer_send,
}
use simple_remote.Transport.Channel.{
  Channel, new, wait_open, wait_open_loop, absorb, absorb_from, send, next, next_loop,
}
use simple_remote.Transport.Url.{strip_prefix}
use simple_remote.Host.Session.Attempt.{opened_text, first_opened, first_sealed}
use simple_remote.Viewer.Connect.{
  relay_of, recv_relay, send_relay, control_of, next_control, on_decision, on_hello, await_decision,
  exchange_hello, on_open, on_answer, use_answer, handshake,
}
use simple_remote.Viewer.Session.{
  ViewerSession, drop_link, on_join, on_reply, with_keys, connect_on, connect,
}
use simple_remote.Viewer.Session.Accepted.{Earned, connect-Earned}
use simple_remote.Auth.Code
use simple_remote.Auth.Identity
use simple_remote.Transport.Interface.{LinkError, TransportError}
use simple_remote.Viewer.Session.Disclosed.{Disclosed, connect-Disclosed}
use simple_remote.Tests.Toy.{zeros, platform, write_pake, write_control}

abbrev keys : DeviceKeys
keys = record { signing_key = 1 ∷ []; reconnect_secret = 2 ∷ []; name = codes "v" }

abbrev code : OneTimeCode
code = record { digits = codes "123456" }

abbrev id : Str
id = codes "123456789"

abbrev hello : Hello
hello = record {
  protocol_version = 1;
  device_key = zeros 32;
  device_name = codes "host";
  reconnect_key = zeros 32;
  reconnect_key_sig = zeros 64;
  session_sig = zeros 64;
}

abbrev answer : Bytes
answer = zeros 8 ++ (zeros 16 ++ codes "answer")

-- The server lets the viewer in, the host replies and answers, the channel opens, the host's
-- `Hello` comes, and then its decision.
abbrev world : World ServerToViewer ViewerToServer
world = record {
  clock = 0;
  ticks = [];
  arrivals =
      ok (some ServerToViewer.joined)
      ∷ ok (some (ServerToViewer.relay (write_pake (PakeMsg.reply (6 ∷ []) (zeros 32)))))
      ∷ ok (some (ServerToViewer.relay (write_pake (PakeMsg.answer answer))))
      ∷ [];
  link_faults = [];
  polls =
      ok (channel_open ∷ received (write_control (Control.hello hello)) ∷ [])
      ∷ ok (received (write_control (Control.decision Decision.accepted)) ∷ [])
      ∷ [];
  peer_faults = [];
  answers = [];
  draws = 0;
  trace = [];
}

abbrev open_channel : Channel
open_channel = record { pending = []; remote_closed = false; local_closed = false }

abbrev host : PeerIdentity
host = record { device_key = zeros 32; name = codes "host"; reconnect_key = zeros 32 }

abbrev begun : ViewerSession
begun = record { host = host; ch = open_channel; next_seq = 0 }

connects : (connect platform id code keys (codes "::1" ∷ []) default_timeouts world).0 ≡ ok begun
unfolding connect connect_on drop_link link_recv on_join draw viewer_start code_scalar as_str
    host_id_bytes send_relay link_send recv_relay relay_of PakeMsg.decode PakeMsg.encode on_reply
    viewer_finish to_mac derive_session_keys with_keys handshake first_sealed seal frame nonce_for
    u64_to_be viewer_side utf8 on_answer opened_text first_opened open_sealed from_be strip_prefix
    from_utf8 use_answer wait_open wait_open_loop now peer_poll absorb absorb_from on_open
    exchange_hello send encode peer_send make_hello next_control next next_loop decode control_of
    on_hello verify_hello to_array check_device_name session_message reconnect_message
    await_decision on_decision new
connects = refl

connect-Earned_example :
    Earned platform id code keys (codes "::1" ∷ []) default_timeouts world begun
connect-Earned_example =
    connect-Earned platform id code keys (codes "::1" ∷ []) default_timeouts world begun connects

connect-Disclosed_example :
    (before : List (Call ViewerToServer)) × ((connect platform id code keys [] default_timeouts
        world).1.trace
      ≡ link_dropped ∷ before)
    × Disclosed platform id code keys [] default_timeouts world before
connect-Disclosed_example = connect-Disclosed platform id code keys [] default_timeouts world

-- The host answers the three pings at once.
abbrev at_start : World ServerToViewer ViewerToServer
at_start = record world {
  polls =
      world.polls
      ++ (ok (received (write_control (Control.pong 0)) ∷ [])
          ∷ ok (received (write_control (Control.pong 1)) ∷ [])
          ∷ ok (received (write_control (Control.pong 2)) ∷ [])
          ∷ []);
}

abbrev arguments : List Str
arguments =
    codes "--server" ∷ codes "wss://s" ∷ codes "--id" ∷ id ∷ codes "--code" ∷ codes "123456" ∷ []

abbrev opened : Str → Result (Unit {0}) LinkError
opened url = ok tt

abbrev show_link : LinkError → Str
show_link e = codes "link"

abbrev show_transport : TransportError → Str
show_transport e = codes "transport"
