-- ===== src/Tests/Host.antt =====
-- The theorems on the host at concrete inputs: a session from the first relay to the decision.
use simple_remote.Base.{
  ◌+◌, ◌/◌, ◌≡◌, refl, true, false, none, some, Option, List, [], ◌∷◌, ◌++◌, ok, codes,
}
use simple_remote.Base.Text.{Bytes, Str, utf8}
use simple_remote.Protocol.{default_timeouts, protocol_version}
use simple_remote.Base.Utf8.{from_utf8}
use simple_remote.Base.Words.{u64_to_be, from_be}
use simple_remote.Protocol.PakeMsg
use simple_remote.Protocol.Control.{Control, Hello, encode, decode}
use simple_remote.Auth.Code.{as_str}
use simple_remote.Auth.Pake.{
  host_respond, code_scalar, host_id_bytes, host_confirm, to_mac, derive_session_keys,
}
use simple_remote.Auth.Sealed.{open_sealed, host_side, seal, frame, nonce_for}
use simple_remote.Auth.Identity.{
  make_hello, verify_hello, to_array, check_device_name, session_message, reconnect_message,
  key_fingerprint, group_by_four,
}
use simple_remote.Transport.Url.{strip_prefix}
use simple_remote.Host.Session.Relay.{recv_relay, relay_of, send_relay}
use simple_remote.Host.Session.Approval.{wait_approval, approval_loop, approval_poll, granted}
use simple_remote.Host.Session.Approval.Ends.{wait_approval-granted, approval_ends}
use simple_remote.Tests.Toy.{control_codec}
use simple_remote.Host.Session.Handshake.{
  handshake, on_open, exchange_hello, on_hello, check_hello, ask_user, decide, accept,
}
use simple_remote.Protocol.PakeMsg.{PakeMsg}
use simple_remote.Protocol.Signaling.{ServerToHost, HostToServer}
use simple_remote.Auth.Identity.{DeviceKeys, PeerIdentity}
use simple_remote.Transport.Interface.{channel_open, received}
use simple_remote.Transport.World.{
  World, Call, asked, now, link_recv, link_send, draw, peer_poll, peer_send, ask,
}
use simple_remote.Transport.Channel.{
  Channel, new, wait_open, wait_open_loop, absorb, absorb_from, send, next, next_loop,
}
use simple_remote.Host.Attempts.{
  AttemptLimiter, check, record_failure, record_success, backoff_secs,
}
use simple_remote.Host.Session.Types.{HostConfig, HostState, HostSession, session}
use simple_remote.Host.Session.Attempt.{
  attempt, on_start, respond, count_guess, on_confirm, confirm_code, opened_text, first_opened,
  negotiate, first_sealed, finish,
}
use simple_remote.Host.Session.Attempt.Counted.{Guarded, attempt-Guarded}
use simple_remote.Host.Session.Attempt.Confirmed.{Earned, attempt-Earned}
use simple_remote.Tests.Toy.{zeros, platform, write_pake, write_control}

abbrev keys : DeviceKeys
keys = record { signing_key = 1 ∷ []; reconnect_secret = 2 ∷ []; name = codes "host" }

abbrev config : HostConfig
config = record {
  host_id = codes "123456789";
  keys = keys;
  bind_ips = codes "::1" ∷ [];
  timeouts = default_timeouts;
  protocol_version = protocol_version;
}

abbrev fresh : AttemptLimiter
fresh = record { consecutive_failures = 0; failures_on_code = 0; wait_until = none }

abbrev state : HostState
state = record { code = record { digits = codes "123456" }; limiter = fresh }

abbrev hello : Hello
hello = record {
  protocol_version = 1;
  device_key = zeros 32;
  device_name = codes "v";
  reconnect_key = zeros 32;
  reconnect_key_sig = zeros 64;
  session_sig = zeros 64;
}

abbrev offer : Bytes
offer = zeros 8 ++ (zeros 16 ++ codes "offer")

-- The viewer starts and confirms, the channel opens, its `Hello` comes, and the user agrees.
abbrev world : World ServerToHost HostToServer
world = record {
  clock = 0;
  ticks = [];
  arrivals =
      ok (some (ServerToHost.relay (write_pake (PakeMsg.start (5 ∷ [])))))
      ∷ ok (some (ServerToHost.relay (write_pake (PakeMsg.confirm (zeros 32) offer))))
      ∷ [];
  link_faults = [];
  polls = ok (channel_open ∷ received (write_control (Control.hello hello)) ∷ []) ∷ [];
  peer_faults = [];
  answers = none ∷ some true ∷ [];
  draws = 0;
  trace = [];
}

abbrev viewer : PeerIdentity
viewer = record { device_key = zeros 32; name = codes "v"; reconnect_key = zeros 32 }

abbrev begun : HostSession
begun = record {
  viewer = viewer;
  ch = record { pending = []; remote_closed = false; local_closed = false };
}

-- The user is asked twice, and the code is replaced at the end.
attempt_begins : (attempt platform config state world).0.0 ≡ ok (session begun)
unfolding attempt check recv_relay link_recv now on_start relay_of PakeMsg.decode PakeMsg.encode
    respond host_respond code_scalar as_str host_id_bytes send_relay link_send count_guess
    record_failure record_success backoff_secs draw on_confirm confirm_code host_confirm to_mac
    derive_session_keys opened_text first_opened open_sealed from_be host_side strip_prefix
    from_utf8 utf8 negotiate first_sealed seal frame nonce_for u64_to_be finish handshake wait_open
    wait_open_loop peer_poll peer_send absorb absorb_from on_open exchange_hello send encode
    make_hello next next_loop on_hello decode check_hello verify_hello to_array check_device_name
    session_message reconnect_message ask_user wait_approval approval_loop ask key_fingerprint
    group_by_four decide accept new
attempt_begins = refl

attempt-Guarded_example : Guarded platform config state world (attempt platform config state world)
attempt-Guarded_example = attempt-Guarded platform config state world

attempt-Earned_example :
    (check state.limiter (now world).0 ≡ ok tt)
    × Earned platform config state world begun (attempt platform config state world)
attempt-Earned_example = attempt-Earned platform config state world begun attempt_begins

abbrev open_channel : Channel
open_channel = record { pending = []; remote_closed = false; local_closed = false }

abbrev shown : Str
shown = codes "0011"

-- The user agrees at the first question.
abbrev agreeing : World ServerToHost HostToServer
agreeing = record world { answers = some true ∷ [] }

abbrev after_agreeing : World ServerToHost HostToServer
after_agreeing = record world { answers = []; trace = asked (codes "v") shown (some true) ∷ [] }

agrees :
    wait_approval control_codec (codes "v") shown 1000 open_channel agreeing
    ≡ ((granted, open_channel), after_agreeing)
unfolding wait_approval approval_loop ask now
agrees = refl

wait_approval-granted_example :
    (before : List (Call HostToServer)) × (after_agreeing.trace
      ≡ asked (codes "v") shown (some true) ∷ before)
wait_approval-granted_example =
    wait_approval-granted control_codec (codes "v") shown 1000 open_channel agreeing open_channel
      after_agreeing agrees

approval_ends_example :
    approval_loop control_codec
      (1000 / approval_poll + 3)
      ((now agreeing).0 + 1000)
      (codes "v")
      shown
      open_channel
      (now agreeing).1
    ≡ some (wait_approval control_codec (codes "v") shown 1000 open_channel agreeing)
approval_ends_example = approval_ends control_codec (codes "v") shown 1000 open_channel agreeing

abbrev id : Str
id = codes "123456789"

abbrev asked_id : Option Str
asked_id = some id

abbrev registering : World ServerToHost HostToServer
registering = record world {
  arrivals =
      ok (some (ServerToHost.challenge (zeros 32) id))
      ∷ ok (some (ServerToHost.registered id))
      ∷ [];
}
