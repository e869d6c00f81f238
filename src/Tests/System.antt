-- ===== src/Tests/System.antt =====
-- Host and viewer at concrete inputs: both sessions together.
use simple_remote.Base.{
  ℕ, ◌≤◌, ◌≡◌, refl, true, none, some, [], ◌∷◌, ok, length, arith, codes, take-append, drop-append,
}
use simple_remote.Base.Text.{Bytes, Str, utf8}
use simple_remote.Protocol.{default_timeouts, protocol_version}
use simple_remote.Protocol.Control
use simple_remote.Protocol.Control.{Control, accepted, encode, max_control_bytes}
use simple_remote.Protocol.PakeMsg.{PakeMsg}
use simple_remote.Protocol.Serde.{IsFaithful}
use simple_remote.Auth.Identity.{
  DeviceKeys, generate, check_device_name, make_hello, to_array, session_message, reconnect_message,
  key_fingerprint, device_public,
}
use simple_remote.Host.Attempts.{check}
use simple_remote.Host.Session.Types.{HostConfig, HostState, session}
use simple_remote.Host.Session.Attempt.{attempt}
use simple_remote.Host.Session.Attempt.Honest.{renewed}
use simple_remote.Viewer.Session.{connect}
use simple_remote.Transport.World.{World, asked, link_sent, link_dropped, peer_sent}
use simple_remote.Protocol.Signaling.{ServerToHost, HostToServer, ServerToViewer, ViewerToServer}
use simple_remote.System.Together.{
  IsPlatform, facing, host_hears, viewer_hears, host_hello, viewer_hello, host_session,
  viewer_session, together,
}
use simple_remote.Tests.Toy.{
  platform, control_codec, ed25519, hex, write_pake, read_pake, pake_lib-IsPakeLib, aead-IsAead,
  ed25519-IsEd25519, control_codec-IsFaithful,
}

abbrev host_keys : DeviceKeys
host_keys = record { signing_key = 1 ∷ []; reconnect_secret = 2 ∷ []; name = codes "h" }

abbrev viewer_keys : DeviceKeys
viewer_keys = record { signing_key = 3 ∷ []; reconnect_secret = 4 ∷ []; name = codes "v" }

abbrev config : HostConfig
config = record {
  host_id = codes "123456789";
  keys = host_keys;
  bind_ips = [];
  timeouts = default_timeouts;
  protocol_version = protocol_version;
}

abbrev state : HostState
state = record {
  code = record { digits = codes "123456" };
  limiter = record { consecutive_failures = 0; failures_on_code = 0; wait_until = none };
}

hex-IsFaithful : IsFaithful hex
hex-IsFaithful = record { round_trip = λ m. refl }

pake_round_trip : (m : PakeMsg) → read_pake (write_pake m) ≡ some m
pake_round_trip (PakeMsg.start p) = refl
pake_round_trip (PakeMsg.confirm a b) = ground (arith, take-append a b, drop-append a b)
pake_round_trip (PakeMsg.reply a b) = ground (arith, take-append a b, drop-append a b)
pake_round_trip (PakeMsg.answer b) = refl
pake_round_trip PakeMsg.rejected = refl
pake_round_trip (PakeMsg.retry_after n) = refl

platform-IsPlatform : IsPlatform platform
platform-IsPlatform = record {
  pake_lib = pake_lib-IsPakeLib;
  aead = aead-IsAead;
  ed25519 = ed25519-IsEd25519;
  hex = hex-IsFaithful;
  pake_codec = record { round_trip = pake_round_trip };
  control_codec = control_codec-IsFaithful;
}

host_made : generate (1 ∷ []) (2 ∷ []) (codes "h") ≡ ok host_keys
unfolding generate check_device_name utf8
host_made = refl

viewer_made : generate (3 ∷ []) (4 ∷ []) (codes "v") ≡ ok viewer_keys
unfolding generate check_device_name utf8
viewer_made = refl

passed : check state.limiter 5 ≡ ok tt
unfolding check
passed = refl

host_fits :
    (binding : Bytes)
    → length (
        Control.encode control_codec (
          host_hello platform platform-IsPlatform
            (1 ∷ [])
            (2 ∷ [])
            config
            state
            default_timeouts
            viewer_keys
            []
            (79 ∷ [])
            (65 ∷ [])
            5
            6
            7
            8
            binding))
      ≤ max_control_bytes
unfolding make_hello encode utf8 to_array session_message reconnect_message
host_fits binding = omega arith

viewer_fits :
    (binding : Bytes)
    → length (
        Control.encode control_codec (
          viewer_hello platform platform-IsPlatform
            (1 ∷ [])
            (2 ∷ [])
            config
            state
            default_timeouts
            viewer_keys
            []
            (79 ∷ [])
            (65 ∷ [])
            5
            6
            7
            8
            binding))
      ≤ max_control_bytes
unfolding make_hello encode utf8 to_array session_message reconnect_message
viewer_fits binding = omega arith

verdict_fits : length (Control.encode control_codec (Control.decision accepted)) ≤ max_control_bytes
unfolding encode
verdict_fits = omega arith

together_example :
    (start confirm reply answered : Str) × (viewer_greets host_greets verdict : Bytes) × (m : ℕ)
    × (wh : World ServerToHost HostToServer) × (wv : World ServerToViewer ViewerToServer) × (attempt
          (facing platform (1 ∷ []) (2 ∷ []))
          config
          state
          (host_hears 5 7 start confirm viewer_greets)
        ≡ (
          (
            ok (
                session (
                  host_session platform platform-IsPlatform
                    (1 ∷ [])
                    (2 ∷ [])
                    config
                    state
                    default_timeouts
                    viewer_keys
                    []
                    (79 ∷ [])
                    (65 ∷ [])
                    5
                    6
                    7
                    8
                    (codes "v"))),
            renewed platform config m,
          ),
          wh,
        ))
    × (connect
          (facing platform (2 ∷ []) (1 ∷ []))
          config.host_id
          state.code
          viewer_keys
          []
          default_timeouts
          (viewer_hears 6 8 reply answered host_greets verdict)
        ≡ (
          ok (
              viewer_session platform platform-IsPlatform
                (1 ∷ [])
                (2 ∷ [])
                config
                state
                default_timeouts
                viewer_keys
                []
                (79 ∷ [])
                (65 ∷ [])
                5
                6
                7
                8
                (codes "h")),
          wv,
        ))
    × (wh.trace
        ≡ peer_sent verdict
          ∷ asked
              (codes "v")
              (key_fingerprint platform.sha256 hex (device_public ed25519 viewer_keys))
              (some true)
          ∷ peer_sent host_greets
          ∷ link_sent (HostToServer.relay answered)
          ∷ link_sent (HostToServer.relay reply)
          ∷ [])
    × (wv.trace
        ≡ link_dropped
          ∷ peer_sent viewer_greets
          ∷ link_sent (ViewerToServer.relay confirm)
          ∷ link_sent (ViewerToServer.relay start)
          ∷ [])
together_example =
    together platform platform-IsPlatform (1 ∷ []) (2 ∷ []) config state default_timeouts
      viewer_keys [] (79 ∷ []) (65 ∷ []) 5 6 7 8 (1 ∷ []) (2 ∷ []) (3 ∷ []) (4 ∷ []) (codes "h")
      (codes "v") host_made viewer_made passed refl refl refl refl refl refl (refl, tt) (refl, tt)
      host_fits viewer_fits verdict_fits (omega arith) (omega arith) (omega arith)
