-- ===== src/System/Wire.antt =====
-- Each side reads what the other has written.
use simple_remote.Base.{ℕ, ◌≤◌, ◌≡◌, refl, some, [], ok, length, arith, All}
use simple_remote.Base.Text.{Bytes, Str, utf8}
use simple_remote.Base.Utf8.{IsScalar, from_utf8-utf8}
use simple_remote.Protocol.{Stage, protocol_version}
use simple_remote.Protocol.Control
use simple_remote.Protocol.Control.{Control, Hello, max_control_bytes}
use simple_remote.Protocol.Control.Laws.{decode-encode}
use simple_remote.Protocol.PakeMsg
use simple_remote.Protocol.PakeMsg.{PakeMsg}
use simple_remote.Protocol.Serde.{Codec, IsFaithful}
use simple_remote.Protocol.Signaling.{ServerToHost, ServerToViewer}
use simple_remote.Auth.Sealed.{
  Aead, IsAead, SealedSender, SealedReceiver, SessionKeys, seal, viewer_side, host_side,
}
use simple_remote.Auth.Sealed.Laws.{open_frame}
use simple_remote.Auth.Identity.{Ed25519, Role, DeviceKeys, verify_hello, make_hello}
use simple_remote.Host.Session.Attempt.{first_sealed, first_opened, opened_text}
use simple_remote.Host.Session.Relay
use simple_remote.Host.Session.Relay.{Relay}
use simple_remote.Viewer.Connect
use simple_remote.Platform.{Platform}

abbrev pub wire : Platform → PakeMsg → Str
wire p m = p.hex.to_wire (PakeMsg.encode p.pake_codec m)

module _ (p : Platform) (hex : IsFaithful p.hex) (codec : IsFaithful p.pake_codec) where
  pub host-relay_of :
      (m : PakeMsg) → Relay.relay_of p (some (ServerToHost.relay (wire p m))) ≡ Relay.msg m
  unfolding Relay.relay_of PakeMsg.encode PakeMsg.decode
  host-relay_of m = ground (arith, hex.round_trip (p.pake_codec.to_wire m), codec.round_trip m)

  pub viewer-relay_of :
      (stage : Stage) (m : PakeMsg)
      → Connect.relay_of p stage (some (ServerToViewer.relay (wire p m))) ≡ ok m
  unfolding Connect.relay_of PakeMsg.encode PakeMsg.decode
  viewer-relay_of stage m =
      ground (arith, hex.round_trip (p.pake_codec.to_wire m), codec.round_trip m)

pub decode-encode_fits :
    (c : Codec Control Bytes) (law : IsFaithful c) (m : Control)
    → length (Control.encode c m) ≤ max_control_bytes
    → Control.decode c (Control.encode c m) ≡ ok m
decode-encode_fits c law m fits = (decode-encode c law m [] m).0.1 fits

-- The first sealed message of a side is opened by the other, as the text that it was.
module _ (a : Aead) (law : IsAead a) (s : Str) (scalars : All IsScalar s) where
  sealed_opens :
      (sender : SealedSender) (receiver : SealedReceiver)
      → sender.counter ≡ 0
      → receiver.expected_counter ≡ 0
      → sender.key ≡ receiver.key
      → sender.label ≡ receiver.label
      → opened_text a receiver (first_sealed a sender (utf8 s)) ≡ some s
  unfolding opened_text first_opened first_sealed seal
  sealed_opens sender receiver zero_sent zero_read same_key same_label =
      let opens = open_frame a law receiver (utf8 s) (omega (arith, zero_read)) in
      ground (arith, opens, from_utf8-utf8 s scalars, zero_sent, zero_read, same_key, same_label)

  pub viewer_sealed_opens :
      (sk : SessionKeys)
      → opened_text a (host_side sk).1 (first_sealed a (viewer_side sk).0 (utf8 s)) ≡ some s
  unfolding viewer_side host_side
  viewer_sealed_opens sk = sealed_opens (viewer_side sk).0 (host_side sk).1 refl refl refl refl

  pub host_sealed_opens :
      (sk : SessionKeys)
      → opened_text a (viewer_side sk).1 (first_sealed a (host_side sk).0 (utf8 s)) ≡ some s
  unfolding viewer_side host_side
  host_sealed_opens sk = sealed_opens (host_side sk).0 (viewer_side sk).1 refl refl refl refl

-- The version in a `Hello` is not part of what is verified.
pub verify_hello_version :
    (lib : Ed25519) (h : Hello) (v : ℕ) (role : Role) (binding sender receiver : Bytes)
    → verify_hello lib (record h { protocol_version = v }) role binding sender receiver
      ≡ verify_hello lib h role binding sender receiver
unfolding verify_hello
verify_hello_version lib h v role binding sender receiver = refl

pub make_hello_version :
    (lib : Ed25519) (keys : DeviceKeys) (role : Role) (binding own peer : Bytes)
    → (make_hello lib keys role binding own peer).protocol_version ≡ protocol_version
unfolding make_hello
make_hello_version lib keys role binding own peer = refl
