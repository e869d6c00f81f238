-- ===== src/System/Together.antt =====
-- An honest host and an honest viewer with the same code reach a session with each other.
use simple_remote.Base.{
  ℕ, ◌+◌, ◌≤◌, ◌<◌, ◌≡◌, refl, true, some, List, [], ◌∷◌, ok, length, All, ◌∙◌, sym,
}
use simple_remote.Base.Text.{Bytes, Str, utf8}
use simple_remote.Base.Utf8.{IsScalar}
use simple_remote.Protocol.{Instant, Timeouts, protocol_version, pake, answer}
use simple_remote.Protocol.Control
use simple_remote.Protocol.Control.{Control, Hello, accepted, max_control_bytes}
use simple_remote.Protocol.PakeMsg.{PakeMsg}
use simple_remote.Protocol.Serde.{IsFaithful}
use simple_remote.Protocol.Signaling.{ServerToHost, HostToServer, ServerToViewer, ViewerToServer}
use simple_remote.Auth.Pake.{IsPakeLib}
use simple_remote.Auth.Pake.Laws.{same_code_agrees}
use simple_remote.Auth.Sealed.{IsAead, viewer_side, host_side}
use simple_remote.Auth.Identity.{
  Ed25519, IsEd25519, Role, DeviceKeys, PeerIdentity, generate, make_hello, device_public,
  reconnect_public, key_fingerprint,
}
use simple_remote.Auth.Identity.RoundTrip.{verify_hello-make_hello}
use simple_remote.Transport.Interface.{channel_open, received}
use simple_remote.Transport.World.{World, asked, link_sent, link_dropped, peer_sent}
use simple_remote.Transport.Channel.Calm.{calm, holding}
use simple_remote.Host.Attempts.{check}
use simple_remote.Host.Session.Types.{HostConfig, HostState, HostSession, session}
use simple_remote.Host.Session.Attempt.{attempt, first_sealed}
use simple_remote.Host.Session.Attempt.Honest.{attempt-calm, renewed}
use simple_remote.Viewer.Session.{ViewerSession, connect}
use simple_remote.Viewer.Session.Honest.{connect-calm}
use simple_remote.System.Wire.{
  wire, host-relay_of, viewer-relay_of, decode-encode_fits, viewer_sealed_opens, host_sealed_opens,
  verify_hello_version, make_hello_version,
}
use simple_remote.Platform.{Platform}

-- One side's view of the connection: its own certificate and the other's.
abbrev pub facing : Platform → Bytes → Bytes → Platform
facing p own other = record p { local_fingerprint = own; remote_fingerprint = some other }

-- What the libraries promise of a platform.
pub record IsPlatform (p : Platform) : Type 0 where
  pub pake_lib : IsPakeLib p.pake_lib
  pub aead : IsAead p.aead
  pub ed25519 : IsEd25519 p.ed25519
  pub hex : IsFaithful p.hex
  pub pake_codec : IsFaithful p.pake_codec
  pub control_codec : IsFaithful p.control_codec

-- The host hears these two messages of the exchange, then this `Hello`, and the user agrees.
abbrev pub host_hears : Instant → ℕ → Str → Str → Bytes → World ServerToHost HostToServer
host_hears t n first second hello =
    calm t (ok (some (ServerToHost.relay first)) ∷ ok (some (ServerToHost.relay second)) ∷ [])
      (ok (channel_open ∷ received hello ∷ []) ∷ []) (some true ∷ []) n []

abbrev pub viewer_hears :
    Instant → ℕ → Str → Str → Bytes → Bytes → World ServerToViewer ViewerToServer
viewer_hears t n first second hello verdict =
    calm t
      (ok (some ServerToViewer.joined)
        ∷ ok (some (ServerToViewer.relay first))
        ∷ ok (some (ServerToViewer.relay second))
        ∷ [])
      (ok (channel_open ∷ received hello ∷ []) ∷ ok (received verdict ∷ []) ∷ []) [] n []

abbrev pub identity : Ed25519 → DeviceKeys → Str → PeerIdentity
identity lib k name = record {
  device_key = device_public lib k;
  name = name;
  reconnect_key = reconnect_public lib k;
}

module _ (p : Platform) (law : IsPlatform p) (host_print viewer_print : Bytes) (cfg : HostConfig)
    (st : HostState) (limits : Timeouts) (viewer_keys : DeviceKeys) (viewer_ips : List Str)
    (offer sdp : Str) (th tv : Instant) (nh nv : ℕ) where
  abbrev hp : Platform
  hp = facing p host_print viewer_print

  abbrev vp : Platform
  vp = facing p viewer_print host_print

  -- What a side says of itself.
  abbrev pub host_hello : Bytes → Control
  host_hello binding =
      Control.hello
        (record (make_hello p.ed25519 cfg.keys Role.host binding host_print viewer_print) {
          protocol_version = cfg.protocol_version;
        })

  abbrev pub viewer_hello : Bytes → Control
  viewer_hello binding =
      Control.hello (make_hello p.ed25519 viewer_keys Role.viewer binding viewer_print host_print)

  abbrev pub host_session : Str → HostSession
  host_session viewer_name = record {
    viewer = identity p.ed25519 viewer_keys viewer_name;
    ch = holding [];
  }

  abbrev pub viewer_session : Str → ViewerSession
  viewer_session host_name = record {
    host = identity p.ed25519 cfg.keys host_name;
    ch = holding [];
    next_seq = 0;
  }

  abbrev pub Fits : Control → Type 0
  Fits m = length (Control.encode p.control_codec m) ≤ max_control_bytes

  -- Host and viewer, with the same code, working libraries, keys that `generate` has made, each the
  -- other's certificate and the same version, reach a session with each other, if the limiter lets
  -- the attempt pass, the user agrees at the first question, WebRTC takes offer and answer, the
  -- `Hello`s and the decision fit into a control message, and every answer comes at once. All that
  -- one side hears is what the other has said: the traces list the messages of each side, newest
  -- first. Each side's session names the other's keys and name, and the host's code is fresh and its
  -- limiter reset.
  pub together :
      (hs hr vs vr : Bytes) (host_name viewer_name : Str)
      → generate hs hr host_name ≡ ok cfg.keys
      → generate vs vr viewer_name ≡ ok viewer_keys
      → check st.limiter th ≡ ok tt
      → cfg.protocol_version ≡ protocol_version
      → p.peer_new cfg.bind_ips ≡ ok tt
      → p.peer_new viewer_ips ≡ ok tt
      → p.create_offer ≡ ok offer
      → p.accept_offer offer ≡ ok sdp
      → p.accept_answer sdp ≡ ok tt
      → All IsScalar offer
      → All IsScalar sdp
      → ((binding : Bytes) → Fits (host_hello binding))
      → ((binding : Bytes) → Fits (viewer_hello binding))
      → Fits (Control.decision accepted)
      → 0 < cfg.timeouts.connect
      → 0 < limits.connect
      → 0 < limits.signaling_step
      → (start confirm reply answered : Str) × (viewer_greets host_greets verdict : Bytes) × (m : ℕ)
        × (wh : World ServerToHost HostToServer) × (wv : World ServerToViewer ViewerToServer)
        × (attempt hp cfg st (host_hears th nh start confirm viewer_greets)
            ≡ ((ok (session (host_session viewer_name)), renewed p cfg m), wh))
        × (connect vp cfg.host_id st.code viewer_keys viewer_ips limits
              (viewer_hears tv nv reply answered host_greets verdict)
            ≡ (ok (viewer_session host_name), wv))
        × (wh.trace
            ≡ peer_sent verdict
              ∷ asked viewer_name
                  (key_fingerprint p.sha256 p.hex (device_public p.ed25519 viewer_keys))
                  (some true)
              ∷ peer_sent host_greets
              ∷ link_sent (HostToServer.relay answered)
              ∷ link_sent (HostToServer.relay reply)
              ∷ [])
        × (wv.trace
            ≡ link_dropped
              ∷ peer_sent viewer_greets
              ∷ link_sent (ViewerToServer.relay confirm)
              ∷ link_sent (ViewerToServer.relay start)
              ∷ [])
  together hs hr vs vr host_name viewer_name host_made viewer_made passed version peers_h peers_v
        offers accepts answers offer_text sdp_text host_fits viewer_fits verdict_fits time_h time_v
        soon =
      let (state, pa, output, pb, mac_b, sk, mac_a, starts, responds, finishes, confirmed) =
        same_code_agrees p.pake_lib law.pake_lib st.code cfg.host_id (p.fresh_bytes nv)
          (p.fresh_bytes nh) in
      let sealed_offer = first_sealed p.aead (viewer_side sk).0 (utf8 offer) in
      let sealed_answer = first_sealed p.aead (host_side sk).0 (utf8 sdp) in
      let start = wire p (PakeMsg.start pa) in
      let confirm = wire p (PakeMsg.confirm mac_a sealed_offer) in
      let reply = wire p (PakeMsg.reply pb mac_b) in
      let answered = wire p (PakeMsg.answer sealed_answer) in
      let hello_v =
        make_hello p.ed25519 viewer_keys Role.viewer sk.hello_binding viewer_print host_print in
      let hello_h =
        make_hello p.ed25519 cfg.keys Role.host sk.hello_binding host_print viewer_print in
      let sent_h : Hello = record hello_h { protocol_version = cfg.protocol_version } in
      let greets_v = Control.encode p.control_codec (viewer_hello sk.hello_binding) in
      let greets_h = Control.encode p.control_codec (host_hello sk.hello_binding) in
      let verdict = Control.encode p.control_codec (Control.decision accepted) in
      let who_v = identity p.ed25519 viewer_keys viewer_name in
      let who_h = identity p.ed25519 cfg.keys host_name in
      let good_v =
        verify_hello-make_hello p.ed25519 law.ed25519 vs vr viewer_name viewer_keys Role.viewer
          sk.hello_binding viewer_print host_print viewer_made in
      let good_h =
        verify_hello_version p.ed25519 hello_h cfg.protocol_version Role.host sk.hello_binding
          host_print viewer_print
        ∙ verify_hello-make_hello p.ed25519 law.ed25519 hs hr host_name cfg.keys Role.host
            sk.hello_binding host_print viewer_print host_made in
      let read = decode-encode_fits p.control_codec law.control_codec in
      let (m, host_runs) =
        attempt-calm hp cfg th nh st pa pb mac_b output responds sk mac_a sealed_offer confirmed
          offer sdp (viewer_sealed_opens p.aead law.aead offer offer_text sk) peers_h accepts
          viewer_print greets_v hello_v who_v refl
          (read (viewer_hello sk.hello_binding) (viewer_fits sk.hello_binding)) good_v
          (make_hello_version p.ed25519 viewer_keys Role.viewer sk.hello_binding viewer_print
              host_print
            ∙ sym version)
          time_h start confirm passed (host-relay_of hp law.hex law.pake_codec (PakeMsg.start pa))
          (host-relay_of hp law.hex law.pake_codec (PakeMsg.confirm mac_a sealed_offer)) in
      let viewer_runs =
        connect-calm vp viewer_keys limits tv (nv + 1) sk host_print greets_h verdict sent_h who_h
          refl (read (host_hello sk.hello_binding) (host_fits sk.hello_binding))
          (read (Control.decision accepted) verdict_fits) good_h soon time_v offer sdp sealed_answer
          mac_a offers (host_sealed_opens p.aead law.aead sdp sdp_text sk) answers answered
          (viewer-relay_of vp law.hex law.pake_codec answer (PakeMsg.answer sealed_answer))
          cfg.host_id st.code viewer_ips state pa pb mac_b reply nv refl starts
          (viewer-relay_of vp law.hex law.pake_codec pake (PakeMsg.reply pb mac_b)) finishes
          peers_v in
      (
        start, confirm, reply, answered, greets_v, greets_h, verdict, m, _, _, host_runs,
        viewer_runs, refl, refl,
      )
