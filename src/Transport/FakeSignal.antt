-- ===== src/Transport/FakeSignal.antt =====
-- crates/transport/src/fake_signal.rs: the signaling server inside one process. The queue of a channel
-- of the standard library is a list, its sender lives as long as its slot, and a `recv` on an empty
-- queue waits for the whole time. The host's queue never loses its sender, since the host's link holds
-- the hub. A `send` whose hex cannot be decoded panics, which is `none`.
pub mod Laws
pub mod Reach
pub mod Order
use simple_remote.Base.{
  ℕ, ◌+◌, ◌%◌, ◌≡◌, Bool, true, false, not, Option, none, some, List, [], ◌∷◌, ◌++◌, Result, ok,
  err, ◌==◌, if◌then◌else◌,
}
use simple_remote.Base.Text.{Bytes, Str}
use simple_remote.Protocol.Serde.{Codec}
use simple_remote.Protocol.Signaling.{ServerToHost, HostToServer, ServerToViewer, ViewerToServer}
use simple_remote.Transport.Interface.{LinkError}

pub data ViewerEnvelope : Type 0 where
  msg : ServerToViewer → ViewerEnvelope
  closed : ℕ → ViewerEnvelope

-- `Inner`, and the queues: of the host, and of the viewer of each generation.
pub record Inner : Type 0 where
  pub host_queue : List ServerToHost
  pub host_relays : List Bytes
  pub viewer : Option ℕ
  pub next_generation : ℕ
  pub mail : ℕ → List ViewerEnvelope

unfoldable pub new : Inner
new = record {
  host_queue = [];
  host_relays = [];
  viewer = none;
  next_generation = 0;
  mail = λ g. [];
}

-- The sender of a viewer's queue
unfoldable pub post : ℕ → ViewerEnvelope → Inner → Inner
post to e h = record h { mail = λ g. if g == to then h.mail g ++ e ∷ [] else h.mail g }

unfoldable pub tell_host : ServerToHost → Inner → Inner
tell_host m h = record h { host_queue = h.host_queue ++ m ∷ [] }

-- `viewer.take()`, with an envelope for the one that was there
unfoldable pub dismiss : ViewerEnvelope → Inner → Inner
dismiss e h = elim h.viewer [ none ↦ h | some g ↦ record (post g e h) { viewer = none } ]

pub record FakeViewerLink : Type 0 where
  pub generation : ℕ
  pub closed_code : Option (Option ℕ)

unfoldable pub viewer : Inner → FakeViewerLink × Inner
viewer h =
    let g = h.next_generation in
    let h1 =
      dismiss (closed 4001) (record h { next_generation = (g + 1) % 18446744073709551616 }) in
    let h2 = tell_host ServerToHost.viewer_joined (record h1 { viewer = some g }) in
    (record { generation = g; closed_code = none }, post g (msg ServerToViewer.joined) h2)

-- `FakeHostLink::send`; nothing ever closes the host's link.
unfoldable pub host_send : Codec Bytes Str → HostToServer → Inner → Option Inner
host_send hex (HostToServer.auth sig) h = some h
host_send hex (HostToServer.relay data_text) h = elim (hex.from_wire data_text) [
  | none ↦ none
  | some bytes ↦
      let h1 = record h { host_relays = h.host_relays ++ bytes ∷ [] } in
      elim h.viewer [
        | none ↦ some h1
        | some g ↦ some (post g (msg (ServerToViewer.relay data_text)) h1)
      ]
]
host_send hex HostToServer.kick h = some (dismiss (closed 4001) h)

unfoldable pub host_recv : Inner → Option ServerToHost × Inner
host_recv h = elim h.host_queue [
  | [] ↦ (none, h)
  | m ∷ more ↦ (some m, record h { host_queue = more })
]

unfoldable pub host_drop : Inner → Inner
host_drop h = elim h.viewer [
  | none ↦ h
  | some g ↦ record (post g (closed 4002) (post g (msg ServerToViewer.host_left) h)) {
    viewer = none;
  }
]

unfoldable pub is_current : FakeViewerLink → Inner → Bool
is_current l h = elim h.viewer [ none ↦ false | some g ↦ g == l.generation ]

unfoldable pub viewer_send :
    ViewerToServer → FakeViewerLink → Inner → Result (Unit {0}) LinkError × Inner
viewer_send (ViewerToServer.relay data_text) l h = elim l.closed_code [
  | some code ↦ (err (LinkError.closed code), h)
  | none ↦
      if not (is_current l h)
      then (err (LinkError.closed (some 4001)), h)
      else (ok tt, tell_host (ServerToHost.relay data_text) h)
]

unfoldable pub viewer_recv :
    FakeViewerLink → Inner → Result (Option ServerToViewer) LinkError × FakeViewerLink × Inner
viewer_recv l h = elim l.closed_code [
  | some code ↦ (err (LinkError.closed code), l, h)
  | none ↦ elim (h.mail l.generation) [
    | [] ↦
        if is_current l h
        then (ok none, l, h)
        else (err (LinkError.closed none), record l { closed_code = some none }, h)
    | e ∷ more ↦
        let h1 = record h { mail = λ g. if g == l.generation then more else h.mail g } in
        elim e [
          | msg m ↦ (ok (some m), l, h1)
          | closed code ↦
              (err (LinkError.closed (some code)), record l { closed_code = some (some code) }, h1)
        ]
  ]
]

unfoldable pub viewer_drop : FakeViewerLink → Inner → Inner
viewer_drop l h =
    if is_current l h then tell_host ServerToHost.viewer_left (record h { viewer = none }) else h
