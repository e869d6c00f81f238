-- ===== src/Tests/Links.antt =====
-- The theorems on the links at concrete inputs.
use simple_remote.Base.{
  suc, ◌≡◌, refl, ap, true, Option, none, some, List, [], ◌∷◌, ◌++◌, ok, err, length, map, ◌==◌,
  if◌then◌else◌, arith,
}
use simple_remote.Base.Text.{Str}
use simple_remote.Protocol.Signaling.{ServerToHost, ServerToViewer, ViewerToServer}
use simple_remote.Transport.Interface.{LinkError}
use simple_remote.Transport.Link.{WsLink, Read, ping, close, send, recv, recv_loop}
use simple_remote.Transport.Link.Laws.{recv-closed}
use simple_remote.Transport.FakeSignal.{
  Inner, FakeViewerLink, msg, viewer, is_current, viewer_send, viewer_drop,
}
use simple_remote.Transport.FakeSignal.Laws.{hears, viewer-replaces}
use simple_remote.Tests.Toy.{hex}

abbrev to_text : Str → Option Str
to_text s = some s

abbrev open_link : WsLink
open_link = record { closed = none }

abbrev closed_link : WsLink
closed_link = record { closed = some (some 4001) }

-- A ping, then the end.
abbrev reads : List Read
reads =
    record { at = 1; set_read_timeout = none; frame = ok ping }
    ∷ record { at = 2; set_read_timeout = none; frame = ok (close (some 4001)) }
    ∷ []

reads_close :
    recv hex to_text 100 reads open_link ≡ ((err (LinkError.closed (some 4001)), closed_link), [])
unfolding recv recv_loop
reads_close = refl

recv-closed_example :
    let l' = (recv hex to_text 100 reads open_link).0.1 in
    ((recv hex to_text 100 reads open_link).0.0 ≡ err (LinkError.closed (some 4001)))
    × (recv hex to_text 200 reads l' ≡ ((err (LinkError.closed (some 4001)), l'), reads))
    × (send hex to_text (5 ∷ []) (ok tt) l' ≡ (err (LinkError.closed (some 4001)), l'))
recv-closed_example =
    recv-closed hex to_text 100 reads open_link (some 4001) 200 reads (5 ∷ []) (ok tt) refl
      (ap (λ o. o.0.1.closed) reads_close)

-- The first viewer is waiting, and has not yet read that it has joined.
abbrev hub : Inner
hub = record {
  host_queue = [];
  host_relays = [];
  viewer = some 0;
  next_generation = 1;
  mail = λ g. if g == 0 then msg ServerToViewer.joined ∷ [] else [];
}

abbrev first : FakeViewerLink
first = record { generation = 0; closed_code = none }

abbrev waiting : List ServerToViewer
waiting = ServerToViewer.joined ∷ []

viewer-replaces_example :
    let (new_link, h') = viewer hub in
    (is_current new_link h' ≡ true)
    × (hears (suc (length waiting)) first h' ≡ (
      map (λ x. ok (some x)) waiting ++ err (LinkError.closed (some 4001)) ∷ [],
      record first { closed_code = some (some 4001) },
    ))
    × (viewer_send (ViewerToServer.relay (7 ∷ [])) first h'
        ≡ (err (LinkError.closed (some 4001)), h'))
    × (viewer_drop first h' ≡ h')
    × (h'.host_queue ≡ hub.host_queue ++ ServerToHost.viewer_joined ∷ [])
    × (h'.mail new_link.generation ≡ hub.mail new_link.generation ++ msg ServerToViewer.joined ∷ [])
viewer-replaces_example =
    viewer-replaces hub first waiting (ViewerToServer.relay (7 ∷ [])) refl (omega arith) refl refl
