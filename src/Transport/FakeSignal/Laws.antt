-- ===== src/Transport/FakeSignal/Laws.antt =====
-- One viewer at a time.
use simple_remote.Base.{
  ℕ, zero, suc, ◌≡◌, ◌≢◌, ◌==◌, true, if◌then◌else◌, Option, none, some, List, [], ◌∷◌, ◌++◌,
  Result, ok, err, map, length, ap, ◌∙◌, arith,
}
use simple_remote.Protocol.Signaling.{ServerToHost, ServerToViewer, ViewerToServer}
use simple_remote.Transport.Interface.{LinkError}
use simple_remote.Transport.FakeSignal.{
  Inner, FakeViewerLink, msg, closed, post, tell_host, dismiss, viewer, is_current, viewer_send,
  viewer_recv, viewer_drop,
}

abbrev pub Heard : Type 0
Heard = Result (Option ServerToViewer) LinkError

-- The answers of so many calls of `recv`, and the link after them
abbrev pub hears : ℕ → FakeViewerLink → Inner → List Heard × FakeViewerLink
hears zero l h = ([], l)
hears (suc n) l h =
    let (a, l', h') = viewer_recv l h in let (more, l'') = hears n l' h' in (a ∷ more, l'')

-- What an end in the queue comes to, after the messages before it
hears-closed :
    (waiting : List ServerToViewer) (code : ℕ) (l : FakeViewerLink) (h : Inner)
    → l.closed_code ≡ none
    → h.mail l.generation ≡ map msg waiting ++ closed code ∷ []
    → hears (suc (length waiting)) l h ≡ (
      map (λ m. ok (some m)) waiting ++ err (LinkError.closed (some code)) ∷ [],
      record l { closed_code = some (some code) },
    )
unfolding viewer_recv
hears-closed [] code l h open_link queue = ground (arith, open_link, queue)
hears-closed (m ∷ waiting) code l h open_link queue =
    let left = map msg waiting ++ closed code ∷ [] in
    let h1 : Inner = record h { mail = λ g. if g == l.generation then left else h.mail g } in
    let one : viewer_recv l h ≡ (ok (some m), l, h1) = ground (arith, open_link, queue) in
    let rest = hears-closed waiting code l h1 open_link (ground arith) in
    let n = suc (length waiting) in
    ap (λ o. (o.0 ∷ (hears n o.1 o.2).0, (hears n o.1 o.2).1)) one
    ∙ ap (λ o. (ok (some m) ∷ o.0, o.1)) rest

-- When a viewer joins while another one is the current one, the new one is current in its place. The
-- old one still hears the messages that wait for it, in their order, and then `Closed` with 4001, which
-- its link remembers. It can send nothing, is told the same, and its end is not told to the host. The
-- host hears of the new one, whose queue ends with `Joined`.
pub viewer-replaces :
    (h : Inner) (old : FakeViewerLink) (waiting : List ServerToViewer) (m : ViewerToServer)
    → old.closed_code ≡ none
    → old.generation ≢ h.next_generation
    → h.viewer ≡ some old.generation
    → h.mail old.generation ≡ map msg waiting
    → let (new_link, h') = viewer h in
      (is_current new_link h' ≡ true)
      × (hears (suc (length waiting)) old h' ≡ (
        map (λ x. ok (some x)) waiting ++ err (LinkError.closed (some 4001)) ∷ [],
        record old { closed_code = some (some 4001) },
      ))
      × (viewer_send m old h' ≡ (err (LinkError.closed (some 4001)), h'))
      × (viewer_drop old h' ≡ h')
      × (h'.host_queue ≡ h.host_queue ++ ServerToHost.viewer_joined ∷ [])
      × (h'.mail new_link.generation ≡ h.mail new_link.generation ++ msg ServerToViewer.joined ∷ [])
unfolding viewer dismiss post tell_host is_current viewer_send viewer_drop
viewer-replaces h old waiting (ViewerToServer.relay data_text) open_link earlier current queue =
    let h' = (viewer h).1 in
    let told : h'.mail old.generation ≡ map msg waiting ++ closed 4001 ∷ [] =
      ground (arith, earlier, current, queue) in
    (
      ground arith,
      hears-closed waiting 4001 old h' open_link told,
      ground arith,
      ground arith,
      ground arith,
      ground arith,
    )
