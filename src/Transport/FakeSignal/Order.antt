-- ===== src/Transport/FakeSignal/Order.antt =====
-- The order in which the host hears of its viewers.
use simple_remote.Base.{
  ℕ, ◌≡◌, ◌⊎◌, refl, inl, inr, Bool, true, false, Option, none, some, List, [], ◌∷◌, ◌++◌, arith,
  Bool-cases, Option-cases, List-cases, ap, sym, ◌∙◌, subst, ◌%◌, ◌+◌, ok, err, append_assoc,
  append-nil,
}
use simple_remote.Base.Text.{Bytes, Str}
use simple_remote.Protocol.Serde.{Codec}
use simple_remote.Protocol.Signaling.{ServerToHost, HostToServer, ViewerToServer}
use simple_remote.Transport.Interface.{LinkError}
use simple_remote.Transport.FakeSignal.{
  Inner, FakeViewerLink, new, post, tell_host, ViewerEnvelope, dismiss, closed, viewer, host_send,
  host_recv, host_drop, is_current, viewer_send, viewer_recv, viewer_drop,
}
use simple_remote.Transport.FakeSignal.Reach.{
  heard, Reaches, start, viewer_comes, host_sends, host_receives, host_leaves, viewer_sends,
  viewer_receives, viewer_leaves,
}

-- A listener who knows whether a viewer is there; `none` for a message that cannot come then.
abbrev pub hear : ServerToHost → Bool → Option Bool
hear ServerToHost.viewer_joined there = some true
hear (ServerToHost.relay data_text) true = some true
hear ServerToHost.viewer_left true = some false
hear _ _ = none

abbrev pub hear_all : List ServerToHost → Bool → Option Bool
hear_all [] there = some there
hear_all (m ∷ ms) there = elim (hear m there) [ none ↦ none | some t ↦ hear_all ms t ]

-- A viewer that is there has been announced.
abbrev pub Announced : List ServerToHost → Inner → Type 0
Announced seen h =
    (there : Bool) × (hear_all (seen ++ h.host_queue) false ≡ some there)
    × ((h.viewer ≡ none) ⊎ (there ≡ true))

hear_all-append :
    (ms : List ServerToHost) (m : ServerToHost) (b t : Bool)
    → hear_all ms b ≡ some t
    → hear_all (ms ++ (m ∷ [])) b ≡ hear m t
hear_all-append [] m b t e = ground arith
hear_all-append (k ∷ ms) m b t e = elim (Option-cases (hear k b)) [
  | inl refused ↦ absurd (ground (arith, refused))
  | inr (b', heard_k) ↦
      let rest = hear_all-append ms m b' t (ground (arith, heard_k)) in
      ground (arith, heard_k, rest)
]

-- A message that the listener expects
told :
    (seen : List ServerToHost) (h : Inner) (m : ServerToHost) (b t : Bool)
    → hear_all (seen ++ h.host_queue) false ≡ some b
    → hear m b ≡ some t
    → hear_all (seen ++ (tell_host m h).host_queue) false ≡ some t
unfolding tell_host
told seen h m b t e expected =
    ap (λ q. hear_all q false) (sym (append_assoc seen h.host_queue (m ∷ [])))
    ∙ hear_all-append (seen ++ h.host_queue) m false b e
    ∙ expected

-- What leaves the host's queue and the announcement alone
quiet :
    (seen : List ServerToHost) (h h' : Inner)
    → Announced seen h
    → h'.host_queue ≡ h.host_queue
    → (h'.viewer ≡ none) ⊎ (h'.viewer ≡ h.viewer)
    → Announced seen h'
quiet seen h h' (b, e, present) same who = (b, rw (same) e, ground arith)

dismiss-host_queue :
    (e : ViewerEnvelope) (h : Inner)
    → ((dismiss e h).host_queue ≡ h.host_queue) × ((dismiss e h).viewer ≡ none)
unfolding dismiss post
dismiss-host_queue e h = ground arith

viewer-Announced :
    (seen : List ServerToHost) (h : Inner) → Announced seen h → Announced seen (viewer h).1
unfolding viewer post tell_host
viewer-Announced seen h (b, e, present) =
    let entered = record h { next_generation = (h.next_generation + 1) % 18446744073709551616 } in
    let (same, gone) = dismiss-host_queue (closed 4001) entered in
    (
      true,
      told seen (dismiss (closed 4001) entered) ServerToHost.viewer_joined b true (rw (same) e)
          refl,
      inr refl,
    )

some-injective : {A : Type 0} {a b : A} → some a ≡ some b → a ≡ b
some-injective {A} {a} {b} e = ground arith

host_relay-same :
    (hex : Codec Bytes Str) (data_text : Str) (h h' : Inner)
    → host_send hex (HostToServer.relay data_text) h ≡ some h'
    → (h'.host_queue ≡ h.host_queue) × (h'.viewer ≡ h.viewer)
unfolding host_send post
host_relay-same hex data_text h h' went = elim (Option-cases (hex.from_wire data_text)) [
  | inl bad ↦ absurd (ground (arith, bad))
  | inr (bytes, good) ↦ elim (Option-cases h.viewer) [
    | inl alone ↦ ground (arith, good, alone)
    | inr (g, there) ↦ ground (arith, good, there)
  ]
]

host_send-Announced :
    (hex : Codec Bytes Str) (seen : List ServerToHost) (m : HostToServer) (h h' : Inner)
    → host_send hex m h ≡ some h'
    → Announced seen h
    → Announced seen h'
unfolding host_send post dismiss
host_send-Announced hex seen (HostToServer.auth sig) h h' went a =
    subst (Announced seen) (some-injective went) a
host_send-Announced hex seen (HostToServer.relay data_text) h h' went a =
    let (same, who) = host_relay-same hex data_text h h' went in quiet seen h h' a same (inr who)
host_send-Announced hex seen HostToServer.kick h h' went a =
    let (same, gone) = dismiss-host_queue (closed 4001) h in
    subst (Announced seen) (some-injective went)
      (quiet seen h (dismiss (closed 4001) h) a same (inl gone))

host_recv-Announced :
    (seen : List ServerToHost) (h : Inner)
    → Announced seen h
    → Announced (seen ++ heard (host_recv h).0) (host_recv h).1
unfolding host_recv
host_recv-Announced seen h (b, e, present) = elim (List-cases h.host_queue) [
  | inl empty ↦ rw (empty) (
    b,
    ap (λ q. hear_all q false) (append-nil (seen ++ []))
        ∙ subst (λ q. hear_all (seen ++ q) false ≡ some b) empty e,
    present,
  )
  | inr (m, more, full) ↦ rw (full) (
    b,
    ap (λ q. hear_all q false) (append_assoc seen (m ∷ []) more)
        ∙ subst (λ q. hear_all (seen ++ q) false ≡ some b) full e,
    present,
  )
]

current-there :
    (l : FakeViewerLink) (h : Inner) (b : Bool)
    → is_current l h ≡ true
    → (h.viewer ≡ none) ⊎ (b ≡ true)
    → b ≡ true
unfolding is_current
current-there l h b this (inl alone) = absurd (ground (arith, alone))
current-there l h b this (inr there) = there

viewer_send-Announced :
    (seen : List ServerToHost) (m : ViewerToServer) (l : FakeViewerLink) (h : Inner)
    → Announced seen h
    → Announced seen (viewer_send m l h).1
unfolding viewer_send
viewer_send-Announced seen (ViewerToServer.relay text) l h (b, e, present) =
    elim (Option-cases l.closed_code) [
      | inr (code, gone) ↦ rw (gone) (b, e, present)
      | inl open_link ↦ elim (Bool-cases (is_current l h)) [
        | inr other ↦
            let out : viewer_send (ViewerToServer.relay text) l h
                ≡ (err (LinkError.closed (some 4001)), h) =
              ground (arith, open_link, other) in
            subst (λ o. Announced seen o.1) (sym out) (b, e, present)
        | inl this ↦
            let out : viewer_send (ViewerToServer.relay text) l h
                ≡ (ok tt, tell_host (ServerToHost.relay text) h) =
              ground (arith, open_link, this) in
            subst (λ o. Announced seen o.1) (sym out)
              (
                true,
                told seen h (ServerToHost.relay text) b true e
                    (ap (hear (ServerToHost.relay text)) (current-there l h b this present)),
                inr refl,
              )
      ]
    ]

viewer_drop-Announced :
    (seen : List ServerToHost) (l : FakeViewerLink) (h : Inner)
    → Announced seen h
    → Announced seen (viewer_drop l h)
unfolding viewer_drop tell_host
viewer_drop-Announced seen l h (b, e, present) = elim (Bool-cases (is_current l h)) [
  | inr other ↦ rw (other) (b, e, present)
  | inl this ↦ rw (this) (
    false,
    told seen h ServerToHost.viewer_left b false e
        (ap (hear ServerToHost.viewer_left) (current-there l h b this present)),
    inl refl,
  )
]

viewer_recv-same :
    (l : FakeViewerLink) (h : Inner)
    → ((viewer_recv l h).2.host_queue ≡ h.host_queue) × ((viewer_recv l h).2.viewer ≡ h.viewer)
unfolding viewer_recv
viewer_recv-same l h = elim (Option-cases l.closed_code) [
  | inr (code, gone) ↦ rw (gone) (refl, refl)
  | inl open_link ↦ elim (List-cases (h.mail l.generation)) [
    | inl empty ↦ elim (Bool-cases (is_current l h)) [
      | inl this ↦ ground (arith, open_link, empty, this)
      | inr other ↦ ground (arith, open_link, empty, other)
    ]
    | inr (ViewerEnvelope.msg m, more, full) ↦ ground (arith, open_link, full)
    | inr (closed code, more, full) ↦ ground (arith, open_link, full)
  ]
]

host_drop-Announced :
    (seen : List ServerToHost) (h : Inner) → Announced seen h → Announced seen (host_drop h)
unfolding host_drop post
host_drop-Announced seen h a = elim (Option-cases h.viewer) [
  | inl alone ↦ quiet seen h (host_drop h) a (ground (arith, alone)) (inl (ground (arith, alone)))
  | inr (g, there) ↦
      quiet seen h (host_drop h) a (ground (arith, there)) (inl (ground (arith, there)))
]

-- Whatever the host and its viewers do, the host hears `ViewerJoined` before every `Relay` and every
-- `ViewerLeft`, and after a `ViewerLeft` neither of the two before the next `ViewerJoined`. This holds
-- of what it has received, together with what is under way. A viewer that the server serves has been
-- announced, and its leaving has not.
pub Reaches-Announced :
    (hex : Codec Bytes Str) (n : ℕ) (seen : List ServerToHost) (h : Inner)
    → Reaches hex n seen h
    → Announced seen h
unfolding new
Reaches-Announced hex n seen h start = (false, refl, inl refl)
Reaches-Announced hex n seen h (viewer_comes run) =
    viewer-Announced seen _ (Reaches-Announced hex _ seen _ run)
Reaches-Announced hex n seen h (host_sends m run went) =
    host_send-Announced hex seen m _ h went (Reaches-Announced hex n seen _ run)
Reaches-Announced hex n seen h (host_receives {seen = old} {h = h'} run) =
    host_recv-Announced old h' (Reaches-Announced hex n old h' run)
Reaches-Announced hex n seen h (host_leaves run) =
    host_drop-Announced seen _ (Reaches-Announced hex n seen _ run)
Reaches-Announced hex n seen h (viewer_sends m l run) =
    viewer_send-Announced seen m l _ (Reaches-Announced hex n seen _ run)
Reaches-Announced hex n seen h (viewer_receives {h = h'} l run) =
    let (same, who) = viewer_recv-same l h' in
    quiet seen h' (viewer_recv l h').2 (Reaches-Announced hex n seen h' run) same (inr who)
Reaches-Announced hex n seen h (viewer_leaves l run) =
    viewer_drop-Announced seen l _ (Reaches-Announced hex n seen _ run)
