-- ===== src/Viewer/Session/Disclosed.antt =====
-- What the viewer has let out when it does not trust the host.
use simple_remote.Base.{
  ℕ, ◌≡◌, ◌⊎◌, refl, inl, inr, Option, none, some, List, ◌∷◌, Result, ok, err, arith, Result-cases,
  List-cases, ap, sym, ◌∙◌,
}
use simple_remote.Base.Text.{Bytes, Str}
use simple_remote.Protocol.{Timeouts, Duration, Stage, pake}
use simple_remote.Protocol.PakeMsg
use simple_remote.Protocol.PakeMsg.{PakeMsg}
use simple_remote.Protocol.Signaling.{ServerToViewer, ViewerToServer}
use simple_remote.Auth.Code.{OneTimeCode}
use simple_remote.Auth.Pake.{viewer_start, viewer_finish}
use simple_remote.Auth.Identity.{DeviceKeys}
use simple_remote.Auth.Sealed.{SessionKeys}
use simple_remote.Transport.World.{World, Call, link_sent, link_dropped, draw, link_recv, link_send}
use simple_remote.Transport.World.Trace.{link_send-trace, link_recv-trace, draw-trace}
use simple_remote.Viewer.Connect.{relay_of, send_relay, recv_relay}
use simple_remote.Viewer.Session.{on_join, on_reply, connect_on, drop_link, connect}
use simple_remote.Transport.Interface.{LinkError}
use simple_remote.Platform.{Platform}

abbrev ViewerWorld : Type 0
ViewerWorld = World ServerToViewer ViewerToServer

abbrev pub Arrivals : Type 0
Arrivals = List (Result (Option ServerToViewer) LinkError)

module _ (p : Platform) where
  abbrev pub start_call : Bytes → Call ViewerToServer
  start_call pa =
      link_sent
        (ViewerToServer.relay (p.hex.to_wire (PakeMsg.encode p.pake_codec (PakeMsg.start pa))))

  link_send-arrivals :
      (m : ViewerToServer) (w : ViewerWorld) → (link_send m w).1.arrivals ≡ w.arrivals
  unfolding link_send
  link_send-arrivals m w = ground arith

  -- What a relay was heard as
  pub heard_relay :
      (limit : Duration) (stage : Stage) (w : ViewerWorld) (m : PakeMsg)
      → (recv_relay p limit stage w).0 ≡ ok m
      → (text : Str) × (more : Arrivals) × (w.arrivals
          ≡ ok (some (ServerToViewer.relay text)) ∷ more)
        × (relay_of p stage (some (ServerToViewer.relay text)) ≡ ok m)
  unfolding recv_relay link_recv relay_of
  heard_relay limit stage w m e = elim (List-cases w.arrivals) [
    | inl silent ↦ absurd (ground (arith, silent))
    | inr (err x, more, here) ↦ absurd (ground (arith, here))
    | inr (ok none, more, here) ↦ absurd (ground (arith, here))
    | inr (ok (some ServerToViewer.joined), more, here) ↦ absurd (ground (arith, here))
    | inr (ok (some ServerToViewer.host_left), more, here) ↦ absurd (ground (arith, here))
    | inr (ok (some (ServerToViewer.relay text)), more, here) ↦
        (text, more, here, ground (arith, here))
  ]

  pub draw_arrivals : (w : ViewerWorld) → (draw w).1.arrivals ≡ w.arrivals
  unfolding draw
  draw_arrivals w = refl

  pub heard_joined :
      (limit : Duration) (w : ViewerWorld)
      → on_join (link_recv limit w).0 ≡ ok tt
      → w.arrivals ≡ ok (some ServerToViewer.joined) ∷ (link_recv limit w).1.arrivals
  unfolding link_recv on_join
  heard_joined limit w e = elim (List-cases w.arrivals) [
    | inl silent ↦ absurd (ground (arith, silent))
    | inr (err x, more, here) ↦ absurd (ground (arith, here))
    | inr (ok none, more, here) ↦ absurd (ground (arith, here))
    | inr (ok (some ServerToViewer.joined), more, here) ↦ ground (arith, here)
    | inr (ok (some ServerToViewer.host_left), more, here) ↦ absurd (ground (arith, here))
    | inr (ok (some (ServerToViewer.relay text)), more, here) ↦ absurd (ground (arith, here))
  ]

  pub on_reply-reply :
      (state : p.pake_lib.StateA) (m : PakeMsg) (sk : SessionKeys) (mac_a : Bytes)
      → on_reply p state m ≡ ok (sk, mac_a)
      → (pb : Bytes) × (mac_b : Bytes) × (m ≡ PakeMsg.reply pb mac_b)
        × (viewer_finish p.pake_lib state pb mac_b ≡ ok (sk, mac_a))
  unfolding on_reply
  on_reply-reply state (PakeMsg.reply pb mac_b) sk mac_a e = (
    pb,
    mac_b,
    refl,
    elim (Result-cases (viewer_finish p.pake_lib state pb mac_b)) [
      | inl (x, bad) ↦ absurd (ground (arith, bad))
      | inr (x, good) ↦ ground (arith, good)
    ],
  )
  on_reply-reply state (PakeMsg.retry_after ms) sk mac_a e = absurd (ground arith)
  on_reply-reply state _ sk mac_a e = absurd (ground arith)

  pub send_relay-start :
      (pa : Bytes) (w : ViewerWorld)
      → ((send_relay p (PakeMsg.start pa) w).1.trace ≡ start_call pa ∷ w.trace)
        × ((send_relay p (PakeMsg.start pa) w).1.arrivals ≡ w.arrivals)
  unfolding send_relay
  send_relay-start pa w =
      let m =
        ViewerToServer.relay (p.hex.to_wire (PakeMsg.encode p.pake_codec (PakeMsg.start pa))) in
      let (r, w1) = link_send m w in
      let said = link_send-trace m w in
      let kept = link_send-arrivals m w in
      elim (Result-cases r) [
        | inr (x, sent) ↦ ground (arith, sent, said, kept)
        | inl (LinkError.closed c, unsent) ↦ ground (arith, unsent, said, kept)
        | inl (LinkError.http c, unsent) ↦ ground (arith, unsent, said, kept)
        | inl (LinkError.insecure_url, unsent) ↦ ground (arith, unsent, said, kept)
        | inl (LinkError.io c, unsent) ↦ ground (arith, unsent, said, kept)
        | inl (LinkError.protocol, unsent) ↦ ground (arith, unsent, said, kept)
      ]

  recv_relay-trace :
      (limit : Duration) (stage : Stage) (w : ViewerWorld)
      → (recv_relay p limit stage w).1.trace ≡ w.trace
  unfolding recv_relay
  recv_relay-trace limit stage w = ground (arith, link_recv-trace limit w)

  module _ (host_id : Str) (code : OneTimeCode) (keys : DeviceKeys) (bind_ips : List Str)
      (t : Timeouts) where
    -- The server let the viewer in, and the next message on the link was a reply in the exchange that
    -- began in this state, with which the host confirmed that it knows the code.
    abbrev pub Confirmed : p.pake_lib.StateA → Arrivals → Type 0
    Confirmed state arrivals =
        (text : Str) × (more : Arrivals) × (arrivals
          ≡ ok (some ServerToViewer.joined) ∷ ok (some (ServerToViewer.relay text)) ∷ more)
        × (pb : Bytes) × (mac_b : Bytes) × (relay_of p pake (some (ServerToViewer.relay text))
            ≡ ok (PakeMsg.reply pb mac_b))
        × (sk : SessionKeys) × (mac_a : Bytes) × (viewer_finish p.pake_lib state pb mac_b
            ≡ ok (sk, mac_a))

    -- What `connect` has sent, newest first
    abbrev pub Disclosed : ViewerWorld → List (Call ViewerToServer) → Type 0
    Disclosed w after =
        (after ≡ w.trace)
        ⊎ ((n : ℕ) × (state : p.pake_lib.StateA) × (pa : Bytes) × (viewer_start p.pake_lib
                (p.fresh_bytes n) code host_id
              ≡ ok (state, pa))
            × ((after ≡ start_call pa ∷ w.trace) ⊎ Confirmed state w.arrivals))

    connect_on-Disclosed :
        (w : ViewerWorld) → Disclosed w (connect_on p host_id code keys bind_ips t w).1.trace
    unfolding connect_on
    connect_on-Disclosed w =
        let (j, w1) = link_recv t.signaling_step w in
        let (n, w2) = draw w1 in
        let same = draw-trace w1 ∙ link_recv-trace t.signaling_step w in
        elim (Result-cases (on_join j)) [
          | inl (x, bad) ↦ inl (ground (arith, bad, link_recv-trace t.signaling_step w))
          | inr (tt, joined) ↦
              elim (Result-cases (viewer_start p.pake_lib (p.fresh_bytes n) code host_id)) [
                | inl (y, bad) ↦ inl (ground (arith, joined, bad, same))
                | inr ((state, pa), started) ↦
                    let (r, w3) = send_relay p (PakeMsg.start pa) w2 in
                    let (got, w4) = recv_relay p t.signaling_step pake w3 in
                    let said : w3.trace ≡ start_call pa ∷ w.trace =
                      (send_relay-start pa w2).0 ∙ ap (λ l. start_call pa ∷ l) same in
                    let still = recv_relay-trace t.signaling_step pake w3 in
                    inr (
                      n,
                      state,
                      pa,
                      started,
                      elim (Result-cases r) [
                        | inl (z, bad) ↦ inl (ground (arith, joined, started, bad, said))
                        | inr (z, sent) ↦ elim (Result-cases got) [
                          | inl (u, bad) ↦
                              inl (ground (arith, joined, started, sent, bad, said, still))
                          | inr (m, heard) ↦ elim (Result-cases (on_reply p state m)) [
                            | inl (v, bad) ↦
                                inl (ground (arith, joined, started, sent, heard, bad, said, still))
                            | inr ((sk, mac_a), agreed) ↦
                                let (pb, mac_b, is_reply, finished) =
                                  on_reply-reply state m sk mac_a agreed in
                                let (text, more, arrived, read) =
                                  heard_relay t.signaling_step pake w3 m heard in
                                let queue : w.arrivals
                                    ≡ ok (some ServerToViewer.joined)
                                      ∷ ok (some (ServerToViewer.relay text))
                                      ∷ more =
                                  heard_joined t.signaling_step w joined
                                  ∙ ap (λ l. ok (some ServerToViewer.joined) ∷ l)
                                      (sym (draw_arrivals w1)
                                        ∙ sym (send_relay-start pa w2).1
                                        ∙ arrived) in
                                inr (
                                  text,
                                  more,
                                  queue,
                                  pb,
                                  mac_b,
                                  read ∙ ap ok is_reply,
                                  sk,
                                  mac_a,
                                  finished,
                                )
                          ]
                        ]
                      ],
                    )
              ]
        ]

    -- Whatever server and host do, the last thing that `connect` does is to drop the link; and before
    -- that it has said nothing but the first message of one exchange for the code, unless the next
    -- message on the link was a reply with which the host confirmed in this exchange that it knows
    -- the code.
    pub connect-Disclosed :
        (w : ViewerWorld)
        → (before : List (Call ViewerToServer)) × ((connect p host_id code keys bind_ips t
              w).1.trace
            ≡ link_dropped ∷ before)
          × Disclosed w before
    unfolding connect drop_link
    connect-Disclosed w =
        ((connect_on p host_id code keys bind_ips t w).1.trace, refl, connect_on-Disclosed w)
