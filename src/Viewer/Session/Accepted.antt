-- ===== src/Viewer/Session/Accepted.antt =====
-- What the viewer has checked when it has a session.
use simple_remote.Base.{
  ℕ, ◌≡◌, inl, inr, some, List, ◌∷◌, ok, arith, Result-cases, ap, sym, ◌∙◌, subst,
}
use simple_remote.Base.Text.{Bytes, Str}
use simple_remote.Protocol.{Timeouts, pake}
use simple_remote.Protocol.PakeMsg.{PakeMsg}
use simple_remote.Protocol.Signaling.{ServerToViewer, ViewerToServer}
use simple_remote.Auth.Code.{OneTimeCode}
use simple_remote.Auth.Pake.{viewer_start, viewer_finish}
use simple_remote.Auth.Identity.{DeviceKeys}
use simple_remote.Auth.Sealed.{SessionKeys}
use simple_remote.Transport.World.{World, draw, link_recv}
use simple_remote.Transport.Channel
use simple_remote.Viewer.Connect.{handshake, relay_of, send_relay, recv_relay}
use simple_remote.Viewer.Connect.Accepted.{
  Heard, handshake_sound, send_relay-polls, recv_relay-polls,
}
use simple_remote.Viewer.Session.Disclosed.{
  Arrivals, heard_relay, heard_joined, on_reply-reply, draw_arrivals, send_relay-start,
}
use simple_remote.Transport.World.Polls.{draw-polls, link_recv-polls}
use simple_remote.Transport.Channel.{data_of}
use simple_remote.Viewer.Session.{ViewerSession, on_join, on_reply, with_keys, connect_on, connect}
use simple_remote.Platform.{Platform}

abbrev ViewerWorld : Type 0
ViewerWorld = World ServerToViewer ViewerToServer

module _ (p : Platform) (host_id : Str) (code : OneTimeCode) (keys : DeviceKeys)
    (bind_ips : List Str) (t : Timeouts) where
  with_keys_sound :
      (sk : SessionKeys) (mac_a : Bytes) (w : ViewerWorld) (s : ViewerSession)
      → (with_keys p keys bind_ips t (sk, mac_a) w).0 ≡ ok s
      → Heard p sk s.host (data_of w.polls)
  unfolding with_keys Channel.new
  with_keys_sound sk mac_a w s e =
      let ((r, ch), w1) = handshake p keys t sk mac_a Channel.new w in
      elim (Result-cases (p.peer_new bind_ips)) [
        | inl (x, bad) ↦ absurd (ground (arith, bad))
        | inr (x, made) ↦ elim (Result-cases r) [
          | inl (y, bad) ↦ absurd (ground (arith, made, bad))
          | inr (who, good) ↦
              let same : who ≡ s.host = ground (arith, made, good) in
              handshake_sound p keys t sk mac_a Channel.new w s.host (good ∙ ap ok same)
        ]
      ]

  -- One run of the exchange for the code that was typed in: the link brings the server's permission
  -- and then a reply with which the host confirms the code; and the peer brings what the handshake
  -- under the keys of this exchange checks.
  abbrev pub Earned : ViewerWorld → ViewerSession → Type 0
  Earned w s =
      (n : ℕ) × (state : p.pake_lib.StateA) × (pa : Bytes) × (viewer_start p.pake_lib
          (p.fresh_bytes n) code host_id
        ≡ ok (state, pa))
      × (text : Str) × (more : Arrivals) × (w.arrivals
          ≡ ok (some ServerToViewer.joined) ∷ ok (some (ServerToViewer.relay text)) ∷ more)
      × (pb : Bytes) × (mac_b : Bytes) × (relay_of p pake (some (ServerToViewer.relay text))
          ≡ ok (PakeMsg.reply pb mac_b))
      × (sk : SessionKeys) × (mac_a : Bytes) × (viewer_finish p.pake_lib state pb mac_b
          ≡ ok (sk, mac_a))
      × Heard p sk s.host (data_of w.polls)

  connect_on-Earned :
      (w : ViewerWorld) (s : ViewerSession)
      → (connect_on p host_id code keys bind_ips t w).0 ≡ ok s
      → Earned w s
  unfolding connect_on
  connect_on-Earned w s e =
      let (j, w1) = link_recv t.signaling_step w in
      let (n, w2) = draw w1 in
      elim (Result-cases (on_join j)) [
        | inl (x, bad) ↦ absurd (ground (arith, bad))
        | inr (tt, joined) ↦
            elim (Result-cases (viewer_start p.pake_lib (p.fresh_bytes n) code host_id)) [
              | inl (y, bad) ↦ absurd (ground (arith, joined, bad))
              | inr ((state, pa), started) ↦
                  let (r, w3) = send_relay p (PakeMsg.start pa) w2 in
                  let (got, w4) = recv_relay p t.signaling_step pake w3 in
                  elim (Result-cases r) [
                    | inl (z, bad) ↦ absurd (ground (arith, joined, started, bad))
                    | inr (z, sent) ↦ elim (Result-cases got) [
                      | inl (u, bad) ↦ absurd (ground (arith, joined, started, sent, bad))
                      | inr (m, heard) ↦ elim (Result-cases (on_reply p state m)) [
                        | inl (v, bad) ↦ absurd (ground (arith, joined, started, sent, heard, bad))
                        | inr ((sk, mac_a), agreed) ↦
                            let out : connect_on p host_id code keys bind_ips t w
                                ≡ with_keys p keys bind_ips t (sk, mac_a) w4 =
                              ground (arith, joined, started, sent, heard, agreed) in
                            let (pb, mac_b, is_reply, finished) =
                              on_reply-reply p state m sk mac_a agreed in
                            let (text, more, arrived, read) =
                              heard_relay p t.signaling_step pake w3 m heard in
                            let polls : w4.polls ≡ w.polls =
                              recv_relay-polls p t.signaling_step pake w3
                              ∙ send_relay-polls p (PakeMsg.start pa) w2
                              ∙ draw-polls w1
                              ∙ link_recv-polls t.signaling_step w in
                            (
                              n,
                              state,
                              pa,
                              started,
                              text,
                              more,
                              heard_joined p t.signaling_step w joined
                                  ∙ ap (λ l. ok (some ServerToViewer.joined) ∷ l)
                                      (sym (draw_arrivals p w1)
                                        ∙ sym (send_relay-start p pa w2).1
                                        ∙ arrived),
                              pb,
                              mac_b,
                              read ∙ ap ok is_reply,
                              sk,
                              mac_a,
                              finished,
                              subst (λ l. Heard p sk s.host (data_of l)) polls
                                  (with_keys_sound sk mac_a w4 s (ap (λ o. o.0) (sym out) ∙ e)),
                            )
                      ]
                    ]
                  ]
            ]
      ]

  -- If `connect` gives a session, the server let the viewer in, and the next message on the link was a
  -- reply with which the host confirmed, in an exchange for the given code and host id, that it knows
  -- the code; the first message of the peer is a `Hello` that was verified under the keys of this
  -- exchange and is that of the session's host; and the second is the host's decision `Accepted`.
  pub connect-Earned :
      (w : ViewerWorld) (s : ViewerSession)
      → (connect p host_id code keys bind_ips t w).0 ≡ ok s
      → Earned w s
  unfolding connect
  connect-Earned w s e = connect_on-Earned w s e
