-- ===== src/Host/Session/Attempt/Inputs.antt =====
-- What the stages before the handshake take from the link, and what they leave to it.
use simple_remote.Base.{◌≡◌, refl, inl, inr, none, some, ◌∷◌, ok, err, arith, List-cases}
use simple_remote.Base.Text.{Str}
use simple_remote.Protocol.{Duration}
use simple_remote.Protocol.PakeMsg.{PakeMsg}
use simple_remote.Protocol.Signaling.{ServerToHost}
use simple_remote.Transport.World.{now, draw, link_recv, link_send}
use simple_remote.Transport.World.Polls.{link_recv-polls}
use simple_remote.Transport.Channel
use simple_remote.Transport.Channel.{inbox, data_of}
use simple_remote.Host.Session.Types.{HostConfig, HostState}
use simple_remote.Host.Session.Relay.{Relay, relay_of, send_relay, recv_relay}
use simple_remote.Host.Session.Approval.{HostWorld}
use simple_remote.Host.Session.Attempt.{count_guess}
use simple_remote.Platform.{Platform}

-- The link and the peer will give the same as before.
pub record IsKept (w w' : HostWorld) : Type 0 where
  pub arrivals : w'.arrivals ≡ w.arrivals
  pub polls : w'.polls ≡ w.polls

pub now-IsKept : (w : HostWorld) → IsKept w (now w).1
unfolding now
now-IsKept w = record { arrivals = ground arith; polls = ground arith }

pub draw-IsKept : (w : HostWorld) → IsKept w (draw w).1
unfolding draw
draw-IsKept w = record { arrivals = refl; polls = refl }

pub inbox-new : (w : HostWorld) → inbox Channel.new w ≡ data_of w.polls
unfolding Channel.new
inbox-new w = refl

module _ (p : Platform) where
  pub send_relay-IsKept : (m : PakeMsg) (w : HostWorld) → IsKept w (send_relay p m w).1
  unfolding send_relay link_send
  send_relay-IsKept m w = record { arrivals = ground arith; polls = ground arith }

  pub count_guess-IsKept :
      (cfg : HostConfig) (st : HostState) (w : HostWorld) → IsKept w (count_guess p cfg st w).1
  unfolding count_guess draw
  count_guess-IsKept cfg st w =
      let kept = now-IsKept w in
      record { arrivals = ground (arith, kept.arrivals); polls = ground (arith, kept.polls) }

  pub recv_relay-polls :
      (limit : Duration) (w : HostWorld) → (recv_relay p limit w).1.polls ≡ w.polls
  unfolding recv_relay
  recv_relay-polls limit w = ground (arith, link_recv-polls limit w)

  -- What a message was heard as
  pub heard_relay :
      (limit : Duration) (w : HostWorld) (m : PakeMsg)
      → (recv_relay p limit w).0 ≡ ok (Relay.msg m)
      → (text : Str) × (relay_of p (some (ServerToHost.relay text)) ≡ Relay.msg m)
        × (w.arrivals ≡ ok (some (ServerToHost.relay text)) ∷ (recv_relay p limit w).1.arrivals)
  unfolding recv_relay link_recv relay_of
  heard_relay limit w m e = elim (List-cases w.arrivals) [
    | inl silent ↦ absurd (ground (arith, silent))
    | inr (err x, more, here) ↦ absurd (ground (arith, here))
    | inr (ok none, more, here) ↦ absurd (ground (arith, here))
    | inr (ok (some (ServerToHost.relay text)), more, here) ↦
        (text, ground (arith, here), ground (arith, here))
    | inr (ok (some _), more, here) ↦ absurd (ground (arith, here))
  ]
