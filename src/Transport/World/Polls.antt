-- ===== src/Transport/World/Polls.antt =====
-- The calls that leave alone what the peer will give.
use simple_remote.Base.{ℕ, ◌≡◌, refl, arith}
use simple_remote.Base.Text.{Bytes}
use simple_remote.Transport.World.{World, draw, link_recv, link_send, peer_send}

module _ {In Out : Type 0} where
  pub draw-polls : (w : World In Out) → (draw w).1.polls ≡ w.polls
  unfolding draw
  draw-polls w = refl

  pub link_recv-polls : (t : ℕ) (w : World In Out) → (link_recv t w).1.polls ≡ w.polls
  unfolding link_recv
  link_recv-polls t w = ground arith

  pub link_send-polls : (m : Out) (w : World In Out) → (link_send m w).1.polls ≡ w.polls
  unfolding link_send
  link_send-polls m w = ground arith

  pub peer_send-polls : (b : Bytes) (w : World In Out) → (peer_send b w).1.polls ≡ w.polls
  unfolding peer_send
  peer_send-polls b w = ground arith
