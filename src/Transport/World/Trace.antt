-- ===== src/Transport/World/Trace.antt =====
-- What single calls leave in the trace.
use simple_remote.Base.{ℕ, ◌≡◌, refl, ◌∷◌, arith}
use simple_remote.Transport.World.{World, link_sent, now, draw, link_recv, link_send}

module _ {In Out : Type 0} where
  pub link_send-trace :
      (m : Out) (w : World In Out) → (link_send m w).1.trace ≡ link_sent m ∷ w.trace
  unfolding link_send
  link_send-trace m w = ground arith

  pub link_recv-trace : (t : ℕ) (w : World In Out) → (link_recv t w).1.trace ≡ w.trace
  unfolding link_recv
  link_recv-trace t w = ground arith

  pub now-trace : (w : World In Out) → (now w).1.trace ≡ w.trace
  unfolding now
  now-trace w = ground arith

  pub draw-trace : (w : World In Out) → (draw w).1.trace ≡ w.trace
  unfolding draw
  draw-trace w = refl
