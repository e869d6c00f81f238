-- ===== src/Transport/Channel/Calm.antt =====
-- Surroundings in which nothing fails and no time passes: every call is answered at once by what the
-- lists hold.
use simple_remote.Base.{
  ℕ, suc, ◌+◌, ◌<◌, ◌≡◌, Bool, false, Option, List, [], ◌∷◌, Result, ok, length, arith,
}
use simple_remote.Base.Text.{Bytes}
use simple_remote.Protocol.{Instant}
use simple_remote.Protocol.Control.{Control}
use simple_remote.Protocol.Serde.{Codec}
use simple_remote.Transport.Interface.{LinkError, TransportError, PeerEvent, channel_open, received}
use simple_remote.Transport.World.{World, Call, now, peer_poll}
use simple_remote.Transport.Channel.{
  Channel, Opened, decoded, new, absorb, wait_open, wait_open_loop, next, next_loop,
}

module _ {In Out : Type 0} where
  abbrev pub calm :
      Instant
      → List (Result (Option In) LinkError)
      → List (Result (List PeerEvent) TransportError)
      → List (Option Bool)
      → ℕ
      → List (Call Out)
      → World In Out
  calm t arrivals polls answers draws trace = record {
    clock = t;
    ticks = [];
    arrivals = arrivals;
    link_faults = [];
    polls = polls;
    peer_faults = [];
    answers = answers;
    draws = draws;
    trace = trace;
  }

-- A channel that is open and holds these messages.
abbrev pub holding : List Bytes → Channel
holding ds = record { pending = ds; remote_closed = false; local_closed = false }

module _ {In Out : Type 0} (t : Instant) (arrivals : List (Result (Option In) LinkError))
    (polls : List (Result (List PeerEvent) TransportError)) (answers : List (Option Bool)) (n : ℕ)
    (trace : List (Call Out)) where
  pub wait_open-calm :
      (deadline : Instant) (d : Bytes)
      → t < deadline
      → wait_open deadline new
          (calm t arrivals (ok (channel_open ∷ received d ∷ []) ∷ polls) answers n trace)
        ≡ ((ok Opened.ready, holding (d ∷ [])), calm t arrivals polls answers n trace)
  unfolding wait_open wait_open_loop now peer_poll absorb new
  wait_open-calm deadline d early =
      let fuel : length polls + 3 ≡ suc (suc (length polls + 1)) = omega arith in
      ground (arith, fuel)

  pub next-held :
      (codec : Codec Control Bytes) (deadline : Instant) (d : Bytes) (ds : List Bytes)
      → next codec deadline (holding (d ∷ ds)) (calm t arrivals polls answers n trace)
        ≡ ((ok (decoded codec d), holding ds), calm t arrivals polls answers n trace)
  unfolding next next_loop
  next-held codec deadline d ds =
      let fuel : length polls + 2 ≡ suc (length polls + 1) = omega arith in ground (arith, fuel)

  pub next-calm :
      (codec : Codec Control Bytes) (deadline : Instant) (d : Bytes)
      → t < deadline
      → next codec deadline
          (holding [])
          (calm t arrivals (ok (received d ∷ []) ∷ polls) answers n trace)
        ≡ ((ok (decoded codec d), holding []), calm t arrivals polls answers n trace)
  unfolding next next_loop now peer_poll absorb
  next-calm codec deadline d early =
      let fuel : length polls + 3 ≡ suc (suc (length polls + 1)) = omega arith in
      ground (arith, fuel)
