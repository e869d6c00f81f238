-- ===== src/Transport/World.antt =====
-- The surroundings of one side: the clock, the signaling link (`trait Link` of
-- crates/transport/src/link.rs), the peer's `poll` and `send`, and the user's answers, each as the
-- list of what its calls will give. A list that has run out stands for a silent partner: `recv` and
-- `poll` then wait for the whole time they are given. Every call that leaves the program is written
-- into a trace, newest first.
pub mod Trace
pub mod Polls
use simple_remote.Base.{ℕ, ◌+◌, Bool, Option, none, some, List, [], ◌∷◌, Result, ok, err}
use simple_remote.Base.Text.{Bytes, Str}
use simple_remote.Protocol.{Duration, Instant}
use simple_remote.Transport.Interface.{LinkError, TransportError, PeerEvent}

pub data Call (Out : Type 0) : Type 0 where
  link_sent : Out → Call Out
  peer_sent : Bytes → Call Out
  peer_closed : Call Out
  link_dropped : Call Out
  asked : Str → Str → Option Bool → Call Out

pub record World (In Out : Type 0) : Type 0 where
  pub clock : Instant
  -- the time that goes by before each reading of the clock
  pub ticks : List Duration
  pub arrivals : List (Result (Option In) LinkError)
  pub link_faults : List (Option LinkError)
  pub polls : List (Result (List PeerEvent) TransportError)
  pub peer_faults : List (Option TransportError)
  pub answers : List (Option Bool)
  -- how many random values have been drawn
  pub draws : ℕ
  pub trace : List (Call Out)

abbrev pub fault : {E : Type 0} → Option E → Result (Unit {0}) E
fault none = ok tt
fault (some e) = err e

-- A computation in these surroundings.
abbrev pub Io : Type 0 → Type 0 → Type 0 → Type 0
Io In Out A = World In Out → A × World In Out

abbrev pub pure : {In Out A : Type 0} → A → Io In Out A
pure a w = (a, w)

module _ {In Out : Type 0} where
  abbrev pub log : Call Out → World In Out → World In Out
  log c w = record w { trace = c ∷ w.trace }

  -- `Instant::now()`
  unfoldable pub now : Io In Out Instant
  now w = elim w.ticks [
    | [] ↦ (w.clock, w)
    | t ∷ ts ↦ (w.clock + t, record w { clock = w.clock + t; ticks = ts })
  ]

  -- `Link::recv`
  unfoldable pub link_recv : Duration → Io In Out (Result (Option In) LinkError)
  link_recv timeout w = elim w.arrivals [
    | [] ↦ (ok none, record w { clock = w.clock + timeout })
    | a ∷ as' ↦ (a, record w { arrivals = as' })
  ]

  -- `Link::send`
  unfoldable pub link_send : Out → Io In Out (Result (Unit {0}) LinkError)
  link_send msg w =
      let sent = log (link_sent msg) w in
      elim w.link_faults [
        | [] ↦ (ok tt, sent)
        | f ∷ fs ↦ (fault f, record sent { link_faults = fs })
      ]

  -- `Peer::poll`
  unfoldable pub peer_poll : Duration → Io In Out (Result (List PeerEvent) TransportError)
  peer_poll max_wait w = elim w.polls [
    | [] ↦ (ok [], record w { clock = w.clock + max_wait })
    | p ∷ ps ↦ (p, record w { polls = ps })
  ]

  -- `Peer::send`
  unfoldable pub peer_send : Bytes → Io In Out (Result (Unit {0}) TransportError)
  peer_send bytes w =
      let sent = log (peer_sent bytes) w in
      elim w.peer_faults [
        | [] ↦ (ok tt, sent)
        | f ∷ fs ↦ (fault f, record sent { peer_faults = fs })
      ]

  -- the `approve` function of the host
  unfoldable pub ask : Str → Str → Io In Out (Option Bool)
  ask name fingerprint w = elim w.answers [
    | [] ↦ (none, log (asked name fingerprint none) w)
    | a ∷ as' ↦ (a, record (log (asked name fingerprint a) w) { answers = as' })
  ]

  -- The number of the next random value.
  unfoldable pub draw : Io In Out ℕ
  draw w = (w.draws, record w { draws = w.draws + 1 })

infixl 5 ◌>>=◌ ◌>>◌
abbrev pub ◌>>=◌ : {In Out A B : Type 0} → Io In Out A → (A → Io In Out B) → Io In Out B
◌>>=◌ m f w = let (a, w') = m w in f a w'

abbrev pub ◌>>◌ : {In Out A B : Type 0} → Io In Out A → Io In Out B → Io In Out B
◌>>◌ m k w = let (_, w') = m w in k w'
