-- ===== src/Transport/Channel.antt =====
-- crates/transport/src/channel.rs: the control data channel, shared by viewer and host.
pub mod Calm
pub mod Others
pub mod Opening
pub mod Ends
pub mod Queue
use simple_remote.Base.{
  ℕ, zero, suc, ◌+◌, ◌-◌, Bool, true, false, ◌||◌, Option, none, some, List, [], ◌∷◌, ◌++◌, Result,
  ok, err, leb, length, if◌then◌else◌,
}
use simple_remote.Base.Text.{Bytes}
use simple_remote.Protocol.{Duration, Instant}
use simple_remote.Protocol.Control.{Control, encode, decode}
use simple_remote.Protocol.Serde.{Codec}
use simple_remote.Transport.Interface.{TransportError, PeerEvent, connected, channel_open, received}
use simple_remote.Transport.World.{
  World, Io, now, peer_poll, peer_send, peer_closed, log, pure, ◌>>=◌, ◌>>◌,
}

pub data Opened : Type 0 where
  ready closed timed_out : Opened

pub data Next : Type 0 where
  msg : Control → Next
  malformed closed timed_out : Next

pub record Channel : Type 0 where
  pub pending : List Bytes
  pub remote_closed : Bool
  pub local_closed : Bool

unfoldable pub new : Channel
new = record { pending = []; remote_closed = false; local_closed = false }

-- One event of `absorb`, with the flag `opened`.
unfoldable pub absorb_event : PeerEvent → Bool × Channel → Bool × Channel
absorb_event channel_open (opened, ch) = (true, ch)
absorb_event (received d) (opened, ch) = (opened, record ch { pending = ch.pending ++ d ∷ [] })
absorb_event PeerEvent.closed (opened, ch) = (opened, record ch { remote_closed = true })
absorb_event connected (opened, ch) = (opened, ch)

unfoldable pub absorb_from : List PeerEvent → Bool × Channel → Bool × Channel
unfolding absorb_event
absorb_from [] acc = acc
absorb_from (e ∷ es) acc = absorb_from es (absorb_event e acc)

unfoldable pub absorb : List PeerEvent → Channel → Bool × Channel
unfolding absorb_from
absorb events ch = absorb_from events (false, ch)

-- What `next` makes of a message.
abbrev pub decoded : Codec Control Bytes → Bytes → Next
decoded codec d = elim (decode codec d) [ ok m ↦ msg m | err _ ↦ malformed ]

-- The messages in the order in which the peer will hand them over.
abbrev pub data_of_events : List PeerEvent → List Bytes
data_of_events [] = []
data_of_events (received d ∷ es) = d ∷ data_of_events es
data_of_events (_ ∷ es) = data_of_events es

abbrev pub data_of : List (Result (List PeerEvent) TransportError) → List Bytes
data_of [] = []
data_of (ok es ∷ ps) = data_of_events es ++ data_of ps
data_of (err _ ∷ ps) = data_of ps

module _ {In Out : Type 0} where
  -- All messages that the channel holds or will be given.
  abbrev pub inbox : Channel → World In Out → List Bytes
  inbox ch w = ch.pending ++ data_of w.polls

  -- The loop of `wait_open`; `none` when the fuel runs out.
  unfoldable pub wait_open_loop :
      ℕ
      → Instant
      → Channel
      → World In Out
      → Option ((Result Opened TransportError × Channel) × World In Out)
  wait_open_loop zero deadline ch w = none
  wait_open_loop (suc fuel) deadline ch w =
      if ch.remote_closed
      then some ((ok Opened.closed, ch), w)
      else let (t, w') = now w in
        if leb deadline t
        then some ((ok Opened.timed_out, ch), w')
        else let (polled, w'') = peer_poll (deadline - t) w' in
          elim polled [
            | err e ↦ some ((err e, ch), w'')
            | ok events ↦
                let (opened, ch') = absorb events ch in
                let again = wait_open_loop fuel deadline ch' w'' in
                if opened then some ((ok ready, ch'), w'') else again
          ]

  -- Each round but the last two reads an entry of `polls`.
  unfoldable pub wait_open : Instant → Channel → Io In Out (Result Opened TransportError × Channel)
  wait_open deadline ch w = elim (wait_open_loop (length w.polls + 2) deadline ch w) [
    | none ↦ ((ok Opened.timed_out, ch), w)
    | some r ↦ r
  ]

  unfoldable pub close : Channel → Io In Out Channel
  close ch w =
      if ch.local_closed
      then (ch, w)
      else (record ch { local_closed = true }, (peer_poll 0 (log peer_closed w)).1)

  module _ (codec : Codec Control Bytes) where
    -- The loop of `next`; `none` when the fuel runs out.
    unfoldable pub next_loop :
        ℕ
        → Instant
        → Channel
        → World In Out
        → Option ((Result Next TransportError × Channel) × World In Out)
    next_loop zero deadline ch w = none
    next_loop (suc fuel) deadline ch w = elim ch.pending [
      | d ∷ rest ↦ some ((ok (decoded codec d), record ch { pending = rest }), w)
      | [] ↦
          if ch.remote_closed
          then some ((ok closed, ch), w)
          else let (t, w') = now w in
            if leb deadline t
            then some ((ok timed_out, ch), w')
            else let (polled, w'') = peer_poll (deadline - t) w' in
              elim polled [
                | err e ↦ some ((err e, ch), w'')
                | ok events ↦ next_loop fuel deadline (absorb events ch).1 w''
              ]
    ]

    unfoldable pub next : Instant → Channel → Io In Out (Result Next TransportError × Channel)
    next deadline ch w = elim (next_loop (length w.polls + 2) deadline ch w) [
      | none ↦ ((ok timed_out, ch), w)
      | some r ↦ r
    ]

    unfoldable pub send : Control → Io In Out (Result (Unit {0}) TransportError)
    send m = peer_send (encode codec m)
