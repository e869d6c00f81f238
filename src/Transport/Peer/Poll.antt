-- ===== src/Transport/Peer/Poll.antt =====
-- crates/transport/src/peer.rs: `poll`, `drain_output` and `pump_sockets`. A round of the loop is what
-- the library and the sockets give in it.
pub mod Means
pub mod Events
use simple_remote.Base.{
  ℕ, Bool, true, false, ◌||◌, Option, none, some, List, [], ◌∷◌, ◌++◌, Result, ok, err, leb, any_of,
  if◌then◌else◌,
}
use simple_remote.Base.Text.{Bytes}
use simple_remote.Protocol.{Instant}
use simple_remote.Transport.Interface.{PeerEvent, TransportError, IoKind}
use simple_remote.Transport.Peer.{Addr, addr_eq, Event, Peer, map_event, recv_error_is_transient}

-- `str0m::Output`
pub data Output : Type 0 where
  timeout : Output
  -- source, destination, contents
  transmit : Addr → Addr → Bytes → Output
  event : Event → Output

-- A socket's `recv_from` and what `handle_input` says to the datagram; `too_large` when the datagram
-- does not fit into the library's type.
pub data Received : Type 0 where
  datagram : Result (Unit {0}) (Unit {0}) → Received
  too_large : Received
  failed : IoKind → Received

-- `outputs` are the results of `poll_output`, `at` is the clock after them, `received` is what each
-- socket gives, and `timed` is what `handle_input` says to the time.
pub record Round : Type 0 where
  pub outputs : List (Result Output (Unit {0}))
  pub at : Instant
  pub received : List Received
  pub timed : Result (Unit {0}) (Unit {0})

-- What has been sent: source, destination, contents
abbrev pub Sent : Type 0
Sent = List (Addr × (Addr × Bytes))

-- A `Transmit` goes out if its source is the address of a socket.
unfoldable pub transmit_from : Addr → Addr → Bytes → Peer → Sent
transmit_from source to contents p =
    if any_of (addr_eq source) p.sockets then (source, (to, contents)) ∷ [] else []

abbrev pub push : Option PeerEvent → List PeerEvent → List PeerEvent
push none events = events
push (some e) events = events ++ (e ∷ [])

-- `none`: the library has not yet given its `Timeout`, and the loop goes on.
unfoldable pub drain_output :
    List (Result Output (Unit {0}))
    → List PeerEvent
    → Peer
    → Option ((Result (List PeerEvent) TransportError × Peer) × Sent)
drain_output [] events p = none
drain_output (err _ ∷ more) events p = some ((err TransportError.rtc, p), [])
drain_output (ok timeout ∷ more) events p = some ((ok events, p), [])
drain_output (ok (transmit source to contents) ∷ more) events p =
    elim (drain_output more events p) [
      | none ↦ none
      | some (r, sent) ↦ some (r, transmit_from source to contents p ++ sent)
    ]
drain_output (ok (event e) ∷ more) events p =
    let (told, p') = map_event e p in drain_output more (push told events) p'

-- Whether anything was read
unfoldable pub pump_sockets : List Received → Bool → Result Bool TransportError
pump_sockets [] got_input = ok got_input
pump_sockets (datagram (ok _) ∷ more) got_input = pump_sockets more true
pump_sockets (datagram (err _) ∷ more) got_input = err TransportError.rtc
pump_sockets (too_large ∷ more) got_input = err TransportError.rtc
pump_sockets (failed kind ∷ more) got_input =
    if recv_error_is_transient kind
    then pump_sockets more got_input
    else err (TransportError.io kind)

abbrev pub is_empty : List PeerEvent → Bool
is_empty [] = true
is_empty (e ∷ events) = false

-- The end of a round: the sockets and the time. Then comes the next round, after a sleep of a
-- millisecond if nothing was read.
unfoldable pub feed : Round → Result (Unit {0}) TransportError
feed r = elim (pump_sockets r.received false) [
  | err e ↦ err e
  | ok got_input ↦ elim r.timed [ err _ ↦ err TransportError.rtc | ok _ ↦ ok tt ]
]

-- The loop of `poll`; `none` when the rounds are over and the loop goes on.
unfoldable pub poll_loop :
    Instant → List Round → Peer → Option ((Result (List PeerEvent) TransportError × Peer) × Sent)
poll_loop end [] p = none
poll_loop end (r ∷ rounds) p = elim (drain_output r.outputs [] p) [
  | none ↦ none
  | some ((err e, p'), sent) ↦ some ((err e, p'), sent)
  | some ((ok events, p'), sent) ↦ elim (if is_empty events then leb end r.at else true) [
    | true ↦ some ((ok events, p'), sent)
    | false ↦ elim (feed r) [
      | err e ↦ some ((err e, p'), sent)
      | ok _ ↦ elim (poll_loop end rounds p') [
        | none ↦ none
        | some (out, sent') ↦ some (out, sent ++ sent')
      ]
    ]
  ]
]
