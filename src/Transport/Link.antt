-- ===== src/Transport/Link.antt =====
-- crates/transport/src/link.rs: `send` and `recv` of `WsLink`. The WebSocket library, the socket and
-- serde_json are parameters: what they give is a list of reads, each with the time at which the loop
-- looks at the clock and with what `set_read_timeout` gives.
pub mod Laws
pub mod Connect
use simple_remote.Base.{
  ℕ, Bool, true, false, Option, none, some, List, [], ◌∷◌, Result, ok, err, leb, if◌then◌else◌,
}
use simple_remote.Base.Text.{Str}
use simple_remote.Protocol.{Instant}
use simple_remote.Protocol.Serde.{Codec}
use simple_remote.Transport.Interface.{LinkError, IoKind, would_block, timed_out}

-- `tungstenite::Message` and `tungstenite::Error`
pub data Frame : Type 0 where
  text : Str → Frame
  binary ping pong raw : Frame
  close : Option ℕ → Frame

pub data WsError : Type 0 where
  connection_closed already_closed other : WsError
  io : IoKind → WsError
  http : ℕ → WsError

pub record WsLink : Type 0 where
  pub closed : Option (Option ℕ)

pub record Read : Type 0 where
  pub at : Instant
  pub set_read_timeout : Option LinkError
  pub frame : Result Frame WsError

unfoldable pub is_timeout : IoKind → Bool
is_timeout would_block = true
is_timeout timed_out = true
is_timeout _ = false

unfoldable pub map_tungstenite_err : WsError → LinkError
map_tungstenite_err (WsError.http status) = LinkError.http status
map_tungstenite_err (WsError.io kind) = LinkError.io kind
map_tungstenite_err _ = LinkError.protocol

unfoldable pub map_after_error : WsError → WsLink → LinkError × WsLink
map_after_error connection_closed l = (LinkError.closed none, record { closed = some none })
map_after_error already_closed l = (LinkError.closed none, record { closed = some none })
map_after_error (WsError.io kind) l = (LinkError.io kind, l)
map_after_error (WsError.http status) l = (LinkError.protocol, l)
map_after_error other l = (LinkError.protocol, l)

abbrev pub failed : {A : Type 0} → LinkError × WsLink → Result A LinkError × WsLink
failed (e, l) = (err e, l)

module _ {In Out : Type 0} (codec : Codec In Str) (to_text : Out → Option Str) where
  -- `to_text` is `serde_json::to_string`, and `sent` is what the socket says to the written message.
  unfoldable pub send :
      Out → Result (Unit {0}) WsError → WsLink → Result (Unit {0}) LinkError × WsLink
  send msg sent l = elim l.closed [
    | some code ↦ (err (LinkError.closed code), l)
    | none ↦ elim (to_text msg) [
      | none ↦ (err LinkError.protocol, l)
      | some s ↦ elim sent [ ok _ ↦ (ok tt, l) | err e ↦ failed (map_after_error e l) ]
    ]
  ]

  -- The error branch of the loop
  unfoldable pub on_error : WsError → WsLink → Result (Option In) LinkError × WsLink
  on_error (WsError.io kind) l =
      if is_timeout kind then (ok none, l) else failed (map_after_error (WsError.io kind) l)
  on_error e l = failed (map_after_error e l)

  unfoldable pub on_text : Str → WsLink → Result (Option In) LinkError × WsLink
  on_text s l = elim (codec.from_wire s) [
    | none ↦ (err LinkError.protocol, l)
    | some m ↦ (ok (some m), l)
  ]

  -- The loop of `recv`. A list that has run out is silence up to the deadline.
  unfoldable pub recv_loop :
      Instant → List Read → WsLink → (Result (Option In) LinkError × WsLink) × List Read
  recv_loop deadline [] l = ((ok none, l), [])
  recv_loop deadline (r ∷ more) l =
      let again = recv_loop deadline more l in
      if leb deadline r.at then ((ok none, l), r ∷ more) else elim r.set_read_timeout [
        | some e ↦ ((err e, l), r ∷ more)
        | none ↦ elim r.frame [
          | ok (text s) ↦ (on_text s l, more)
          | ok binary ↦ ((err LinkError.protocol, l), more)
          | ok ping ↦ again
          | ok pong ↦ again
          | ok (close code) ↦ ((err (LinkError.closed code), record { closed = some code }), more)
          | ok raw ↦ ((err LinkError.protocol, l), more)
          | err e ↦ (on_error e l, more)
        ]
      ]

  unfoldable pub recv :
      Instant → List Read → WsLink → (Result (Option In) LinkError × WsLink) × List Read
  recv deadline reads l = elim l.closed [
    | some code ↦ ((err (LinkError.closed code), l), reads)
    | none ↦ recv_loop deadline reads l
  ]
