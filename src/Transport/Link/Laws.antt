-- ===== src/Transport/Link/Laws.antt =====
-- What a closed link says.
use simple_remote.Base.{
  ℕ, ◌≡◌, refl, inl, inr, Option, none, some, List, [], ◌∷◌, Result, ok, err, arith, Bool-cases,
}
use simple_remote.Base.Text.{Str}
use simple_remote.Protocol.{Instant}
use simple_remote.Protocol.Serde.{Codec}
use simple_remote.Transport.Interface.{LinkError}
use simple_remote.Transport.Link.{
  WsLink, WsError, connection_closed, already_closed, other, Read, Frame, text, binary, ping, pong,
  raw, close, send, recv, recv_loop, on_error, on_text, map_after_error, is_timeout,
}

module _ {In Out : Type 0} (codec : Codec In Str) (to_text : Out → Option Str) where
  on_error-closed :
      (e : WsError) (l : WsLink) (code : Option ℕ)
      → l.closed ≡ none
      → (on_error codec to_text e l).1.closed ≡ some code
      → (on_error codec to_text e l).0 ≡ err (LinkError.closed code)
  unfolding on_error map_after_error
  on_error-closed connection_closed l code before after = ground arith
  on_error-closed already_closed l code before after = ground arith
  on_error-closed other l code before after = absurd (ground arith)
  on_error-closed (WsError.http status) l code before after = absurd (ground arith)
  on_error-closed (WsError.io kind) l code before after = elim (Bool-cases (is_timeout kind)) [
    | inl e ↦ absurd (ground (arith, e))
    | inr e ↦ absurd (ground (arith, e))
  ]

  recv_loop-closed :
      (deadline : Instant) (reads : List Read) (l : WsLink) (code : Option ℕ)
      → l.closed ≡ none
      → (recv_loop codec to_text deadline reads l).0.1.closed ≡ some code
      → (recv_loop codec to_text deadline reads l).0.0 ≡ err (LinkError.closed code)
  unfolding recv_loop on_text
  recv_loop-closed deadline [] l code before after = absurd (ground arith)
  recv_loop-closed deadline (r ∷ more) l code before after =
      by_frame r.frame refl (recv_loop-closed deadline more l code before)
    where
      by_frame :
          (f : Result Frame WsError)
          → r.frame ≡ f
          → ((recv_loop codec to_text deadline more l).0.1.closed ≡ some code
              → (recv_loop codec to_text deadline more l).0.0 ≡ err (LinkError.closed code))
          → (recv_loop codec to_text deadline (r ∷ more) l).0.0 ≡ err (LinkError.closed code)
      by_frame (ok (text s)) e again = absurd (ground (arith, e))
      by_frame (ok binary) e again = absurd (ground (arith, e))
      by_frame (ok raw) e again = absurd (ground (arith, e))
      by_frame (ok (close c)) e again = ground (arith, e)
      by_frame (ok ping) e again = ground (arith, e, again)
      by_frame (ok pong) e again = ground (arith, e, again)
      by_frame (err x) e again = ground (arith, e, on_error-closed x l code before)

  -- If a link was open and `recv` leaves it closed, then this very answer was `Closed` with the code
  -- that the link remembers; and every later `recv` and `send` says the same and changes nothing.
  pub recv-closed :
      (deadline : Instant) (reads : List Read) (l : WsLink) (code : Option ℕ) (later : Instant)
      (more : List Read) (msg : Out) (sent : Result (Unit {0}) WsError)
      → l.closed ≡ none
      → (recv codec to_text deadline reads l).0.1.closed ≡ some code
      → let l' = (recv codec to_text deadline reads l).0.1 in
        ((recv codec to_text deadline reads l).0.0 ≡ err (LinkError.closed code))
        × (recv codec to_text later more l' ≡ ((err (LinkError.closed code), l'), more))
        × (send codec to_text msg sent l' ≡ (err (LinkError.closed code), l'))
  unfolding recv send
  recv-closed deadline reads l code later more msg sent before after =
      let same : recv codec to_text deadline reads l ≡ recv_loop codec to_text deadline reads l =
        ground (arith, before) in
      (
        ground (arith, before, recv_loop-closed deadline reads l code before),
        ground (arith, after),
        ground (arith, after),
      )
