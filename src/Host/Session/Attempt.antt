-- ===== src/Host/Session/Attempt.antt =====
-- apps/host-agent/src/session.rs: `attempt`, stage by stage, and `serve_next`.
-- A sealed message of a new session has counter 0, so `seal` and `open_sealed` cannot panic there:
-- `first_sealed` and `first_opened` give nothing in the case that cannot arise.
pub mod Counted
pub mod Inputs
pub mod Agreed
pub mod Confirmed
pub mod Honest
use simple_remote.Base.{
  ℕ, ◌+◌, ◌/◌, min, Option, none, some, List, [], ◌∷◌, Result, ok, err, if◌then◌else◌,
}
use simple_remote.Base.Text.{Bytes, Str, utf8}
use simple_remote.Base.Utf8.{from_utf8}
use simple_remote.Protocol.{Instant, Duration, pake}
use simple_remote.Protocol.PakeMsg.{PakeMsg}
use simple_remote.Protocol.Signaling.{ServerToHost, HostToServer}
use simple_remote.Auth.Error.{AuthError}
use simple_remote.Auth.Pake.{host_respond, host_confirm}
use simple_remote.Auth.Sealed.{
  Aead, SealedSender, SealedReceiver, SessionKeys, seal, open_sealed, host_side,
}
use simple_remote.Transport.Interface.{LinkError}
use simple_remote.Transport.World.{World, Io, pure, now, draw, link_recv, ◌>>=◌, ◌>>◌}
use simple_remote.Transport.Channel
use simple_remote.Transport.Channel.{Channel, close}
use simple_remote.Host.Attempts.{AttemptLimiter, check, record_failure, record_success}
use simple_remote.Host.Session.Types.{
  HostIo, HostConfig, HostState, ServeOutcome, failed, viewer_left, AttemptFailure, wait_required,
  no_confirm, wrong_code, malformed, timeout, transport, HostError, link, Served, question, beside,
}
use simple_remote.Host.Session.Relay
use simple_remote.Host.Session.Relay.{Relay, send_relay, recv_relay, kicked, reject_relay}
use simple_remote.Host.Session.Handshake.{handshake}
use simple_remote.Platform.{Platform}

unfoldable pub first_sealed : Aead → SealedSender → Bytes → Bytes
first_sealed a s plain = elim (seal a s plain) [ none ↦ [] | some (m, _) ↦ m ]

unfoldable pub first_opened : Aead → SealedReceiver → Bytes → Option Bytes
first_opened a r m = elim (open_sealed a r m) [
  | some (ok plain, _) ↦ some plain
  | some (err _, _) ↦ none
  | none ↦ none
]

-- `receiver.open(..).ok().and_then(|b| String::from_utf8(b).ok())`
unfoldable pub opened_text : Aead → SealedReceiver → Bytes → Option Str
opened_text a r m = elim (first_opened a r m) [ none ↦ none | some b ↦ from_utf8 b ]

-- The wait in milliseconds, rounded up, as a `u64`.
unfoldable pub retry_ms : Duration → ℕ
retry_ms wait = min ((wait + 999999) / 1000000) 18446744073709551615

module _ (p : Platform) (cfg : HostConfig) where
  -- The end of `attempt`: a handshake that failed is followed by a kick.
  unfoldable pub finish : SessionKeys → HostState → Channel → HostIo Served
  finish sk st ch = do
    (outcome, st') ← handshake p cfg sk st ch
    elim outcome [
      | failed f ↦ beside st' (kicked f)
      | ServeOutcome.session s ↦ pure (ok (ServeOutcome.session s), st')
      | viewer_left ↦ pure (ok viewer_left, st')
    ]

  -- From the opened offer to the answer. The channel is dropped after the messages of a failure.
  unfoldable pub negotiate : SessionKeys → HostState → Str → HostIo Served
  negotiate sk st offer = elim (p.peer_new cfg.bind_ips) [
    | err _ ↦ beside st (kicked transport)
    | ok _ ↦ elim (p.accept_offer offer) [
      | err _ ↦ do r ← beside st (reject_relay p malformed); close Channel.new; pure r
      | ok answer ↦ do
        sent ← send_relay p (PakeMsg.answer (first_sealed p.aead (host_side sk).0 (utf8 answer)))
        elim sent [
          | err e ↦ do close Channel.new; pure (err (link e), st)
          | ok _ ↦ finish sk st Channel.new
        ]
    ]
  ]

  -- `pake.confirm`, the reset of the limiter and the opening of the offer
  unfoldable pub confirm_code : p.pake_lib.Output → HostState → Bytes → Bytes → HostIo Served
  confirm_code output st mac_a sealed_offer = elim (host_confirm p.pake_lib output mac_a) [
    | err _ ↦ beside st (reject_relay p wrong_code)
    | ok sk ↦
        let st' = record st { limiter = record_success st.limiter } in
        elim (opened_text p.aead (host_side sk).1 sealed_offer) [
          | none ↦ beside st' (reject_relay p malformed)
          | some offer ↦ negotiate sk st' offer
        ]
  ]

  -- The `match` on the relay after `Reply`
  unfoldable pub on_confirm : p.pake_lib.Output → HostState → Relay → HostIo Served
  on_confirm output st (Relay.msg (PakeMsg.confirm mac_a sealed_offer)) =
      confirm_code output st mac_a sealed_offer
  on_confirm output st (Relay.msg _) = beside st (reject_relay p malformed)
  on_confirm output st Relay.malformed = beside st (reject_relay p malformed)
  on_confirm output st Relay.left = pure (ok (failed no_confirm), st)
  on_confirm output st Relay.timed_out = beside st (kicked no_confirm)

  -- The failure that is recorded before `Reply` is sent; at the fifth the code is replaced.
  unfoldable pub count_guess : HostState → HostIo HostState
  count_guess st = do
    t ← now
    let counted = record_failure st.limiter t
    if counted.0.rotate_code
        then (do n ← draw; pure (record { code = p.fresh_code n; limiter = counted.1 }))
        else pure (record st { limiter = counted.1 })

  unfoldable pub respond : HostState → Bytes → HostIo Served
  respond st pa = do
    n ← draw
    elim (host_respond p.pake_lib (p.fresh_bytes n) st.code cfg.host_id pa) [
      | err _ ↦ beside st (reject_relay p malformed)
      | ok (output, pb, mac_b) ↦ do
        st' ← count_guess st
        question (send_relay p (PakeMsg.reply pb mac_b)) st' λ _.
            question (recv_relay p cfg.timeouts.signaling_step) st' λ r. on_confirm output st' r
    ]

  -- The `match` on the first relay
  unfoldable pub on_start : HostState → Relay → HostIo Served
  on_start st (Relay.msg (PakeMsg.start pa)) = respond st pa
  on_start st (Relay.msg _) = beside st (reject_relay p malformed)
  on_start st Relay.malformed = beside st (reject_relay p malformed)
  on_start st Relay.left = pure (ok viewer_left, st)
  on_start st Relay.timed_out = beside st (kicked (timeout pake))

  unfoldable pub attempt : HostState → HostIo Served
  attempt st = do
    t ← now
    elim (check st.limiter t) [
      | err wait ↦
          question (send_relay p (PakeMsg.retry_after (retry_ms wait))) st
            λ _. beside st (kicked wait_required)
      | ok _ ↦ question (recv_relay p cfg.timeouts.signaling_step) st λ r. on_start st r
    ]

  -- The loop of `serve_next` over what the link will give: whether `ViewerJoined` comes before an
  -- error, and what is left on the link. `none`: neither does, and the host goes on waiting.
  unfoldable pub await_viewer :
      List (Result (Option ServerToHost) LinkError)
      → Option (Result (Unit {0}) LinkError × List (Result (Option ServerToHost) LinkError))
  await_viewer [] = none
  await_viewer (err e ∷ more) = some (err e, more)
  await_viewer (ok (some ServerToHost.viewer_joined) ∷ more) = some (ok tt, more)
  await_viewer (ok _ ∷ more) = await_viewer more

  unfoldable pub serve_next :
      HostState
      → World ServerToHost HostToServer
      → Option (Served × World ServerToHost HostToServer)
  serve_next st w = elim (await_viewer w.arrivals) [
    | none ↦ none
    | some (err e, more) ↦ some ((err (link e), st), record w { arrivals = more })
    | some (ok _, more) ↦ some (attempt st (record w { arrivals = more }))
  ]
