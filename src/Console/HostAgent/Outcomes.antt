-- ===== src/Console/HostAgent/Outcomes.antt =====
-- What one round of the host's loop can come to.
use simple_remote.Base.{
  ◌≡◌, ◌⊎◌, refl, inl, inr, Bool, true, false, Option, none, some, List, [], ◌∷◌, ◌++◌, All, Result,
  ok, err, arith, Option-cases, Bool-cases, bytes_eq, if◌then◌else◌, ap, sym, ◌∙◌, subst,
}
use simple_remote.Protocol.Signaling.{ServerToHost}
use simple_remote.Auth.Identity.{key_fingerprint}
use simple_remote.Transport.Interface.{LinkError}
use simple_remote.Host.Session.Types.{
  HostConfig, HostState, HostSession, HostError, ServeOutcome, Served, session, failed, viewer_left,
}
use simple_remote.Host.Session.Approval.{HostWorld}
use simple_remote.Host.Session.Attempt.{attempt, serve_next, await_viewer}
use simple_remote.Host.Session.Attempt.Confirmed.{Earned, attempt-Earned}
use simple_remote.Host.Session.Pings.{serve_pings}
use simple_remote.Console.Text.{Exit, success, failure}
use simple_remote.Console.HostAgent.{
  Line, Console, session_limit, show_code, serve_session, on_outcome, after_session, round,
}
use simple_remote.Platform.{Platform}

-- Whether the program ends after a session: only with `--once`, with what the session came to.
abbrev pub EndsWith : Bool → Result (Unit {0}) HostError → Option Exit → Type 0
EndsWith false served e = e ≡ none
EndsWith true (ok _) e = e ≡ some success
EndsWith true (err _) e = e ≡ some failure

after_session-EndsWith :
    (once : Bool) (served : Result (Unit {0}) HostError)
    → EndsWith once served (after_session once served)
unfolding after_session
after_session-EndsWith false served = refl
after_session-EndsWith true (ok _) = refl
after_session-EndsWith true (err _) = refl

-- The output with a line for the code if it is another than the one shown
abbrev pub with_code : Console → HostState → List Line
with_code c st =
    if bytes_eq st.code.digits c.shown_code.digits then c.out else Line.code_line st.code ∷ c.out

show_code-with_code :
    (c : Console) (st : HostState) → (show_code (record c { host = st })).out ≡ with_code c st
unfolding show_code
show_code-with_code c st = elim (Bool-cases (bytes_eq st.code.digits c.shown_code.digits)) [
  | inl same ↦ ground (arith, same)
  | inr new ↦ ground (arith, new)
]

abbrev Arrivals : Type 0
Arrivals = List (Result (Option ServerToHost) LinkError)

-- What the host passes over while it waits for a viewer
abbrev pub IsOther : Result (Option ServerToHost) LinkError → Type 0
IsOther (ok (some ServerToHost.viewer_joined)) = ⊥
IsOther (ok _) = Unit
IsOther (err _) = ⊥

-- The first viewer or error among what the link gives, and what comes after it
abbrev pub ComesFirst : Arrivals → Result (Option ServerToHost) LinkError → Arrivals → Type 0
ComesFirst coming a more =
    (before : Arrivals) × All IsOther before × (coming ≡ before ++ (a ∷ more))

module _ (p : Platform) (cfg : HostConfig) (once : Bool) where
  later-ComesFirst :
      (a b : Result (Option ServerToHost) LinkError) (coming more : Arrivals)
      → IsOther b
      → ComesFirst coming a more
      → ComesFirst (b ∷ coming) a more
  later-ComesFirst a b coming more other (before, others, e) =
      (b ∷ before, (other, others), ap (λ l. b ∷ l) e)

  abbrev Awaited : Arrivals → Result (Unit {0}) LinkError → Arrivals → Type 0
  Awaited coming (ok _) more = ComesFirst coming (ok (some ServerToHost.viewer_joined)) more
  Awaited coming (err x) more = ComesFirst coming (err x) more

  later-Awaited :
      (b : Result (Option ServerToHost) LinkError) (r : Result (Unit {0}) LinkError)
      (coming more : Arrivals)
      → IsOther b
      → Awaited coming r more
      → Awaited (b ∷ coming) r more
  later-Awaited b (ok _) coming more other h =
      later-ComesFirst (ok (some ServerToHost.viewer_joined)) b coming more other h
  later-Awaited b (err x) coming more other h = later-ComesFirst (err x) b coming more other h

  await_viewer-Awaited :
      (coming : Arrivals) (r : Result (Unit {0}) LinkError) (more : Arrivals)
      → await_viewer p cfg coming ≡ some (r, more)
      → Awaited coming r more
  unfolding await_viewer
  await_viewer-Awaited [] r more e = absurd (ground arith)
  await_viewer-Awaited (err x ∷ coming) r more e =
      let is_r : err x ≡ r = ground arith in
      let rest : coming ≡ more = ground arith in
      subst (λ o. Awaited (err x ∷ coming) o more) is_r ([], tt, ap (λ l. err x ∷ l) rest)
  await_viewer-Awaited (ok (some ServerToHost.viewer_joined) ∷ coming) r more e =
      let is_r : ok tt ≡ r = ground arith in
      let rest : coming ≡ more = ground arith in
      subst (λ o. Awaited (ok (some ServerToHost.viewer_joined) ∷ coming) o more) is_r
        ([], tt, ap (λ l. ok (some ServerToHost.viewer_joined) ∷ l) rest)
  await_viewer-Awaited (ok none ∷ coming) r more e =
      later-Awaited (ok none) r coming more tt (await_viewer-Awaited coming r more e)
  await_viewer-Awaited (ok (some ServerToHost.viewer_left) ∷ coming) r more e =
      later-Awaited (ok (some ServerToHost.viewer_left)) r coming more tt
        (await_viewer-Awaited coming r more e)
  await_viewer-Awaited (ok (some (ServerToHost.relay text)) ∷ coming) r more e =
      later-Awaited (ok (some (ServerToHost.relay text))) r coming more tt
        (await_viewer-Awaited coming r more e)
  await_viewer-Awaited (ok (some (ServerToHost.challenge nonce id)) ∷ coming) r more e =
      later-Awaited (ok (some (ServerToHost.challenge nonce id))) r coming more tt
        (await_viewer-Awaited coming r more e)
  await_viewer-Awaited (ok (some (ServerToHost.registered id)) ∷ coming) r more e =
      later-Awaited (ok (some (ServerToHost.registered id))) r coming more tt
        (await_viewer-Awaited coming r more e)

  -- What an attempt that gave this has led to. The lines are newest first.
  abbrev pub Shows : Console → HostWorld → Served × HostWorld → Option Exit → Console → Type 0
  Shows c w ((ok (session s), st), w1) e c' =
      Earned p cfg c.host w s ((ok (session s), st), w1)
      × (c'.out
          ≡ Line.disconnected
            ∷ Line.connected s.viewer.name (key_fingerprint p.sha256 p.hex s.viewer.device_key)
            ∷ with_code c st)
      × EndsWith once (serve_pings p.control_codec session_limit s.ch w1).0.0 e
  Shows c w ((ok (failed f), st), w1) e c' = (c'.out ≡ Line.attempt f ∷ with_code c st) × (e ≡ none)
  Shows c w ((ok viewer_left, st), w1) e c' = (c'.out ≡ with_code c st) × (e ≡ none)
  Shows c w ((err x, st), w1) e c' = (c'.out ≡ with_code c st) × (e ≡ some failure)

  -- An attempt with the first viewer that comes, or the end of the link.
  abbrev pub Outcome : Console → HostWorld → Option Exit × Console → Type 0
  Outcome c w (e, c') =
      ((more : Arrivals) × ComesFirst w.arrivals (ok (some ServerToHost.viewer_joined)) more
        × let w1 : HostWorld = record w { arrivals = more } in
          (c'.host ≡ (attempt p cfg c.host w1).0.1) × Shows c w1 (attempt p cfg c.host w1) e c')
      ⊎ ((x : LinkError) × (more : Arrivals) × ComesFirst w.arrivals (err x) more
          × (c'.host ≡ c.host)
          × (c'.out ≡ with_code c c.host)
          × (e ≡ some failure))

  show_code-host : (c : Console) → (show_code c).host ≡ c.host
  unfolding show_code
  show_code-host c = ground arith

  on_outcome-Shows :
      (c : Console) (w : HostWorld) (st : HostState) (r : Result ServeOutcome HostError)
      (w1 : HostWorld)
      → ((s : HostSession) → r ≡ ok (session s) → Earned p cfg c.host w s ((r, st), w1))
      → let o = (on_outcome p once (show_code (record c { host = st })) r w1).0 in
        (o.1.host ≡ st) × Shows c w ((r, st), w1) o.0 o.1
  unfolding on_outcome serve_session
  on_outcome-Shows c w st (ok (session s)) w1 earned = (
    show_code-host (record c { host = st }),
    (
      earned s refl,
      ap
          (λ l.
            Line.disconnected
            ∷ Line.connected s.viewer.name (key_fingerprint p.sha256 p.hex s.viewer.device_key)
            ∷ l)
          (show_code-with_code c st),
      after_session-EndsWith once _,
    ),
  )
  on_outcome-Shows c w st (ok (failed f)) w1 earned = (
    show_code-host (record c { host = st }),
    (ap (λ l. Line.attempt f ∷ l) (show_code-with_code c st), refl),
  )
  on_outcome-Shows c w st (ok viewer_left) w1 earned =
      (show_code-host (record c { host = st }), (show_code-with_code c st, refl))
  on_outcome-Shows c w st (err x) w1 earned =
      (show_code-host (record c { host = st }), (show_code-with_code c st, refl))

  -- A round of the loop that comes to its end is an attempt with the first viewer that the link
  -- tells of, or the end of the link. The host's state is then the one that the attempt leaves, or as
  -- before; and a line `CODE` comes first if its code is another than the one shown. After a session
  -- there are `CONNECTED`, with the name and the fingerprint of its viewer, and `DISCONNECTED`; the
  -- viewer has earned it as in `attempt-Earned`; and the program ends exactly when it runs with
  -- `--once`, with success when the session ended without an error and else with a failure. After a
  -- failed attempt there is its line `ATTEMPT`, and the program goes on. After a viewer that has left
  -- there is no line, and the program goes on. After an error of the link, in the attempt or before
  -- it, there is no line, and the program ends with a failure.
  pub round-Outcome :
      (c c' : Console) (e : Option Exit) (w w' : HostWorld)
      → round p cfg once c w ≡ some ((e, c'), w')
      → Outcome c w (e, c')
  unfolding round serve_next on_outcome
  round-Outcome c c' e w w' went = elim (Option-cases (await_viewer p cfg w.arrivals)) [
    | inl silent ↦ absurd (ground (arith, silent))
    | inr ((err x, more), lost) ↦
        let o : Option Exit × Console = (some failure, show_code (record c { host = c.host })) in
        let same : o ≡ (e, c') = ground (arith, lost) in
        inr (
          x,
          more,
          await_viewer-Awaited w.arrivals (err x) more lost,
          ap (λ x. x.1.host) (sym same) ∙ show_code-host (record c { host = c.host }),
          ap (λ x. x.1.out) (sym same) ∙ show_code-with_code c c.host,
          ap (λ x. x.0) (sym same),
        )
    | inr ((ok _, more), joined) ↦
        let w1 : HostWorld = record w { arrivals = more } in
        let ((r, st), w2) = attempt p cfg c.host w1 in
        let o = (on_outcome p once (show_code (record c { host = st })) r w2).0 in
        let same : o ≡ (e, c') = ground (arith, joined) in
        let (kept, shows) =
          on_outcome-Shows c w1 st r w2 (λ s good. (attempt-Earned p cfg c.host w1 s good).1) in
        inl (
          more,
          await_viewer-Awaited w.arrivals (ok tt) more joined,
          (
            ap (λ x. x.1.host) (sym same) ∙ kept,
            subst (λ x. Shows c w1 ((r, st), w2) x.0 x.1) same shows,
          ),
        )
  ]
