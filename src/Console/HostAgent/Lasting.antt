-- ===== src/Console/HostAgent/Lasting.antt =====
-- What holds of the host as long as its loop runs.
use simple_remote.Base.{ℕ, ◌+◌, ◌<◌, ◌⊎◌, ◌≤◌, ◌≡◌, Bool, Option, none, some, List, [], ◌∷◌}
use simple_remote.Auth.Code.{OneTimeCode}
use simple_remote.Auth.Identity.{key_fingerprint}
use simple_remote.Host.Attempts
use simple_remote.Host.Session.Types.{HostConfig, HostState}
use simple_remote.Host.Session.Approval.{HostWorld}
use simple_remote.Host.Session.Attempt.{attempt}
use simple_remote.Host.Session.Attempt.Counted.{Confirmed}
use simple_remote.Console.Text.{Exit}
use simple_remote.Auth.Identity
use simple_remote.Console.HostAgent.{Line, Console, round}
use simple_remote.Platform.{Platform}

-- The code of the newest line `CODE ..`
abbrev pub newest_code : List Line → Option OneTimeCode
newest_code [] = none
newest_code (Line.code_line code ∷ out) = some code
newest_code (Line.id_line id ∷ out) = newest_code out
newest_code (Line.connected name fingerprint ∷ out) = newest_code out
newest_code (Line.disconnected ∷ out) = newest_code out
newest_code (Line.attempt f ∷ out) = newest_code out

-- The code on the screen is the one that viewers need, and at most four failures stand against it.
pub record IsSound (c : Console) : Type 0 where
  pub shown : newest_code c.out ≡ some c.shown_code
  pub current : c.shown_code ≡ c.host.code
  pub few_failures : c.host.limiter.failures_on_code ≤ 4

-- What a round can do to the host: nothing; one more failure against the same code, which has less
-- than four; after four, the next one, and with it another code; or, once a viewer has shown that it
-- knows the code, none any more.
abbrev pub Step : Platform → HostConfig → HostState → HostState → Type 0
Step p cfg st st' =
    (st' ≡ st)
    ⊎ (((st.limiter.failures_on_code < 4)
          × (st'.limiter.failures_on_code ≡ st.limiter.failures_on_code + 1)
          × (st'.code ≡ st.code))
        ⊎ (((st.limiter.failures_on_code ≡ 4)
              × (st'.limiter.failures_on_code ≡ 0)
              × (n : ℕ) × (st'.code ≡ p.fresh_code n))
            ⊎ (Confirmed p cfg st × (st'.limiter.failures_on_code ≡ 0))))

-- The consoles and surroundings that rounds lead to, from a start.
pub data Runs (p : Platform) (cfg : HostConfig) (once : Bool) (c0 : Console) (w0 : HostWorld)
    : Console → HostWorld → Type 0 where
  start : Runs p cfg once c0 w0 c0 w0
  next :
      {c c' : Console} {e : Option Exit} {w w' : HostWorld}
      → Runs p cfg once c0 w0 c w
      → round p cfg once c w ≡ some ((e, c'), w')
      → Runs p cfg once c0 w0 c' w'

module _ (p : Platform) (cfg : HostConfig) (once : Bool) (c0 : Console) (w0 : HostWorld) where
  -- Every round of a run does one of these things to the host.
  abbrev pub EachSteps : {c : Console} {w : HostWorld} → Runs p cfg once c0 w0 c w → Type 0
  EachSteps start = Unit
  EachSteps (next {c} {c'} run went) = EachSteps run × Step p cfg c.host c'.host
