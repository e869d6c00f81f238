-- ===== src/Tests/Console.antt =====
-- The theorems on the console programs at concrete inputs.
use simple_remote.Base.{
  ◌+◌, ◌≤◌, ◌<◌, ◌≡◌, refl, true, false, none, some, List, [], ◌∷◌, ok, err, codes, arith,
}
use simple_remote.Base.Text.{Str}
use simple_remote.Protocol.{Instant, from_secs, from_millis}
use simple_remote.Host.Attempts.{AttemptLimiter, check, record_failure, backoff_secs}
use simple_remote.Host.Session.Attempt.{retry_ms}
use simple_remote.Host.Register.{is_host_id}
use simple_remote.Protocol.Signaling.{ServerToHost, HostToServer}
use simple_remote.Transport.World.{World}
use simple_remote.Transport.Channel.{Channel}
use simple_remote.Console.Approver.Granted.{Asking}
use simple_remote.Console.Approver.{empty}
use simple_remote.Console.Approver.{got}
use simple_remote.Console.Args.{ViewerArgs, parse_viewer_args}
use simple_remote.Console.Args.Laws.{viewer_command, parse_viewer_args-viewer_command}
use simple_remote.Console.ViewerApp.{shown_secs}
use simple_remote.Console.ViewerApp.Shown.{shown_wait_suffices}

-- The host asks twice: at 5, when nothing has come, and at 55.
abbrev calls : List Asking
calls =
    (5, record { ask_fails = false; try_recv = empty } ∷ [])
    ∷ (55, record { ask_fails = false; try_recv = got 30 (some (codes "y\n")) } ∷ [])
    ∷ []

abbrev world : World ServerToHost HostToServer
world = record {
  clock = 0;
  ticks = [];
  arrivals = [];
  link_faults = [];
  polls = [];
  peer_faults = [];
  answers = none ∷ some true ∷ [];
  draws = 0;
  trace = [];
}

abbrev channel : Channel
channel = record { pending = []; remote_closed = false; local_closed = false }

abbrev viewer_arguments : ViewerArgs
viewer_arguments = record {
  server = codes "wss://example.org";
  id = codes "123456789";
  code = codes "123456";
  name = codes "--name";
}

parse_viewer_args-viewer_command_example :
    (is_host_id viewer_arguments.id ≡ true
      → parse_viewer_args (viewer_command viewer_arguments) ≡ some viewer_arguments)
    × ((args : List Str)
        → parse_viewer_args args ≡ some viewer_arguments
        → is_host_id viewer_arguments.id ≡ true)
parse_viewer_args-viewer_command_example = parse_viewer_args-viewer_command viewer_arguments

-- Two failures at 0; the guess at 1.5 seconds is refused.
abbrev once_failed : AttemptLimiter
once_failed = record { consecutive_failures = 1; failures_on_code = 1; wait_until = none }

too_early : check (record_failure once_failed 0).1 1500000000 ≡ err 500000000
unfolding check record_failure backoff_secs
too_early = refl

shown_wait_suffices_example :
    (1 ≤ shown_secs (from_millis (retry_ms 500000000)))
    × (shown_secs (from_millis (retry_ms 500000000)) ≤ 86400)
    × ((later : Instant)
        → 1500000000 + from_secs (shown_secs (from_millis (retry_ms 500000000))) ≤ later
        → check (record_failure once_failed 0).1 later ≡ ok tt)
    × (from_secs (shown_secs (from_millis (retry_ms 500000000))) < 500000000 + from_secs 1)
shown_wait_suffices_example =
    shown_wait_suffices once_failed 0 1500000000 500000000 (omega arith) too_early
