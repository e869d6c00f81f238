-- ===== src/Tests/Programs.antt =====
-- The theorems on whole runs of the console programs at concrete inputs.
use simple_remote.Base.{◌≡◌, refl, true, none, some, List, [], ◌∷◌, Result, ok, codes}
use simple_remote.Base.Text.{Str, utf8}
use simple_remote.Protocol.{default_timeouts, protocol_version}
use simple_remote.Protocol.PakeMsg
use simple_remote.Protocol.PakeMsg.{PakeMsg}
use simple_remote.Protocol.Signaling.{ServerToHost}
use simple_remote.Auth.Identity
use simple_remote.Auth.Identity.{DeviceKeys, check_device_name, key_fingerprint}
use simple_remote.Transport.World.{draw, link_recv, link_send, now}
use simple_remote.Transport.Interface.{LinkError}
use simple_remote.Host.Attempts
use simple_remote.Host.Attempts.{check}
use simple_remote.Host.Register.{
  register_host, host_url, on_challenge, is_host_id, is_other, answer_challenge, on_registered,
}
use simple_remote.Host.Session.Types.{HostConfig, HostState, AttemptFailure}
use simple_remote.Host.Session.Approval.{HostWorld}
use simple_remote.Host.Session.Relay.{recv_relay, relay_of, send_relay, kicked, reject_relay}
use simple_remote.Host.Session.Attempt.{attempt, on_start, serve_next, await_viewer}
use simple_remote.Console.Text.{or_localhost}
use simple_remote.Console.Args.{parse_host_args, host_flags, set_host_flag}
use simple_remote.Console.HostAgent.{Line, Console, round, on_outcome, show_code, begin, boot}
use simple_remote.Console.HostAgent.Lasting.{Runs, start, next}
use simple_remote.Console.HostAgent.Outcomes.{Outcome, round-Outcome}
use simple_remote.Tests.Toy.{zeros, platform, write_pake}

abbrev id : Str
id = codes "123456789"

abbrev opened : Str → Result (Unit {0}) LinkError
opened url = ok tt

abbrev arguments : List Str
arguments = codes "--server" ∷ codes "wss://s" ∷ codes "--once" ∷ []

-- The server registers the host, a viewer comes, and its first message is none of an exchange.
abbrev at_start : HostWorld
at_start = record {
  clock = 0;
  ticks = [];
  arrivals =
      ok (some (ServerToHost.challenge (zeros 32) id))
      ∷ ok (some (ServerToHost.registered id))
      ∷ ok (some ServerToHost.viewer_joined)
      ∷ ok (some (ServerToHost.relay (write_pake PakeMsg.rejected)))
      ∷ [];
  link_faults = [];
  polls = [];
  peer_faults = [];
  answers = [];
  draws = 0;
  trace = [];
}

abbrev config : HostConfig
config = record {
  host_id = id;
  keys = record { signing_key = 0 ∷ []; reconnect_secret = 1 ∷ []; name = codes "host" };
  bind_ips = codes "127.0.0.1" ∷ [];
  timeouts = default_timeouts;
  protocol_version = protocol_version;
}

abbrev state : HostState
state = record {
  code = platform.fresh_code 2;
  limiter = record { consecutive_failures = 0; failures_on_code = 0; wait_until = none };
}

abbrev console : Console
console = record {
  host = state;
  shown_code = state.code;
  out = Line.code_line state.code ∷ Line.id_line id ∷ [];
}

abbrev booted : HostWorld
booted = (boot platform opened [] arguments at_start).1

abbrev after_attempt : Console
after_attempt = record console { out = Line.attempt AttemptFailure.malformed ∷ console.out }

-- What is left after the viewer has joined
abbrev joined : HostWorld
joined = record booted {
  arrivals = ok (some (ServerToHost.relay (write_pake PakeMsg.rejected))) ∷ [];
}

abbrev refused : HostWorld
refused = (attempt platform config state joined).1

goes_round : round platform config true console booted ≡ some ((none, after_attempt), refused)
unfolding round on_outcome show_code serve_next await_viewer boot begin parse_host_args host_flags
    set_host_flag Identity.generate check_device_name register_host host_url link_recv link_send
    on_challenge is_host_id is_other answer_challenge on_registered utf8 draw or_localhost
    Attempts.new attempt check now recv_relay relay_of PakeMsg.decode PakeMsg.encode on_start
    reject_relay kicked send_relay
goes_round = refl

abbrev one_round : Runs platform config true console booted after_attempt refused
one_round = next start goes_round

round-Outcome_example : Outcome platform config true console booted (none, after_attempt)
round-Outcome_example =
    round-Outcome platform config true console after_attempt none booted refused goes_round
