-- ===== src/Console/ViewerApp.antt =====
-- apps/viewer/src/main.rs: `run` and `describe`. `WsLink::connect` is the parameter `opened`, the list
-- that `transport::local_ips` gives is the parameter `ips`, and the texts of two errors of other
-- crates are the parameters of `describe`. Lines on the standard output are a list, oldest first.
pub mod Shown
pub mod Success
use simple_remote.Base.{
  ℕ, zero, suc, ◌+◌, ◌/◌, Bool, Option, none, some, List, [], ◌∷◌, ◌++◌, Result, ok, err, codes,
  ltb, if◌then◌else◌,
}
use simple_remote.Base.Text.{Str}
use simple_remote.Protocol.{
  Duration, from_secs, default_timeouts, Stage, join, pake, answer, connect, hello, decision, ping,
}
use simple_remote.Protocol.Control.{
  RejectReason, denied, no_response, version_mismatch, bad_identity,
}
use simple_remote.Protocol.Signaling.{ServerToViewer, ViewerToServer}
use simple_remote.Auth.Code.{OneTimeCode}
use simple_remote.Auth.Code
use simple_remote.Auth.Identity.{DeviceKeys, key_fingerprint}
use simple_remote.Auth.Identity
use simple_remote.Transport.Interface.{LinkError, TransportError}
use simple_remote.Transport.World.{World, Io, pure, draw, ◌>>=◌}
use simple_remote.Viewer.Connect.{ConnectError, Side, from_join_error}
use simple_remote.Viewer.Session.{ViewerSession, send_ping}
use simple_remote.Viewer.Session
use simple_remote.Console.Text.{
  Exit, success, failure, usage, decimal, show_stage, connected_line, or_localhost,
}
use simple_remote.Console.Args.{ViewerArgs, parse_viewer_args}
use simple_remote.Platform.{Platform}

abbrev pub pings : ℕ
pings = 3

abbrev pub ping_timeout : Duration
ping_timeout = from_secs 2

-- `d.as_millis().div_ceil(1000).max(1)`
unfoldable pub shown_secs : Duration → ℕ
shown_secs d = let secs = (d / 1000000 + 999) / 1000 in if ltb secs 1 then 1 else secs

unfoldable pub describe : (LinkError → Str) → (TransportError → Str) → ConnectError → Str
describe show_link show_transport ConnectError.wrong_code = codes "코드가 틀렸습니다."
describe show_link show_transport (ConnectError.retry_after d) =
    codes "코드를 여러 번 틀려 기다려야 합니다. " ++ (decimal (shown_secs d) ++ codes "초 뒤 다시 시도하세요.")
describe show_link show_transport ConnectError.host_not_waiting =
    codes "상대가 대기 중이 아닙니다. ID 를 확인하세요."
describe show_link show_transport ConnectError.busy =
    codes "상대가 다른 사람의 연결을 처리하고 있습니다. 잠시 뒤 다시 시도하세요."
describe show_link show_transport ConnectError.rate_limited =
    codes "연결 요청이 너무 많습니다. 몇 분 뒤 다시 시도하세요."
describe show_link show_transport ConnectError.host_left = codes "상대가 연결을 끊었습니다."
describe show_link show_transport (ConnectError.rejected denied) = codes "상대가 연결을 거절했습니다."
describe show_link show_transport (ConnectError.rejected no_response) =
    codes "상대가 30초 안에 허락하지 않았습니다."
describe show_link show_transport (ConnectError.rejected bad_identity) =
    codes "상대가 이 기기의 신원을 확인하지 못해 거절했습니다."
describe show_link show_transport (ConnectError.version_mismatch ours theirs Side.host) =
    codes "상대 프로그램이 구버전입니다. 상대에게 업데이트를 부탁하세요."
describe show_link show_transport (ConnectError.version_mismatch ours theirs Side.viewer) =
    codes "이 프로그램이 구버전입니다. 업데이트한 뒤 다시 시도하세요."
describe show_link show_transport (ConnectError.rejected (version_mismatch theirs)) =
    codes "상대와 프로그램 버전이 다릅니다."
describe show_link show_transport (ConnectError.timeout stage) =
    codes "시간 안에 연결하지 못했습니다 (" ++ (show_stage stage ++ codes " 단계).")
describe show_link show_transport (ConnectError.security what) =
    codes "보안 확인에 실패해 연결을 끊었습니다 (" ++ (codes what ++ codes ").")
describe show_link show_transport (ConnectError.link LinkError.insecure_url) =
    codes "서버 주소는 wss:// 로 시작해야 합니다."
describe show_link show_transport (ConnectError.link e) =
    codes "signaling 서버와 통신하지 못했습니다: " ++ show_link e
describe show_link show_transport (ConnectError.transport e) =
    codes "P2P 연결을 만들지 못했습니다: " ++ show_transport e

-- `PONG rtt_ms=<n>`
unfoldable pub pong_line : Duration → Str
pong_line rtt = codes "PONG rtt_ms=" ++ decimal (rtt / 1000000)

abbrev pub ViewerIo : Type 0 → Type 0
ViewerIo A = Io ServerToViewer ViewerToServer A

unfoldable pub url : ViewerArgs → Str
url args = args.server ++ (codes "/v1/viewer/" ++ args.id)

-- How a run ends, and what it has printed
abbrev pub Printed : Type 0
Printed = Result (Unit {0}) ConnectError × List Str

abbrev pub say : Str → Printed → Printed
say line r = (r.0, line ∷ r.1)

-- The process at its end: exit code, standard output, and what it says on standard error
pub record Ended : Type 0 where
  pub exit : Exit
  pub out : List Str
  pub complaint : Option Str

abbrev pub refused : Exit → Str → Ended
refused e what = record { exit = e; out = []; complaint = some what }

module _ (p : Platform) (opened : Str → Result (Unit {0}) LinkError) (ips : List Str) where
  -- `for _ in 0..PINGS`
  unfoldable pub ping_lines : ℕ → ViewerSession → ViewerIo Printed
  ping_lines zero s = pure (ok tt, [])
  ping_lines (suc n) s = do
    (r, s') ← send_ping p ping_timeout s
    elim r [
      | err e ↦ pure (err e, [])
      | ok rtt ↦ do more ← ping_lines n s'; pure (say (pong_line rtt) more)
    ]

  unfoldable pub run : ViewerArgs → OneTimeCode → DeviceKeys → ViewerIo Printed
  run args code keys = elim (opened (url args)) [
    | err e ↦ pure (err (from_join_error e), [])
    | ok _ ↦ do
      r ← Session.connect p args.id code keys (or_localhost ips) default_timeouts
      elim r [
        | err e ↦ pure (err e, [])
        | ok s ↦ do
          more ← ping_lines pings s
          pure (
              say (connected_line s.host.name (key_fingerprint p.sha256 p.hex s.host.device_key))
                more)
      ]
  ]

  unfoldable pub finish : (LinkError → Str) → (TransportError → Str) → Printed → Ended
  finish show_link show_transport (ok _, lines) = record {
    exit = success;
    out = lines;
    complaint = none;
  }
  finish show_link show_transport (err e, lines) = record {
    exit = failure;
    out = lines;
    complaint = some (describe show_link show_transport e);
  }

  unfoldable pub main : (LinkError → Str) → (TransportError → Str) → List Str → ViewerIo Ended
  main show_link show_transport args = elim (parse_viewer_args args) [
    | none ↦ pure (
        refused usage
          (codes "usage: viewer --server <url> --id <9자리 ID> --code <6자리 코드> [--name <이름>]"))
    | some a ↦ elim (Code.parse a.code) [
      | err _ ↦ pure (refused failure (codes "코드는 숫자 6자리여야 합니다."))
      | ok code ↦ do
        n ← draw
        m ← draw
        elim (Identity.generate (p.fresh_bytes n) (p.fresh_bytes m) a.name) [
          | err _ ↦ pure (refused usage (codes "이름은 1~64 byte 여야 합니다."))
          | ok keys ↦ do r ← run a code keys; pure (finish show_link show_transport r)
        ]
    ]
  ]
