-- ===== src/Console/Text.antt =====
-- What both console programs print: numbers in decimal (the `{}` of an integer), the line
-- `CONNECTED ..`, and the address used when the machine has none of its own.
pub mod Decimal
use simple_remote.Base.{ℕ, zero, suc, ◌+◌, ◌/◌, ◌%◌, List, [], ◌∷◌, ◌++◌, codes, ltb, if◌then◌else◌}
use simple_remote.Base.Text.{Str}
use simple_remote.Protocol.{Stage, join, pake, answer, connect, hello, decision, ping}

-- The digits, the last one first found; the fuel `n + 1` is enough for `n`.
unfoldable pub decimal_loop : ℕ → ℕ → Str
decimal_loop zero n = []
decimal_loop (suc fuel) n =
    let more = decimal_loop fuel (n / 10) in
    if ltb n 10 then (48 + n) ∷ [] else more ++ ((48 + n % 10) ∷ [])

unfoldable pub decimal : ℕ → Str
decimal n = decimal_loop (suc n) n

-- `ExitCode::SUCCESS`, `ExitCode::FAILURE` and `ExitCode::from(2)`
pub data Exit : Type 0 where
  success failure usage : Exit

-- `{stage:?}`
unfoldable pub show_stage : Stage → Str
show_stage join = codes "Join"
show_stage pake = codes "Pake"
show_stage answer = codes "Answer"
show_stage connect = codes "Connect"
show_stage hello = codes "Hello"
show_stage decision = codes "Decision"
show_stage ping = codes "Ping"

-- `CONNECTED <name> <fingerprint>`
unfoldable pub connected_line : Str → Str → Str
connected_line name fingerprint = codes "CONNECTED " ++ (name ++ (codes " " ++ fingerprint))

-- `if bind_ips.is_empty() { bind_ips.push(127.0.0.1) }`
unfoldable pub or_localhost : List Str → List Str
or_localhost [] = codes "127.0.0.1" ∷ []
or_localhost (ip ∷ ips) = ip ∷ ips
