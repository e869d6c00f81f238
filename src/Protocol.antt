-- ===== src/Protocol.antt =====
-- crates/protocol/src/lib.rs: the protocol version, the time limits, the stages and the decoding
-- errors. The children are the messages: `Control` (control.rs), `PakeMsg` (pake_msg.rs) and
-- `Signaling` (signaling.rs).
pub mod Control
pub mod PakeMsg
pub mod Signaling
pub mod Serde
use simple_remote.Base.{ℕ, ◌*◌}

abbrev pub protocol_version : ℕ
protocol_version = 1

-- A `Duration` or an `Instant` is a number of nanoseconds.
abbrev pub Duration : Type 0
Duration = ℕ

abbrev pub Instant : Type 0
Instant = ℕ

abbrev pub from_secs : ℕ → Duration
from_secs s = s * 1000000000

abbrev pub from_millis : ℕ → Duration
from_millis ms = ms * 1000000

pub record Timeouts : Type 0 where
  pub signaling_step : Duration
  pub connect : Duration
  pub approval : Duration

-- `Timeouts::default`
abbrev pub default_timeouts : Timeouts
default_timeouts = record {
  signaling_step = from_secs 15;
  connect = from_secs 10;
  approval = from_secs 30;
}

pub data Stage : Type 0 where
  join pake answer connect hello decision ping : Stage
