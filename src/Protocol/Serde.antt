-- ===== src/Protocol/Serde.antt =====
-- The serialisers that the messages go through, which are not part of the program: postcard, hex
-- and serde_json. Each is a pair of functions, and a round trip is what its documentation promises.
use simple_remote.Base.{◌≡◌, Option, some}

pub record Codec {ℓ} (Msg : Type ℓ) (Wire : Type ℓ) : Type ℓ where
  pub to_wire : Msg → Wire
  pub from_wire : Wire → Option Msg

-- A serialiser reads back what it has written.
pub record IsFaithful {ℓ} {Msg Wire : Type ℓ} (c : Codec Msg Wire) : Type ℓ where
  pub round_trip : (m : Msg) → c.from_wire (c.to_wire m) ≡ some m
