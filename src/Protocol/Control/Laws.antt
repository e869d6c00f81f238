-- ===== src/Protocol/Control/Laws.antt =====
-- Writing and reading control messages.
use simple_remote.Base.{◌≤◌, ◌<◌, ◌≡◌, ◌↔◌, some, ok, err, length, arith, Option-cases, inl, inr}
use simple_remote.Base.Text.{Bytes}
use simple_remote.Protocol.Serde.{Codec, IsFaithful}
use simple_remote.Protocol.Control.{Control, too_large, max_control_bytes, encode, decode}

-- A message is read back as itself exactly when its bytes are at most 16 KiB, and refused with its
-- length and the limit exactly when they are more. Any bytes are accepted exactly when they are at
-- most 16 KiB and the serialiser reads them, as what it reads.
pub decode-encode :
    (c : Codec Control Bytes) (law : IsFaithful c) (m : Control) (bytes : Bytes) (got : Control)
    → ((decode c (encode c m) ≡ ok m) ↔ (length (encode c m) ≤ max_control_bytes))
      × ((decode c (encode c m) ≡ err (too_large (length (encode c m)) max_control_bytes))
          ↔ (max_control_bytes < length (encode c m)))
      × ((decode c bytes ≡ ok got)
          ↔ ((length bytes ≤ max_control_bytes) × (c.from_wire bytes ≡ some got)))
unfolding encode decode
decode-encode c law m bytes got = (
  ground (arith, law.round_trip m),
  ground (arith, law.round_trip m),
  elim (Option-cases (c.from_wire bytes)) [
    | inl e ↦ ground (arith, e)
    | inr (x, e) ↦ ground (arith, e)
  ],
)
