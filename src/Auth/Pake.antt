-- ===== src/Auth/Pake.antt =====
-- crates/auth/src/pake.rs: the password-authenticated key exchange over SPAKE2.
-- The library pakery (groups, SPAKE2 states, confirmation MACs), SHA-512 and HKDF are a parameter.
-- Wiping of keys on drop is not modelled.
pub mod Laws
use simple_remote.Base.{
  ℕ, ◌≡◌, Option, none, some, List, [], ◌∷◌, ◌++◌, Result, ok, err, ok_or, map_err, ◌>>=◌, ◌>>◌,
  length, ◌==◌, codes, if◌then◌else◌,
}
use simple_remote.Base.Text.{Bytes, Str, utf8}
use simple_remote.Auth.Error.{AuthError, wrong_code, malformed}
use simple_remote.Auth.Code.{OneTimeCode, as_str}
use simple_remote.Auth.Sealed.{SessionKeys}

-- `pakery_spake2::Spake2Error`; the sources tell two cases apart.
pub data Spake2Error : Type 0 where
  confirmation_failed invalid_point : Spake2Error
  other : Spake2Error

pub record PakeLib : Type 1 where
  pub Scalar : Type 0
  pub StateA : Type 0
  pub StateB : Type 0
  pub Output : Type 0
  pub sha512 : Bytes → Bytes
  pub scalar_from_wide_bytes : Bytes → Option Scalar
  -- `PartyA::start` and `PartyB::start`: scalar, two identities, associated data, randomness
  pub start_a : Scalar → Bytes → Bytes → Bytes → Bytes → Result (Bytes × StateA) Spake2Error
  pub start_b : Scalar → Bytes → Bytes → Bytes → Bytes → Result (Bytes × StateB) Spake2Error
  pub finish_a : StateA → Bytes → Result Output Spake2Error
  pub finish_b : StateB → Bytes → Result Output Spake2Error
  pub verify_peer_confirmation : Output → Bytes → Result (Unit {0}) Spake2Error
  pub session_key : Output → Bytes
  pub confirmation_mac : Output → Bytes
  pub hkdf_expand : Bytes → Bytes → Bytes

-- With one scalar, one pair of identities and one associated data, two honest parties finish, hold
-- the same session key, and each takes the other's MAC, which has 32 bytes.
pub record IsPakeLib (lib : PakeLib) : Type 0 where
  pub scalar_total :
      (b : Bytes) → (w : lib.Scalar) × (lib.scalar_from_wide_bytes (lib.sha512 b) ≡ some w)
  pub agree :
      (w : lib.Scalar) (a b d ra rb : Bytes)
      → (pa : Bytes) × (sa : lib.StateA) × (pb : Bytes) × (sb : lib.StateB) × (oa : lib.Output)
        × (ob : lib.Output) × (lib.start_a w a b d ra ≡ ok (pa, sa))
        × (lib.start_b w a b d rb ≡ ok (pb, sb))
        × (lib.finish_a sa pb ≡ ok oa)
        × (lib.finish_b sb pa ≡ ok ob)
        × (lib.session_key oa ≡ lib.session_key ob)
        × (lib.verify_peer_confirmation oa (lib.confirmation_mac ob) ≡ ok tt)
        × (lib.verify_peer_confirmation ob (lib.confirmation_mac oa) ≡ ok tt)
        × (length (lib.confirmation_mac oa) ≡ 32)
        × (length (lib.confirmation_mac ob) ≡ 32)

abbrev pub aad : Bytes
aad = codes "simple-remote pake v1"

abbrev pub viewer_id : Bytes
viewer_id = codes "simple-remote viewer"

-- The literal ends with a zero byte.
abbrev pub code_context : Bytes
code_context = codes "simple-remote code v1" ++ 0 ∷ []

unfoldable pub host_id_bytes : Str → Bytes
host_id_bytes host_id = codes "simple-remote host " ++ utf8 host_id

-- `bytes.try_into()` into an array of 32
unfoldable pub to_mac : Bytes → Result Bytes AuthError
to_mac bytes = if length bytes == 32 then ok bytes else err wrong_code

unfoldable pub map_confirmation_err : Spake2Error → AuthError
map_confirmation_err confirmation_failed = wrong_code
map_confirmation_err _ = malformed "pake"

unfoldable pub map_finish_err : Spake2Error → AuthError
map_finish_err invalid_point = malformed "pake point"
map_finish_err _ = malformed "pake"

module _ (lib : PakeLib) where
  unfoldable pub code_scalar : OneTimeCode → Result lib.Scalar AuthError
  unfolding as_str
  code_scalar code =
      ok_or (lib.scalar_from_wide_bytes (lib.sha512 (code_context ++ utf8 (as_str code))))
        (malformed "pake")

  unfoldable pub derive_session_keys : Bytes → SessionKeys
  derive_session_keys ke = record {
    viewer_to_host = lib.hkdf_expand ke (codes "simple-remote v1 seal viewer->host");
    host_to_viewer = lib.hkdf_expand ke (codes "simple-remote v1 seal host->viewer");
    hello_binding = lib.hkdf_expand ke (codes "simple-remote v1 hello binding");
  }

  -- `ViewerPake::start`, with the randomness it draws
  unfoldable pub viewer_start : Bytes → OneTimeCode → Str → Result (lib.StateA × Bytes) AuthError
  viewer_start rng code host_id = do
    w ← code_scalar code
    (pa, state) ←
        map_err (λ _. malformed "pake") (lib.start_a w viewer_id (host_id_bytes host_id) aad rng)
    ok (state, pa)

  -- `ViewerPake::finish`
  unfoldable pub viewer_finish : lib.StateA → Bytes → Bytes → Result (SessionKeys × Bytes) AuthError
  viewer_finish state pb mac_b = do
    output ← map_err map_finish_err (lib.finish_a state pb)
    mac ← to_mac mac_b
    map_err map_confirmation_err (lib.verify_peer_confirmation output mac)
    ok (derive_session_keys (lib.session_key output), lib.confirmation_mac output)

  -- `HostPake::respond`
  unfoldable pub host_respond :
      Bytes → OneTimeCode → Str → Bytes → Result (lib.Output × Bytes × Bytes) AuthError
  host_respond rng code host_id pa = do
    w ← code_scalar code
    (pb, state) ←
        map_err (λ _. malformed "pake") (lib.start_b w viewer_id (host_id_bytes host_id) aad rng)
    output ← map_err map_finish_err (lib.finish_b state pa)
    ok (output, pb, lib.confirmation_mac output)

  -- `HostPake::confirm`
  unfoldable pub host_confirm : lib.Output → Bytes → Result SessionKeys AuthError
  host_confirm output mac_a = do
    mac ← to_mac mac_a
    map_err map_confirmation_err (lib.verify_peer_confirmation output mac)
    ok (derive_session_keys (lib.session_key output))
