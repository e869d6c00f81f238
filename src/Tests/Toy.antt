-- ===== src/Tests/Toy.antt =====
-- Small stand-ins for the libraries and serialisers, with which the sessions run.
use simple_remote.Base.{
  ℕ, zero, ◌+◌, ◌==◌, true, suc, ◌≡◌, refl, Option, none, some, [], ◌∷◌, ◌++◌, ok, err, length,
  take, drop, bytes_eq, if◌then◌else◌, take-append, drop-append, arith,
}
use simple_remote.Base.Text.{Bytes, Str}
use simple_remote.Protocol.Serde.{Codec, IsFaithful}
use simple_remote.Protocol.Control.{Control, Decision, RejectReason}
use simple_remote.Protocol.PakeMsg.{PakeMsg}
use simple_remote.Auth.Sealed.{Aead, IsAead}
use simple_remote.Auth.Pake.{PakeLib, IsPakeLib, confirmation_failed}
use simple_remote.Auth.Identity.{Ed25519, IsEd25519}
use simple_remote.Transport.Url.{strip_prefix}
use simple_remote.Transport.Url.Local.{strip_prefix_sound, strip_prefix_complete}
use simple_remote.Platform.{Platform}

abbrev pub zeros : ℕ → Bytes
zeros zero = []
zeros (suc n) = 0 ∷ zeros n

-- A tag of 16 zeros in front of the plaintext.
abbrev pub aead : Aead
aead = record { encrypt = λ k n d m. zeros 16 ++ m; decrypt = λ k n d c. strip_prefix (zeros 16) c }

pub aead-IsAead : IsAead aead
aead-IsAead = record {
  length-encrypt = λ k n d m. omega arith;
  decrypt-encrypt = λ k n d m. strip_prefix_complete (zeros 16) m;
  decrypt_sound = λ k n d c m e. strip_prefix_sound (zeros 16) c m e;
}

-- The states and the output are the hashed code; every MAC is 32 zeros.
abbrev pub pake_lib : PakeLib
pake_lib = record {
  Scalar = Bytes;
  StateA = Bytes;
  StateB = Bytes;
  Output = Bytes;
  sha512 = λ b. b;
  scalar_from_wide_bytes = λ b. some b;
  start_a = λ w a b d r. ok (r, w);
  start_b = λ w a b d r. ok (r, w);
  finish_a = λ s m. ok s;
  finish_b = λ s m. ok s;
  verify_peer_confirmation =
      λ o m. if bytes_eq m (zeros 32) then ok tt else err confirmation_failed;
  session_key = λ o. o;
  confirmation_mac = λ o. zeros 32;
  hkdf_expand = λ k info. info;
}

pub pake_lib-IsPakeLib : IsPakeLib pake_lib
pake_lib-IsPakeLib = record {
  scalar_total = λ b. (b, refl);
  agree =
      λ w a b d ra rb. (ra, w, rb, w, w, w, refl, refl, refl, refl, refl, refl, refl, refl, refl);
}

abbrev pub ed25519 : Ed25519
ed25519 = record {
  verifying_key = λ sk. zeros 32;
  sign = λ sk m. zeros 64;
  is_key = λ k. true;
  verify_strict = λ k m s. bytes_eq s (zeros 64);
  x25519_public = λ sk. zeros 32;
}

pub ed25519-IsEd25519 : IsEd25519 ed25519
ed25519-IsEd25519 = record {
  length-key = λ sk. refl;
  length-sig = λ sk m. refl;
  length-x25519 = λ sk. refl;
  key_is_key = λ sk. refl;
  verify-sign = λ sk m. refl;
}

abbrev pub hex : Codec Bytes Str
hex = record { to_wire = λ b. b; from_wire = λ s. some s }

-- A field is its length and its bytes.
abbrev pub field : Bytes → Bytes → Bytes
field b rest = length b ∷ (b ++ rest)

abbrev pub read_field : {A : Type 0} → Bytes → (Bytes → Bytes → Option A) → Option A
read_field [] k = none
read_field (n ∷ r) k = k (take n r) (drop n r)

abbrev pub read_number : {A : Type 0} → Bytes → (ℕ → A) → Option A
read_number [] k = none
read_number (n ∷ r) k = some (k n)

abbrev pub read_pake : Bytes → Option PakeMsg
read_pake [] = none
read_pake (tag ∷ r) =
    if tag == 0
    then some (PakeMsg.start r)
    else if tag == 1
    then read_field r (λ a b. some (PakeMsg.confirm a b))
    else if tag == 2
    then read_field r (λ a b. some (PakeMsg.reply a b))
    else if tag == 3
    then some (PakeMsg.answer r)
    else if tag == 4
    then some PakeMsg.rejected
    else read_number r PakeMsg.retry_after

abbrev pub write_pake : PakeMsg → Bytes
write_pake (PakeMsg.start p) = 0 ∷ p
write_pake (PakeMsg.confirm a b) = 1 ∷ field a b
write_pake (PakeMsg.reply a b) = 2 ∷ field a b
write_pake (PakeMsg.answer b) = 3 ∷ b
write_pake PakeMsg.rejected = 4 ∷ []
write_pake (PakeMsg.retry_after n) = 5 ∷ n ∷ []

abbrev pub read_hello : Bytes → Option Control
read_hello [] = none
read_hello (v ∷ r0) = read_field r0 λ key r1. read_field r1 λ name r2. read_field r2 λ rk r3.
    read_field r3 λ rs r4. some (
      Control.hello (record {
        protocol_version = v;
        device_key = key;
        device_name = name;
        reconnect_key = rk;
        reconnect_key_sig = rs;
        session_sig = r4;
      }))

abbrev pub rejected : RejectReason → Control
rejected r = Control.decision (Decision.rejected r)

abbrev pub read_control : Bytes → Option Control
read_control [] = none
read_control (tag ∷ r) =
    if tag == 0
    then read_hello r
    else if tag == 1
    then some (Control.decision Decision.accepted)
    else if tag == 2
    then read_number r Control.ping
    else if tag == 3
    then read_number r Control.pong
    else if tag == 4
    then some (rejected RejectReason.denied)
    else if tag == 5
    then some (rejected RejectReason.no_response)
    else if tag == 6
    then read_number r (λ n. rejected (RejectReason.version_mismatch n))
    else some (rejected RejectReason.bad_identity)

abbrev pub write_control : Control → Bytes
write_control (Control.hello h) =
    0
    ∷ h.protocol_version
    ∷ field h.device_key
        (field h.device_name (field h.reconnect_key (field h.reconnect_key_sig h.session_sig)))
write_control (Control.decision Decision.accepted) = 1 ∷ []
write_control (Control.ping n) = 2 ∷ n ∷ []
write_control (Control.pong n) = 3 ∷ n ∷ []
write_control (Control.decision (Decision.rejected RejectReason.denied)) = 4 ∷ []
write_control (Control.decision (Decision.rejected RejectReason.no_response)) = 5 ∷ []
write_control (Control.decision (Decision.rejected (RejectReason.version_mismatch n))) = 6 ∷ n ∷ []
write_control (Control.decision (Decision.rejected RejectReason.bad_identity)) = 7 ∷ []

abbrev pub control_codec : Codec Control Bytes
control_codec = record { to_wire = write_control; from_wire = read_control }

read-write : (m : Control) → read_control (write_control m) ≡ some m
read-write (Control.hello h) =
    let r3 = field h.reconnect_key_sig h.session_sig in
    let r2 = field h.reconnect_key r3 in
    let r1 = field h.device_name r2 in
    ground (
      arith,
      take-append h.device_key r1,
      drop-append h.device_key r1,
      take-append h.device_name r2,
      drop-append h.device_name r2,
      take-append h.reconnect_key r3,
      drop-append h.reconnect_key r3,
      take-append h.reconnect_key_sig h.session_sig,
      drop-append h.reconnect_key_sig h.session_sig,
    )
read-write (Control.decision Decision.accepted) = refl
read-write (Control.ping n) = refl
read-write (Control.pong n) = refl
read-write (Control.decision (Decision.rejected RejectReason.denied)) = refl
read-write (Control.decision (Decision.rejected RejectReason.no_response)) = refl
read-write (Control.decision (Decision.rejected (RejectReason.version_mismatch n))) = refl
read-write (Control.decision (Decision.rejected RejectReason.bad_identity)) = refl

pub control_codec-IsFaithful : IsFaithful control_codec
control_codec-IsFaithful = record { round_trip = read-write }

abbrev pub platform : Platform
platform = record {
  pake_lib = pake_lib;
  aead = aead;
  ed25519 = ed25519;
  sha256 = λ b. b;
  hex = hex;
  pake_codec = record { to_wire = write_pake; from_wire = read_pake };
  control_codec = control_codec;
  fresh_code = λ n. record { digits = 49 ∷ 50 ∷ 51 ∷ 52 ∷ 53 ∷ (48 + n) ∷ [] };
  fresh_bytes = λ n. n ∷ [];
  peer_new = λ ips. ok tt;
  create_offer = ok (79 ∷ []);
  accept_offer = λ sdp. ok (65 ∷ []);
  accept_answer = λ sdp. ok tt;
  local_fingerprint = 1 ∷ [];
  remote_fingerprint = some (2 ∷ []);
}
