-- ===== src/Auth/Identity.antt =====
-- crates/auth/src/identity.rs: device keys, the signed `Hello` and its verification.
-- Ed25519, X25519, SHA-256 and the crate hex are parameters. A secret key is its 32 bytes.
pub mod Message
pub mod RoundTrip
pub mod Fingerprint
use simple_remote.Base.{
  ℕ, suc, ◌+◌, ◌/◌, ◌%◌, ◌≡◌, Bool, true, false, not, ◌||◌, Option, List, [], ◌∷◌, ◌++◌, Result, ok,
  err, ◌>>=◌, ◌>>◌, length, take, drop, any_of, ltb, ◌==◌, codes, if◌then◌else◌,
}
use simple_remote.Base.Text.{Bytes, Str, utf8, str_len, is_control}
use simple_remote.Base.Words.{u16_to_be}
use simple_remote.Protocol.{protocol_version}
use simple_remote.Protocol.Control.{Hello}
use simple_remote.Protocol.Serde.{Codec}
use simple_remote.Auth.Error.{AuthError, malformed, bad_signature, name_too_long}

pub record Ed25519 : Type 0 where
  pub verifying_key : Bytes → Bytes
  pub sign : Bytes → Bytes → Bytes
  -- `VerifyingKey::from_bytes` succeeds
  pub is_key : Bytes → Bool
  -- `verify_strict`: key, message, signature
  pub verify_strict : Bytes → Bytes → Bytes → Bool
  -- X25519: `PublicKey::from(&secret)`
  pub x25519_public : Bytes → Bytes

-- Lengths, and that a signature made with a key is accepted under its public key.
pub record IsEd25519 (e : Ed25519) : Type 0 where
  pub length-key : (sk : Bytes) → length (e.verifying_key sk) ≡ 32
  pub length-sig : (sk m : Bytes) → length (e.sign sk m) ≡ 64
  pub length-x25519 : (sk : Bytes) → length (e.x25519_public sk) ≡ 32
  pub key_is_key : (sk : Bytes) → e.is_key (e.verifying_key sk) ≡ true
  pub verify-sign : (sk m : Bytes) → e.verify_strict (e.verifying_key sk) m (e.sign sk m) ≡ true

pub data Role : Type 0 where
  viewer host : Role

unfoldable pub byte : Role → ℕ
byte viewer = 1
byte host = 2

pub record DeviceKeys : Type 0 where
  pub signing_key : Bytes
  pub reconnect_secret : Bytes
  pub name : Str

pub record PeerIdentity : Type 0 where
  pub device_key : Bytes
  pub name : Str
  pub reconnect_key : Bytes

abbrev pub reconnect_key_context : Bytes
reconnect_key_context = codes "simple-remote reconnect key v1"

abbrev pub hello_context : Bytes
hello_context = codes "simple-remote hello v1"

abbrev pub name_max_bytes : ℕ
name_max_bytes = 64

unfoldable pub check_device_name : Str → Result (Unit {0}) AuthError
check_device_name name =
    if (str_len name == 0) || ltb name_max_bytes (str_len name)
    then err name_too_long
    else if any_of is_control name
    then err (malformed "device_name")
    else ok tt

-- `len() as u16`, big endian, then the bytes
unfoldable pub with_length : Bytes → Bytes → Bytes
with_length field rest = u16_to_be (length field % 65536) ++ (field ++ rest)

unfoldable pub session_message : Role → Bytes → Bytes → Bytes → Bytes → Bytes
session_message role binding own_fp peer_fp name =
    hello_context
    ++ byte role ∷ (binding ++ with_length own_fp (with_length peer_fp (with_length name [])))

unfoldable pub reconnect_message : Bytes → Bytes
reconnect_message reconnect_key = reconnect_key_context ++ reconnect_key

-- `try_into` an array of the given length
unfoldable pub to_array : ℕ → Bytes → AuthError → Result Bytes AuthError
to_array n bytes e = if length bytes == n then ok bytes else err e

abbrev pub ensure : Bool → AuthError → Result (Unit {0}) AuthError
ensure b e = if b then ok tt else err e

-- `DeviceKeys::generate`, with the two secrets that the random generator gives
unfoldable pub generate : Bytes → Bytes → Str → Result DeviceKeys AuthError
generate signing reconnect name = do
  check_device_name name
  ok (record { signing_key = signing; reconnect_secret = reconnect; name = name })

module _ (lib : Ed25519) where
  unfoldable pub device_public : DeviceKeys → Bytes
  device_public k = lib.verifying_key k.signing_key

  unfoldable pub reconnect_public : DeviceKeys → Bytes
  reconnect_public k = lib.x25519_public k.reconnect_secret

  unfoldable pub sign_raw : DeviceKeys → Bytes → Bytes
  sign_raw k msg = lib.sign k.signing_key msg

  unfoldable pub make_hello : DeviceKeys → Role → Bytes → Bytes → Bytes → Hello
  unfolding device_public reconnect_public sign_raw
  make_hello k role binding own_fp peer_fp = record {
    protocol_version = protocol_version;
    device_key = device_public k;
    device_name = k.name;
    reconnect_key = reconnect_public k;
    reconnect_key_sig = sign_raw k (reconnect_message (reconnect_public k));
    session_sig = sign_raw k (session_message role binding own_fp peer_fp (utf8 k.name));
  }

  unfoldable pub verify_hello : Hello → Role → Bytes → Bytes → Bytes → Result PeerIdentity AuthError
  verify_hello hello sender binding sender_fp receiver_fp = do
    device_key ← to_array 32 hello.device_key (malformed "device_key")
    reconnect_key ← to_array 32 hello.reconnect_key (malformed "reconnect_key")
    reconnect_key_sig ← to_array 64 hello.reconnect_key_sig (malformed "reconnect_key_sig")
    session_sig ← to_array 64 hello.session_sig (malformed "session_sig")
    check_device_name hello.device_name
    ensure (lib.is_key device_key) (malformed "device_key")
    ensure (lib.verify_strict device_key (reconnect_message reconnect_key) reconnect_key_sig)
        bad_signature
    ensure
        (lib.verify_strict device_key
          (session_message sender binding sender_fp receiver_fp (utf8 hello.device_name))
          session_sig)
        bad_signature
    ok (record { device_key = device_key; name = hello.device_name; reconnect_key = reconnect_key })

-- `chunks(4)` and `join(" ")` on the hex digits of a fingerprint
unfoldable pub group_by_four : Str → Str
group_by_four (a ∷ b ∷ c ∷ d ∷ e ∷ rest) = a ∷ b ∷ c ∷ d ∷ 32 ∷ group_by_four (e ∷ rest)
group_by_four rest = rest

unfoldable pub key_fingerprint : (Bytes → Bytes) → Codec Bytes Str → Bytes → Str
unfolding group_by_four
key_fingerprint sha256 hex key = group_by_four (hex.to_wire (take 8 (sha256 key)))
