-- ===== src/Auth/Identity/RoundTrip.antt =====
-- Making and verifying a `Hello`.
use simple_remote.Base.{ℕ, ◌≤◌, ◌≡◌, true, false, ok, length, any_of, arith}
use simple_remote.Base.Text.{Bytes, Str, utf8, is_control}
use simple_remote.Protocol.Control.{Hello}
use simple_remote.Auth.Error.{AuthError, malformed}
use simple_remote.Auth.Identity.{
  Ed25519, IsEd25519, Role, DeviceKeys, PeerIdentity, check_device_name, session_message,
  reconnect_message, to_array, generate, device_public, reconnect_public, sign_raw, make_hello,
  verify_hello,
}

-- A name that the sender's and the receiver's check let pass.
pub record IsName (name : Str) : Type 0 where
  pub not_empty : 1 ≤ length (utf8 name)
  pub not_long : length (utf8 name) ≤ 64
  pub no_control : any_of is_control name ≡ false

pub check_device_name_lem : (name : Str) → IsName name → check_device_name name ≡ ok tt
unfolding check_device_name
check_device_name_lem name h = ground arith

IsName-of_check : (name : Str) → check_device_name name ≡ ok tt → IsName name
unfolding check_device_name
IsName-of_check name h = ground arith

to_array_lem :
    (n : ℕ) (bytes : Bytes) (e : AuthError) → length bytes ≡ n → to_array n bytes e ≡ ok bytes
unfolding to_array
to_array_lem n bytes e h = ground arith

-- Keys that `generate` gives sign a `Hello` that the other side accepts when it looks at the same
-- role, binding and pair of fingerprints, and the identity it finds is that of the keys.
pub verify_hello-make_hello :
    (lib : Ed25519) (law : IsEd25519 lib) (signing reconnect : Bytes) (name : Str) (k : DeviceKeys)
    (role : Role) (binding own_fp peer_fp : Bytes)
    → generate signing reconnect name ≡ ok k
    → verify_hello lib (make_hello lib k role binding own_fp peer_fp) role binding own_fp peer_fp
      ≡ ok (record {
        device_key = device_public lib k;
        name = name;
        reconnect_key = reconnect_public lib k;
      })
unfolding generate make_hello verify_hello device_public reconnect_public sign_raw
verify_hello-make_hello lib law signing reconnect name k role binding own_fp peer_fp e =
    let keys : DeviceKeys = record {
      signing_key = signing;
      reconnect_secret = reconnect;
      name = name;
    } in
    let same : k ≡ keys = ground arith in
    let checked : check_device_name name ≡ ok tt = ground arith in
    let about_key = reconnect_message (lib.x25519_public reconnect) in
    let about_session = session_message role binding own_fp peer_fp (utf8 name) in
    rw same (
      ground (
        arith,
        to_array_lem 32 (lib.verifying_key signing) (malformed "device_key")
            (law.length-key signing),
        to_array_lem 32 (lib.x25519_public reconnect) (malformed "reconnect_key")
            (law.length-x25519 reconnect),
        to_array_lem 64 (lib.sign signing about_key) (malformed "reconnect_key_sig")
            (law.length-sig signing about_key),
        to_array_lem 64 (lib.sign signing about_session) (malformed "session_sig")
            (law.length-sig signing about_session),
        law.key_is_key signing,
        law.verify-sign signing about_key,
        law.verify-sign signing about_session,
      ))

-- What a receiver knows when it accepts: the lengths, that the name passes the check, and that the
-- key in the `Hello` has signed both the reconnect key and the message for exactly this role,
-- binding and pair of fingerprints, under the name that the identity carries.
pub verify_hello_sound :
    (lib : Ed25519) (h : Hello) (role : Role) (binding sender_fp receiver_fp : Bytes)
    (id : PeerIdentity)
    → verify_hello lib h role binding sender_fp receiver_fp ≡ ok id
    → (id ≡ record {
      device_key = h.device_key;
      name = h.device_name;
      reconnect_key = h.reconnect_key;
    })
      × (length id.device_key ≡ 32)
      × (length id.reconnect_key ≡ 32)
      × IsName id.name
      × (lib.verify_strict id.device_key (reconnect_message id.reconnect_key) h.reconnect_key_sig
          ≡ true)
      × (lib.verify_strict id.device_key
            (session_message role binding sender_fp receiver_fp (utf8 id.name))
            h.session_sig
          ≡ true)
unfolding verify_hello to_array check_device_name
verify_hello_sound lib h role binding sender_fp receiver_fp id e = ground arith
