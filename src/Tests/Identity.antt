-- ===== src/Tests/Identity.antt =====
-- The theorems on device identities at concrete inputs.
use simple_remote.Base.{◌*◌, ◌≡◌, ◌≢◌, refl, true, [], ◌∷◌, ◌++◌, ok, length, arith, codes, none}
use simple_remote.Base.Text.{Bytes, Str, utf8}
use simple_remote.Protocol.Control.{Hello}
use simple_remote.Protocol.Serde.{Codec}
use simple_remote.Auth.Identity.{
  host, viewer, DeviceKeys, PeerIdentity, generate, check_device_name, session_message,
  reconnect_message, make_hello, verify_hello, device_public, reconnect_public, to_array,
}
use simple_remote.Auth.Identity.Message.{session_message-injective, contexts_disjoint, auth_prefix}
use simple_remote.Auth.Identity.RoundTrip.{IsName, verify_hello-make_hello, verify_hello_sound}
use simple_remote.Tests.Toy.{zeros, ed25519, ed25519-IsEd25519}

abbrev name : Str
name = codes "desk"

abbrev keys : DeviceKeys
keys = record { signing_key = 1 ∷ []; reconnect_secret = 2 ∷ []; name = name }

keys_generate : generate (1 ∷ []) (2 ∷ []) name ≡ ok keys
unfolding generate check_device_name utf8
keys_generate = refl

verify_hello-make_hello_example :
    verify_hello ed25519
      (make_hello ed25519 keys host (zeros 32) (1 ∷ []) (2 ∷ []))
      host
      (zeros 32)
      (1 ∷ [])
      (2 ∷ [])
    ≡ ok (record {
      device_key = device_public ed25519 keys;
      name = name;
      reconnect_key = reconnect_public ed25519 keys;
    })
verify_hello-make_hello_example =
    verify_hello-make_hello ed25519 ed25519-IsEd25519 (1 ∷ []) (2 ∷ []) name keys host (zeros 32)
      (1 ∷ []) (2 ∷ []) keys_generate

abbrev hello : Hello
hello = record {
  protocol_version = 1;
  device_key = zeros 32;
  device_name = name;
  reconnect_key = zeros 32;
  reconnect_key_sig = zeros 64;
  session_sig = zeros 64;
}

abbrev who : PeerIdentity
who = record { device_key = zeros 32; name = name; reconnect_key = zeros 32 }

hello_verifies : verify_hello ed25519 hello viewer (zeros 32) (2 ∷ []) (1 ∷ []) ≡ ok who
unfolding verify_hello to_array check_device_name utf8
hello_verifies = refl

verify_hello_sound_example :
    (who ≡ record {
      device_key = hello.device_key;
      name = hello.device_name;
      reconnect_key = hello.reconnect_key;
    })
    × (length who.device_key ≡ 32)
    × (length who.reconnect_key ≡ 32)
    × IsName who.name
    × (ed25519.verify_strict who.device_key
          (reconnect_message who.reconnect_key)
          hello.reconnect_key_sig
        ≡ true)
    × (ed25519.verify_strict who.device_key
          (session_message viewer (zeros 32) (2 ∷ []) (1 ∷ []) (utf8 who.name))
          hello.session_sig
        ≡ true)
verify_hello_sound_example =
    verify_hello_sound ed25519 hello viewer (zeros 32) (2 ∷ []) (1 ∷ []) who hello_verifies

session_message-injective_example :
    (viewer ≡ viewer)
    × (zeros 32 ≡ zeros 32)
    × (zeros 20 ≡ zeros 20)
    × (zeros 21 ≡ zeros 21)
    × (name ≡ name)
session_message-injective_example =
    session_message-injective viewer viewer (zeros 32) (zeros 32) (zeros 20) (zeros 20) (zeros 21)
      (zeros 21) name name refl refl (omega arith) (omega arith) (omega arith) (omega arith)
      (omega arith) (omega arith) refl

contexts_disjoint_example :
    (session_message host (zeros 32) (zeros 20) (zeros 20) name ≢ reconnect_message (zeros 32))
    × (session_message host (zeros 32) (zeros 20) (zeros 20) name ≢ auth_prefix ++ zeros 41)
    × (reconnect_message (zeros 32) ≢ auth_prefix ++ zeros 41)
contexts_disjoint_example =
    contexts_disjoint host (zeros 32) (zeros 20) (zeros 20) name (zeros 32) (zeros 41)

-- Two digits for each byte.
abbrev digits : Bytes → Str
digits [] = []
digits (b ∷ bs) = b'0' ∷ b'1' ∷ digits bs

abbrev hex : Codec Bytes Str
hex = record { to_wire = digits; from_wire = λ s. none }

length-digits : (b : Bytes) → length (digits b) ≡ 2 * length b
length-digits [] = refl
length-digits (b ∷ bs) = omega (arith, length-digits bs)
