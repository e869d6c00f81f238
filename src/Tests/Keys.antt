-- ===== src/Tests/Keys.antt =====
-- The theorems on sealing and on the key exchange at concrete inputs.
use simple_remote.Base.{
  ◌+◌, ◌≡◌, ◌≢◌, ◌↔◌, ◌⊎◌, refl, some, List, [], ◌∷◌, ◌++◌, map, ok, err, length, arith, codes,
}
use simple_remote.Base.Text.{Bytes, Str}
use simple_remote.Base.Words.{from_be}
use simple_remote.Auth.Error.{wrong_code, bad_seal}
use simple_remote.Auth.Code.{OneTimeCode}
use simple_remote.Auth.Sealed.{
  SealedSender, SealedReceiver, SessionKeys, frame, open_sealed, viewer_side, host_side,
}
use simple_remote.Auth.Sealed.Laws.{IsBytes, open_exactly_next}
use simple_remote.Auth.Sealed.Stream.{seal_all, open_all, replay_refused, session_stream}
use simple_remote.Auth.Pake.{
  viewer_start, viewer_finish, host_respond, host_confirm, derive_session_keys, confirmation_failed,
  to_mac,
}
use simple_remote.Auth.Pake.Laws.{same_code_agrees, viewer_finish_checked, host_confirm_cases}
use simple_remote.Transport.Url.{strip_prefix}
use simple_remote.Tests.Toy.{zeros, aead, aead-IsAead, pake_lib, pake_lib-IsPakeLib}

abbrev receiver : SealedReceiver
receiver = record { key = 7 ∷ []; label = codes "v2h"; expected_counter = 3 }

abbrev plain : Bytes
plain = codes "hi"

abbrev message : Bytes
message = 0 ∷ 0 ∷ 0 ∷ 0 ∷ 0 ∷ 0 ∷ 0 ∷ 3 ∷ (zeros 16 ++ plain)

message-IsBytes : IsBytes message
message-IsBytes = ground arith

open_exactly_next_example :
    ((p : Bytes) × (message ≡ frame aead receiver.key receiver.label receiver.expected_counter p)
      × (open_sealed aead receiver message
          ≡ some (ok p, record receiver { expected_counter = receiver.expected_counter + 1 })))
    ⊎ ((((p : Bytes)
          → message ≢ frame aead receiver.key receiver.label receiver.expected_counter p))
        × (open_sealed aead receiver message ≡ some (err bad_seal, receiver)))
open_exactly_next_example =
    open_exactly_next aead aead-IsAead receiver message message-IsBytes (omega arith)

abbrev next_receiver : SealedReceiver
next_receiver = record { key = 7 ∷ []; label = codes "v2h"; expected_counter = 4 }

message_opens : open_sealed aead receiver message ≡ some (ok plain, next_receiver)
unfolding open_sealed from_be strip_prefix
message_opens = refl

-- The next message comes, and after it the first one again.
abbrev since : List Bytes
since = (0 ∷ 0 ∷ 0 ∷ 0 ∷ 0 ∷ 0 ∷ 0 ∷ 4 ∷ (zeros 16 ++ plain)) ∷ message ∷ []

abbrev last_receiver : SealedReceiver
last_receiver = record { key = 7 ∷ []; label = codes "v2h"; expected_counter = 5 }

since_open : open_all aead next_receiver since ≡ some (ok plain ∷ err bad_seal ∷ [], last_receiver)
unfolding open_sealed from_be strip_prefix
since_open = refl

replay_refused_example : open_sealed aead last_receiver message ≡ some (err bad_seal, last_receiver)
replay_refused_example =
    replay_refused aead receiver next_receiver last_receiver message plain since
      (ok plain ∷ err bad_seal ∷ []) message_opens since_open

abbrev keys : SessionKeys
keys = record { viewer_to_host = 1 ∷ []; host_to_viewer = 2 ∷ []; hello_binding = 3 ∷ [] }

abbrev said : List Bytes
said = plain ∷ codes "you" ∷ []

session_stream_example :
    ((ms : List Bytes) × (s : SealedSender) × (r : SealedReceiver) × (seal_all aead
          (viewer_side keys).0
          said
        ≡ some (ms, s))
      × (open_all aead (host_side keys).1 ms ≡ some (map ok said, r)))
    × ((ms : List Bytes) × (s : SealedSender) × (r : SealedReceiver) × (seal_all aead
            (host_side keys).0
            said
          ≡ some (ms, s))
        × (open_all aead (viewer_side keys).1 ms ≡ some (map ok said, r)))
session_stream_example = session_stream aead aead-IsAead keys said (omega arith)

abbrev code : OneTimeCode
code = record { digits = codes "123456" }

abbrev id : Str
id = codes "123456789"

same_code_agrees_example :
    (state : Bytes) × (pa : Bytes) × (output : Bytes) × (pb : Bytes) × (mac_b : Bytes)
    × (agreed : SessionKeys) × (mac_a : Bytes) × (viewer_start pake_lib (1 ∷ []) code id
        ≡ ok (state, pa))
    × (host_respond pake_lib (2 ∷ []) code id pa ≡ ok (output, pb, mac_b))
    × (viewer_finish pake_lib state pb mac_b ≡ ok (agreed, mac_a))
    × (host_confirm pake_lib output mac_a ≡ ok agreed)
same_code_agrees_example = same_code_agrees pake_lib pake_lib-IsPakeLib code id (1 ∷ []) (2 ∷ [])

abbrev derived : SessionKeys
derived = record {
  viewer_to_host = codes "simple-remote v1 seal viewer->host";
  host_to_viewer = codes "simple-remote v1 seal host->viewer";
  hello_binding = codes "simple-remote v1 hello binding";
}

viewer_finishes : viewer_finish pake_lib (5 ∷ []) (2 ∷ []) (zeros 32) ≡ ok (derived, zeros 32)
unfolding viewer_finish to_mac derive_session_keys
viewer_finishes = refl

viewer_finish_checked_example :
    (output : Bytes) × (pake_lib.finish_a (5 ∷ []) (2 ∷ []) ≡ ok output)
    × (length (zeros 32) ≡ 32)
    × (pake_lib.verify_peer_confirmation output (zeros 32) ≡ ok tt)
    × (derived ≡ derive_session_keys pake_lib (pake_lib.session_key output))
    × (zeros 32 ≡ pake_lib.confirmation_mac output)
viewer_finish_checked_example =
    viewer_finish_checked pake_lib (5 ∷ []) (2 ∷ []) (zeros 32) derived (zeros 32) viewer_finishes

host_confirm_cases_example :
    ((host_confirm pake_lib (5 ∷ []) (zeros 31)
        ≡ ok (derive_session_keys pake_lib (pake_lib.session_key (5 ∷ []))))
      ↔ ((length (zeros 31) ≡ 32)
          × (pake_lib.verify_peer_confirmation (5 ∷ []) (zeros 31) ≡ ok tt)))
    × ((host_confirm pake_lib (5 ∷ []) (zeros 31) ≡ err wrong_code) ↔ (
        (length (zeros 31) ≢ 32)
        ⊎ (pake_lib.verify_peer_confirmation (5 ∷ []) (zeros 31) ≡ err confirmation_failed)))
host_confirm_cases_example = host_confirm_cases pake_lib (5 ∷ []) (zeros 31)
