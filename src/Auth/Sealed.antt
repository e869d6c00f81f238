-- ===== src/Auth/Sealed.antt =====
-- crates/auth/src/sealed.rs: messages sealed in one direction, each under the next counter.
-- The cipher, chacha20poly1305, is a parameter. A call that panics returns `none`.
pub mod Laws
pub mod Stream
use simple_remote.Base.{
  ℕ, ◌+◌, ◌≡◌, Bool, Option, none, some, List, [], ◌∷◌, ◌++◌, Result, ok, err, ltb, not, ◌==◌,
  length, take, drop, codes, if◌then◌else◌,
}
use simple_remote.Base.Text.{Bytes}
use simple_remote.Base.Words.{u64_to_be, from_be}
use simple_remote.Auth.Error.{AuthError, bad_seal}

-- An authenticated cipher: key, nonce, associated data, message.
pub record Aead : Type 0 where
  pub encrypt : Bytes → Bytes → Bytes → Bytes → Bytes
  pub decrypt : Bytes → Bytes → Bytes → Bytes → Option Bytes

-- What its documentation promises: a tag of 16 bytes, decryption inverts encryption, and nothing
-- decrypts but what encryption gives.
pub record IsAead (a : Aead) : Type 0 where
  pub length-encrypt : (k n d m : Bytes) → length (a.encrypt k n d m) ≡ length m + 16
  pub decrypt-encrypt : (k n d m : Bytes) → a.decrypt k n d (a.encrypt k n d m) ≡ some m
  pub decrypt_sound : (k n d c m : Bytes) → a.decrypt k n d c ≡ some m → c ≡ a.encrypt k n d m

abbrev pub min_sealed_len : ℕ
min_sealed_len = 8 + 16

abbrev pub u64_max : ℕ
u64_max = 18446744073709551615

unfoldable pub nonce_for : ℕ → Bytes
nonce_for counter = 0 ∷ 0 ∷ 0 ∷ 0 ∷ u64_to_be counter

-- `u64::checked_add(1)`
abbrev pub checked_next : ℕ → Option ℕ
checked_next n = if n == u64_max then none else some (n + 1)

pub record SealedSender : Type 0 where
  pub key : Bytes
  pub label : Bytes
  pub counter : ℕ

pub record SealedReceiver : Type 0 where
  pub key : Bytes
  pub label : Bytes
  pub expected_counter : ℕ

unfoldable pub new_sender : Bytes → Bytes → SealedSender
new_sender key label = record { key = key; label = label; counter = 0 }

unfoldable pub new_receiver : Bytes → Bytes → SealedReceiver
new_receiver key label = record { key = key; label = label; expected_counter = 0 }

-- The session keys of crates/auth/src/pake.rs.
pub record SessionKeys : Type 0 where
  pub viewer_to_host : Bytes
  pub host_to_viewer : Bytes
  pub hello_binding : Bytes

unfoldable pub viewer_side : SessionKeys → SealedSender × SealedReceiver
unfolding new_sender new_receiver
viewer_side k =
    (new_sender k.viewer_to_host (codes "v2h"), new_receiver k.host_to_viewer (codes "h2v"))

unfoldable pub host_side : SessionKeys → SealedSender × SealedReceiver
unfolding new_sender new_receiver
host_side k =
    (new_sender k.host_to_viewer (codes "h2v"), new_receiver k.viewer_to_host (codes "v2h"))

module _ (aead : Aead) where
  -- What `seal` puts on the wire for a counter.
  unfoldable pub frame : Bytes → Bytes → ℕ → Bytes → Bytes
  frame key label counter plaintext =
      u64_to_be counter ++ aead.encrypt key (nonce_for counter) label plaintext

  unfoldable pub seal : SealedSender → Bytes → Option (Bytes × SealedSender)
  seal s plaintext =
      let out = frame s.key s.label s.counter plaintext in
      elim (checked_next s.counter) [
        | none ↦ none
        | some next ↦ some (out, record s { counter = next })
      ]

  -- `SealedReceiver::open`
  unfoldable pub open_sealed :
      SealedReceiver → Bytes → Option (Result Bytes AuthError × SealedReceiver)
  open_sealed r msg =
      let counter = from_be (take 8 msg) in
      if ltb (length msg) min_sealed_len
      then some (err bad_seal, r)
      else if not (counter == r.expected_counter)
      then some (err bad_seal, r)
      else elim (aead.decrypt r.key (nonce_for counter) r.label (drop 8 msg)) [
        | none ↦ some (err bad_seal, r)
        | some plaintext ↦ elim (checked_next r.expected_counter) [
          | none ↦ none
          | some next ↦ some (ok plaintext, record r { expected_counter = next })
        ]
      ]
