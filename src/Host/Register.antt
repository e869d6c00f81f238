-- ===== src/Host/Register.antt =====
-- apps/host-agent/src/register.rs: registration of the host with the signaling server.
-- `WsLink::connect` is the parameter `opened`; the link is what `send` and `recv` give.
pub mod Laws
use simple_remote.Base.{
  ℕ, ◌+◌, Bool, false, not, ◌&&◌, Option, none, some, List, [], ◌∷◌, ◌++◌, Result, ok, err, ◌==◌,
  length, all_of, bytes_eq, codes, String, if◌then◌else◌,
}
use simple_remote.Base.Text.{Bytes, Str, utf8, str_len, is_ascii_digit}
use simple_remote.Protocol.{Duration, from_secs}
use simple_remote.Protocol.Serde.{Codec}
use simple_remote.Protocol.Signaling.{ServerToHost, HostToServer, challenge, registered, auth}
use simple_remote.Auth.Identity.{Ed25519, DeviceKeys, device_public, sign_raw}
use simple_remote.Auth.Identity.Message.{auth_prefix}
use simple_remote.Transport.Interface.{LinkError}
use simple_remote.Transport.World.{World, Io, pure, link_recv, link_send, ◌>>=◌, ◌>>◌}

abbrev pub step : Duration
step = from_secs 15

pub data RegisterError : Type 0 where
  link : LinkError → RegisterError
  protocol : String → RegisterError

abbrev pub HostIo : Type 0 → Type 0
HostIo A = Io ServerToHost HostToServer A

-- `id.len() == 9 && id.bytes().all(|b| b.is_ascii_digit())`
unfoldable pub is_host_id : Str → Bool
is_host_id id = (str_len id == 9) && all_of is_ascii_digit (utf8 id)

-- The URL, or the refusal of an id that is none.
unfoldable pub host_url : Codec Bytes Str → Str → Bytes → Option Str → Result Str RegisterError
host_url hex server key none = ok (server ++ (codes "/v1/host?key=" ++ hex.to_wire key))
host_url hex server key (some id) =
    if not (is_host_id id)
    then err (protocol "bad host id")
    else ok (server ++ (codes "/v1/host/" ++ (id ++ (codes "?key=" ++ hex.to_wire key))))

-- Whether the challenge is for another id than the one asked for.
unfoldable pub is_other : Option Str → Str → Bool
is_other none challenge_id = false
is_other (some id) challenge_id = not (bytes_eq id challenge_id)

-- The first message: the nonce and the id that the server chose
unfoldable pub on_challenge :
    Codec Bytes Str → Option Str → Option ServerToHost → Result (Bytes × Str) RegisterError
on_challenge hex id (some (challenge nonce_text challenge_id)) = elim (hex.from_wire nonce_text) [
  | none ↦ err (protocol "bad challenge nonce")
  | some nonce ↦
      if not (length nonce == 32)
      then err (protocol "bad challenge nonce")
      else if not (is_host_id challenge_id)
      then err (protocol "bad challenge id")
      else if is_other id challenge_id
      then err (protocol "challenge for another id")
      else ok (nonce, challenge_id)
]
on_challenge hex id (some _) = err (protocol "expected challenge")
on_challenge hex id none = err (protocol "no challenge")

-- The bytes that answer the challenge
unfoldable pub signed_bytes : Bytes → Str → Bytes
signed_bytes nonce challenge_id = auth_prefix ++ (nonce ++ utf8 challenge_id)

-- The last message
unfoldable pub on_registered : Str → Option ServerToHost → Result Str RegisterError
on_registered challenge_id (some (registered id)) =
    if bytes_eq id challenge_id then ok id else err (protocol "registered another id")
on_registered challenge_id (some _) = err (protocol "expected registered")
on_registered challenge_id none = err (protocol "no registered")

module _ (lib : Ed25519) (hex : Codec Bytes Str) (keys : DeviceKeys) where
  -- The answer to the challenge and what comes back
  unfoldable pub answer_challenge : Bytes → Str → HostIo (Result Str RegisterError)
  answer_challenge nonce challenge_id = do
    sent ← link_send (auth (hex.to_wire (sign_raw lib keys (signed_bytes nonce challenge_id))))
    elim sent [
      | err e ↦ pure (err (link e))
      | ok _ ↦ do
        r ← link_recv step
        elim r [ err e ↦ pure (err (link e)) | ok m ↦ pure (on_registered challenge_id m) ]
    ]

  -- `register_host`, without the link that it also returns
  unfoldable pub register_host :
      (Str → Result (Unit {0}) LinkError) → Str → Option Str → HostIo (Result Str RegisterError)
  register_host opened server id = elim (host_url hex server (device_public lib keys) id) [
    | err e ↦ pure (err e)
    | ok url ↦ elim (opened url) [
      | err e ↦ pure (err (link e))
      | ok _ ↦ do
        r ← link_recv step
        elim r [
          | err e ↦ pure (err (link e))
          | ok m ↦ elim (on_challenge hex id m) [
            | err e ↦ pure (err e)
            | ok (nonce, challenge_id) ↦ answer_challenge nonce challenge_id
          ]
        ]
    ]
  ]
