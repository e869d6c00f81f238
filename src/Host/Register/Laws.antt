-- ===== src/Host/Register/Laws.antt =====
-- What the host has checked, and said, when it is registered.
use simple_remote.Base.{◌≡◌, Option, List, ◌∷◌, Result}
use simple_remote.Base.Text.{Bytes, Str}
use simple_remote.Protocol.Serde.{Codec}
use simple_remote.Protocol.Signaling.{ServerToHost, HostToServer, auth}
use simple_remote.Auth.Identity.{Ed25519, DeviceKeys, sign_raw}
use simple_remote.Transport.Interface.{LinkError}
use simple_remote.Transport.World.{World, link_sent}
use simple_remote.Host.Register.{signed_bytes}

abbrev HostWorld : Type 0
HostWorld = World ServerToHost HostToServer

abbrev Arrivals : Type 0
Arrivals = List (Result (Option ServerToHost) LinkError)

module _ (lib : Ed25519) (hex : Codec Bytes Str) (keys : DeviceKeys) where
  -- The host's last word to the server is its signature over this nonce and this id.
  abbrev pub Answered : Bytes → Str → HostWorld → HostWorld → Type 0
  Answered nonce id w w' =
      w'.trace
      ≡ link_sent (auth (hex.to_wire (sign_raw lib keys (signed_bytes nonce id)))) ∷ w.trace
