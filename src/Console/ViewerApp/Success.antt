-- ===== src/Console/ViewerApp/Success.antt =====
-- What the viewer has printed when it ends with success.
use simple_remote.Base.{ℕ, zero, suc, ◌≡◌, List, [], ◌∷◌, Result, ok, map}
use simple_remote.Base.Text.{Str}
use simple_remote.Protocol.{Duration, default_timeouts}
use simple_remote.Protocol.Signaling.{ServerToViewer, ViewerToServer}
use simple_remote.Auth.Code
use simple_remote.Auth.Code.{OneTimeCode}
use simple_remote.Auth.Identity
use simple_remote.Auth.Identity.{DeviceKeys, key_fingerprint}
use simple_remote.Transport.Interface.{LinkError}
use simple_remote.Transport.World.{World}
use simple_remote.Viewer.Session
use simple_remote.Viewer.Session.{ViewerSession, send_ping}
use simple_remote.Console.Text.{connected_line, or_localhost}
use simple_remote.Console.Args.{ViewerArgs}
use simple_remote.Console.ViewerApp.{pong_line, ping_timeout, pings, url}
use simple_remote.Platform.{Platform}

abbrev pub ViewerWorld : Type 0
ViewerWorld = World ServerToViewer ViewerToServer

module _ (p : Platform) (opened : Str → Result (Unit {0}) LinkError) (ips : List Str) where
  -- One ping after the other, with these round-trip times, from this session and these surroundings
  abbrev pub Pinged : ℕ → ViewerSession → ViewerWorld → List Duration → Type 0
  Pinged zero s w [] = Unit
  Pinged zero s w (rtt ∷ rtts) = ⊥
  Pinged (suc n) s w [] = ⊥
  Pinged (suc n) s w (rtt ∷ rtts) =
      let ((r, s'), w') = send_ping p ping_timeout s w in (r ≡ ok rtt) × Pinged n s' w' rtts

  -- A link to the server, a session on it, the pings of that session, and the lines about them
  abbrev pub Shown : ViewerArgs → OneTimeCode → DeviceKeys → ViewerWorld → List Str → Type 0
  Shown args code keys w lines =
      (opened (url args) ≡ ok tt)
      × (s : ViewerSession) × (w' : ViewerWorld) × (Session.connect p args.id code keys
            (or_localhost ips) default_timeouts w
          ≡ (ok s, w'))
      × (rtts : List Duration) × Pinged pings s w' rtts
      × (lines
          ≡ connected_line s.host.name (key_fingerprint p.sha256 p.hex s.host.device_key)
            ∷ map pong_line rtts)
