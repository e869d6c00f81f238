-- ===== src/Transport/FakeSignal/Reach.antt =====
-- What the host and any number of viewers can do with the server, in any order.
use simple_remote.Base.{ℕ, suc, ◌≡◌, Option, none, some, List, [], ◌∷◌, ◌++◌}
use simple_remote.Base.Text.{Bytes, Str}
use simple_remote.Protocol.Serde.{Codec}
use simple_remote.Protocol.Signaling.{ServerToHost, HostToServer, ViewerToServer}
use simple_remote.Transport.FakeSignal.{
  Inner, FakeViewerLink, new, viewer, host_send, host_recv, host_drop, viewer_send, viewer_recv,
  viewer_drop,
}

abbrev pub heard : Option ServerToHost → List ServerToHost
heard none = []
heard (some m) = m ∷ []

-- After `n` viewers have come, the host has received these messages, oldest first, and the server is
-- in this state.
pub data Reaches (hex : Codec Bytes Str) : ℕ → List ServerToHost → Inner → Type 0 where
  start : Reaches hex 0 [] new
  viewer_comes :
      {n : ℕ} {seen : List ServerToHost} {h : Inner}
      → Reaches hex n seen h
      → Reaches hex (suc n) seen (viewer h).1
  host_sends :
      {n : ℕ} {seen : List ServerToHost} {h h' : Inner}
      → (m : HostToServer) → Reaches hex n seen h
      → host_send hex m h ≡ some h'
      → Reaches hex n seen h'
  host_receives :
      {n : ℕ} {seen : List ServerToHost} {h : Inner}
      → Reaches hex n seen h
      → Reaches hex n (seen ++ heard (host_recv h).0) (host_recv h).1
  host_leaves :
      {n : ℕ} {seen : List ServerToHost} {h : Inner}
      → Reaches hex n seen h
      → Reaches hex n seen (host_drop h)
  viewer_sends :
      {n : ℕ} {seen : List ServerToHost} {h : Inner}
      → (m : ViewerToServer) → (l : FakeViewerLink) → Reaches hex n seen h
      → Reaches hex n seen (viewer_send m l h).1
  viewer_receives :
      {n : ℕ} {seen : List ServerToHost} {h : Inner}
      → (l : FakeViewerLink) → Reaches hex n seen h
      → Reaches hex n seen (viewer_recv l h).2
  viewer_leaves :
      {n : ℕ} {seen : List ServerToHost} {h : Inner}
      → (l : FakeViewerLink) → Reaches hex n seen h
      → Reaches hex n seen (viewer_drop l h)
