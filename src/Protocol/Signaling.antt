-- ===== src/Protocol/Signaling.antt =====
-- crates/protocol/src/signaling.rs: the messages between the signaling server and each side.
use simple_remote.Base.Text.{Str}

pub data ServerToHost : Type 0 where
  challenge : Str → Str → ServerToHost
  registered : Str → ServerToHost
  viewer_joined viewer_left : ServerToHost
  relay : Str → ServerToHost

pub data HostToServer : Type 0 where
  auth : Str → HostToServer
  relay : Str → HostToServer
  kick : HostToServer

pub data ServerToViewer : Type 0 where
  joined : ServerToViewer
  relay : Str → ServerToViewer
  host_left : ServerToViewer

pub data ViewerToServer : Type 0 where
  relay : Str → ViewerToServer
