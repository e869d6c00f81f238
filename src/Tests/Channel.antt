-- ===== src/Tests/Channel.antt =====
-- The theorems on the messages, the channel and the URLs at concrete inputs.
use simple_remote.Base.{◌<◌, ◌≤◌, ◌≡◌, ◌↔◌, Option, some, [], ◌∷◌, ok, err, length, codes, false}
use simple_remote.Base.Text.{Bytes, Str}
use simple_remote.Protocol.Control.{Control, encode, decode, too_large, max_control_bytes}
use simple_remote.Protocol.Control.Laws.{decode-encode}
use simple_remote.Protocol.Signaling.{ServerToHost, HostToServer}
use simple_remote.Transport.Interface.{received, channel_open}
use simple_remote.Transport.World.{World}
use simple_remote.Transport.Channel.{Channel, inbox, next}
use simple_remote.Transport.Channel.Queue.{Delivers, next-Delivers}
use simple_remote.Transport.Url.{Uri, ensure_secure_url}
use simple_remote.Transport.Url.Laws.{IsSecure, IsSecure-exactly}
use simple_remote.Tests.Toy.{control_codec, control_codec-IsFaithful}

abbrev six : Bytes
six = 2 ∷ 6 ∷ []

decode-encode_example :
    let c = control_codec in
    let m = Control.ping 5 in
    ((decode c (encode c m) ≡ ok m) ↔ (length (encode c m) ≤ max_control_bytes))
    × ((decode c (encode c m) ≡ err (too_large (length (encode c m)) max_control_bytes))
        ↔ (max_control_bytes < length (encode c m)))
    × ((decode c six ≡ ok (Control.ping 6))
        ↔ ((length six ≤ max_control_bytes) × (c.from_wire six ≡ some (Control.ping 6))))
decode-encode_example =
    decode-encode control_codec control_codec-IsFaithful (Control.ping 5) six (Control.ping 6)

-- The channel opens, then two messages come at once.
abbrev world : World ServerToHost HostToServer
world = record {
  clock = 0;
  ticks = 1 ∷ [];
  arrivals = [];
  link_faults = [];
  polls = ok (channel_open ∷ []) ∷ ok (received (2 ∷ 6 ∷ []) ∷ received (9 ∷ []) ∷ []) ∷ [];
  peer_faults = [];
  answers = [];
  draws = 0;
  trace = [];
}

abbrev ch : Channel
ch = record { pending = []; remote_closed = false; local_closed = false }

next-Delivers_example :
    let ((r, ch'), w') = next control_codec 1000 ch world in
    Delivers control_codec 1000 (inbox ch world) r ch' w'.clock (inbox ch' w')
next-Delivers_example = next-Delivers control_codec 1000 ch world

-- A parser that knows one authority.
abbrev uri : Uri
uri = record {
  scheme = some (codes "ws");
  authority = some (record { text = codes "localhost:8787"; host = codes "localhost" });
}

abbrev parser : Str → Option Uri
parser url = some uri

IsSecure-exactly_example :
    (ensure_secure_url parser (codes "ws://localhost:8787") ≡ ok uri)
    ↔ ((parser (codes "ws://localhost:8787") ≡ some uri) × IsSecure uri)
IsSecure-exactly_example = IsSecure-exactly parser (codes "ws://localhost:8787") uri
