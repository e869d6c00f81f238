-- ===== src/Lib.antt =====
-- Verification of simple-remote, a remote connection between two devices: a host shows a six-digit
-- code, a viewer types it in, both run a password-authenticated key exchange over a signaling server,
-- open a WebRTC data channel, show each other signed identities, and the host's user agrees.
--
-- Parts and files:
-- - Base: names shared by all files; Boolean tests on native numbers, lists, results, texts as lists of
--   code points with UTF-8, big-endian words.
-- - Protocol (crates/protocol): `Control` is control.rs, `PakeMsg` pake_msg.rs, `Signaling`
--   signaling.rs; versions, time limits and stages of lib.rs. `Serde` is the interface of a serialiser.
-- - Auth (crates/auth): `Code` is code.rs, `Pake` pake.rs, `Sealed` sealed.rs, `Identity` identity.rs,
--   `Error` error.rs.
-- - Transport (crates/transport): `Interface` has the errors and events, `World` the surroundings of
--   one side, `Channel` is channel.rs with surroundings in which every answer comes at once in `Calm`,
--   `Link` is `send` and `recv` of link.rs, `Link.Connect` its `WsLink::connect` and `connect_tcp`, `Url`
--   its check `ensure_secure_url`, `Peer` the sockets, events and `send` of peer.rs, `Peer.Poll` its
--   `poll`, `Net` is net.rs, `FakeSignal` is fake_signal.rs, with the runs of host and viewers in `Reach`.
-- - Platform: what both sessions take from outside.
-- - Host (apps/host-agent): `Attempts` is attempts.rs, `Register` register.rs, `Session` session.rs,
--   with `Approval` for `wait_approval` and `reject_decision`, `Handshake` for `handshake`, `Attempt`
--   for `attempt` and `serve_next`, `Pings` for `serve_pings`.
-- - Viewer (crates/viewer-core): `Connect` and `Session` are connect.rs.
-- - System: host and viewer together; `Wire` is how a message of one is heard by the other.
-- - Console: `HostAgent` is apps/host-agent/src/main.rs, with `Approver` for its questions; `ViewerApp` is
--   apps/viewer/src/main.rs; `Args` has `parse_args` of both, `Text` what both print.
-- - Tests: the theorems at concrete inputs, with small stand-ins for the libraries.
--
-- How the code is modelled. A function of the source is a definition of the same name; a long one,
-- such as `attempt`, is cut at its early returns into stages that call each other, and every `match` on
-- a message is a definition by clauses. A `Result` is `ok` or `err`, an early return ends the stage.
-- Code that mutates takes and returns its state. A session runs in a `World`: a clock and lists of what
-- the link, the peer and the user will give, used up call by call, and a trace of what was sent. A list
-- that has run out is a silent partner that lets every time limit pass. Times are numbers of
-- nanoseconds; numbers of u16, u32 and u64 wrap or stop where the source says.
--
-- Parameters. SPAKE2, ChaCha20-Poly1305, Ed25519, X25519, SHA-256, SHA-512, HKDF, hex, postcard, the URI
-- parser, the random generator and WebRTC are arguments. `IsAead`, `IsPakeLib`, `IsEd25519` and
-- `IsFaithful` name what their documentation promises, and theorems that need it say so.
--
-- Loops and fuel. `next` and `wait_open` have one round for each event batch to come and two more;
-- `ping`, `serve_pings` and `reject_decision` one round for each message to come and one more;
-- `wait_approval` one for each 50 ms of its limit and three more; the modules named `Ends` and
-- `Viewer.Session.Pings` are about this fuel. The messages to come are a list, so that this fuel says
-- nothing of how long a partner that never stops can keep `ping` and `serve_pings` busy. The loop of the host's `main` has no end of its own: `round` is one round of it and `Runs` any
-- number of rounds. The loops of `poll`, `answer`, `recv` and `serve_next` go through the list of what their
-- surroundings give, and say so when it is over.
--
-- Not modelled: the inside of sockets, TLS, the WebSocket protocol and WebRTC (`create_offer`,
-- `accept_offer`, `accept_answer`, the fingerprints and `close` of peer.rs only call str0m and are
-- parameters), what the console host says on standard error, the thread that reads lines for `Approver`
-- beyond what its channel gives, wiping of secrets in memory, the signaling server (TypeScript), the
-- experiments under spikes.
pub mod Base
pub mod Protocol
pub mod Auth
pub mod Transport
pub mod Platform
pub mod Host
pub mod Viewer
pub mod Console
pub mod System
pub mod Tests
