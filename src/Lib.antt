-- ===== src/Lib.antt =====
-- A model of the host of the phone trackpad: what reaches it over the network from the phone, and
-- the key changes that it makes of that; and the desktop launcher's change of the network policy.
--
-- The program's core is the Rust crate native-host. A datagram of protocol version 4 is decoded
-- to a touch frame (native-host/src/protocol.rs, `decode_frame`), or a record of version 5 is
-- opened first (native-host/src/v5.rs, `RecordCipher::open_in_place`, which asks the
-- `ReplayWindow`). Touch frames arrive repeated and out of order; `OrderedFrames` puts them in
-- order. Each frame in turn is a complete snapshot of the contacts, from which the keyboard
-- bridge (native-host/src/keyboard/mod.rs, `plan_into`) computes the lanes that are held and the
-- key changes that lead there.
--
-- The files:
--   Prelude   tests, lists, machine integers and error results that all parts share
--   Bits      binary digits of numbers
--   Wire      little-endian numbers and writes into byte buffers (`read_u16` and so on)
--   Protocol  protocol.rs: data and constants; Protocol/Crc `crc32`; Protocol/Encode the control
--             and discovery datagrams; Protocol/Decode `decode_frame` and `FrameParser`
--   Ordered   protocol.rs: `OrderedFrames`
--   V5        v5.rs: constants and errors; V5/Envelope the pairing envelopes; V5/Record the record
--             headers; V5/Cipher `RecordCipher` (its `open` is `open_copy`); V5/Touch the touch
--             payloads; V5/Quality the quality replies and control payloads; V5/Sas the digits
--             that both ends show while they pair
--   Replay    v5.rs: `ReplayWindow`
--   Keyboard  keyboard/mod.rs: `KeyboardState` and the moves of one pointer; Keyboard/Plan
--             `plan_into`; Keyboard/Spacer `RepressSpacer`, of which Flush its `flush`;
--             Keyboard/Sink `KeyboardSink` over any key sink (`KeyOutput`); Keyboard/Keys the lane
--             keys; Keyboard/Linux and Keyboard/Windows the sinks of keyboard/linux.rs and
--             keyboard/windows.rs
--   Input     input.rs: frames into the window and from it to a sink (`InputSink`), with retries
--   Connection  v5_host.rs: `V5Connection`, records over a socket
--   Serve     v5_host.rs: the rounds of `serve_gameplay_inner`; Serve/Session `serve_gameplay`
--   Gameplay  v5_host.rs: `process_gameplay_frame`, which acknowledges what Input committed;
--             Gameplay/Quality `QualityStats`
--   Metrics   metrics.rs: the queue of recorded events; Metrics/Recorder what `HostMetrics` records
--   Diagnostics  diagnostics.rs: `Series`, durations in buckets and their quantiles
--   Nmcli     tauri-launcher/src-tauri/src/linux_network_manager.rs: the texts of nmcli
--   NetworkManager  the same file: the state of the tether's local-only policy; Resolve
--             `resolve_target`, Rollback `rollback_profile`, Change `set_with_backend`
--   Io        the errors that these parts report
-- Below each part a file says what it proves by its name, and Examples has its tests.
--
-- State is passed on explicitly: an operation that mutates `self` returns the new state, first in
-- a tuple. An error that the code returns by `?` is a `Result`. Numbers are natural numbers with
-- the wrap-around of the machine's word written out. Loops over a range recurse on the number of
-- rounds that are left. Three loops have a bound of the model's own: the rounds of `slide` are the
-- distance to the destination, which every round lowers by one; `sas_pattern` takes a number of
-- rounds, of which any above the number of retries is enough; and the loop of Input's
-- `commit_ready` has one round more than the window has slots, after which no frame is ready unless
-- one was refused. A loop that retries until a timeout is given the number of failures that come
-- before it (`Patience`), which is finite since time passes. Instants are numbers. The loop of a
-- session in Serve is a list of rounds, each with what it observes of the clock and of the flag
-- `stopping`; there is no result as long as the rounds do not end it.
--
-- The two threads at the queue of Metrics are steps in any order, each of which is atomic: an index
-- is written by one thread only, and the source's acquire and release order the slots by it.
--
-- Parameters, since their code is not in the repository: `f32` arithmetic (`Float32`), the hash
-- of V5/Sas, ChaCha20-Poly1305 (`Aead`, with what its documentation promises in `IsAead`), `write`
-- on the uinput device (`IsDevice`), `SendInput` and `MapVirtualKeyW`, the UDP socket (`Socket`),
-- and NetworkManager (`Backend`, with what a quiet one does in `IsManager`). KeyboardSink works over
-- any sink of the system that keeps the promises of `IsKeyOutput`. An index that would
-- panic in the source, since it lies outside of an array, reads a default value in the model.
--
-- Not modelled: the system calls for sockets, threads, timers and files; the setup of the key sinks
-- and the D-Bus calls of the launcher; the pairing and the takeover rules of
-- native-host/src/v5_host.rs; the analysis of the recorded events and its report; credentials; the
-- interfaces and routes of a tether; the programs under native-host/src/bin; the windows of the
-- desktop launcher and the Android application.
pub mod Prelude
pub mod Bits
pub mod Wire
pub mod Protocol
pub mod Ordered
pub mod V5
pub mod Replay
pub mod Keyboard
pub mod Connection
pub mod Diagnostics
pub mod Gameplay
pub mod Input
pub mod Io
pub mod Metrics
pub mod NetworkManager
pub mod Nmcli
pub mod Serve
