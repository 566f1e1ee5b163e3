-- ===== src/Connection.antt =====
-- `V5Connection` of native-host/src/v5_host.rs: records over a socket. The socket and the clock are
-- parameters.
pub mod Received
pub mod Once
mod Examples
use holodori_phone_trackpad.Prelude.{
  ℕ, zero, suc, ◌^◌, ◌-◌, Bool, true, false, ◌==◌, ◌||◌, not, if◌then◌else◌, Option, some, none,
  is_some, List, [], ◌∷◌, length, take, replicate, Result, ok, err,
}
use holodori_phone_trackpad.Wire.{le_bytes, same_bytes}
use holodori_phone_trackpad.Io.{IoError, write_zero}
use holodori_phone_trackpad.V5.{
  Direction, phone_to_host, host_to_phone, WireError, bad_magic, bad_version, bad_length,
  reserved_bits, wrong_connection, replay, bad_tag, max_datagram_size,
}
use holodori_phone_trackpad.V5.Record.{RecordHeader}
use holodori_phone_trackpad.V5.Cipher.{Aead, RecordCipher, seal_into, open_in_place}
use holodori_phone_trackpad.V5.Quality.{encode_control_payload}

-- The part of `HostV5Error` that a connection reports.
pub data LinkError : Type 0 where
  io : IoError → LinkError
  wire : WireError → LinkError
  invalid_control : LinkError

-- A connected UDP socket and the clock. A datagram comes with its sender and the interface that it
-- came in by; `is_timeout` tells the errors of a read that ran out of time.
pub record Socket (S P : Type 0) : Type 0 where
  pub receive : S → S × Result IoError (List ℕ × P × Option ℕ)
  pub send : S → List ℕ → S × Result IoError ℕ
  pub now : S → S × ℕ
  pub is_timeout : IoError → Bool
  pub same_peer : P → P → Bool

-- The interface of a tether with a runtime check, or that of a wireless network.
pub data Binding : Type 0 where
  usb : ℕ → Binding
  wifi : Option ℕ → Binding

abbrev pub same_index : Option ℕ → Option ℕ → Bool
same_index none none = true
same_index none (some b) = false
same_index (some a) none = false
same_index (some a) (some b) = a == b

unfoldable pub accepts_ingress : Binding → Option ℕ → Bool
accepts_ingress (usb index) ingress = same_index ingress (some index)
accepts_ingress (wifi index) none = false
accepts_ingress (wifi index) (some ingress) = same_index (some ingress) index

pub record V5Connection (S P : Type 0) : Type 0 where
  pub socket : S
  pub peer : P
  pub binding : Binding
  pub cipher : RecordCipher
  pub cached_handshake : Option (List ℕ × List ℕ)
  pub send_buffer : List ℕ
  pub last_diagnostic_discard : Option (ℕ × ℕ)
  pub peer_aborted : Bool

-- A record, the datagram with the payload decrypted in its place, and the time of its arrival.
pub record Arrived : Type 0 where
  pub header : RecordHeader
  pub bytes : List ℕ
  pub arrival : ℕ

-- What is noted of a datagram that does not open, and not reported as an error.
abbrev pub discard_reason : WireError → Option ℕ
discard_reason replay = some 2
discard_reason bad_tag = some 3
discard_reason bad_magic = some 4
discard_reason (bad_version v) = some 4
discard_reason wrong_connection = some 4
discard_reason (bad_length n) = some 4
discard_reason reserved_bits = some 4
discard_reason _ = none

abbrev pub redundant_copies : ℕ
redundant_copies = 2

abbrev pub no_ack : ℕ
no_ack = 2 ^ 64 - 1

abbrev pub host_hello : ℕ
host_hello = 1

abbrev pub host_ack : ℕ
host_ack = 2

abbrev pub host_auth_abort : ℕ
host_auth_abort = 7

abbrev pub host_pong : ℕ
host_pong = 8

abbrev pub is_request : Option (List ℕ × List ℕ) → List ℕ → Bool
is_request none datagram = false
is_request (some (request, response)) datagram = same_bytes datagram request

abbrev pub response_of : Option (List ℕ × List ℕ) → List ℕ
response_of none = []
response_of (some (request, response)) = response

module _ {S P : Type 0} (socket : Socket S P) where
  -- As many copies as the number says, up to the first that fails.
  unfoldable pub send_plain_copies : ℕ → S → List ℕ → S × Result LinkError (Unit {0})
  send_plain_copies zero s bytes = (s, ok tt)
  send_plain_copies (suc copies) s bytes =
      let (s', answer) = socket.send s bytes in
      let rest = send_plain_copies copies s' bytes in
      elim answer [
        | err e ↦ (s', err (io e))
        | ok sent ↦ if sent == length bytes then rest else (s', err (io write_zero))
      ]

  unfoldable pub send_plain_connected_redundant : S → List ℕ → S × Result LinkError (Unit {0})
  unfolding send_plain_copies
  send_plain_connected_redundant = send_plain_copies redundant_copies

module _ {S P : Type 0} (aead : Aead) (socket : Socket S P) where
  -- A datagram of the peer that is not its handshake again.
  unfoldable pub open_datagram :
      V5Connection S P → List ℕ → ℕ → V5Connection S P × Result LinkError (Option Arrived)
  open_datagram c bytes arrival =
      let (cipher', bytes', answer) = open_in_place aead c.cipher phone_to_host bytes in
      let opened = record c { cipher = cipher' } in
      elim answer [
        | ok header ↦ (
          record opened { cached_handshake = none },
          ok (some (record { header = header; bytes = bytes'; arrival = arrival })),
        )
        | err e ↦ elim (discard_reason e) [
          | some reason ↦
              (record opened { last_diagnostic_discard = some (reason, arrival) }, ok none)
          | none ↦ (opened, err (wire e))
        ]
      ]

  -- A datagram that was received.
  unfoldable pub take_datagram :
      V5Connection S P
      → List ℕ
      → P
      → Option ℕ
      → ℕ
      → V5Connection S P × Result LinkError (Option Arrived)
  take_datagram c bytes peer ingress arrival =
      let (s', answer) =
        send_plain_connected_redundant socket c.socket (response_of c.cached_handshake) in
      let answered = record c { socket = s' } in
      if not (socket.same_peer peer c.peer) || not (accepts_ingress c.binding ingress)
      then (record c { last_diagnostic_discard = some (1, arrival) }, ok none)
      else if is_request c.cached_handshake bytes
      then (elim answer [ ok _ ↦ (answered, ok none) | err e ↦ (answered, err e) ])
      else open_datagram c bytes arrival

  unfoldable pub receive_record_into :
      V5Connection S P → V5Connection S P × Result LinkError (Option Arrived)
  receive_record_into c =
      let (s', answer) = socket.receive c.socket in
      let read = record c { socket = s'; last_diagnostic_discard = none } in
      elim answer [
        | err e ↦ if socket.is_timeout e then (read, ok none) else (read, err (io e))
        | ok (bytes, peer, ingress) ↦
            let (s'', arrival) = socket.now s' in
            take_datagram (record read { socket = s'' }) bytes peer ingress arrival
      ]

  -- What was sealed goes out, if it was.
  abbrev pub send_sealed :
      V5Connection S P → Result WireError ℕ → V5Connection S P × Result LinkError (Unit {0})
  send_sealed c (err e) = (c, err (wire e))
  send_sealed c (ok size) =
      let (s', answer) = socket.send c.socket (take size c.send_buffer) in
      let sent = record c { socket = s' } in
      elim answer [
        | err e ↦ (sent, err (io e))
        | ok count ↦ if count == size then (sent, ok tt) else (sent, err (io write_zero))
      ]

  unfoldable pub send_record_once :
      V5Connection S P
      → Direction
      → ℕ
      → ℕ
      → ℕ
      → ℕ
      → List ℕ
      → V5Connection S P × Result LinkError (Unit {0})
  send_record_once c direction message_type session_id logical_id flags payload =
      let (cipher', buffer, answer) =
        seal_into aead c.cipher direction message_type session_id logical_id flags payload
          c.send_buffer in
      send_sealed (record c { cipher = cipher'; send_buffer = buffer }) answer

  -- What the copies came to: delivered if one was, or else the first error.
  abbrev pub merged :
      Result LinkError (Unit {0}) → Result LinkError (Unit {0}) → Result LinkError (Unit {0})
  merged (ok _) answer = ok tt
  merged (err e) (ok _) = ok tt
  merged (err e) (err f) = err e

  unfoldable pub send_record_redundant :
      V5Connection S P
      → Direction
      → ℕ
      → ℕ
      → ℕ
      → ℕ
      → List ℕ
      → V5Connection S P × Result LinkError (Unit {0})
  unfolding send_record_once
  send_record_redundant c direction message_type session_id logical_id flags payload =
      let (c', first) =
        send_record_once c direction message_type session_id logical_id flags payload in
      let (c'', second) =
        send_record_once c' direction message_type session_id logical_id flags payload in
      (c'', merged first second)

  abbrev pub is_control : ℕ → Bool
  is_control control_type =
      (control_type == host_hello) || (control_type == host_ack) || (control_type == host_pong)

  abbrev pub or_no_ack : Option ℕ → ℕ
  or_no_ack none = no_ack
  or_no_ack (some n) = n

  unfoldable pub send_control_once :
      V5Connection S P
      → ℕ
      → ℕ
      → Option ℕ
      → ℕ
      → ℕ
      → ℕ
      → V5Connection S P × Result LinkError (Unit {0})
  unfolding send_record_once
  send_control_once c control_type session_id acknowledged window lanes nanos =
      if not (is_control control_type)
      then (c, err invalid_control)
      else send_record_once c host_to_phone control_type session_id (or_no_ack acknowledged) 0
          (encode_control_payload window lanes nanos)

  -- One copy, with the time at which it is made.
  unfoldable pub send_control_copy :
      V5Connection S P → ℕ → ℕ → Option ℕ → ℕ → ℕ → V5Connection S P × Result LinkError (Unit {0})
  unfolding send_record_once
  send_control_copy c control_type session_id acknowledged window lanes =
      let (s', nanos) = socket.now c.socket in
      send_record_once (record c { socket = s' }) host_to_phone control_type session_id
        (or_no_ack acknowledged) 0 (encode_control_payload window lanes nanos)

  unfoldable pub send_control :
      V5Connection S P → ℕ → ℕ → Option ℕ → ℕ → ℕ → V5Connection S P × Result LinkError (Unit {0})
  unfolding send_control_copy
  send_control c control_type session_id acknowledged window lanes =
      let (c', first) = send_control_copy c control_type session_id acknowledged window lanes in
      let (c'', second) = send_control_copy c' control_type session_id acknowledged window lanes in
      if not (is_control control_type) then (c, err invalid_control) else (c'', merged first second)

  unfoldable pub send_abort : V5Connection S P → ℕ → V5Connection S P × Result LinkError (Unit {0})
  unfolding send_record_redundant
  send_abort c reason =
      send_record_redundant c host_to_phone host_auth_abort 0 0 0 (le_bytes 2 reason)
