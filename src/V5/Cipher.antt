-- ===== src/V5/Cipher.antt =====
-- `RecordCipher` of native-host/src/v5.rs. ChaCha20-Poly1305 is a parameter.
pub mod Replays
pub mod Nonces
pub mod RoundTrip
mod Examples
use holodori_phone_trackpad.Prelude.{
  ℕ, ◌+◌, ◌^◌, ◌≡◌, Bool, not, ◌==◌, ◌||◌, ltb, if◌then◌else◌, Option, some, none, List, [], ◌∷◌,
  ◌++◌, length, take, drop, replicate, Result, ok, err,
}
use holodori_phone_trackpad.Wire.{le_bytes, copy_at, slice}
use holodori_phone_trackpad.Replay.{ReplayWindow, default, would_accept, commit}
use holodori_phone_trackpad.V5.{
  Direction, WireError, bad_length, wrong_connection, replay, bad_tag, encrypt_failed,
  packet_number_exhausted, record_header_size, tag_size, max_datagram_size,
}
use holodori_phone_trackpad.V5.Record.{
  RecordHeader, OpenedRecord, write_record_header, decode_record_header,
}

-- The authenticated encryption: by key, nonce and associated data.
pub record Aead : Type 0 where
  -- The ciphertext and the tag.
  pub encrypt : List ℕ → List ℕ → List ℕ → List ℕ → Option (List ℕ × List ℕ)
  -- The plaintext, or `none` where the tag does not authenticate the ciphertext and the data.
  pub decrypt : List ℕ → List ℕ → List ℕ → List ℕ → List ℕ → Option (List ℕ)

-- What the crate documents: a ciphertext as long as the plaintext, a tag of 16 bytes, and
-- decryption inverts encryption.
pub record IsAead (aead : Aead) : Type 0 where
  pub sizes :
      (key nonce data' plain cipher tag : List ℕ)
      → aead.encrypt key nonce data' plain ≡ some (cipher, tag)
      → (length cipher ≡ length plain) × (length tag ≡ 16)
  pub inverts :
      (key nonce data' plain cipher tag : List ℕ)
      → aead.encrypt key nonce data' plain ≡ some (cipher, tag)
      → aead.decrypt key nonce data' cipher tag ≡ some plain

pub record RecordCipher : Type 0 where
  pub send_key : List ℕ
  pub receive_key : List ℕ
  pub connection_id : ℕ
  pub next_packet_number : ℕ
  pub replay : ReplayWindow

pub from_keys : List ℕ → List ℕ → ℕ → RecordCipher
from_keys send_key receive_key connection_id = record {
  send_key = send_key;
  receive_key = receive_key;
  connection_id = connection_id;
  next_packet_number = 0;
  replay = default;
}

unfoldable pub noise_nonce : ℕ → List ℕ
noise_nonce packet_number = copy_at (replicate 12 0) 4 (le_bytes 8 packet_number)

module _ (aead : Aead) where
  -- The writes of `seal_into` once the lengths were checked, with the ciphertext in place of the
  -- payload, and the tag behind it.
  unfoldable pub sealed :
      RecordCipher → RecordHeader → List ℕ → List ℕ → List ℕ × Result WireError ℕ
  sealed c header payload output =
      let headed = write_record_header output header in
      let complete_length = record_header_size + length payload + tag_size in
      elim (aead.encrypt c.send_key (noise_nonce header.packet_number)
        (take record_header_size headed) payload) [
          | none ↦ (copy_at headed record_header_size payload, err encrypt_failed)
          | some (cipher, tag) ↦ (
            copy_at (copy_at headed record_header_size cipher) (record_header_size + length payload)
                tag,
            ok complete_length,
          )
        ]

  -- The new cipher, the buffer, and the length written. Every call past the exhaustion check uses
  -- up a packet number, also one that fails.
  unfoldable pub seal_into :
      RecordCipher
      → Direction
      → ℕ
      → ℕ
      → ℕ
      → ℕ
      → List ℕ
      → List ℕ
      → RecordCipher × List ℕ × Result WireError ℕ
  seal_into c direction message_type session_id logical_id flags payload output =
      let packet_number = c.next_packet_number in
      let advanced = record c { next_packet_number = c.next_packet_number + 1 } in
      let complete_length = record_header_size + length payload + tag_size in
      let written =
        sealed c
          (record {
            direction = direction;
            message_type = message_type;
            connection_id = c.connection_id;
            session_id = session_id;
            packet_number = packet_number;
            logical_id = logical_id;
            flags = flags;
            payload_length = length payload;
          })
          payload output in
      if not (ltb (c.next_packet_number + 1) (2 ^ 64))
      then (c, output, err packet_number_exhausted)
      else if ltb max_datagram_size complete_length || ltb (length output) complete_length
      then (advanced, output, err (bad_length complete_length))
      else (advanced, written.0, written.1)

  pub seal :
      RecordCipher → Direction → ℕ → ℕ → ℕ → ℕ → List ℕ → RecordCipher × Result WireError (List ℕ)
  seal c direction message_type session_id logical_id flags payload =
      let (c', bytes, result) =
        seal_into c direction message_type session_id logical_id flags payload
          (replicate max_datagram_size 0) in
      (c', elim result [ ok size ↦ ok (take size bytes) | err e ↦ err e ])

  -- What `open_in_place` does with a datagram whose header it has decoded.
  unfoldable pub open_checked :
      RecordCipher → List ℕ → RecordHeader → RecordCipher × List ℕ × Result WireError RecordHeader
  open_checked c bytes header =
      let plain =
        aead.decrypt c.receive_key (noise_nonce header.packet_number)
          (take record_header_size bytes) (slice bytes record_header_size header.payload_length)
          (drop (record_header_size + header.payload_length) bytes) in
      if not (header.connection_id == c.connection_id)
      then (c, bytes, err wrong_connection)
      else if not (would_accept c.replay header.packet_number)
      then (c, bytes, err replay)
      else (elim plain [
        | none ↦ (c, bytes, err bad_tag)
        | some text ↦ (
          record c { replay = commit c.replay header.packet_number },
          copy_at bytes record_header_size text,
          ok header,
        )
      ])

  -- The new cipher, the buffer with the payload decrypted in place, and the header.
  unfoldable pub open_in_place :
      RecordCipher → Direction → List ℕ → RecordCipher × List ℕ × Result WireError RecordHeader
  open_in_place c expected_direction bytes = elim (decode_record_header bytes expected_direction) [
    | err e ↦ (c, bytes, err e)
    | ok header ↦ open_checked c bytes header
  ]

  -- The new cipher, and the record with its payload copied out of a scratch buffer.
  pub open_copy : RecordCipher → Direction → List ℕ → RecordCipher × Result WireError OpenedRecord
  open_copy c expected_direction bytes =
      let (c', scratch, result) = open_in_place c expected_direction bytes in
      if ltb max_datagram_size (length bytes) then (c, err (bad_length (length bytes))) else (
        c',
        elim result [
          | ok header ↦ ok (record {
            header = header;
            payload = slice scratch record_header_size header.payload_length;
          })
          | err e ↦ err e
        ],
      )
