-- ===== src/V5/Record.antt =====
-- The record header of native-host/src/v5.rs.
pub mod Layout
use holodori_phone_trackpad.Prelude.{
  ℕ, ◌+◌, not, ◌==◌, ◌||◌, ltb, List, [], ◌∷◌, length, Result, ok, err, ◌>>=◌, ◌>>◌, refuse_if,
}
use holodori_phone_trackpad.Wire.{
  le_bytes, copy_at, slice, byte_at, same_bytes, read_u16, read_u32, read_u64,
}
use holodori_phone_trackpad.V5.{
  Direction, direction_magic, WireError, bad_magic, bad_version, bad_length, reserved_bits,
  protocol_version, record_header_size, tag_size, max_datagram_size,
}

pub record RecordHeader : Type 0 where
  pub direction : Direction
  pub message_type : ℕ
  pub connection_id : ℕ
  pub session_id : ℕ
  pub packet_number : ℕ
  pub logical_id : ℕ
  pub flags : ℕ
  pub payload_length : ℕ

pub record OpenedRecord : Type 0 where
  pub header : RecordHeader
  pub payload : List ℕ

-- The writes into the first 48 bytes of a buffer.
unfoldable pub write_record_header : List ℕ → RecordHeader → List ℕ
write_record_header bytes header =
    let complete_length = record_header_size + header.payload_length + tag_size in
    let bytes = copy_at bytes 0 (direction_magic header.direction) in
    let bytes = copy_at bytes 4 (protocol_version ∷ []) in
    let bytes = copy_at bytes 5 (header.message_type ∷ []) in
    let bytes = copy_at bytes 6 (le_bytes 2 complete_length) in
    let bytes = copy_at bytes 8 (le_bytes 8 header.connection_id) in
    let bytes = copy_at bytes 16 (le_bytes 8 header.session_id) in
    let bytes = copy_at bytes 24 (le_bytes 8 header.packet_number) in
    let bytes = copy_at bytes 32 (le_bytes 8 header.logical_id) in
    let bytes = copy_at bytes 40 (le_bytes 4 header.flags) in
    let bytes = copy_at bytes 44 (le_bytes 2 header.payload_length) in copy_at bytes 46 (0 ∷ 0 ∷ [])

unfoldable pub decode_record_header : List ℕ → Direction → Result WireError RecordHeader
decode_record_header bytes expected_direction = do
  refuse_if
      (ltb (length bytes) (record_header_size + tag_size) || ltb max_datagram_size (length bytes))
      (bad_length (length bytes))
  refuse_if (not (same_bytes (slice bytes 0 4) (direction_magic expected_direction))) bad_magic
  refuse_if (not (byte_at bytes 4 == protocol_version)) (bad_version (byte_at bytes 4))
  let payload_length = read_u16 bytes 44
  let expected_length = record_header_size + payload_length + tag_size
  let declared_length = read_u16 bytes 6
  refuse_if (not (expected_length == length bytes) || not (declared_length == length bytes))
      (bad_length declared_length)
  refuse_if (not (read_u16 bytes 46 == 0)) reserved_bits
  ok (record {
    direction = expected_direction;
    message_type = byte_at bytes 5;
    connection_id = read_u64 bytes 8;
    session_id = read_u64 bytes 16;
    packet_number = read_u64 bytes 24;
    logical_id = read_u64 bytes 32;
    flags = read_u32 bytes 40;
    payload_length = payload_length;
  })
