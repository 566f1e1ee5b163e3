-- ===== src/Protocol/Encode/RoundTrip.antt =====
-- What the encoders write is read back.
use holodori_phone_trackpad.Prelude.{
  ℕ, ◌-◌, ◌^◌, ◌≡◌, refl, arith, ◌⊎◌, Option, some, [], ◌∷◌, length, IsU16, IsU32, IsU64, IsByte,
}
use holodori_phone_trackpad.Wire.{slice, same_bytes, read_u16, read_u32, read_u64}
use holodori_phone_trackpad.Wire.Numbers.{from_le-le_bytes}
use holodori_phone_trackpad.Protocol.Crc.{crc32, crc32-IsU32}
use holodori_phone_trackpad.Protocol.Encode.{
  encode_discovery, discovery_fields, decode_discovery, encode_control, control_fields, unwrap_or,
}

-- A discovery datagram of one of the two kinds, with its fields in their ranges, is read back as
-- the message that was encoded.
pub decode_discovery-encode_discovery :
    (kind nonce session_id port : ℕ)
    → (kind ≡ 1) ⊎ (kind ≡ 2)
    → IsU64 nonce
    → IsU64 session_id
    → IsU16 port
    → decode_discovery (encode_discovery kind nonce session_id port)
      ≡ some (record { kind = kind; nonce = nonce; session_id = session_id; port = port })
unfolding decode_discovery encode_discovery read_u64 read_u32 read_u16 same_bytes
decode_discovery-encode_discovery kind nonce session_id port k hn hs hp =
    let checksum : ℕ = crc32 (slice (discovery_fields kind nonce session_id port) 0 28) in
    ground (
      arith,
      from_le-le_bytes 8 nonce hn,
      from_le-le_bytes 8 session_id hs,
      from_le-le_bytes 2 port hp,
      from_le-le_bytes 4 checksum
          (crc32-IsU32 (slice (discovery_fields kind nonce session_id port) 0 28)),
    )

-- The phone's view of a control datagram with its fields in their ranges, field by field
-- (PROTOCOL_V4.md): every number is read back, an absent acknowledgement as the highest 64-bit
-- number, and the checksum covers the rest.
pub encode_control_fields :
    (control_type lane_count session_id receive_window host_send_nanos : ℕ)
    (acknowledged : Option ℕ)
    → IsByte lane_count
    → IsU64 session_id
    → IsU64 (unwrap_or acknowledged (2 ^ 64 - 1))
    → IsU32 receive_window
    → IsU64 host_send_nanos
    → let bytes =
        encode_control control_type lane_count session_id acknowledged receive_window
          host_send_nanos in
      (length bytes ≡ 40)
      × (slice bytes 0 6 ≡ b'H' ∷ b'P' ∷ b'A' ∷ b'4' ∷ 4 ∷ control_type ∷ [])
      × (read_u16 bytes 6 ≡ lane_count)
      × (read_u64 bytes 8 ≡ session_id)
      × (read_u64 bytes 16 ≡ unwrap_or acknowledged (2 ^ 64 - 1))
      × (read_u32 bytes 24 ≡ receive_window)
      × (read_u64 bytes 28 ≡ host_send_nanos)
      × (read_u32 bytes 36 ≡ crc32 (slice bytes 0 36))
unfolding encode_control read_u64 read_u32 read_u16
encode_control_fields t lanes session_id window nanos ack hl hs ha hw hn =
    let front = control_fields t lanes session_id ack window nanos in
    (
      refl,
      refl,
      from_le-le_bytes 2 lanes (omega arith),
      from_le-le_bytes 8 session_id hs,
      from_le-le_bytes 8 (unwrap_or ack (2 ^ 64 - 1)) ha,
      from_le-le_bytes 4 window hw,
      from_le-le_bytes 8 nanos hn,
      from_le-le_bytes 4 (crc32 (slice front 0 36)) (crc32-IsU32 (slice front 0 36)),
    )
