-- ===== src/Protocol/Encode.antt =====
-- The control and discovery datagrams of native-host/src/protocol.rs.
pub mod RoundTrip
use holodori_phone_trackpad.Prelude.{
  ℕ, ◌+◌, ◌-◌, ◌^◌, Bool, true, false, not, ◌==◌, ◌||◌, if◌then◌else◌, Option, some, none, List, [],
  ◌∷◌, length, replicate,
}
use holodori_phone_trackpad.Wire.{
  le_bytes, copy_at, slice, byte_at, same_bytes, read_u16, read_u32, read_u64,
}
use holodori_phone_trackpad.Protocol.{
  protocol_version, control_magic, control_size, discovery_magic, discovery_version,
  discovery_hello, discovery_ack, discovery_size,
}
use holodori_phone_trackpad.Protocol.Crc.{crc32}

pub record DiscoveryMessage : Type 0 where
  pub kind : ℕ
  pub nonce : ℕ
  pub session_id : ℕ
  pub port : ℕ

-- `Option::unwrap_or`.
abbrev pub unwrap_or : Option ℕ → ℕ → ℕ
unwrap_or none d = d
unwrap_or (some n) d = n

-- The buffer as it is before the checksum is written.
control_fields : ℕ → ℕ → ℕ → Option ℕ → ℕ → ℕ → List ℕ
unfolding copy_at le_bytes
control_fields control_type lane_count session_id acknowledged_sequence receive_window
      host_send_nanos =
    let bytes = replicate control_size 0 in
    let bytes = copy_at bytes 0 control_magic in
    let bytes = copy_at bytes 4 (protocol_version ∷ []) in
    let bytes = copy_at bytes 5 (control_type ∷ []) in
    let bytes = copy_at bytes 6 (le_bytes 2 lane_count) in
    let bytes = copy_at bytes 8 (le_bytes 8 session_id) in
    let bytes = copy_at bytes 16 (le_bytes 8 (unwrap_or acknowledged_sequence (2 ^ 64 - 1))) in
    let bytes = copy_at bytes 24 (le_bytes 4 receive_window) in
    copy_at bytes 28 (le_bytes 8 host_send_nanos)

pub encode_control : ℕ → ℕ → ℕ → Option ℕ → ℕ → ℕ → List ℕ
unfolding control_fields
encode_control control_type lane_count session_id acknowledged_sequence receive_window
      host_send_nanos =
    let bytes =
      control_fields control_type lane_count session_id acknowledged_sequence receive_window
        host_send_nanos in
    copy_at bytes 36 (le_bytes 4 (crc32 (slice bytes 0 36)))

discovery_fields : ℕ → ℕ → ℕ → ℕ → List ℕ
unfolding copy_at le_bytes
discovery_fields kind nonce session_id port =
    let bytes = replicate discovery_size 0 in
    let bytes = copy_at bytes 0 discovery_magic in
    let bytes = copy_at bytes 4 (discovery_version ∷ []) in
    let bytes = copy_at bytes 5 (kind ∷ []) in
    let bytes = copy_at bytes 8 (le_bytes 8 nonce) in
    let bytes = copy_at bytes 16 (le_bytes 8 session_id) in copy_at bytes 24 (le_bytes 2 port)

pub encode_discovery : ℕ → ℕ → ℕ → ℕ → List ℕ
unfolding discovery_fields
encode_discovery kind nonce session_id port =
    let bytes = discovery_fields kind nonce session_id port in
    copy_at bytes 28 (le_bytes 4 (crc32 (slice bytes 0 28)))

pub discovery_port_acceptable : ℕ → ℕ → Bool
discovery_port_acceptable advertised_port listening_port =
    advertised_port == 0 || advertised_port == listening_port

pub decode_discovery : List ℕ → Option DiscoveryMessage
decode_discovery bytes =
    if not (length bytes == discovery_size)
      || (not (same_bytes (slice bytes 0 4) discovery_magic)
          || (not (byte_at bytes 4 == discovery_version)
              || (not (byte_at bytes 5 == discovery_hello || byte_at bytes 5 == discovery_ack)
                  || not (read_u32 bytes 28 == crc32 (slice bytes 0 28)))))
    then none
    else some (record {
      kind = byte_at bytes 5;
      nonce = read_u64 bytes 8;
      session_id = read_u64 bytes 16;
      port = read_u16 bytes 24;
    })
