-- ===== src/V5/Quality.antt =====
-- The quality replies and control payloads of native-host/src/v5.rs.
use holodori_phone_trackpad.Prelude.{
  ℕ, ◌+◌, ◌-◌, ◌*◌, ◌<◌, ◌≡◌, refl, arith, Bool, true, not, ◌==◌, ◌||◌, ltb, leb, if◌then◌else◌,
  List, [], ◌∷◌, ◌++◌, length, replicate, Result, ok, err, IsU32, IsU64,
}
use holodori_phone_trackpad.Prelude.Int.{ℤ, pos, negsuc, signed}
use holodori_phone_trackpad.Wire.{le_bytes, copy_at, byte_at, read_u16, read_u32, read_u64}
use holodori_phone_trackpad.Wire.Numbers.{from_le-le_bytes}
use holodori_phone_trackpad.V5.{WireError, bad_message, phone_quality_reply, control_payload_size}
use holodori_phone_trackpad.V5.Record.{RecordHeader, OpenedRecord}
use holodori_phone_trackpad.V5.Touch.{from_phone}

pub record QualityReply : Type 0 where
  pub probe_id : ℕ
  pub host_send_nanos : ℕ
  pub phone_receive_nanos : ℕ
  pub phone_send_nanos : ℕ
  pub repair_only : Bool
  pub signal_level : ℤ
  pub rssi_dbm : ℤ
  pub frequency_mhz : ℕ

-- `signal_level != -1 && !(0..=4).contains(&signal_level)`, negated.
abbrev pub level_ok : ℤ → Bool
level_ok (pos n) = leb n 4
level_ok (negsuc n) = n == 0

unfoldable pub decode_quality_reply : OpenedRecord → Result WireError QualityReply
decode_quality_reply r =
    let header = r.header in
    let repair = byte_at r.payload 24 in
    let signal_level = signed 128 (byte_at r.payload 25) in
    if not (from_phone header.direction)
      || (not (header.message_type == phone_quality_reply)
          || (not (header.session_id == 0)
              || (not (header.flags == 0) || not (length r.payload == 32))))
    then err bad_message
    else if ltb 1 repair || not (level_ok signal_level)
    then err bad_message
    else ok (record {
      probe_id = header.logical_id;
      host_send_nanos = read_u64 r.payload 0;
      phone_receive_nanos = read_u64 r.payload 8;
      phone_send_nanos = read_u64 r.payload 16;
      repair_only = repair == 1;
      signal_level = signal_level;
      rssi_dbm = signed 32768 (read_u16 r.payload 26);
      frequency_mhz = read_u32 r.payload 28;
    })

unfoldable pub encode_control_payload : ℕ → ℕ → ℕ → List ℕ
encode_control_payload receive_window lane_count host_send_nanos =
    let payload = replicate control_payload_size 0 in
    let payload = copy_at payload 0 (le_bytes 4 receive_window) in
    let payload = copy_at payload 4 (lane_count ∷ []) in
    copy_at payload 8 (le_bytes 8 host_send_nanos)

-- The byte or word of two's complement that stands for an integer, where `half` is 2 ^ (bits - 1).
abbrev pub pattern_of : ℕ → ℤ → ℕ
pattern_of half (pos n) = n
pattern_of half (negsuc n) = 2 * half - (n + 1)

-- The integers that have one.
abbrev pub IsSigned : ℕ → ℤ → Type 0
IsSigned half (pos n) = n < half
IsSigned half (negsuc n) = n < half

-- The payload of a quality reply as the protocol lists its fields.
unfoldable pub quality_payload : QualityReply → List ℕ
quality_payload q =
    le_bytes 8 q.host_send_nanos
    ++ le_bytes 8 q.phone_receive_nanos
    ++ le_bytes 8 q.phone_send_nanos
    ++ ((if q.repair_only then 1 else 0) ∷ pattern_of 128 q.signal_level ∷ [])
    ++ le_bytes 2 (pattern_of 32768 q.rssi_dbm)
    ++ le_bytes 4 q.frequency_mhz

-- The ranges of the fields.
pub record IsQuality (q : QualityReply) : Type 0 where
  pub host_send : IsU64 q.host_send_nanos
  pub phone_receive : IsU64 q.phone_receive_nanos
  pub phone_send : IsU64 q.phone_send_nanos
  pub level : level_ok q.signal_level ≡ true
  pub rssi : IsSigned 32768 q.rssi_dbm
  pub frequency : IsU32 q.frequency_mhz

-- The header of a record that carries a reply to this probe.
pub record IsReplyTo (header : RecordHeader) (probe : ℕ) : Type 0 where
  pub direction : from_phone header.direction ≡ true
  pub message_type : header.message_type ≡ 2
  pub no_session : header.session_id ≡ 0
  pub no_flags : header.flags ≡ 0
  pub probe_id : header.logical_id ≡ probe

signed-pattern_of : (half : ℕ) (z : ℤ) → IsSigned half z → signed half (pattern_of half z) ≡ z
signed-pattern_of half (pos n) h = ground arith
signed-pattern_of half (negsuc n) h =
    let back : 2 * half - (2 * half - (n + 1)) - 1 ≡ n = omega arith in ground (arith, back)

pattern_of-lt : (half : ℕ) (z : ℤ) → 0 < half → IsSigned half z → pattern_of half z < 2 * half
pattern_of-lt half (pos n) p h = omega arith
pattern_of-lt half (negsuc n) p h = omega arith

level-IsSigned : (z : ℤ) → level_ok z ≡ true → IsSigned 128 z
level-IsSigned (pos n) h = ground arith
level-IsSigned (negsuc n) h = ground arith

-- A reply in the ranges of its fields, laid out as the protocol has it under a header for its probe,
-- is decoded to the same reply, negative levels and signal strengths included.
pub decode_quality_reply-payload :
    (q : QualityReply) (header : RecordHeader)
    → IsQuality q
    → IsReplyTo header q.probe_id
    → decode_quality_reply (record { header = header; payload = quality_payload q }) ≡ ok q
unfolding decode_quality_reply quality_payload le_bytes read_u16 read_u32 read_u64
decode_quality_reply-payload q header w r = ground (
  arith,
  r,
  w.level,
  from_le-le_bytes 8 q.host_send_nanos w.host_send,
  from_le-le_bytes 8 q.phone_receive_nanos w.phone_receive,
  from_le-le_bytes 8 q.phone_send_nanos w.phone_send,
  from_le-le_bytes 2 (pattern_of 32768 q.rssi_dbm)
      (omega (arith, pattern_of-lt 32768 q.rssi_dbm (omega arith) w.rssi)),
  from_le-le_bytes 4 q.frequency_mhz w.frequency,
  signed-pattern_of 128 q.signal_level (level-IsSigned q.signal_level w.level),
  signed-pattern_of 32768 q.rssi_dbm w.rssi,
)

-- The phone reads a 32-bit receive window, the lane count and the host's 64-bit clock back from a
-- control payload of 16 bytes.
pub encode_control_payload_fields :
    (receive_window lane_count host_send_nanos : ℕ)
    → IsU32 receive_window
    → IsU64 host_send_nanos
    → let payload = encode_control_payload receive_window lane_count host_send_nanos in
      (length payload ≡ 16)
      × (read_u32 payload 0 ≡ receive_window)
      × (byte_at payload 4 ≡ lane_count)
      × (read_u64 payload 8 ≡ host_send_nanos)
unfolding encode_control_payload copy_at le_bytes read_u32 read_u64
encode_control_payload_fields receive_window lane_count host_send_nanos hw hn =
    (refl, from_le-le_bytes 4 receive_window hw, refl, from_le-le_bytes 8 host_send_nanos hn)
