-- ===== src/V5/Record/Layout.antt =====
-- Record headers on the wire.
use holodori_phone_trackpad.Prelude.{
  ℕ, ◌+◌, ◌≤◌, ◌≡◌, refl, sym, ap, ◌∙◌, arith, List, [], ◌∷◌, ◌++◌, length, ok, IsU32, IsU64, drop,
}
use holodori_phone_trackpad.Wire.{le_bytes, copy_at, read_u16, read_u32, read_u64, same_bytes}
use holodori_phone_trackpad.Wire.Numbers.{from_le-le_bytes}
use holodori_phone_trackpad.Wire.Buffers.{elements, elements-drop}
use holodori_phone_trackpad.V5.{Direction, phone_to_host, host_to_phone, direction_magic}
use holodori_phone_trackpad.V5.Record.{RecordHeader, write_record_header, decode_record_header}

-- The 48 bytes as the protocol lists them.
unfoldable pub layout : RecordHeader → List ℕ
layout h =
    direction_magic h.direction
    ++ (5 ∷ h.message_type ∷ [])
    ++ le_bytes 2 (48 + h.payload_length + 16)
    ++ le_bytes 8 h.connection_id
    ++ le_bytes 8 h.session_id
    ++ le_bytes 8 h.packet_number
    ++ le_bytes 8 h.logical_id
    ++ le_bytes 4 h.flags
    ++ le_bytes 2 h.payload_length
    ++ (0 ∷ 0 ∷ [])

pub length-layout : (h : RecordHeader) → length (layout h) ≡ 48
unfolding layout le_bytes
length-layout h = lemma h.direction
  where
    lemma : (d : Direction) → length (layout (record h { direction = d })) ≡ 48
    lemma phone_to_host = refl
    lemma host_to_phone = refl

-- The ranges of the fields.
pub record IsWire (h : RecordHeader) : Type 0 where
  pub connection_id : IsU64 h.connection_id
  pub session_id : IsU64 h.session_id
  pub packet_number : IsU64 h.packet_number
  pub logical_id : IsU64 h.logical_id
  pub flags : IsU32 h.flags
  pub fits : h.payload_length ≤ 1136

write_explicit :
    (h : RecordHeader) (d : Direction) (xs rest : List ℕ)
    → write_record_header (elements xs 0 48 ++ rest) (record h { direction = d })
      ≡ layout (record h { direction = d }) ++ rest
unfolding write_record_header layout elements copy_at le_bytes
write_explicit h phone_to_host xs rest = refl
write_explicit h host_to_phone xs rest = refl

-- A header and 16 more bytes than its payload are decoded to the header.
decode_explicit :
    (h : RecordHeader) (d : Direction) (rest : List ℕ)
    → IsWire h
    → length rest ≡ h.payload_length + 16
    → decode_record_header (layout (record h { direction = d }) ++ rest) d
      ≡ ok (record h { direction = d })
unfolding decode_record_header layout le_bytes read_u16 read_u32 read_u64 same_bytes
decode_explicit h d rest w l = ground (
  arith,
  from_le-le_bytes 8 h.connection_id w.connection_id,
  from_le-le_bytes 8 h.session_id w.session_id,
  from_le-le_bytes 8 h.packet_number w.packet_number,
  from_le-le_bytes 8 h.logical_id w.logical_id,
  from_le-le_bytes 4 h.flags w.flags,
  from_le-le_bytes 2 h.payload_length (omega (arith, w.fits)),
  from_le-le_bytes 2 (48 + h.payload_length + 16) (omega (arith, w.fits)),
)

-- Whatever a buffer of at least 48 bytes held, the writes leave the header's 48 bytes and do not
-- touch what follows.
pub write_record_header_lem :
    (h : RecordHeader) (bytes : List ℕ)
    → 48 ≤ length bytes
    → write_record_header bytes h ≡ layout h ++ drop 48 bytes
write_record_header_lem h bytes l =
    ap (λ (t : List ℕ). write_record_header t h) (sym (elements-drop 48 bytes l))
    ∙ write_explicit h h.direction bytes (drop 48 bytes)

-- A header with its fields in their ranges, followed by a payload of the length that it names and
-- a tag, is decoded to that header.
pub decode_record_header-layout :
    (h : RecordHeader) (rest : List ℕ)
    → IsWire h
    → length rest ≡ h.payload_length + 16
    → decode_record_header (layout h ++ rest) h.direction ≡ ok h
decode_record_header-layout h rest w l = decode_explicit h h.direction rest w l
