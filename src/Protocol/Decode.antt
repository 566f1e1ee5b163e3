-- ===== src/Protocol/Decode.antt =====
-- `decode_frame` and `FrameParser` of native-host/src/protocol.rs.
pub mod Contacts
pub mod Checks
pub mod Parser
use holodori_phone_trackpad.Prelude.{
  ℕ, zero, suc, ◌+◌, ◌-◌, ◌*◌, Bool, true, false, not, ◌==◌, ◌||◌, ◌&&◌, ltb, if◌then◌else◌, Option,
  some, none, List, [], ◌∷◌, ◌++◌, length, replicate, get_or, set, Result, ok, err, ◌>>=◌, ◌>>◌,
  refuse_if,
}
use holodori_phone_trackpad.Prelude.Int.{ℤ, pos, signed}
use holodori_phone_trackpad.Wire.{slice, byte_at, same_bytes, read_u16, read_u32, read_u64}
use holodori_phone_trackpad.Protocol.{
  Float32, Contact, TouchFrame, ProtocolError, bad_magic, bad_version, bad_message_type, bad_action,
  bad_length, bad_contact_count, duplicate_pointer_id, bad_crc, frame_magic, protocol_version,
  message_touch_frame, is_action, frame_header_size, contact_size, crc_size, max_contacts,
  max_frame_size,
}
use holodori_phone_trackpad.Protocol.Crc.{crc32}

-- The guards before the contacts are read, in their order.
pub check_header : List ℕ → Result ProtocolError (Unit {0})
check_header bytes = do
  refuse_if (ltb (length bytes) (frame_header_size + crc_size)) (bad_length (length bytes))
  refuse_if (not (same_bytes (slice bytes 0 4) frame_magic)) bad_magic
  let declared_length = read_u16 bytes 6
  refuse_if (not (declared_length == length bytes) || ltb max_frame_size (length bytes))
      (bad_length declared_length)
  refuse_if (not (byte_at bytes 4 == protocol_version)) (bad_version (byte_at bytes 4))
  refuse_if (not (byte_at bytes 5 == message_touch_frame)) (bad_message_type (byte_at bytes 5))
  refuse_if (not (is_action (byte_at bytes 64))) (bad_action (byte_at bytes 64))
  let expected_crc = read_u32 bytes (length bytes - crc_size)
  let actual_crc = crc32 (slice bytes 0 (length bytes - crc_size))
  refuse_if (not (expected_crc == actual_crc)) (bad_crc expected_crc actual_crc)
  refuse_if (ltb max_contacts (byte_at bytes 66)) (bad_contact_count (byte_at bytes 66))
  refuse_if (not (length bytes == frame_header_size + byte_at bytes 66 * contact_size + crc_size))
      (bad_length (length bytes))

module _ {F : Type 0} where
  pub frame_from : List ℕ → List (Contact F) → TouchFrame F
  frame_from bytes contacts = record {
    session_id = read_u64 bytes 8;
    sequence = read_u64 bytes 16;
    phone_event_nanos = read_u64 bytes 24;
    phone_callback_nanos = read_u64 bytes 32;
    phone_send_nanos = read_u64 bytes 40;
    echo_host_send_nanos = read_u64 bytes 48;
    phone_control_receive_nanos = read_u64 bytes 56;
    action = byte_at bytes 64;
    action_pointer_id = byte_at bytes 65;
    flags = byte_at bytes 67;
    contacts = contacts;
  }

module _ {F : Type 0} (float : Float32 F) where
  -- `n as f32 / divisor`.
  abbrev pub ratio : ℤ → ℕ → F
  ratio n divisor = float.div (float.of_int n) (float.of_int (pos divisor))

  -- One contact from the ten bytes at `offset`.
  unfoldable pub contact_at : List ℕ → ℕ → Contact F
  contact_at bytes offset = record {
    pointer_id = byte_at bytes offset;
    flags = byte_at bytes (offset + 1);
    x = ratio (signed 32768 (read_u16 bytes (offset + 2))) 10000;
    y = ratio (signed 32768 (read_u16 bytes (offset + 4))) 10000;
    pressure = ratio (pos (read_u16 bytes (offset + 6))) 65535;
    touch_major = ratio (pos (read_u16 bytes (offset + 8))) 65535;
  }

  -- `for index in 0..contact_count`: the rounds that are left, the index, the pointers seen, and
  -- the contacts pushed.
  pub contacts_loop :
      List ℕ → ℕ → ℕ → List Bool → List (Contact F) → Result ProtocolError (List (Contact F))
  contacts_loop bytes zero index pointer_ids contacts = ok contacts
  contacts_loop bytes (suc rounds) index pointer_ids contacts =
      let offset = frame_header_size + index * contact_size in
      let pointer_id = byte_at bytes offset in
      let rest =
        contacts_loop bytes rounds (index + 1) (set pointer_ids pointer_id true)
          (contacts ++ (contact_at bytes offset ∷ [])) in
      if get_or pointer_ids pointer_id false then err (duplicate_pointer_id pointer_id) else rest

  pub decode_frame : List ℕ → Result ProtocolError (TouchFrame F)
  decode_frame bytes = do
    check_header bytes
    contacts ← contacts_loop bytes (byte_at bytes 66) 0 (replicate 256 false) []
    ok (frame_from bytes contacts)

pub record FrameParser : Type 0 where
  pub discarded_bytes : ℕ
  pub connection_discarded_bytes : ℕ
  pub invalid_frames : ℕ
  pub incompatible_version : Option ℕ

pub begin_connection : FrameParser → FrameParser
begin_connection p = record p { incompatible_version = none }

module _ {F : Type 0} (float : Float32 F) where
  -- The new parser and the decoded frame. The counter of invalid frames is a `u64`, which a run
  -- does not use up.
  pub decode_datagram : FrameParser → List ℕ → FrameParser × Result ProtocolError (TouchFrame F)
  decode_datagram p bytes =
      let other_version =
        ltb 4 (length bytes)
        && (same_bytes (slice bytes 0 4) frame_magic
            && not (byte_at bytes 4 == protocol_version)) in
      let incompatible = if other_version then some (byte_at bytes 4) else p.incompatible_version in
      let result = decode_frame float bytes in
      (
        elim result [
          | ok frame ↦ record p { incompatible_version = incompatible }
          | err e ↦ record p {
            incompatible_version = incompatible;
            invalid_frames = p.invalid_frames + 1;
          }
        ],
        result,
      )

pub take_incompatible_version : FrameParser → FrameParser × Option ℕ
take_incompatible_version p = (record p { incompatible_version = none }, p.incompatible_version)
