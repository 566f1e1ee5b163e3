-- ===== src/V5/Touch.antt =====
-- `decode_touch_payload` and `validate_session_start` of native-host/src/v5.rs.
pub mod Accepted
use Prim.Native.Nat.{bit_and}
use holodori_phone_trackpad.Prelude.{
  ℕ, zero, suc, ◌+◌, ◌-◌, ◌*◌, Bool, true, false, not, ◌==◌, ◌||◌, ◌&&◌, ltb, if◌then◌else◌, List,
  [], ◌∷◌, ◌++◌, length, replicate, get_or, set, Result, ok, err, ◌>>=◌, ◌>>◌, refuse_if,
}
use holodori_phone_trackpad.Wire.{byte_at, read_u64}
use holodori_phone_trackpad.Protocol.{
  Float32, Contact, TouchFrame, is_action, action_cancel, session_start, frame_flag_session_start,
  max_contacts,
}
use holodori_phone_trackpad.Protocol.Decode.{contact_at}
use holodori_phone_trackpad.V5.{
  Direction, phone_to_host, host_to_phone, WireError, bad_message, bad_action, bad_contact_count,
  reserved_bits, duplicate_pointer, bad_session_start, phone_touch, touch_payload_header_size,
  contact_size, valid_frame_flags, valid_contact_flags,
}
use holodori_phone_trackpad.V5.Record.{RecordHeader, OpenedRecord}

-- `direction == Direction::PhoneToHost`.
abbrev pub from_phone : Direction → Bool
from_phone phone_to_host = true
from_phone host_to_phone = false

-- `flags & !valid != 0` on bytes.
abbrev pub reserved : ℕ → ℕ → Bool
reserved flags valid = not (bit_and flags (255 - valid) == 0)

abbrev pub is_empty {ℓ} : {A : Type ℓ} → List A → Bool
is_empty [] = true
is_empty (x ∷ xs) = false

module _ {F : Type 0} where
  unfoldable pub validate_session_start : TouchFrame F → Result WireError (Unit {0})
  validate_session_start frame =
      if frame.sequence == 0
      then refuse_if
          (not (frame.action == action_cancel)
            || (not (session_start frame)
                || (not (frame.flags == frame_flag_session_start)
                    || not (is_empty frame.contacts))))
          bad_session_start
      else refuse_if (session_start frame) bad_session_start

  unfoldable pub touch_frame_from : RecordHeader → List ℕ → List (Contact F) → TouchFrame F
  touch_frame_from header payload contacts = record {
    session_id = header.session_id;
    sequence = header.logical_id;
    phone_event_nanos = read_u64 payload 0;
    phone_callback_nanos = read_u64 payload 8;
    phone_send_nanos = read_u64 payload 16;
    echo_host_send_nanos = read_u64 payload 24;
    phone_control_receive_nanos = read_u64 payload 32;
    action = byte_at payload 40;
    action_pointer_id = byte_at payload 41;
    flags = byte_at payload 43;
    contacts = contacts;
  }

-- The guards before the contacts are read, in their order.
unfoldable pub check_touch : RecordHeader → List ℕ → Result WireError (Unit {0})
check_touch header payload = do
  refuse_if
      (not (from_phone header.direction)
        || (not (header.message_type == phone_touch)
            || (header.session_id == 0
                || (not (header.flags == 0) || ltb (length payload) touch_payload_header_size))))
      bad_message
  refuse_if (not (is_action (byte_at payload 40))) (bad_action (byte_at payload 40))
  let contact_count = byte_at payload 42
  refuse_if
      (ltb max_contacts contact_count
        || not (length payload == touch_payload_header_size + contact_count * contact_size))
      (bad_contact_count contact_count)
  refuse_if (reserved (byte_at payload 43) valid_frame_flags) reserved_bits

module _ {F : Type 0} (float : Float32 F) where
  -- `for index in 0..contact_count`: the rounds that are left, the index, the pointers seen, and
  -- the contacts pushed.
  unfoldable pub touch_contacts_loop :
      List ℕ → ℕ → ℕ → List Bool → List (Contact F) → Result WireError (List (Contact F))
  touch_contacts_loop payload zero index seen contacts = ok contacts
  touch_contacts_loop payload (suc rounds) index seen contacts =
      let offset = touch_payload_header_size + index * contact_size in
      let pointer_id = byte_at payload offset in
      let rest =
        touch_contacts_loop payload rounds (index + 1) (set seen pointer_id true)
          (contacts ++ (contact_at float payload offset ∷ [])) in
      if get_or seen pointer_id false
      then err (duplicate_pointer pointer_id)
      else if reserved (byte_at payload (offset + 1)) valid_contact_flags
      then err reserved_bits
      else rest

  unfoldable pub decode_touch_payload : RecordHeader → List ℕ → Result WireError (TouchFrame F)
  decode_touch_payload header payload = do
    check_touch header payload
    contacts ← touch_contacts_loop payload (byte_at payload 42) 0 (replicate 256 false) []
    validate_session_start (touch_frame_from header payload contacts)
    ok (touch_frame_from header payload contacts)

  unfoldable pub decode_touch_record : OpenedRecord → Result WireError (TouchFrame F)
  decode_touch_record r = decode_touch_payload r.header r.payload
