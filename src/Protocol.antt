-- ===== src/Protocol.antt =====
-- The data of native-host/src/protocol.rs: constants, contacts, touch frames and errors.
-- The type `F` stands for `f32`, whose arithmetic is the hardware's.
pub mod Crc
pub mod Decode
pub mod Layout
pub mod Encode
pub mod Examples
use Prim.Native.Nat.{bit_and}
use holodori_phone_trackpad.Prelude.{
  ℕ, ◌+◌, ◌*◌, Bool, not, ◌==◌, ◌||◌, List, [], ◌∷◌, Option, some, none,
}
use holodori_phone_trackpad.Prelude.Int.{ℤ, pos}

-- The operations on `f32` that the program uses.
pub record Float32 (F : Type 0) : Type 0 where
  -- `n as f32` of an integer.
  pub of_int : ℤ → F
  pub div : F → F → F
  pub mul : F → F → F
  -- `x.clamp(0.0, 1.0)`.
  pub clamp01 : F → F
  -- `x.floor() as usize`.
  pub floor : F → ℕ

abbrev pub protocol_version : ℕ
protocol_version = 4

abbrev pub frame_magic : List ℕ
frame_magic = b'H' ∷ b'P' ∷ b'T' ∷ b'4' ∷ []

abbrev pub control_magic : List ℕ
control_magic = b'H' ∷ b'P' ∷ b'A' ∷ b'4' ∷ []

abbrev pub discovery_magic : List ℕ
discovery_magic = b'H' ∷ b'P' ∷ b'T' ∷ b'D' ∷ []

abbrev pub discovery_version : ℕ
discovery_version = 1

abbrev pub discovery_hello : ℕ
discovery_hello = 1

abbrev pub discovery_ack : ℕ
discovery_ack = 2

abbrev pub message_touch_frame : ℕ
message_touch_frame = 1

abbrev pub action_heartbeat : ℕ
action_heartbeat = 0

abbrev pub action_down : ℕ
action_down = 1

abbrev pub action_move : ℕ
action_move = 2

abbrev pub action_up : ℕ
action_up = 3

abbrev pub action_cancel : ℕ
action_cancel = 4

abbrev pub frame_flag_locked : ℕ
frame_flag_locked = 1

abbrev pub frame_flag_session_start : ℕ
frame_flag_session_start = 2

abbrev pub frame_flag_historical : ℕ
frame_flag_historical = 4

abbrev pub contact_flag_inside : ℕ
contact_flag_inside = 1

abbrev pub contact_flag_tip : ℕ
contact_flag_tip = 2

abbrev pub contact_flag_key_suppressed : ℕ
contact_flag_key_suppressed = 4

abbrev pub frame_header_size : ℕ
frame_header_size = 68

abbrev pub contact_size : ℕ
contact_size = 10

abbrev pub crc_size : ℕ
crc_size = 4

abbrev pub control_size : ℕ
control_size = 40

abbrev pub discovery_size : ℕ
discovery_size = 32

abbrev pub max_contacts : ℕ
max_contacts = 16

abbrev pub max_frame_size : ℕ
max_frame_size = frame_header_size + max_contacts * contact_size + crc_size

abbrev pub max_reordered_frames : ℕ
max_reordered_frames = 256

-- `flags & mask != 0`.
abbrev pub has_flag : ℕ → ℕ → Bool
has_flag flags mask = not (bit_and flags mask == 0)

-- The arms of `matches!(action, ACTION_HEARTBEAT | ...)`.
abbrev pub is_action : ℕ → Bool
is_action a =
    a == action_heartbeat
    || (a == action_down || (a == action_move || (a == action_up || a == action_cancel)))

pub record Contact (F : Type 0) : Type 0 where
  pub pointer_id : ℕ
  pub flags : ℕ
  pub x : F
  pub y : F
  pub pressure : F
  pub touch_major : F

-- `Contacts` is a fixed array with a length; the list is what it dereferences to.
pub record TouchFrame (F : Type 0) : Type 0 where
  pub session_id : ℕ
  pub sequence : ℕ
  pub phone_event_nanos : ℕ
  pub phone_callback_nanos : ℕ
  pub phone_send_nanos : ℕ
  pub echo_host_send_nanos : ℕ
  pub phone_control_receive_nanos : ℕ
  pub action : ℕ
  pub action_pointer_id : ℕ
  pub flags : ℕ
  pub contacts : List (Contact F)

module _ {F : Type 0} where
  abbrev pub inside : Contact F → Bool
  inside c = has_flag c.flags contact_flag_inside

  abbrev pub touching : Contact F → Bool
  touching c = has_flag c.flags contact_flag_tip

  abbrev pub key_suppressed : Contact F → Bool
  key_suppressed c = has_flag c.flags contact_flag_key_suppressed

  abbrev pub locked : TouchFrame F → Bool
  locked f = has_flag f.flags frame_flag_locked

  abbrev pub session_start : TouchFrame F → Bool
  session_start f = has_flag f.flags frame_flag_session_start

  abbrev pub historical : TouchFrame F → Bool
  historical f = has_flag f.flags frame_flag_historical

pub data ProtocolError : Type 0 where
  bad_magic : ProtocolError
  bad_version : ℕ → ProtocolError
  bad_message_type : ℕ → ProtocolError
  bad_action : ℕ → ProtocolError
  bad_length : ℕ → ProtocolError
  bad_contact_count : ℕ → ProtocolError
  duplicate_pointer_id : ℕ → ProtocolError
  bad_crc : ℕ → ℕ → ProtocolError
