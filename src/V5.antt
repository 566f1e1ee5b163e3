-- ===== src/V5.antt =====
-- The constants, errors and enumerations of native-host/src/v5.rs.
pub mod Envelope
pub mod Record
pub mod Cipher
pub mod Touch
pub mod Quality
pub mod Sas
mod Examples
use holodori_phone_trackpad.Prelude.{
  ℕ, ◌≡◌, refl, List, [], ◌∷◌, Result, ok, err, ◌==◌, if◌then◌else◌,
}

abbrev pub protocol_version : ℕ
protocol_version = 5

abbrev pub pair_magic : List ℕ
pair_magic = b'H' ∷ b'P' ∷ b'P' ∷ b'5' ∷ []

abbrev pub phone_magic : List ℕ
phone_magic = b'H' ∷ b'P' ∷ b'T' ∷ b'5' ∷ []

abbrev pub host_magic : List ℕ
host_magic = b'H' ∷ b'P' ∷ b'A' ∷ b'5' ∷ []

abbrev pub pair_header_size : ℕ
pair_header_size = 32

abbrev pub record_header_size : ℕ
record_header_size = 48

abbrev pub tag_size : ℕ
tag_size = 16

abbrev pub max_datagram_size : ℕ
max_datagram_size = 1200

abbrev pub touch_payload_header_size : ℕ
touch_payload_header_size = 44

abbrev pub contact_size : ℕ
contact_size = 10

abbrev pub control_payload_size : ℕ
control_payload_size = 16

abbrev pub valid_frame_flags : ℕ
valid_frame_flags = 7

abbrev pub valid_contact_flags : ℕ
valid_contact_flags = 7

abbrev pub phone_touch : ℕ
phone_touch = 1

abbrev pub phone_quality_reply : ℕ
phone_quality_reply = 2

pub data TransportKind : Type 0 where
  usb wifi : TransportKind

-- `transport as u8`.
abbrev pub transport_byte : TransportKind → ℕ
transport_byte usb = 1
transport_byte wifi = 2

pub data Direction : Type 0 where
  phone_to_host host_to_phone : Direction

abbrev pub direction_magic : Direction → List ℕ
direction_magic phone_to_host = phone_magic
direction_magic host_to_phone = host_magic

pub data WireError : Type 0 where
  bad_magic : WireError
  bad_version : ℕ → WireError
  bad_suite : ℕ → WireError
  bad_transport : ℕ → WireError
  bad_length : ℕ → WireError
  reserved_bits : WireError
  wrong_connection : WireError
  replay : WireError
  bad_tag : WireError
  encrypt_failed : WireError
  packet_number_exhausted : WireError
  handshake_incomplete : WireError
  bad_message : WireError
  bad_action : ℕ → WireError
  bad_contact_count : ℕ → WireError
  duplicate_pointer : ℕ → WireError
  bad_session_start : WireError
  random_unavailable : WireError

-- `TransportKind::try_from(u8)`.
abbrev pub transport_from : ℕ → Result WireError TransportKind
transport_from value =
    if value == 1 then ok usb else if value == 2 then ok wifi else err (bad_transport value)
