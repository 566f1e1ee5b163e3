-- ===== src/Protocol/Decode/Checks.antt =====
-- Which datagrams `decode_frame` accepts.
use holodori_phone_trackpad.Prelude.{
  ℕ, zero, suc, refl, sym, ap, ◌∙◌, ◌∷◌, ◌+◌, ◌-◌, ◌*◌, ◌≤◌, ◌≡◌, arith, ◌↔◌, true, List, length,
  All, IsByte, distinct, ok, inl, inr, Result-cases,
}
use holodori_phone_trackpad.Wire.{byte_at, slice, same_bytes, read_u16, read_u32, read_u64}
use holodori_phone_trackpad.Wire.Numbers.{same_bytes→eq, same_bytes_refl}
use holodori_phone_trackpad.Protocol.{Float32, TouchFrame, frame_magic}
use holodori_phone_trackpad.Protocol.Layout.{
  from_le-number, wire_contact-contact_at, wire_contacts, wire_frame,
}
use holodori_phone_trackpad.Protocol.Crc.{crc32}
use holodori_phone_trackpad.Protocol.Decode.{check_header, frame_from, decode_frame}
use holodori_phone_trackpad.Protocol.Decode.Contacts.{
  ids, contacts_from, contacts_loop_lem, first_repeat-distinct,
}

-- The header of a touch frame: PROTOCOL_V4.md's layout, an exact length, and the checksum.
pub record IsHeader (bytes : List ℕ) : Type 0 where
  pub size : length bytes ≡ 72 + 10 * byte_at bytes 66
  pub few_contacts : byte_at bytes 66 ≤ 16
  pub magic : slice bytes 0 4 ≡ frame_magic
  pub declared : read_u16 bytes 6 ≡ length bytes
  pub version : byte_at bytes 4 ≡ 4
  pub message_type : byte_at bytes 5 ≡ 1
  pub action : byte_at bytes 64 ≤ 4
  pub checksum : read_u32 bytes (length bytes - 4) ≡ crc32 (slice bytes 0 (length bytes - 4))

same_magic :
    (bytes : List ℕ)
    → slice bytes 0 4 ≡ frame_magic
    → same_bytes (slice bytes 0 4) frame_magic ≡ true
same_magic bytes e = rw e (same_bytes_refl frame_magic)

check_header-ok : (bytes : List ℕ) → check_header bytes ≡ ok tt → IsHeader bytes
unfolding check_header
check_header-ok bytes e = ground (arith, same_bytes→eq (slice bytes 0 4) frame_magic)

check_header-IsHeader : (bytes : List ℕ) → IsHeader bytes → check_header bytes ≡ ok tt
unfolding check_header
check_header-IsHeader bytes h = ground (arith, same_magic bytes)

module _ {F : Type 0} (float : Float32 F) where
  contacts_from-wire :
      (bytes : List ℕ) (index count : ℕ)
      → contacts_from float bytes index count ≡ wire_contacts float bytes (68 + index * 10) count
  unfolding contacts_from wire_contacts
  contacts_from-wire bytes index zero = refl
  contacts_from-wire bytes index (suc count) =
      let rest =
        contacts_from-wire bytes (index + 1) count
        ∙ ap (λ (at : ℕ). wire_contacts float bytes at count) {x = 68 + (index + 1) * 10}
            {y = 68 + index * 10 + 10} (omega arith) in
      λ i. wire_contact-contact_at float bytes (68 + index * 10) i ∷ rest i

  frame_from-wire :
      (bytes : List ℕ)
      → frame_from bytes (contacts_from float bytes 0 (byte_at bytes 66)) ≡ wire_frame float bytes
  unfolding frame_from wire_frame read_u64
  frame_from-wire bytes = λ i. record {
    session_id = from_le-number bytes 8 8 i;
    sequence = from_le-number bytes 16 8 i;
    phone_event_nanos = from_le-number bytes 24 8 i;
    phone_callback_nanos = from_le-number bytes 32 8 i;
    phone_send_nanos = from_le-number bytes 40 8 i;
    echo_host_send_nanos = from_le-number bytes 48 8 i;
    phone_control_receive_nanos = from_le-number bytes 56 8 i;
    action = byte_at bytes 64;
    action_pointer_id = byte_at bytes 65;
    flags = byte_at bytes 67;
    contacts = contacts_from-wire bytes 0 (byte_at bytes 66) i;
  }

  decode_frame-from :
      (bytes : List ℕ) (frame : TouchFrame F)
      → All IsByte bytes
      → (decode_frame float bytes ≡ ok frame) ↔ (
          IsHeader bytes
          × (distinct (ids bytes 0 (byte_at bytes 66)) ≡ true)
          × (frame ≡ frame_from bytes (contacts_from float bytes 0 (byte_at bytes 66))))
  unfolding decode_frame
  decode_frame-from bytes frame b =
      let loop = contacts_loop_lem float bytes (byte_at bytes 66) b in
      let repeat = first_repeat-distinct (ids bytes 0 (byte_at bytes 66)) in
      (
        λ e. elim (Result-cases (check_header bytes)) [
          | inl (_, c) ↦
              (check_header-ok bytes c, ground (arith, loop, repeat), ground (arith, loop, repeat))
          | inr (x, c) ↦ absurd (cc (rw (c, decode_frame) at e))
        ],
        λ (h, d, f). ground (arith, check_header-IsHeader bytes h, loop, repeat, f),
      )

  -- Of all byte strings `decode_frame` accepts exactly those that have a valid header, an exact
  -- length, the right checksum and pairwise distinct pointer ids, and then returns the frame
  -- whose fields and contacts stand at the offsets of the wire format.
  pub decode_frame_iff :
      (bytes : List ℕ) (frame : TouchFrame F)
      → All IsByte bytes
      → (decode_frame float bytes ≡ ok frame) ↔ (
          IsHeader bytes
          × (distinct (ids bytes 0 (byte_at bytes 66)) ≡ true)
          × (frame ≡ wire_frame float bytes))
  decode_frame_iff bytes frame b =
      let found = decode_frame-from bytes frame b in
      let wire = frame_from-wire bytes in
      (
        λ e. let (h, d, f) = found.0 e in (h, d, f ∙ wire),
        λ (h, d, f). found.1 (h, d, f ∙ sym wire),
      )
