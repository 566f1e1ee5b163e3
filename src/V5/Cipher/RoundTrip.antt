-- ===== src/V5/Cipher/RoundTrip.antt =====
-- A record that one end seals is opened by the other.
use mathlib.Core.List.{append_assoc}
use holodori_phone_trackpad.Prelude.{
  ℕ, ◌+◌, ◌≤◌, ◌≡◌, refl, sym, ap, ◌∙◌, arith, true, some, List, ◌++◌, length, length-append, take,
  drop, ok, IsU64,
}
use holodori_phone_trackpad.Wire.{copy_at}
use holodori_phone_trackpad.Wire.Buffers.{
  copy_at_middle, copy_at_into, take-append, drop-append, drop-add, length-drop,
}
use holodori_phone_trackpad.Replay.{would_accept, commit}
use holodori_phone_trackpad.V5.{Direction}
use holodori_phone_trackpad.V5.Record.{RecordHeader, write_record_header, decode_record_header}
use holodori_phone_trackpad.V5.Record.Layout.{
  layout, length-layout, IsWire, write_record_header_lem, decode_record_header-layout,
}
use holodori_phone_trackpad.V5.Cipher.{
  Aead, IsAead, RecordCipher, sealed, seal_into, open_checked, open_in_place, noise_nonce,
}

-- The header that a call of `seal_into` writes.
abbrev pub header_of : RecordCipher → Direction → ℕ → ℕ → ℕ → ℕ → List ℕ → RecordHeader
header_of c direction message_type session_id logical_id flags payload = record {
  direction = direction;
  message_type = message_type;
  connection_id = c.connection_id;
  session_id = session_id;
  packet_number = c.next_packet_number;
  logical_id = logical_id;
  flags = flags;
  payload_length = length payload;
}

module _ (aead : Aead) where
  -- The parts of an opened datagram.
  opened_parts :
      (b : RecordCipher) (h : RecordHeader) (cipher tag plain : List ℕ)
      → IsWire h
      → length cipher ≡ h.payload_length
      → length tag ≡ 16
      → h.connection_id ≡ b.connection_id
      → would_accept b.replay h.packet_number ≡ true
      → aead.decrypt b.receive_key (noise_nonce h.packet_number) (layout h) cipher tag ≡ some plain
      → length plain ≡ length cipher
      → open_in_place aead b h.direction (layout h ++ (cipher ++ tag))
        ≡ (record b { replay = commit b.replay h.packet_number }, layout h ++ (plain ++ tag), ok h)
  unfolding open_in_place open_checked
  opened_parts b h cipher tag plain w lc lt conn fresh dec lp =
      let header : decode_record_header (layout h ++ (cipher ++ tag)) h.direction ≡ ok h =
        decode_record_header-layout h (cipher ++ tag) w (omega (arith, length-append cipher tag)) in
      let first : take 48 (layout h ++ (cipher ++ tag)) ≡ layout h =
        rw (length-layout h) at (take-append (layout h) (cipher ++ tag)) in
      let body : drop 48 (layout h ++ (cipher ++ tag)) ≡ cipher ++ tag =
        rw (length-layout h) at (drop-append (layout h) (cipher ++ tag)) in
      let text : take h.payload_length (cipher ++ tag) ≡ cipher =
        rw lc at (take-append cipher tag) in
      let last : drop h.payload_length (cipher ++ tag) ≡ tag = rw lc at (drop-append cipher tag) in
      let rest : drop (48 + h.payload_length) (layout h ++ (cipher ++ tag)) ≡ tag =
        drop-add 48 h.payload_length (layout h ++ (cipher ++ tag))
        ∙ ap (drop h.payload_length) body
        ∙ last in
      let put : copy_at (layout h ++ (cipher ++ tag)) 48 plain ≡ layout h ++ (plain ++ tag) =
        rw (length-layout h) at (copy_at_middle (layout h) cipher tag plain (sym lp)) in
      ground arith

  sealed_parts :
      (a : RecordCipher) (h : RecordHeader) (payload output cipher tag : List ℕ)
      → IsAead aead
      → h.payload_length ≡ length payload
      → 48 + length payload + 16 ≤ length output
      → aead.encrypt a.send_key (noise_nonce h.packet_number) (layout h) payload
        ≡ some (cipher, tag)
      → sealed aead a h payload output ≡ (
        layout h ++ (cipher ++ (tag ++ drop (48 + length payload + 16) output)),
        ok (48 + length payload + 16),
      )
  unfolding sealed
  sealed_parts a h payload output cipher tag lawful lp room enc =
      let (lc, lt) =
        lawful.sizes a.send_key (noise_nonce h.packet_number) (layout h) payload cipher tag enc in
      let free : List ℕ = drop 48 output in
      let headed : write_record_header output h ≡ layout h ++ free =
        write_record_header_lem h output (omega arith) in
      let first : take 48 (layout h ++ free) ≡ layout h =
        rw (length-layout h) at (take-append (layout h) free) in
      let body : copy_at (layout h ++ free) 48 cipher
          ≡ layout h ++ (cipher ++ drop (length payload) free) =
        rw (length-layout h, lc) at
          (copy_at_into (layout h) free cipher (omega (arith, length-drop 48 output))) in
      let behind : length (layout h ++ cipher) ≡ 48 + length payload =
        omega (arith, length-append (layout h) cipher, length-layout h) in
      let left : List ℕ = drop (length payload) free in
      let last : copy_at (layout h ++ (cipher ++ left)) (48 + length payload) tag
          ≡ layout h ++ (cipher ++ (tag ++ drop 16 left)) =
        rw (behind, lt, append_assoc, append_assoc) at
          (copy_at_into (layout h ++ cipher) left tag (
            omega (arith, length-drop 48 output, length-drop (length payload) (drop 48 output)))) in
      let tail : drop 16 left ≡ drop (48 + length payload + 16) output = sym (
        drop-add (48 + length payload) 16 output
        ∙ ap (drop 16) (drop-add 48 (length payload) output)) in
      ground arith

  -- One end, which has a packet number left, seals a payload of at most 1,136 bytes into a buffer
  -- with room for it by an encryption that succeeds; the other has the matching key and
  -- connection and accepts that packet number. Then the datagram opens to the header that was
  -- sealed, with the payload decrypted in its place, and the packet number is committed.
  pub open_in_place-seal_into :
      (a b : RecordCipher) (d : Direction) (message_type session_id logical_id flags : ℕ)
      (payload output cipher tag : List ℕ)
      → IsAead aead
      → IsWire (header_of a d message_type session_id logical_id flags payload)
      → IsU64 (a.next_packet_number + 1)
      → 48 + length payload + 16 ≤ length output
      → aead.encrypt a.send_key
          (noise_nonce a.next_packet_number)
          (layout (header_of a d message_type session_id logical_id flags payload))
          payload
        ≡ some (cipher, tag)
      → b.receive_key ≡ a.send_key
      → b.connection_id ≡ a.connection_id
      → would_accept b.replay a.next_packet_number ≡ true
      → let sent = seal_into aead a d message_type session_id logical_id flags payload output in
        (sent.2 ≡ ok (48 + length payload + 16))
        × (open_in_place aead b d (take (48 + length payload + 16) sent.1) ≡ (
          record b { replay = commit b.replay a.next_packet_number },
          layout (header_of a d message_type session_id logical_id flags payload)
              ++ (payload ++ tag),
          ok (header_of a d message_type session_id logical_id flags payload),
        ))
  unfolding seal_into
  open_in_place-seal_into a b d message_type session_id logical_id flags payload output cipher tag
        lawful w u room enc key conn fresh =
      let h : RecordHeader = header_of a d message_type session_id logical_id flags payload in
      let nonce = noise_nonce a.next_packet_number in
      let (lc, lt) = lawful.sizes a.send_key nonce (layout h) payload cipher tag enc in
      let written = sealed_parts a h payload output cipher tag lawful refl room enc in
      let total : length (layout h ++ (cipher ++ tag)) ≡ 48 + length payload + 16 = omega (
        arith,
        length-append (layout h) (cipher ++ tag),
        length-append cipher tag,
        length-layout h,
      ) in
      let sent : take (48 + length payload + 16)
            (layout h ++ (cipher ++ (tag ++ drop (48 + length payload + 16) output)))
          ≡ layout h ++ (cipher ++ tag) =
        rw (total, append_assoc, append_assoc) at
          (take-append (layout h ++ (cipher ++ tag)) (drop (48 + length payload + 16) output)) in
      let dec : aead.decrypt b.receive_key nonce (layout h) cipher tag ≡ some payload =
        rw key (lawful.inverts a.send_key nonce (layout h) payload cipher tag enc) in
      let opens = opened_parts b h cipher tag payload w lc lt (sym conn) fresh dec (sym lc) in
      (ground arith, ground arith)
