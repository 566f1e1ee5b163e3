-- ===== src/V5/Envelope/RoundTrip.antt =====
-- Pairing envelopes on the wire.
use holodori_phone_trackpad.Prelude.{
  ℕ, ◌+◌, ◌≤◌, ◌≡◌, sym, ap, ◌∙◌, arith, List, [], ◌∷◌, ◌++◌, length, replicate, length-replicate,
  leb, if◌then◌else◌, ◌>>=◌, true, ok, err, IsU32,
}
use holodori_phone_trackpad.Wire.{le_bytes, copy_at, read_u16, read_u32, same_bytes}
use holodori_phone_trackpad.Wire.Numbers.{from_le-le_bytes}
use holodori_phone_trackpad.Wire.Buffers.{copy_at_end, replicate-add, elements, elements_all}
use holodori_phone_trackpad.V5.{TransportKind, transport_byte, pair_magic, bad_length}
use holodori_phone_trackpad.V5.Envelope.{envelope_bytes, encode_pair_envelope, decode_pair_envelope}

-- The header as the protocol lists its fields.
unfoldable pub header : ℕ → List ℕ → ℕ → TransportKind → ℕ → List ℕ
header kind exchange_id step transport payload_length =
    pair_magic
    ++ (5 ∷ kind ∷ [])
    ++ le_bytes 2 (32 + payload_length)
    ++ exchange_id
    ++ le_bytes 4 step
    ++ le_bytes 2 payload_length
    ++ (transport_byte transport ∷ 1 ∷ [])

envelope_layout :
    (kind step : ℕ) (id payload : List ℕ) (transport : TransportKind)
    → envelope_bytes kind (elements id 0 16) step transport payload (32 + length payload)
      ≡ header kind (elements id 0 16) step transport (length payload) ++ payload
unfolding envelope_bytes header copy_at elements le_bytes
envelope_layout kind step id payload transport = rw (replicate-add 32 (length payload) 0) (
    copy_at_end (header kind (elements id 0 16) step transport (length payload))
      (replicate (length payload) 0) payload (length-replicate {A = ℕ} (length payload) 0))

abbrev SixteenBytes : List ℕ → Type 0
SixteenBytes id = length id ≡ 16

sixteen : (id : List ℕ) → SixteenBytes id → elements id 0 16 ≡ id
sixteen id h = ap (elements id 0) (sym h) ∙ elements_all id

-- With an exchange id of 16 bytes, up to the datagram limit an envelope is its header, field by
-- field, and then the payload; a longer payload is refused with the length that it would have
-- had.
pub encode_pair_envelope_lem :
    (kind step : ℕ) (id payload : List ℕ) (transport : TransportKind)
    → length id ≡ 16
    → encode_pair_envelope kind id step transport payload ≡ (
        if leb (32 + length payload) 1200
        then ok (header kind id step transport (length payload) ++ payload)
        else err (bad_length (32 + length payload)))
unfolding encode_pair_envelope
encode_pair_envelope_lem kind step id payload transport h =
    rw (← sixteen id h) (ground (arith, envelope_layout kind step id payload transport))

decode_layout :
    (kind step : ℕ) (id payload : List ℕ) (transport : TransportKind)
    → IsU32 step
    → length payload ≤ 1168
    → decode_pair_envelope
        (header kind (elements id 0 16) step transport (length payload) ++ payload)
      ≡ ok (record {
        kind = kind;
        exchange_id = elements id 0 16;
        step = step;
        transport = transport;
        payload = payload;
      })
unfolding decode_pair_envelope header elements le_bytes read_u16 read_u32 same_bytes
decode_layout kind step id payload transport hs hp = ground (
  arith,
  from_le-le_bytes 4 step hs,
  from_le-le_bytes 2 (length payload) (omega arith),
  from_le-le_bytes 2 (32 + length payload) (omega arith),
)

-- An envelope with an exchange id of 16 bytes, a 32-bit step and a payload of at most 1,168 bytes
-- is encoded, and is decoded to the same fields.
pub decode_pair_envelope-encode :
    (kind step : ℕ) (id payload : List ℕ) (transport : TransportKind)
    → length id ≡ 16
    → IsU32 step
    → length payload ≤ 1168
    → (encode_pair_envelope kind id step transport payload >>= decode_pair_envelope)
      ≡ ok (record {
        kind = kind;
        exchange_id = id;
        step = step;
        transport = transport;
        payload = payload;
      })
decode_pair_envelope-encode kind step id payload transport h hs hp =
    let fits : leb (32 + length payload) 1200 ≡ true = ground arith in
    rw (encode_pair_envelope_lem kind step id payload transport h, fits, ← sixteen id h)
      (decode_layout kind step id payload transport hs hp)
