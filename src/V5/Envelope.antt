-- ===== src/V5/Envelope.antt =====
-- The pairing envelope of native-host/src/v5.rs. A byte array `[u8; 16]` is a list of 16 bytes.
pub mod RoundTrip
use holodori_phone_trackpad.Prelude.{
  ℕ, ◌+◌, Bool, not, ◌==◌, ◌||◌, ltb, List, [], ◌∷◌, ◌++◌, length, replicate, drop, Result, ok, err,
  ◌>>=◌, ◌>>◌, refuse_if,
}
use holodori_phone_trackpad.Wire.{le_bytes, copy_at, slice, byte_at, same_bytes, read_u16, read_u32}
use holodori_phone_trackpad.V5.{
  TransportKind, transport_byte, transport_from, WireError, bad_magic, bad_version, bad_suite,
  bad_length, pair_magic, protocol_version, pair_header_size, max_datagram_size,
}

pub record PairEnvelope : Type 0 where
  pub kind : ℕ
  pub exchange_id : List ℕ
  pub step : ℕ
  pub transport : TransportKind
  pub payload : List ℕ

-- The writes into a buffer of `length` zeros.
envelope_bytes : ℕ → List ℕ → ℕ → TransportKind → List ℕ → ℕ → List ℕ
envelope_bytes kind exchange_id step transport payload total =
    let bytes = replicate total 0 in
    let bytes = copy_at bytes 0 pair_magic in
    let bytes = copy_at bytes 4 (protocol_version ∷ []) in
    let bytes = copy_at bytes 5 (kind ∷ []) in
    let bytes = copy_at bytes 6 (le_bytes 2 total) in
    let bytes = copy_at bytes 8 exchange_id in
    let bytes = copy_at bytes 24 (le_bytes 4 step) in
    let bytes = copy_at bytes 28 (le_bytes 2 (length payload)) in
    let bytes = copy_at bytes 30 (transport_byte transport ∷ []) in
    let bytes = copy_at bytes 31 (1 ∷ []) in copy_at bytes pair_header_size payload

-- A slice of the program is far shorter than a `usize` counts, so `checked_add` does not fail.
pub encode_pair_envelope : ℕ → List ℕ → ℕ → TransportKind → List ℕ → Result WireError (List ℕ)
unfolding envelope_bytes
encode_pair_envelope kind exchange_id step transport payload = do
  let total = pair_header_size + length payload
  refuse_if (ltb max_datagram_size total || ltb 65535 (length payload)) (bad_length total)
  ok (envelope_bytes kind exchange_id step transport payload total)

pub decode_pair_envelope : List ℕ → Result WireError PairEnvelope
decode_pair_envelope bytes = do
  refuse_if (ltb (length bytes) pair_header_size || ltb max_datagram_size (length bytes))
      (bad_length (length bytes))
  refuse_if (not (same_bytes (slice bytes 0 4) pair_magic)) bad_magic
  refuse_if (not (byte_at bytes 4 == protocol_version)) (bad_version (byte_at bytes 4))
  let declared = read_u16 bytes 6
  let payload_length = read_u16 bytes 28
  refuse_if
      (not (declared == length bytes) || not (pair_header_size + payload_length == length bytes))
      (bad_length declared)
  refuse_if (not (byte_at bytes 31 == 1)) (bad_suite (byte_at bytes 31))
  transport ← transport_from (byte_at bytes 30)
  ok (record {
    kind = byte_at bytes 5;
    exchange_id = slice bytes 8 16;
    step = read_u32 bytes 24;
    transport = transport;
    payload = drop pair_header_size bytes;
  })
