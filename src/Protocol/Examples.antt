-- ===== src/Protocol/Examples.antt =====
-- Tests of the datagrams of protocol version 4, with a fixed-point stand-in for `f32`.
use holodori_phone_trackpad.Prelude.{
  ℕ, ◌*◌, ◌/◌, ◌≡◌, refl, arith, Bool, true, ◌&&◌, ltb, min, some, none, List, [], ◌∷◌, ok, All,
  IsByte, inl, distinct,
}
use holodori_phone_trackpad.Prelude.Int.{pos, negsuc}
use holodori_phone_trackpad.Wire.{read_u16, read_u32}
use holodori_phone_trackpad.Protocol.{Float32}
use holodori_phone_trackpad.Protocol.Crc.{crc32}
use holodori_phone_trackpad.Protocol.Encode.{encode_discovery, decode_discovery}
use holodori_phone_trackpad.Protocol.Encode.RoundTrip.{decode_discovery-encode_discovery}
use holodori_phone_trackpad.Protocol.Decode.{decode_frame, FrameParser}
use holodori_phone_trackpad.Protocol.Decode.Contacts.{ids}
use holodori_phone_trackpad.Protocol.Layout.{wire_frame}
use holodori_phone_trackpad.Protocol.Decode.Checks.{IsHeader, decode_frame_iff}

-- Numbers in units of 1/10000.
abbrev pub fixed_point : Float32 ℕ
fixed_point = record {
  of_int = λ n. elim n [ pos k ↦ k * 10000 | negsuc k ↦ 0 ];
  div = λ a b. a * 10000 / b;
  mul = λ a b. a * b / 10000;
  clamp01 = λ a. min a 10000;
  floor = λ a. a / 10000;
}

-- A frame with one contact, as a phone sends it.
abbrev datagram : List ℕ
datagram =
    72 ∷ 80 ∷ 84 ∷ 52 ∷ 4 ∷ 1 ∷ 82 ∷ 0 ∷ 7 ∷ 0 ∷ 0 ∷ 0 ∷ 0 ∷ 0 ∷ 0 ∷ 0 ∷ 3 ∷ 0 ∷ 0 ∷ 0 ∷ 0 ∷ 0 ∷ 0
    ∷ 0 ∷ 11 ∷ 0 ∷ 0 ∷ 0 ∷ 0 ∷ 0 ∷ 0 ∷ 0 ∷ 12 ∷ 0 ∷ 0 ∷ 0 ∷ 0 ∷ 0 ∷ 0 ∷ 0 ∷ 13 ∷ 0 ∷ 0 ∷ 0 ∷ 0 ∷ 0
    ∷ 0 ∷ 0 ∷ 0 ∷ 0 ∷ 0 ∷ 0 ∷ 0 ∷ 0 ∷ 0 ∷ 0 ∷ 0 ∷ 0 ∷ 0 ∷ 0 ∷ 0 ∷ 0 ∷ 0 ∷ 0 ∷ 1 ∷ 5 ∷ 1 ∷ 2 ∷ 5 ∷ 3
    ∷ 196 ∷ 9 ∷ 136 ∷ 19 ∷ 255 ∷ 255 ∷ 143 ∷ 2 ∷ 224 ∷ 25 ∷ 77 ∷ 247 ∷ []

unfoldable pub all_small : List ℕ → Bool
all_small [] = true
all_small (b ∷ bs) = ltb b 256 && all_small bs

pub small_bytes : (bs : List ℕ) → all_small bs ≡ true → All IsByte bs
unfolding all_small
small_bytes [] h = tt
small_bytes (b ∷ bs) h = (ground arith, small_bytes bs (ground arith))

datagram-IsHeader : IsHeader datagram
unfolding read_u16 read_u32 crc32
datagram-IsHeader = record {
  size = refl;
  few_contacts = omega arith;
  magic = refl;
  declared = refl;
  version = refl;
  message_type = refl;
  action = omega arith;
  checksum = refl;
}

decode_frame_iff_example : decode_frame fixed_point datagram ≡ ok (wire_frame fixed_point datagram)
unfolding ids distinct all_small
decode_frame_iff_example =
    (decode_frame_iff fixed_point datagram (wire_frame fixed_point datagram)
        (small_bytes datagram refl)).1
      (datagram-IsHeader, refl, refl)

abbrev fresh_parser : FrameParser
fresh_parser = record {
  discarded_bytes = 0;
  connection_discarded_bytes = 0;
  invalid_frames = 0;
  incompatible_version = none;
}

-- A datagram of protocol version 3.
abbrev old_datagram : List ℕ
old_datagram = 72 ∷ 80 ∷ 84 ∷ 52 ∷ 3 ∷ []

decode_discovery-encode_discovery_example :
    decode_discovery (encode_discovery 1 99 7 45678)
    ≡ some (record { kind = 1; nonce = 99; session_id = 7; port = 45678 })
decode_discovery-encode_discovery_example =
    decode_discovery-encode_discovery 1 99 7 45678 (inl refl) (omega arith) (omega arith)
      (omega arith)
