-- ===== src/Protocol/Decode/Parser.antt =====
-- The counters of `FrameParser` over a run of datagrams.
use holodori_phone_trackpad.Prelude.{
  ℕ, ◌+◌, ◌≡◌, refl, arith, not, ◌==◌, ◌&&◌, ltb, if◌then◌else◌, Option, some, List, [], ◌∷◌,
  length, ok, err,
}
use holodori_phone_trackpad.Wire.{byte_at, slice, same_bytes}
use holodori_phone_trackpad.Protocol.{Float32, frame_magic}
use holodori_phone_trackpad.Protocol.Decode.{FrameParser, decode_frame, decode_datagram}

module _ {F : Type 0} (float : Float32 F) where
  unfoldable pub parse_all : FrameParser → List (List ℕ) → FrameParser
  parse_all p [] = p
  parse_all p (d ∷ ds) = parse_all (decode_datagram float p d).0 ds

  -- How many datagrams of a list are refused.
  unfoldable pub refused : List (List ℕ) → ℕ
  refused [] = 0
  refused (d ∷ ds) = (elim (decode_frame float d) [ ok f ↦ 0 | err e ↦ 1 ]) + refused ds

  -- The version byte of the last datagram with the magic of this protocol and another version.
  unfoldable pub last_version : Option ℕ → List (List ℕ) → Option ℕ
  last_version v [] = v
  last_version v (d ∷ ds) =
      last_version
        (if ltb 4 (length d) && (same_bytes (slice d 0 4) frame_magic && not (byte_at d 4 == 4))
          then some (byte_at d 4)
          else v)
        ds

  -- Over any run of datagrams the parser counts the refused ones, and remembers the version of the
  -- last one that was of another version.
  pub parse_all_counts :
      (p : FrameParser) (ds : List (List ℕ))
      → ((parse_all p ds).invalid_frames ≡ p.invalid_frames + refused ds)
        × ((parse_all p ds).incompatible_version ≡ last_version p.incompatible_version ds)
  unfolding parse_all refused last_version decode_datagram
  parse_all_counts p [] = (omega arith, refl)
  parse_all_counts p (d ∷ ds) =
      let ih = parse_all_counts (decode_datagram float p d).0 ds in
      (ground (arith, ih.0), ground (arith, ih.1))
