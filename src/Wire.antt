-- ===== src/Wire.antt =====
-- Byte-level access of native-host/src/protocol.rs and v5.rs: little-endian numbers at fixed
-- offsets, `copy_from_slice`, and comparison of slices. The sources slice inside lengths that they
-- checked before; here a slice past the end is the shorter list.
pub mod Numbers
pub mod Buffers
use holodori_phone_trackpad.Prelude.{
  ℕ, zero, suc, ◌+◌, ◌-◌, ◌*◌, ◌/◌, ◌%◌, Bool, true, false, ◌&&◌, ◌==◌, ltb, if◌then◌else◌, List,
  [], ◌∷◌, ◌++◌, take, drop, set, get_or,
}

-- `n.to_le_bytes()` of an integer of `width` bytes.
unfoldable pub le_bytes : ℕ → ℕ → List ℕ
le_bytes zero n = []
le_bytes (suc width) n = n % 256 ∷ le_bytes width (n / 256)

-- `from_le_bytes`.
unfoldable pub from_le : List ℕ → ℕ
from_le [] = 0
from_le (b ∷ bs) = b + 256 * from_le bs

abbrev pub slice : List ℕ → ℕ → ℕ → List ℕ
slice bytes offset count = take count (drop offset bytes)

unfoldable pub read_u16 : List ℕ → ℕ → ℕ
unfolding from_le
read_u16 bytes offset = from_le (slice bytes offset 2)

unfoldable pub read_u32 : List ℕ → ℕ → ℕ
unfolding from_le
read_u32 bytes offset = from_le (slice bytes offset 4)

unfoldable pub read_u64 : List ℕ → ℕ → ℕ
unfolding from_le
read_u64 bytes offset = from_le (slice bytes offset 8)

-- `bytes[index]`.
abbrev pub byte_at : List ℕ → ℕ → ℕ
byte_at bytes index = get_or bytes index 0

-- `bytes[offset..].copy_from_slice(source)`: the bytes of `source` replace those from `offset` on.
unfoldable pub copy_at : List ℕ → ℕ → List ℕ → List ℕ
copy_at bytes offset [] = bytes
copy_at bytes offset (b ∷ source) = copy_at (set bytes offset b) (suc offset) source

-- `left == right` on slices.
unfoldable pub same_bytes : List ℕ → List ℕ → Bool
same_bytes [] [] = true
same_bytes [] (y ∷ ys) = false
same_bytes (x ∷ xs) [] = false
same_bytes (x ∷ xs) (y ∷ ys) = x == y && same_bytes xs ys
