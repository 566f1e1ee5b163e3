-- ===== src/Protocol/Crc.antt =====
-- `crc32` of native-host/src/protocol.rs.
use Prim.Native.Nat.{bit_and, bit_xor}
use holodori_phone_trackpad.Prelude.{
  ℕ, zero, suc, ◌-◌, ◌/◌, ◌^◌, ◌≡◌, refl, arith, not, ◌==◌, if◌then◌else◌, List, [], ◌∷◌, IsU32,
}

-- One round of the inner loop.
crc_round : ℕ → ℕ
crc_round value = if not (bit_and value 1 == 0) then bit_xor (value / 2) 0xedb8_8320 else value / 2

crc_rounds : ℕ → ℕ → ℕ
crc_rounds zero value = value
crc_rounds (suc rounds) value = crc_rounds rounds (crc_round value)

crc_bytes : ℕ → List ℕ → ℕ
crc_bytes value [] = value
crc_bytes value (byte ∷ bytes) = crc_bytes (crc_rounds 8 (bit_xor value byte)) bytes

unfoldable pub crc32 : List ℕ → ℕ
unfolding crc_round crc_rounds crc_bytes
crc32 bytes = 2 ^ 32 - 1 - crc_bytes 0xffff_ffff bytes

-- A checksum fits the four bytes that carry it.
pub crc32-IsU32 : (bytes : List ℕ) → IsU32 (crc32 bytes)
unfolding crc32
crc32-IsU32 bytes = omega arith

-- The published check value of this CRC.
check_value :
    crc32 (b'1' ∷ b'2' ∷ b'3' ∷ b'4' ∷ b'5' ∷ b'6' ∷ b'7' ∷ b'8' ∷ b'9' ∷ []) ≡ 0xcbf4_3926
unfolding crc32
check_value = refl
