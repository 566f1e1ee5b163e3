-- ===== src/Prelude/Int.antt =====
-- Signed integers, as the values of `i8` and `i16` fields.
use Prim.Native.Nat.{ℕ, ◌-◌, ◌*◌}
use holodori_phone_trackpad.Prelude.Tests.{ltb, if◌then◌else◌}

-- `negsuc n` is -(n + 1).
pub data ℤ : Type 0 where
  pos : ℕ → ℤ
  negsuc : ℕ → ℤ

-- The integer that a pattern of `bits` bits stands for, where `half` is 2 ^ (bits - 1).
abbrev pub signed : ℕ → ℕ → ℤ
signed half pattern' = if ltb pattern' half then pos pattern' else negsuc (2 * half - pattern' - 1)
