-- ===== src/Bits.antt =====
-- Single bits of machine words, and what `&`, `|`, `<<` and `>>` do to them.
mod Digits
pub mod Laws
use holodori_phone_trackpad.Prelude.{ℕ, zero, suc, ◌/◌, ◌%◌, Bool, ◌==◌}

-- Bit `i` of `x`, counted from the lowest.
unfoldable pub test_bit : ℕ → ℕ → Bool
test_bit x zero = x % 2 == 1
test_bit x (suc i) = test_bit (x / 2) i
