-- ===== src/Bits/Laws.antt =====
-- The bits of sums of fields, of shifted words, and of the results of the bitwise operations.
use Prim.Native.Nat.{bit_and, bit_or}
use native.Mathlib.Nat.{pow-suc, one-le-pow, div-div-eq-div-mul}
use holodori_phone_trackpad.Bits.{test_bit}
use holodori_phone_trackpad.Bits.Digits.{or_low, and_low, and_zero_right, or_zero_left}
use holodori_phone_trackpad.Prelude.{
  ℕ, zero, suc, ◌+◌, ◌-◌, ◌*◌, ◌/◌, ◌%◌, ◌^◌, ◌≤◌, ◌<◌, ◌≡◌, refl, ap, ◌∙◌, arith, false, ◌||◌, not,
  ◌==◌, if◌then◌else◌, ltb,
}

pub test_bit-zero : (i : ℕ) → test_bit 0 i ≡ false
unfolding test_bit
test_bit-zero zero = refl
test_bit-zero (suc i) = test_bit-zero i

double : (x k : ℕ) → x * 2 ^ suc k ≡ 2 * (x * 2 ^ k)
double x k = omega (arith, ap (λ (t : ℕ). x * t) (pow-suc 2 k))

-- A word shifted left by `e`, before it wraps.
pub test_bit_shl :
    (x e b : ℕ) → test_bit (x * 2 ^ e) b ≡ (if ltb b e then false else test_bit x (b - e))
unfolding test_bit
test_bit_shl x zero b = ground arith
test_bit_shl x (suc e) zero = ground (arith, double x e)
test_bit_shl x (suc e) (suc b) = ground (arith, double x e, test_bit_shl x e b)

half_mod : (x m : ℕ) → 0 < m → x % (2 * m) / 2 ≡ x / 2 % m
half_mod x m h = grind arith

parity_mod : (x m : ℕ) → 0 < m → x % (2 * m) % 2 ≡ x % 2
parity_mod x m h = grind arith

-- A word cut to `k` bits.
pub test_bit_wrap : (x k b : ℕ) → test_bit (x % 2 ^ k) b ≡ (if ltb b k then test_bit x b else false)
unfolding test_bit
test_bit_wrap x zero b = ground (arith, test_bit-zero b)
test_bit_wrap x (suc k) zero = ground (arith, pow-suc 2 k, one-le-pow k 2, parity_mod x (2 ^ k))
test_bit_wrap x (suc k) (suc b) =
    ground (arith, pow-suc 2 k, one-le-pow k 2, half_mod x (2 ^ k), test_bit_wrap (x / 2) k b)

halve : (x s : ℕ) → x / 2 ^ suc s ≡ x / 2 / 2 ^ s
halve x s = ground (arith, pow-suc 2 s, div-div-eq-div-mul x 2 (2 ^ s))

-- A word shifted right by `s`.
pub test_bit_shr : (x s b : ℕ) → test_bit (x / 2 ^ s) b ≡ test_bit x (s + b)
unfolding test_bit
test_bit_shr x zero b = ground arith
test_bit_shr x (suc s) b =
    let next : suc (s + b) ≡ suc s + b = omega arith in
    ap (λ (t : ℕ). test_bit t b) (halve x s) ∙ test_bit_shr (x / 2) s b ∙ ap (test_bit x) next

-- A number below `2 ^ k` has no bit from `k` on.
pub test_bit_above : (x k b : ℕ) → x < 2 ^ k → k ≤ b → test_bit x b ≡ false
unfolding test_bit
test_bit_above x zero b h g = ground (arith, test_bit-zero b)
test_bit_above x (suc k) zero h g = absurd (omega arith)
test_bit_above x (suc k) (suc b) h g = ground (arith, pow-suc 2 k, test_bit_above (x / 2) k b)

pub test_bit-bit_or : (x y b : ℕ) → test_bit (bit_or x y) b ≡ test_bit x b || test_bit y b
unfolding test_bit
test_bit-bit_or x y zero = ground (arith, or_low x y)
test_bit-bit_or x y (suc b) = ground (arith, or_low x y, test_bit-bit_or (x / 2) (y / 2) b)

-- `x & (1 << b) == 0` tests bit `b`.
pub bit_and_one_bit : (x b : ℕ) → (bit_and x (2 ^ b) == 0) ≡ not (test_bit x b)
unfolding test_bit
bit_and_one_bit x zero = ground (arith, and_low x 1, and_zero_right (x / 2))
bit_and_one_bit x (suc b) =
    ground (arith, and_low x (2 ^ suc b), pow-suc 2 b, bit_and_one_bit (x / 2) b)

pub test_bit_two_pow : (e b : ℕ) → test_bit (2 ^ e) b ≡ (e == b)
unfolding test_bit
test_bit_two_pow zero zero = refl
test_bit_two_pow zero (suc b) = ground (arith, test_bit-zero b)
test_bit_two_pow (suc e) zero = ground (arith, pow-suc 2 e)
test_bit_two_pow (suc e) (suc b) = ground (arith, pow-suc 2 e, test_bit_two_pow e b)

pub bit_or-lt : (k x y : ℕ) → x < 2 ^ k → y < 2 ^ k → bit_or x y < 2 ^ k
bit_or-lt zero x y h g = ground (arith, or_low x y, or_zero_left 0)
bit_or-lt (suc k) x y h g = ground (arith, or_low x y, pow-suc 2 k, bit_or-lt k (x / 2) (y / 2))
