-- ===== src/Wire/Numbers.antt =====
-- What is written little-endian is read back.
use native.Mathlib.Nat.{pow-suc}
use holodori_phone_trackpad.Prelude.{
  ℕ, zero, suc, ◌+◌, ◌*◌, ◌/◌, ◌^◌, ◌<◌, ◌≡◌, refl, ap, arith, true, List, [], ◌∷◌, length, All,
  IsByte,
}
use holodori_phone_trackpad.Wire.{le_bytes, from_le, same_bytes}

pub from_le-le_bytes : (width n : ℕ) → n < 256 ^ width → from_le (le_bytes width n) ≡ n
unfolding from_le le_bytes
from_le-le_bytes zero n h = omega arith
from_le-le_bytes (suc width) n h =
    ground (arith, pow-suc 256 width, from_le-le_bytes width (n / 256))

pub length-le_bytes : (width n : ℕ) → length (le_bytes width n) ≡ width
unfolding le_bytes
length-le_bytes zero n = refl
length-le_bytes (suc width) n = ap suc (length-le_bytes width (n / 256))

pub le_bytes-All : (width n : ℕ) → All IsByte (le_bytes width n)
unfolding le_bytes
le_bytes-All zero n = tt
le_bytes-All (suc width) n = (omega arith, le_bytes-All width (n / 256))

pub from_le-lt : (bytes : List ℕ) → All IsByte bytes → from_le bytes < 256 ^ length bytes
unfolding from_le
from_le-lt [] h = omega arith
from_le-lt (b ∷ bytes) (hb, hs) = ground (arith, pow-suc 256 (length bytes), from_le-lt bytes hs)

pub le_bytes-from_le :
    (bytes : List ℕ) → All IsByte bytes → le_bytes (length bytes) (from_le bytes) ≡ bytes
unfolding from_le le_bytes
le_bytes-from_le [] h = refl
le_bytes-from_le (b ∷ bytes) (hb, hs) = ground (
  arith,
  le_bytes-from_le bytes hs,
  (let e : (b + 256 * from_le bytes) / 256 ≡ from_le bytes = omega arith in e),
)

pub same_bytes_refl : (xs : List ℕ) → same_bytes xs xs ≡ true
unfolding same_bytes
same_bytes_refl [] = refl
same_bytes_refl (x ∷ xs) = ground (arith, same_bytes_refl xs)

pub same_bytes→eq : (xs ys : List ℕ) → same_bytes xs ys ≡ true → xs ≡ ys
unfolding same_bytes
same_bytes→eq [] [] h = refl
same_bytes→eq [] (y ∷ ys) h = cc
same_bytes→eq (x ∷ xs) [] h = cc
same_bytes→eq (x ∷ xs) (y ∷ ys) h = ground (arith, same_bytes→eq xs ys)
