-- ===== src/Bits/Digits.antt =====
-- The native operations recur on binary digits with fuel. Here is their equation for the lowest
-- digit, without the fuel.
use Prim.Native.Nat.{bit_and, bit_or, digits, bit_and-bitwise, bit_or-bitwise}
use holodori_phone_trackpad.Prelude.{
  ℕ, zero, suc, ◌+◌, ◌*◌, ◌/◌, ◌%◌, ◌≤◌, ◌≡◌, refl, ap, min, max, arith,
}

module _ (rest : ℕ → ℕ) (op : ℕ → ℕ → ℕ) where
  enough_fuel : (a k l b : ℕ) → a ≤ k → a ≤ l → digits rest op k a b ≡ digits rest op l a b
  enough_fuel zero zero zero b h h' = refl
  enough_fuel zero zero (suc l) b h h' = refl
  enough_fuel zero (suc k) zero b h h' = refl
  enough_fuel zero (suc k) (suc l) b h h' = refl
  enough_fuel (suc a) zero l b h h' = absurd (omega arith)
  enough_fuel (suc a) (suc k) zero b h h' = absurd (omega arith)
  enough_fuel (suc a) (suc k) (suc l) b h h' =
      ap (λ (t : ℕ). t * 2 + op (suc a % 2) (b % 2))
        (enough_fuel (suc a / 2) k l (b / 2) (omega arith) (omega arith))

  low_digit :
      (a b : ℕ)
      → digits rest op (suc a) (suc a) b
        ≡ digits rest op (suc a / 2) (suc a / 2) (b / 2) * 2 + op (suc a % 2) (b % 2)
  low_digit a b =
      ap (λ (t : ℕ). t * 2 + op (suc a % 2) (b % 2))
        (enough_fuel (suc a / 2) a (suc a / 2) (b / 2) (omega arith) (omega arith))

pub or_low : (a b : ℕ) → bit_or a b ≡ bit_or (a / 2) (b / 2) * 2 + max (a % 2) (b % 2)
or_low zero b = rw (bit_or-bitwise 0 b, bit_or-bitwise 0 (b / 2)) (omega arith)
or_low (suc a) b =
    rw (bit_or-bitwise (suc a) b, bit_or-bitwise (suc a / 2) (b / 2)) (low_digit (λ y. y) max a b)

pub and_low : (a b : ℕ) → bit_and a b ≡ bit_and (a / 2) (b / 2) * 2 + min (a % 2) (b % 2)
and_low zero b = rw (bit_and-bitwise 0 b, bit_and-bitwise 0 (b / 2)) (omega arith)
and_low (suc a) b =
    rw (bit_and-bitwise (suc a) b, bit_and-bitwise (suc a / 2) (b / 2)) (low_digit (λ y. 0) min a b)

pub or_zero_left : (b : ℕ) → bit_or 0 b ≡ b
or_zero_left b = bit_or-bitwise 0 b

pub and_zero_left : (b : ℕ) → bit_and 0 b ≡ 0
and_zero_left b = bit_and-bitwise 0 b

and_zero_fuel : (n a : ℕ) → a ≤ n → bit_and a 0 ≡ 0
and_zero_fuel n zero h = and_zero_left 0
and_zero_fuel zero (suc a) h = absurd (omega arith)
and_zero_fuel (suc n) (suc a) h =
    omega (arith, and_low (suc a) 0, and_zero_fuel n (suc a / 2) (omega arith))

pub and_zero_right : (a : ℕ) → bit_and a 0 ≡ 0
and_zero_right a = and_zero_fuel a a (omega arith)
