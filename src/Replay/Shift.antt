-- ===== src/Replay/Shift.antt =====
-- `ReplayWindow::shift` moves every bit of the window up by the given distance.
use Prim.Native.Nat.{bit_or}
use native.Mathlib.Nat.{pow-le-pow_right}
use holodori_phone_trackpad.Bits.{test_bit}
use holodori_phone_trackpad.Bits.Laws.{
  test_bit-zero, test_bit_shl, test_bit_shr, test_bit_wrap, test_bit_above, test_bit-bit_or,
  test_bit_two_pow, bit_or-lt,
}
use holodori_phone_trackpad.Prelude.{
  ℕ, zero, suc, ◌+◌, ◌-◌, ◌*◌, ◌/◌, ◌%◌, ◌^◌, ◌≤◌, ◌<◌, ◌≡◌, refl, ap, ◌∙◌, arith, Bool, false,
  ◌==◌, ◌||◌, ltb, leb, if◌then◌else◌, List, get_or, set, length, length-set, get_or-set_self,
  get_or-set_ne, get_or-replicate, get_or_above, IsU64, Bool-cases, inl, inr,
}
use holodori_phone_trackpad.Replay.{shl64, shifted_word, shift_loop, shift, or_word}

-- The bit for the packet that lies `distance` below the highest one.
unfoldable pub seen : List ℕ → ℕ → Bool
seen words distance = test_bit (get_or words (distance / 64) 0) (distance % 64)

abbrev pub AreWords : List ℕ → Type 0
AreWords words = (i : ℕ) → IsU64 (get_or words i 0)

shifted_word-set :
    (word_shift bit_shift i d v : ℕ) (words : List ℕ)
    → i < d
    → shifted_word word_shift bit_shift i (set words d v)
      ≡ shifted_word word_shift bit_shift i words
unfolding shifted_word
shifted_word-set word_shift bit_shift i d v words h = rw (
  get_or-set_ne words d (i - word_shift) v 0 (omega arith),
  get_or-set_ne words d (i - word_shift - 1) v 0 (omega arith),
)

-- Each word of the result is computed from the words before the loop.
get_or-shift_loop :
    (word_shift bit_shift k i : ℕ) (words : List ℕ)
    → k ≤ length words
    → get_or (shift_loop word_shift bit_shift k words) i 0
      ≡ (if ltb i k then shifted_word word_shift bit_shift i words else get_or words i 0)
unfolding shift_loop
get_or-shift_loop word_shift bit_shift zero i words h = ground arith
get_or-shift_loop word_shift bit_shift (suc d) i words h =
    let v : ℕ = shifted_word word_shift bit_shift d words in
    ground (
      arith,
      get_or-shift_loop word_shift bit_shift d i (set words d v),
      length-set words d v,
      shifted_word-set word_shift bit_shift i d v words,
      get_or-set_self words d v 0,
      get_or-set_ne words d i v 0,
    )

test_bit-shl64 :
    (x e b : ℕ) → b < 64 → test_bit (shl64 x e) b ≡ (if ltb b e then false else test_bit x (b - e))
test_bit-shl64 x e b h = ground (arith, test_bit_wrap (x * 2 ^ e) 64 b, test_bit_shl x e b)

-- The bits that `>> (64 - e)` carries over lie below bit `e`.
test_bit_carry :
    (y e b : ℕ)
    → IsU64 y
    → e ≤ 64
    → test_bit (y / 2 ^ (64 - e)) b ≡ (if ltb b e then test_bit y (64 + b - e) else false)
test_bit_carry y e b hy he =
    let at : 64 - e + b ≡ 64 + b - e = omega arith in
    ground (arith, test_bit_shr y (64 - e) b, ap (test_bit y) at, test_bit_above y 64 (64 + b - e))

test_bit-shifted_word :
    (c e a b : ℕ) (words : List ℕ)
    → AreWords words
    → e < 64
    → b < 64
    → test_bit (shifted_word c e a words) b ≡ (
        if leb c a
        then (if leb e b
            then test_bit (get_or words (a - c) 0) (b - e)
            else if ltb c a
            then test_bit (get_or words (a - c - 1) 0) (64 + b - e)
            else false)
        else false)
unfolding shifted_word
test_bit-shifted_word c e a b words u he hb =
    let x : ℕ = get_or words (a - c) 0 in
    let y : ℕ = get_or words (a - c - 1) 0 in
    ground (
      arith,
      test_bit-bit_or (shl64 x e) (y / 2 ^ (64 - e)) b,
      test_bit-shl64 x e b,
      test_bit_carry y e b (u (a - c - 1)),
      test_bit-zero b,
    )

same_word :
    (bits d : ℕ)
    → bits ≤ d
    → bits % 64 ≤ d % 64
    → (d / 64 - bits / 64 ≡ (d - bits) / 64) × (d % 64 - bits % 64 ≡ (d - bits) % 64)
same_word bits d h g = omega arith

word_before :
    (bits d : ℕ)
    → bits ≤ d
    → d % 64 < bits % 64
    → (d / 64 - bits / 64 - 1 ≡ (d - bits) / 64) × (64 + d % 64 - bits % 64 ≡ (d - bits) % 64)
word_before bits d h g = omega arith

shift_far : (words : List ℕ) (bits d : ℕ) → 1024 ≤ bits → seen (shift words bits) d ≡ false
unfolding seen shift
shift_far words bits d h =
    ground (arith, get_or-replicate {A = ℕ} 16 0 (d / 64), test_bit-zero (d % 64))

shift_near :
    (words : List ℕ) (bits d : ℕ)
    → AreWords words
    → length words ≡ 16
    → bits < 1024
    → d < 1024
    → seen (shift words bits) d ≡ (if ltb d bits then false else seen words (d - bits))
unfolding seen shift
shift_near words bits d u l hb hd = ground (
  arith,
  get_or-shift_loop (bits / 64) (bits % 64) 16 (d / 64) words,
  test_bit-shifted_word (bits / 64) (bits % 64) (d / 64) (d % 64) words u,
  same_word bits d,
  word_before bits d,
)

-- Within the window, the bit at distance `d` comes from distance `d - bits`, and the lowest
-- `bits` bits are cleared.
pub seen-shift :
    (words : List ℕ) (bits d : ℕ)
    → AreWords words
    → length words ≡ 16
    → d < 1024
    → seen (shift words bits) d ≡ (if ltb d bits then false else seen words (d - bits))
seen-shift words bits d u l hd = elim (Bool-cases (leb 1024 bits)) [
  | inl far ↦ ground (arith, shift_far words bits d)
  | inr near ↦ shift_near words bits d u l (ground arith) hd
]

length-shift_loop : (c e k : ℕ) (words : List ℕ) → length (shift_loop c e k words) ≡ length words
unfolding shift_loop
length-shift_loop c e zero words = refl
length-shift_loop c e (suc d) words =
    length-shift_loop c e d (set words d (shifted_word c e d words))
    ∙ length-set words d (shifted_word c e d words)

pub length-shift : (words : List ℕ) (bits : ℕ) → length words ≡ 16 → length (shift words bits) ≡ 16
unfolding shift
length-shift words bits l = ground (arith, length-shift_loop (bits / 64) (bits % 64) 16 words)

shifted_word-U64 : (c e i : ℕ) (words : List ℕ) → AreWords words → IsU64 (shifted_word c e i words)
unfolding shifted_word
shifted_word-U64 c e i words u =
    let y : ℕ = get_or words (i - c - 1) 0 in
    ground (
      arith,
      bit_or-lt 64 (shl64 (get_or words (i - c) 0) e) (y / 2 ^ (64 - e)),
      quotient_le y (2 ^ (64 - e)),
      u (i - c - 1),
    )
  where
    quotient_le : (n m : ℕ) → n / m ≤ n
    quotient_le n m = grind arith

pub shift-AreWords :
    (words : List ℕ) (bits : ℕ) → AreWords words → length words ≡ 16 → AreWords (shift words bits)
unfolding shift
shift-AreWords words bits u l i = ground (
  arith,
  get_or-replicate {A = ℕ} 16 0 i,
  get_or-shift_loop (bits / 64) (bits % 64) 16 i words,
  shifted_word-U64 (bits / 64) (bits % 64) i words u,
  u i,
)

pub shl64_one : (i : ℕ) → i < 64 → shl64 1 i ≡ 2 ^ i
shl64_one i h =
    let bound : 2 ^ i ≤ 2 ^ 63 = pow-le-pow_right (omega arith) {j = 63} (omega arith) in
    ground arith

-- Setting the bit at distance `d` leaves every other distance as it was.
pub seen-or_word :
    (words : List ℕ) (d e : ℕ)
    → length words ≡ 16
    → d < 1024
    → seen (or_word words (d / 64) (shl64 1 (d % 64))) e ≡ (d == e) || seen words e
unfolding seen or_word
seen-or_word words d e l h =
    let x : ℕ = get_or words (d / 64) 0 in
    let bit : ℕ = shl64 1 (d % 64) in
    ground (
      arith,
      get_or-set_self words (d / 64) (bit_or x bit) 0,
      get_or-set_ne words (d / 64) (e / 64) (bit_or x bit) 0,
      test_bit-bit_or x bit (e % 64),
      one_bit (d % 64) (e % 64),
    )
  where
    one_bit : (i j : ℕ) → i < 64 → test_bit (shl64 1 i) j ≡ (i == j)
    one_bit i j h = rw (shl64_one i h) (test_bit_two_pow i j)

pub or_word-AreWords :
    (words : List ℕ) (i bit : ℕ) → AreWords words → IsU64 bit → AreWords (or_word words i bit)
unfolding or_word
or_word-AreWords words i bit u h j =
    let v : ℕ = bit_or (get_or words i 0) bit in
    ground (
      arith,
      get_or-set_self words i v 0,
      get_or-set_ne words i j v 0,
      get_or_above (set words i v) j 0,
      length-set words i v,
      bit_or-lt 64 (get_or words i 0) bit,
      u i,
      u j,
    )

pub length-or_word : (words : List ℕ) (i bit : ℕ) → length (or_word words i bit) ≡ length words
unfolding or_word
length-or_word words i bit = length-set words i (bit_or (get_or words i 0) bit)
