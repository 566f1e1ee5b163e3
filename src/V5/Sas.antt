-- ===== src/V5/Sas.antt =====
-- `sas_pattern` of native-host/src/v5.rs: the eight digits that both ends show while they pair.
-- The hash of a list of parts is a parameter.
use holodori_phone_trackpad.Prelude.{
  ℕ, zero, suc, ◌+◌, ◌-◌, ◌*◌, ◌/◌, ◌%◌, ◌^◌, ◌≤◌, ◌<◌, ◌≡◌, refl, ap, ◌∙◌, arith, ltb,
  if◌then◌else◌, Option, some, none, List, [], ◌∷◌, length, All, map, take, drop,
}
use holodori_phone_trackpad.Wire.{from_le}

abbrev pub sas_space : ℕ
sas_space = 1679616

abbrev pub sas_limit : ℕ
sas_limit = 2 ^ 32 / sas_space * sas_space

-- `for digit in pattern.iter_mut().rev()`: the digits to fill, the value, and the digits filled.
unfoldable pub fill_digits : ℕ → ℕ → List ℕ → List ℕ
fill_digits zero value pattern' = pattern'
fill_digits (suc n) value pattern' = fill_digits n (value / 6) ((value % 6 + 1) ∷ pattern')

-- `digest.as_chunks::<4>()`, as numbers.
abbrev pub word_at : List ℕ → ℕ → ℕ
word_at digest i = from_le (take 4 (drop (4 * i) digest))

abbrev pub words : List ℕ → List ℕ
words digest = map (word_at digest) (0 ∷ 1 ∷ 2 ∷ 3 ∷ 4 ∷ 5 ∷ 6 ∷ 7 ∷ [])

-- The first word below the limit.
unfoldable pub first_below : List ℕ → Option ℕ
first_below [] = none
first_below (w ∷ ws) = if ltb w sas_limit then some w else first_below ws

module _ (hash : List (List ℕ) → List ℕ) where
  abbrev pub retry : List ℕ → List ℕ
  retry digest = hash (
      (b'h' ∷ b'o' ∷ b'l' ∷ b'o' ∷ b'd' ∷ b'o' ∷ b'r' ∷ b'i' ∷ b'-' ∷ b'v' ∷ b'5' ∷ b'-' ∷ b's'
        ∷ b'a' ∷ b's' ∷ b'-' ∷ b'r' ∷ b'e' ∷ b't' ∷ b'r' ∷ b'y' ∷ [])
      ∷ digest
      ∷ [])

  -- `loop`, for a number of rounds.
  unfoldable pub sas_pattern : ℕ → List ℕ → Option (List ℕ)
  sas_pattern zero digest = none
  sas_pattern (suc rounds) digest =
      let later = sas_pattern rounds (retry digest) in
      elim (first_below (words digest)) [
        | some w ↦ some (fill_digits 8 (w % sas_space) [])
        | none ↦ later
      ]

  -- The digest of a round.
  unfoldable pub rehashed : ℕ → List ℕ → List ℕ
  rehashed zero digest = digest
  rehashed (suc rounds) digest = rehashed rounds (retry digest)

  abbrev pub connection_id : List ℕ → ℕ
  connection_id handshake_hash = from_le (
      take 8 (
        hash (
          (b'h' ∷ b'o' ∷ b'l' ∷ b'o' ∷ b'd' ∷ b'o' ∷ b'r' ∷ b'i' ∷ b'-' ∷ b'v' ∷ b'5' ∷ b'-' ∷ b'c'
            ∷ b'o' ∷ b'n' ∷ b'n' ∷ b'e' ∷ b'c' ∷ b't' ∷ b'i' ∷ b'o' ∷ b'n' ∷ [])
          ∷ handshake_hash
          ∷ [])))

  abbrev pub sas_commit : ℕ → List ℕ → List ℕ → List ℕ
  sas_commit role handshake_hash random = hash (
      (b'h' ∷ b'o' ∷ b'l' ∷ b'o' ∷ b'd' ∷ b'o' ∷ b'r' ∷ b'i' ∷ b'-' ∷ b'v' ∷ b'5' ∷ b'-' ∷ b's'
        ∷ b'a' ∷ b's' ∷ b'-' ∷ b'c' ∷ b'o' ∷ b'm' ∷ b'm' ∷ b'i' ∷ b't' ∷ [])
      ∷ (role ∷ [])
      ∷ handshake_hash
      ∷ random
      ∷ [])

  abbrev pub sas_digest : List ℕ → List ℕ → List ℕ → List ℕ
  sas_digest handshake_hash phone_random host_random = hash (
      (b'h' ∷ b'o' ∷ b'l' ∷ b'o' ∷ b'd' ∷ b'o' ∷ b'r' ∷ b'i' ∷ b'-' ∷ b'v' ∷ b'5' ∷ b'-' ∷ b's'
        ∷ b'a' ∷ b's' ∷ [])
      ∷ handshake_hash
      ∷ phone_random
      ∷ host_random
      ∷ [])

-- The number that digits from 1 to 6 stand for, the most significant first.
unfoldable pub digits_value : List ℕ → ℕ → ℕ
digits_value [] value = value
digits_value (d ∷ ds) value = digits_value ds (value * 6 + (d - 1))

-- A digit that the ends can show.
abbrev pub IsDigit : ℕ → Type 0
IsDigit d = (1 ≤ d) × (d ≤ 6)

fill_digits-IsDigit :
    (n value : ℕ) (ds : List ℕ)
    → All IsDigit ds
    → All IsDigit (fill_digits n value ds) × (length (fill_digits n value ds) ≡ n + length ds)
unfolding fill_digits
fill_digits-IsDigit zero value ds h = (h, omega arith)
fill_digits-IsDigit (suc n) value ds h =
    let ih =
      fill_digits-IsDigit n (value / 6) ((value % 6 + 1) ∷ ds) ((omega arith, omega arith), h) in
    (ih.0, omega (arith, ih.1))

-- How many values `n` digits have.
unfoldable pub capacity : ℕ → ℕ
capacity zero = 1
capacity (suc n) = 6 * capacity n

-- The value can be read off its digits.
digits_value-fill_digits :
    (n value : ℕ) (ds : List ℕ)
    → value < capacity n
    → digits_value (fill_digits n value ds) 0 ≡ digits_value ds value
unfolding digits_value fill_digits capacity
digits_value-fill_digits zero value ds h =
    let none_left : 0 ≡ value = omega arith in ap (digits_value ds) none_left
digits_value-fill_digits (suc n) value ds h =
    let whole : value / 6 * 6 + (value % 6 + 1 - 1) ≡ value = omega arith in
    digits_value-fill_digits n (value / 6) ((value % 6 + 1) ∷ ds) (omega arith)
    ∙ ap (digits_value ds) whole

module _ (hash : List (List ℕ) → List ℕ) where
  -- If the digest has a word below the limit after `k` retries and no sooner, more than `k` rounds
  -- give eight digits from 1 to 6, whose number in base 6 is that word modulo 6 ^ 8.
  pub sas_pattern_lem :
      (k rounds : ℕ) (digest : List ℕ) (w : ℕ)
      → k < rounds
      → ((j : ℕ) → j < k → first_below (words (rehashed hash j digest)) ≡ none)
      → first_below (words (rehashed hash k digest)) ≡ some w
      → (ds : List ℕ) × (sas_pattern hash rounds digest ≡ some ds)
        × (length ds ≡ 8)
        × All IsDigit ds
        × (digits_value ds 0 ≡ w % sas_space)
  unfolding sas_pattern rehashed digits_value capacity
  sas_pattern_lem k zero digest w h before found = absurd (omega arith)
  sas_pattern_lem zero (suc rounds) digest w h before found =
      let shape = fill_digits-IsDigit 8 (w % sas_space) [] tt in
      let here : first_below (words digest) ≡ some w = found in
      (
        fill_digits 8 (w % sas_space) [],
        rw (here, sas_pattern) refl,
        shape.1,
        shape.0,
        digits_value-fill_digits 8 (w % sas_space) [] (omega arith),
      )
  sas_pattern_lem (suc k) (suc rounds) digest w h before found =
      let (ds, result, size, shape, number) =
        sas_pattern_lem k rounds (retry hash digest) w (omega arith)
          (λ j i. before (suc j) (omega arith)) found in
      let later : first_below (words digest) ≡ none = before 0 (omega arith) in
      (ds, rw (later, sas_pattern) result, size, shape, number)
