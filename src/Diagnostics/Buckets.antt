-- ===== src/Diagnostics/Buckets.antt =====
-- Every duration lies in its bucket.
use holodori_phone_trackpad.Prelude.{
  ℕ, zero, suc, ◌+◌, ◌-◌, ◌*◌, ◌/◌, ◌%◌, ◌^◌, ◌≤◌, ◌<◌, ◌≡◌, refl, ap, ◌∙◌, arith, false, ltb,
  ltb→lt, min, max, Bool-cases, inl, inr,
}
use native.Mathlib.Nat.{pow-suc, pow-le-pow_right, mul-le-mul_right, mod-add-div', mod-lt}
use holodori_phone_trackpad.Diagnostics.{log2, exponent, index, bounds}

log2-power : (bits n : ℕ) → 1 ≤ n → n < 2 ^ bits → (2 ^ log2 bits n ≤ n) × (n < 2 * 2 ^ log2 bits n)
unfolding log2
log2-power zero n h k = absurd (omega (arith, h, k))
log2-power (suc bits) n h k = elim (Bool-cases (ltb n 2)) [
  | inl one ↦ rw (log2, one) (omega (arith, h), ground (arith, one))
  | inr more ↦
      let big : 2 ≤ n = ground (arith, more) in
      let ih = log2-power bits (n / 2) (omega (arith, big)) (omega (arith, k, pow-suc 2 bits)) in
      let double = pow-suc 2 (log2 bits (n / 2)) in
      rw (log2, more) (omega (arith, ih, double), omega (arith, ih, double))
]

-- From 32 on the exponent is at least 5, and 64 bits keep it below 64.
log2_range : (n : ℕ) → 32 ≤ n → n < 2 ^ 64 → (5 ≤ log2 64 n) × (log2 64 n < 64)
log2_range n h k =
    let p = log2-power 64 n (omega (arith, h)) k in
    let double = pow-suc 2 (log2 64 n) in
    (
      elim (Bool-cases (ltb (log2 64 n) 5)) [
        | inr fine ↦ ground (arith, fine)
        | inl small ↦
            let q : 2 ^ suc (log2 64 n) ≤ 2 ^ 5 =
              pow-le-pow_right (omega arith) {i = suc (log2 64 n)} {j = 5}
                (ground (arith, small)) in
            absurd (omega (arith, p, q, h, double))
      ],
      elim (Bool-cases (ltb (log2 64 n) 64)) [
        | inl fine ↦ ground (arith, fine)
        | inr large ↦
            let q : 2 ^ 64 ≤ 2 ^ log2 64 n =
              pow-le-pow_right (omega arith) {i = 64} {j = log2 64 n} (ground (arith, large)) in
            absurd (omega (arith, p, q, k))
      ],
    )

power-split : (s : ℕ) → 2 ^ suc (suc (suc (suc (suc s)))) ≡ 32 * 2 ^ s
power-split s = omega (
  arith,
  pow-suc 2 s,
  pow-suc 2 (suc s),
  pow-suc 2 (suc (suc s)),
  pow-suc 2 (suc (suc (suc s))),
  pow-suc 2 (suc (suc (suc (suc s)))),
)

power_positive : (s : ℕ) → 1 ≤ 2 ^ s
power_positive s = pow-le-pow_right (omega arith) {i = 0} {j = s} (omega arith)

-- The bits of a duration below its five highest ones are those of the rest of a division.
divided :
    (n e : ℕ)
    → 5 ≤ e
    → 2 ^ e ≤ n
    → n < 2 * 2 ^ e
    → (32 ≤ n / 2 ^ (e - 5))
      × (n / 2 ^ (e - 5) < 64)
      × (n / 2 ^ (e - 5) * 2 ^ (e - 5) ≤ n)
      × (n < n / 2 ^ (e - 5) * 2 ^ (e - 5) + 2 ^ (e - 5))
divided n e h lo hi =
    let s = e - 5 in
    let p = 2 ^ s in
    let q = n / p in
    let whole : 2 ^ e ≡ 32 * p =
      ap (λ (i : ℕ). 2 ^ i) {x = e} {y = suc (suc (suc (suc (suc s))))} (omega (arith, h))
      ∙ power-split s in
    let parts : n % p + q * p ≡ n = mod-add-div' n p in
    let rest : n % p < p = mod-lt n (power_positive s) in
    (
      elim (Bool-cases (ltb q 32)) [
        | inr fine ↦ ground (arith, fine)
        | inl small ↦
            let few : q * p ≤ 31 * p = mul-le-mul_right p (ground (arith, small)) in
            absurd (omega (arith, parts, rest, few, whole, lo))
      ],
      elim (Bool-cases (ltb q 64)) [
        | inl fine ↦ ground (arith, fine)
        | inr large ↦
            let many : 64 * p ≤ q * p = mul-le-mul_right p (ground (arith, large)) in
            absurd (omega (arith, parts, many, whole, hi))
      ],
      omega (arith, parts),
      omega (arith, parts, rest),
    )

index_large :
    (ns : ℕ)
    → ltb ns 32 ≡ false
    → index ns ≡ (exponent ns - 4) * 32 + (ns / 2 ^ (exponent ns - 5) - 32)
unfolding index
index_large ns large = rw (index, large) refl

bounds_large :
    (i e q : ℕ)
    → i ≡ (e - 4) * 32 + (q - 32)
    → 5 ≤ e
    → 32 ≤ q
    → q < 64
    → bounds i ≡ (q * 2 ^ (e - 5), min (q * 2 ^ (e - 5) + (2 ^ (e - 5) - 1)) (2 ^ 64 - 1))
unfolding bounds
bounds_large i e q h he lo hi =
    let big : ltb i 32 ≡ false = ground (arith, h, he) in
    let shift : i / 32 + 4 - 5 ≡ e - 5 = omega (arith, h, he, lo, hi) in
    let digit : 32 + i % 32 ≡ q = omega (arith, h, he, lo, hi) in
    rw (bounds, big, shift, digit) refl

-- The bucket of every 64-bit duration is one of the 2,049, and the duration lies between its bounds.
pub bounds-index :
    (ns : ℕ)
    → ns < 2 ^ 64
    → (index ns < 2049) × ((bounds (index ns)).0 ≤ ns) × (ns ≤ (bounds (index ns)).1)
unfolding index bounds
bounds-index ns k = elim (Bool-cases (ltb ns 32)) [
  | inl small ↦
      let same : index ns ≡ ns = rw (index, small) refl in
      let exact : bounds (index ns) ≡ (ns, ns) = rw same (rw (bounds, small) refl) in
      rw exact (omega (arith, same, ltb→lt ns 32 small), omega arith, omega arith)
  | inr large ↦
      let big : 32 ≤ ns = ground (arith, large) in
      let e = exponent ns in
      let q = ns / 2 ^ (e - 5) in
      let power = log2-power 64 (max ns 1) (omega arith) (omega (arith, k)) in
      let range = log2_range (max ns 1) (omega (arith, big)) (omega (arith, k)) in
      let parts =
        divided ns e range.0 (omega (arith, power.0, big)) (omega (arith, power.1, big)) in
      let at = index_large ns large in
      let ends = bounds_large (index ns) e q at range.0 parts.0 parts.1 in
      (
        omega (arith, at, range, parts.0, parts.1),
        rw ends parts.2,
        rw ends (omega (arith, parts.3, k)),
      )
]
