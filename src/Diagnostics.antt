-- ===== src/Diagnostics.antt =====
-- `Series` of native-host/src/diagnostics.rs: durations counted in buckets, of which 32 divide each
-- power of two.
pub mod Buckets
pub mod Quantiles
mod Examples
use holodori_phone_trackpad.Prelude.{
  ℕ, zero, suc, ◌+◌, ◌-◌, ◌*◌, ◌/◌, ◌%◌, ◌^◌, Bool, true, false, ◌==◌, ltb, leb, if◌then◌else◌, min,
  max, Option, some, none, List, [], ◌∷◌, get_or, set, replicate,
}

pub record Series : Type 0 where
  pub n : ℕ
  pub invalid : ℕ
  pub over_budget : ℕ
  pub max_ns : ℕ
  pub sum_ns : ℕ
  pub bins : List ℕ

unfoldable pub default : Series
default = record {
  n = 0;
  invalid = 0;
  over_budget = 0;
  max_ns = 0;
  sum_ns = 0;
  bins = replicate 2049 0;
}

-- The highest power of two in a number below 2 ^ `bits`: with 64 bits, 63 less the leading zeros.
unfoldable pub log2 : ℕ → ℕ → ℕ
log2 zero n = 0
log2 (suc bits) n = let rest = log2 bits (n / 2) in if ltb n 2 then 0 else suc rest

abbrev pub exponent : ℕ → ℕ
exponent ns = log2 64 (max ns 1)

-- The bucket of a duration; a shift to the right divides by a power of two.
unfoldable pub index : ℕ → ℕ
index ns = if ltb ns 32 then ns else (exponent ns - 4) * 32 + (ns / 2 ^ (exponent ns - 5) - 32)

unfoldable pub push : Series → ℕ → ℕ → Series
push s ns budget = record {
  n = s.n + 1;
  invalid = s.invalid;
  over_budget = s.over_budget + (if ltb budget ns then 1 else 0);
  max_ns = max s.max_ns ns;
  sum_ns = s.sum_ns + ns;
  bins = set s.bins (index ns) (get_or s.bins (index ns) 0 + 1);
}

-- The least and the greatest duration of a bucket.
unfoldable pub bounds : ℕ → ℕ × ℕ
bounds i =
    let shift = i / 32 + 4 - 5 in
    let low = (32 + i % 32) * 2 ^ shift in
    if ltb i 32 then (i, i) else (low, min (low + (2 ^ shift - 1)) (2 ^ 64 - 1))

-- The loop over the buckets from `i` on, of which `count` durations lie below.
unfoldable pub ranked : List ℕ → ℕ → ℕ → ℕ → Option ℕ
ranked [] i count rank = none
ranked (b ∷ bins) i count rank =
    let rest = ranked bins (i + 1) (count + b) rank in if leb rank (count + b) then some i else rest

-- `div_ceil`.
abbrev pub rank_of : ℕ → ℕ → ℕ → ℕ
rank_of n numerator denominator = (n * numerator + (denominator - 1)) / denominator

unfoldable pub quantile : Series → ℕ → ℕ → Option (ℕ × ℕ)
quantile s numerator denominator =
    if s.n == 0 then none else elim (ranked s.bins 0 0 (rank_of s.n numerator denominator)) [
      | none ↦ none
      | some i ↦ some (min (bounds i).0 s.max_ns, min (bounds i).1 s.max_ns)
    ]
