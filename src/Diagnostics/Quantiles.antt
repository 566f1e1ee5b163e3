-- ===== src/Diagnostics/Quantiles.antt =====
-- A quantile of a series is the bucket of the duration that has the rank.
use holodori_phone_trackpad.Prelude.{
  ℕ, suc, ◌+◌, ◌-◌, ◌*◌, ◌/◌, ◌%◌, ◌^◌, ◌≤◌, ◌<◌, ◌≡◌, refl, sym, ap, ◌∙◌, arith, true, false, ◌==◌,
  ltb, leb, if◌then◌else◌, min, some, List, [], ◌∷◌, length, length-set, length-replicate, get_or,
  get_or-replicate, get_or-set, All, Bool-cases, inl, inr,
}
use native.Mathlib.Nat.{
  suc-mul, mul-le-mul, mul-le-mul_right, mul-le-mul_left, mod-add-div', mod-lt,
}
use holodori_phone_trackpad.Diagnostics.{
  Series, default, index, push, bounds, ranked, rank_of, quantile,
}
use holodori_phone_trackpad.Diagnostics.Buckets.{bounds-index}

-- The series of some durations, the last one first.
unfoldable pub series_of : ℕ → List ℕ → Series
series_of budget [] = default
series_of budget (ns ∷ durations) = push (series_of budget durations) ns budget

-- How many durations lie in a bucket, and below it.
unfoldable pub count_in : List ℕ → ℕ → ℕ
count_in [] i = 0
count_in (ns ∷ durations) i = (if index ns == i then 1 else 0) + count_in durations i

unfoldable pub below : List ℕ → ℕ → ℕ
below [] i = 0
below (ns ∷ durations) i = (if ltb (index ns) i then 1 else 0) + below durations i

below_step :
    (durations : List ℕ) (i : ℕ)
    → below durations (i + 1) ≡ below durations i + count_in durations i
unfolding below count_in
below_step [] i = refl
below_step (ns ∷ durations) i = ground (arith, below_step durations i)

below_zero : (durations : List ℕ) → below durations 0 ≡ 0
unfolding below
below_zero [] = refl
below_zero (ns ∷ durations) = ground (arith, below_zero durations)

-- The greatest of some durations.
unfoldable pub greatest : List ℕ → ℕ
greatest [] = 0
greatest (ns ∷ durations) = let rest = greatest durations in if ltb rest ns then ns else rest

record Counted (s : Series) (durations : List ℕ) : Type 0 where
  total : s.n ≡ length durations
  size : length s.bins ≡ 2049
  bins : (i : ℕ) → get_or s.bins i 0 ≡ count_in durations i
  all_below : below durations 2049 ≡ length durations
  top : s.max_ns ≡ greatest durations

abbrev pub AreU64 : List ℕ → Type 0
AreU64 = All λ ns. ns < 2 ^ 64

series_of-Counted :
    (budget : ℕ) (durations : List ℕ)
    → AreU64 durations
    → Counted (series_of budget durations) durations
unfolding series_of default push count_in below greatest
series_of-Counted budget [] u = record {
  total = refl;
  size = length-replicate {A = ℕ} 2049 0;
  bins = get_or-replicate {A = ℕ} 2049 0;
  all_below = refl;
  top = refl;
}
series_of-Counted budget (ns ∷ durations) (h, u) =
    let ih = series_of-Counted budget durations u in
    let s = series_of budget durations in
    let b = bounds-index ns h in
    record {
      total = omega (arith, ih.total);
      size = length-set s.bins (index ns) (get_or s.bins (index ns) 0 + 1) ∙ ih.size;
      bins = λ i. ground (
        arith,
        get_or-set s.bins (index ns) i (get_or s.bins (index ns) 0 + 1) 0
            (omega (arith, ih.size, b.0)),
        ih.bins i,
        ih.bins (index ns),
        λ (e : index ns ≡ i). ap (count_in durations) e,
      );
      all_below = ground (arith, ih.all_below, b.0);
      top = ground (arith, ih.top);
    }

ranked-stop :
    (b : ℕ) (bins : List ℕ) (i count rank : ℕ)
    → leb rank (count + b) ≡ true
    → ranked (b ∷ bins) i count rank ≡ some i
unfolding ranked
ranked-stop b bins i count rank h = rw (ranked, h) refl

ranked-further :
    (b : ℕ) (bins : List ℕ) (i count rank : ℕ)
    → leb rank (count + b) ≡ false
    → ranked (b ∷ bins) i count rank ≡ ranked bins (i + 1) (count + b) rank
unfolding ranked
ranked-further b bins i count rank h = rw (ranked, h) refl

quantile_at :
    (s : Series) (numerator denominator i : ℕ)
    → (s.n == 0) ≡ false
    → ranked s.bins 0 0 (rank_of s.n numerator denominator) ≡ some i
    → quantile s numerator denominator ≡ some (min (bounds i).0 s.max_ns, min (bounds i).1 s.max_ns)
unfolding quantile
quantile_at s numerator denominator i h e = rw (quantile, h, e) refl

-- The loop stops at the first bucket up to which there are enough durations.
ranked_lem :
    (durations bins : List ℕ) (i rank : ℕ)
    → ((j : ℕ) → get_or bins j 0 ≡ count_in durations (i + j))
    → below durations i < rank
    → rank ≤ below durations (i + length bins)
    → (j : ℕ) × (ranked bins i (below durations i) rank ≡ some j)
      × (below durations j < rank)
      × (rank ≤ below durations (j + 1))
unfolding ranked
ranked_lem durations [] i rank h lo hi =
    absurd (omega (arith, lo, hi, ap (below durations) {x = i + 0} {y = i} (omega arith)))
ranked_lem durations (b ∷ bins) i rank h lo hi =
    let here : i + 0 ≡ i = omega arith in
    let first : b ≡ count_in durations i = h 0 ∙ ap (count_in durations) here in
    let step : below durations i + b ≡ below durations (i + 1) =
      omega (arith, first, below_step durations i) in
    elim (Bool-cases (leb rank (below durations i + b))) [
      | inl stop ↦
          (i, ranked-stop b bins i (below durations i) rank stop, lo, ground (arith, stop, step))
      | inr further ↦
          let (j, at, under, over) =
            ranked_lem durations bins (i + 1) rank
              (λ m. h (suc m) ∙ ap (count_in durations) (omega arith))
              (ground (arith, further, step))
              (omega (
                arith,
                hi,
                ap (below durations) {x = i + suc (length bins)} {y = i + 1 + length bins}
                    (omega arith),
              )) in
          (
            j,
            ranked-further b bins i (below durations i) rank further
                ∙ ap (λ (n : ℕ). ranked bins (i + 1) n rank) step
                ∙ at,
            under,
            over,
          )
    ]

rank_range :
    (n numerator denominator : ℕ)
    → 1 ≤ n
    → 1 ≤ numerator
    → numerator ≤ denominator
    → (1 ≤ rank_of n numerator denominator) × (rank_of n numerator denominator ≤ n)
rank_range n numerator denominator h lo hi =
    let top = n * numerator + (denominator - 1) in
    let r = top / denominator in
    let parts : top % denominator + r * denominator ≡ top = mod-add-div' top denominator in
    let rest : top % denominator < denominator = mod-lt top (omega (arith, lo, hi)) in
    let some_work : 1 * 1 ≤ n * numerator = mul-le-mul h lo in
    let most : n * numerator ≤ n * denominator = mul-le-mul_left n hi in
    (
      elim (Bool-cases (ltb r 1)) [
        | inr fine ↦ ground (arith, fine)
        | inl none_left ↦
            let small : r * denominator ≤ 0 * denominator =
              mul-le-mul_right denominator (ground (arith, none_left)) in
            absurd (omega (arith, parts, rest, some_work, small))
      ],
      elim (Bool-cases (leb r n)) [
        | inl fine ↦ ground (arith, fine)
        | inr large ↦
            let many : suc n * denominator ≤ r * denominator =
              mul-le-mul_right denominator (ground (arith, large)) in
            absurd (omega (arith, parts, many, suc-mul n denominator, most, lo, hi))
      ],
    )

-- A quantile from above 0 to 1 of a series of one or more 64-bit durations is the range of the
-- bucket that has the duration of its rank, up to the greatest of the durations: fewer durations than the
-- rank lie in the buckets below it, and at least as many as the rank do together with its own.
pub quantile-bucket :
    (budget numerator denominator : ℕ) (durations : List ℕ)
    → 1 ≤ length durations
    → AreU64 durations
    → 1 ≤ numerator
    → numerator ≤ denominator
    → let s = series_of budget durations in
      let rank = rank_of (length durations) numerator denominator in
      (i : ℕ) × (quantile s numerator denominator
        ≡ some (min (bounds i).0 (greatest durations), min (bounds i).1 (greatest durations)))
      × (below durations i < rank)
      × (rank ≤ below durations (i + 1))
quantile-bucket budget numerator denominator durations h u lo hi =
    let s = series_of budget durations in
    let v = series_of-Counted budget durations u in
    let rank = rank_of (length durations) numerator denominator in
    let same_rank : rank_of s.n numerator denominator ≡ rank =
      ap (λ (n : ℕ). rank_of n numerator denominator) v.total in
    let range = rank_range (length durations) numerator denominator h lo hi in
    let some_durations : (s.n == 0) ≡ false = ground (arith, v.total, h) in
    let (i, at, under, over) =
      ranked_lem durations s.bins 0 rank (λ j. v.bins j ∙ ap (count_in durations) (omega arith))
        (omega (arith, below_zero durations, range))
        (omega (
          arith,
          range,
          v.all_below,
          ap (below durations) {x = 0 + length s.bins} {y = 2049} (omega (arith, v.size)),
        )) in
    let found : ranked s.bins 0 0 (rank_of s.n numerator denominator) ≡ some i =
      ap (ranked s.bins 0 0) same_rank
      ∙ ap (λ (n : ℕ). ranked s.bins 0 n rank) (sym (below_zero durations))
      ∙ at in
    (
      i,
      quantile_at s numerator denominator i some_durations found
          ∙ ap (λ (top : ℕ). some (min (bounds i).0 top, min (bounds i).1 top)) v.top,
      under,
      over,
    )
