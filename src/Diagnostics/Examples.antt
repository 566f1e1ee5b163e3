-- ===== src/Diagnostics/Examples.antt =====
-- Tests of the statistics.
use holodori_phone_trackpad.Prelude.{ℕ, ◌+◌, ◌≡◌, ◌≤◌, ◌<◌, arith, min, some, List, [], ◌∷◌}
use holodori_phone_trackpad.Diagnostics.{index, bounds, quantile}
use holodori_phone_trackpad.Diagnostics.Buckets.{bounds-index}
use holodori_phone_trackpad.Diagnostics.Quantiles.{series_of, greatest, below, quantile-bucket}

bounds-index_example :
    (index 5000000 < 2049)
    × ((bounds (index 5000000)).0 ≤ 5000000)
    × (5000000 ≤ (bounds (index 5000000)).1)
bounds-index_example = bounds-index 5000000 (omega arith)

abbrev durations : List ℕ
durations = 900 ∷ 31 ∷ 5000000 ∷ []

-- The median of three durations.
quantile-bucket_example :
    let s = series_of 1000 durations in
    (i : ℕ) × (quantile s 1 2
      ≡ some (min (bounds i).0 (greatest durations), min (bounds i).1 (greatest durations)))
    × (below durations i < 2)
    × (2 ≤ below durations (i + 1))
quantile-bucket_example =
    quantile-bucket 1000 1 2 durations (omega arith) (omega arith, (omega arith, (omega arith, tt)))
      (omega arith) (omega arith)
