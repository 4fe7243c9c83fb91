-- ===== src/Rtt/Tests.antt =====
-- A concrete input for the bounds of the estimate.
use srtrust.Prelude.{◌+◌, ◌*◌, ◌≤◌, arith, [], ◌∷◌}
use srtrust.Rtt.{RttEstimator, new, rto}
use srtrust.Rtt.Laws.{Within, sample_all, rto-bounds}

-- Samples of 20, 35 and 24 milliseconds.
abbrev estimate : RttEstimator
estimate = sample_all new (20_000_000 ∷ 35_000_000 ∷ 24_000_000 ∷ [])

rto-bounds_example :
    Within 20_000 36_000 estimate.rtt
    × (estimate.rtt ≤ rto estimate)
    × (rto estimate ≤ estimate.rtt + 4 * (18_000 * 1000))
rto-bounds_example =
    rto-bounds 20_000 36_000 18_000 20_000_000 (35_000_000 ∷ 24_000_000 ∷ []) (omega arith)
      (omega arith) (omega arith) (omega arith)
      ((omega arith, omega arith), ((omega arith, omega arith), ((omega arith, omega arith), tt)))
