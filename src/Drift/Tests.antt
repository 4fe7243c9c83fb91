-- ===== src/Drift/Tests.antt =====
-- A concrete epoch of the drift tracer.
use srtrust.Prelude.{ℕ, zero, suc, ◌≡◌, refl, arith, List, All, replicate, wrap_i64}
use srtrust.Prelude.Int.{ℤ, pos, negsuc, ◌+ℤ◌, div_ℤ}
use srtrust.Drift.{drift_span}
use srtrust.Drift.Epoch.{IsDelay, total, sample_all, tracer, sample_all-epoch}

All-replicate : (n : ℕ) (d : ℤ) → IsDelay d → All IsDelay (replicate n d)
All-replicate zero d h = tt
All-replicate (suc n) d h = (h, All-replicate n d h)

length-replicate : (n : ℕ) (d : ℤ) → srtrust.Prelude.length (replicate n d) ≡ n
length-replicate zero d = refl
length-replicate (suc n) d = srtrust.Prelude.ap suc (length-replicate n d)

sample_all-epoch_example :
    sample_all (tracer (pos 0) 0 (pos 40) (pos 200)) (replicate 1000 (negsuc 4)) (pos 200)
    ≡ tracer
        (pos 0)
        0
        (wrap_i64 (pos 40 +ℤ div_ℤ (total (replicate 1000 (negsuc 4))) drift_span))
        (pos 200)
sample_all-epoch_example =
    sample_all-epoch (replicate 1000 (negsuc 4)) (pos 40) (pos 200)
      (length-replicate 1000 (negsuc 4)) (All-replicate 1000 (negsuc 4) (omega arith))
