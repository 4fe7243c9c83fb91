-- ===== src/Drift.antt =====
-- crates/srt-protocol/src/drift.rs: the clock drift tracer. The sums of i64 take the wrap-around of
-- a release build.
pub mod Epoch
mod Tests
use srtrust.Prelude.{ℕ, ◌+◌, Option, none, some, leb, if◌then◌else◌, wrap_i64}
use srtrust.Prelude.Int.{ℤ, pos, ◌+ℤ◌, ◌-ℤ◌, div_ℤ}

abbrev pub drift_span : ℕ
drift_span = 1000

pub record DriftTracer : Type 0 where
  pub sum_us : ℤ
  pub count : ℕ
  pub correction_us : ℤ
  pub first_rtt_us : Option ℤ

abbrev pub new : DriftTracer
new = record { sum_us = pos 0; count = 0; correction_us = pos 0; first_rtt_us = none }

-- `get_or_insert`.
abbrev pub first_rtt : DriftTracer → ℤ → ℤ
first_rtt t rtt_us = elim t.first_rtt_us [ none ↦ rtt_us | some first ↦ first ]

unfoldable pub sample : DriftTracer → ℤ → ℤ → DriftTracer
unfolding div_ℤ ◌+ℤ◌ ◌-ℤ◌
sample t observed_us rtt_us =
    let first = first_rtt t rtt_us in
    let rtt_delta = div_ℤ (wrap_i64 (rtt_us -ℤ first)) 2 in
    let sum_us = wrap_i64 (t.sum_us +ℤ wrap_i64 (observed_us -ℤ rtt_delta)) in
    let count = t.count + 1 in
    if leb drift_span count
    then record {
      sum_us = pos 0;
      count = 0;
      correction_us = wrap_i64 (t.correction_us +ℤ div_ℤ sum_us count);
      first_rtt_us = some first;
    }
    else record t { sum_us = sum_us; count = count; first_rtt_us = some first }
