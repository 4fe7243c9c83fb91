-- ===== src/Rtt.antt =====
-- crates/srt-protocol/src/rtt.rs: the round-trip time estimator. A Duration is its nanoseconds.
pub mod Laws
mod Tests
use srtrust.Prelude.{ℕ, ◌+◌, ◌-◌, ◌*◌, ◌/◌, ◌%◌, ◌^◌, Bool, true, false, ltb, if◌then◌else◌, not}

abbrev pub Duration : Type 0
Duration = ℕ

abbrev pub from_micros : ℕ → Duration
from_micros us = us * 1000

abbrev pub initial_rtt : Duration
initial_rtt = 100_000_000

abbrev pub initial_rtt_var : Duration
initial_rtt_var = 50_000_000

pub record RttEstimator : Type 0 where
  pub rtt : Duration
  pub var : Duration
  pub sampled : Bool

abbrev pub new : RttEstimator
new = record { rtt = initial_rtt; var = initial_rtt_var; sampled = false }

abbrev u64_max : ℕ
u64_max = 2 ^ 64 - 1

abbrev saturate : ℕ → ℕ
saturate n = if ltb u64_max n then u64_max else n

unfoldable pub micros : Duration → ℕ
micros d = saturate (d / 1000)

abbrev abs_diff : ℕ → ℕ → ℕ
abs_diff a b = if ltb a b then b - a else a - b

-- The sums of u64 are taken with the wrap-around of a release build.
unfoldable pub blend_var : ℕ → ℕ → ℕ → ℕ
blend_var old_var old_rtt rtt = (saturate (old_var * 3) + abs_diff old_rtt rtt) % 2 ^ 64 / 4

unfoldable pub blend_rtt : ℕ → ℕ → ℕ
blend_rtt old_rtt rtt = (saturate (old_rtt * 7) + rtt) % 2 ^ 64 / 8

unfoldable pub sample : RttEstimator → Duration → RttEstimator
unfolding micros blend_var blend_rtt
sample e s =
    if not e.sampled
    then record { rtt = s; var = from_micros (micros s / 2); sampled = true }
    else record {
      rtt = from_micros (blend_rtt (micros e.rtt) (micros s));
      var = from_micros (blend_var (micros e.var) (micros e.rtt) (micros s));
      sampled = true;
    }

unfoldable pub rto : RttEstimator → Duration
rto e = e.rtt + 4 * e.var
