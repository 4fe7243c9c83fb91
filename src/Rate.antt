-- ===== src/Rate.antt =====
-- crates/srt-protocol/src/rate.rs: the receiver's windowed delivery rate. The times are
-- microseconds. Sums and products take the wrap-around of a release build.
pub mod Laws
mod Tests
use srtrust.Prelude.{ℕ, ◌+◌, ◌-◌, ◌*◌, ◌/◌, ◌%◌, ◌^◌, Bool, true, false, Option, none, some}
use srtrust.Prelude.{ltb, leb, ◌==◌, ◌&&◌, ◌||◌, if◌then◌else◌, clamp_u32}

abbrev pub wire_header : ℕ
wire_header = 16 + 28

abbrev pub window_us : ℕ
window_us = 1_000_000

pub record RateEstimator : Type 0 where
  pub window_start_us : Option ℕ
  pub last_us : Option ℕ
  pub packets : ℕ
  pub bytes : ℕ
  pub min_gap_us : ℕ
  pub pps : ℕ
  pub bps : ℕ
  pub peak_pps : ℕ

abbrev pub new : RateEstimator
new = record {
  window_start_us = none;
  last_us = none;
  packets = 0;
  bytes = 0;
  min_gap_us = 0;
  pps = 0;
  bps = 0;
  peak_pps = 0;
}

-- The smallest gap after an arrival at `now`.
unfoldable pub next_gap : Option ℕ → ℕ → ℕ → ℕ
next_gap none min_gap now = min_gap
next_gap (some last) min_gap now =
    if ltb 0 (now - last) && (min_gap == 0 || ltb (now - last) min_gap)
    then clamp_u32 (now - last)
    else min_gap

abbrev pub start_of : RateEstimator → ℕ → ℕ
start_of e now = elim e.window_start_us [ none ↦ now | some start ↦ start ]

-- The counters with the packet of this arrival.
unfoldable pub counted : RateEstimator → ℕ → ℕ → RateEstimator
unfolding next_gap
counted e now payload = record e {
  window_start_us = some (start_of e now);
  last_us = some now;
  packets = (e.packets + 1) % 2 ^ 32;
  bytes = (e.bytes + (payload + wire_header)) % 2 ^ 64;
  min_gap_us = next_gap e.last_us e.min_gap_us now;
}

-- A window that has run for `elapsed` gives its rates, and the next one starts.
unfoldable pub finalize : RateEstimator → ℕ → ℕ → RateEstimator
finalize e now elapsed = record e {
  pps = clamp_u32 (1_000_000 * e.packets % 2 ^ 64 / elapsed);
  bps = clamp_u32 (1_000_000 * e.bytes % 2 ^ 64 / elapsed);
  peak_pps = if ltb 0 e.min_gap_us then clamp_u32 (1_000_000 / e.min_gap_us) else e.peak_pps;
  window_start_us = some now;
  packets = 0;
  bytes = 0;
  min_gap_us = 0;
}

unfoldable pub record_packet : RateEstimator → ℕ → ℕ → RateEstimator
unfolding counted finalize
record_packet e now payload =
    let next = counted e now payload in
    let elapsed = now - start_of e now in
    if leb window_us elapsed then finalize next now elapsed else next

abbrev pub delivery_rate : RateEstimator → ℕ × ℕ
delivery_rate e = (e.pps, e.bps)

abbrev pub peak_rate : RateEstimator → ℕ
peak_rate e = e.peak_pps
