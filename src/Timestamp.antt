-- ===== src/Timestamp.antt =====
-- crates/srt-protocol/src/timestamp.rs: 32-bit microsecond timestamps, and the tracker that
-- follows a stream of them across the numeric wraps.
pub mod Wrap
mod Tests
use srtrust.Prelude.{ℕ, ◌+◌, ◌-◌, ◌%◌, ◌^◌, ◌<◌, ltb, if◌then◌else◌}
use srtrust.Prelude.{Ordering, order_of_sign, as_i32, as_i64}
use srtrust.Prelude.Int.{ℤ, pos, ◌+ℤ◌, ltb_ℤ}

abbrev pub Timestamp : Type 0
Timestamp = ℕ

-- What the u32 holds.
abbrev pub IsTimestamp : Timestamp → Type 0
IsTimestamp t = t < 2 ^ 32

unfoldable pub wrapping_add_micros : Timestamp → ℕ → Timestamp
wrapping_add_micros t micros = (t + micros) % 2 ^ 32

unfoldable pub wrapping_diff : Timestamp → Timestamp → ℤ
wrapping_diff t other = as_i32 ((t + 2 ^ 32 - other) % 2 ^ 32)

unfoldable pub circular_cmp : Timestamp → Timestamp → Ordering
unfolding wrapping_diff
circular_cmp t other = order_of_sign (wrapping_diff t other)

-- `base` is the time of the completed 2 ^ 32 periods, a u64.
pub record TsbpdWrap : Type 0 where
  pub base : ℕ
  pub last : Timestamp

unfoldable pub new : Timestamp → TsbpdWrap
new first = record { base = 0; last = first }

-- `base += 1 << 32` does not reach 2 ^ 64 in the lifetime of a connection.
unfoldable pub observe : TsbpdWrap → Timestamp → TsbpdWrap
unfolding wrapping_diff
observe w ts =
    if ltb_ℤ (pos 0) (wrapping_diff ts w.last)
    then (if ltb ts w.last
        then record { base = w.base + 2 ^ 32; last = ts }
        else record w { last = ts })
    else w

-- The i64 sum of the base, the newest timestamp and the signed distance from it.
unfoldable pub offset_of : TsbpdWrap → Timestamp → ℤ
unfolding wrapping_diff ◌+ℤ◌
offset_of w ts = as_i64 (w.base % 2 ^ 64) +ℤ pos w.last +ℤ wrapping_diff ts w.last
