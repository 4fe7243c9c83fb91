-- ===== src/Timestamp/Wrap.antt =====
-- The tracker reconstructs a 64-bit time line from 32-bit timestamps.
use srtrust.Prelude.{ℕ, ◌+◌, ◌%◌, ◌^◌, ◌≤◌, ◌<◌, ◌≡◌, ◌≢◌, ◌↔◌, max, arith, List, [], ◌∷◌}
use srtrust.Prelude.{reverse_order}
use srtrust.Prelude.Int.{pos, sub_ℕ}
use srtrust.Timestamp.{
  Timestamp, IsTimestamp, wrapping_add_micros, wrapping_diff, circular_cmp, TsbpdWrap, new, observe,
  offset_of,
}

-- The timestamp that the sender puts on the wire for a time in microseconds.
abbrev pub stamp : ℕ → Timestamp
stamp t = t % 2 ^ 32

-- Two times closer than half the range have the difference of their timestamps.
pub wrapping_diff-stamp :
    (t u : ℕ) → t < u + 2 ^ 31 → u ≤ t + 2 ^ 31 → wrapping_diff (stamp t) (stamp u) ≡ sub_ℕ t u
unfolding wrapping_diff
wrapping_diff-stamp t u h k = ground arith

-- Comparing timestamps the other way round gives the opposite answer exactly when they are not
-- half the range apart.
pub circular_cmp_antisym :
    (a b : Timestamp)
    → IsTimestamp a
    → IsTimestamp b
    → (circular_cmp a b ≡ reverse_order (circular_cmp b a)) ↔ (a ≢ wrapping_add_micros b (2 ^ 31))
unfolding circular_cmp wrapping_diff wrapping_add_micros
circular_cmp_antisym a b ha hb = ground arith

-- The tracker stands at the newest time `t`.
pub record Tracks (w : TsbpdWrap) (t : ℕ) : Type 0 where
  pub total : w.base + w.last ≡ t
  pub low : w.last ≡ t % 2 ^ 32

pub new-Tracks : (t : ℕ) → t < 2 ^ 32 → Tracks (new (stamp t)) t
unfolding new
new-Tracks t h = omega arith

-- A packet of time `t` within half the range of the newest time moves the tracker to the later one.
pub observe-Tracks :
    (w : TsbpdWrap) (t newest : ℕ)
    → Tracks w newest
    → t < newest + 2 ^ 31
    → newest ≤ t + 2 ^ 31
    → Tracks (observe w (stamp t)) (max newest t)
unfolding observe
observe-Tracks w t newest tr h k = ground arith

-- A stream of times each within half the range of the newest before it.
abbrev pub Streams : ℕ → List ℕ → Type 0
Streams newest [] = Unit
Streams newest (t ∷ ts) = (t < newest + 2 ^ 31) × (newest ≤ t + 2 ^ 31) × Streams (max newest t) ts

abbrev pub newest_of : ℕ → List ℕ → ℕ
newest_of n [] = n
newest_of n (t ∷ ts) = newest_of (max n t) ts

abbrev pub observe_all : TsbpdWrap → List ℕ → TsbpdWrap
observe_all w [] = w
observe_all w (t ∷ ts) = observe_all (observe w (stamp t)) ts

pub observe_all-Tracks :
    (ts : List ℕ) (w : TsbpdWrap) (newest : ℕ)
    → Tracks w newest
    → Streams newest ts
    → Tracks (observe_all w ts) (newest_of newest ts)
observe_all-Tracks [] w newest tr h = tr
observe_all-Tracks (t ∷ ts) w newest tr h =
    observe_all-Tracks ts (observe w (stamp t)) (max newest t)
      (observe-Tracks w t newest tr h.0 h.1) h.2

offset_of-Tracks :
    (w : TsbpdWrap) (t newest : ℕ)
    → Tracks w newest
    → newest < 2 ^ 63
    → t < newest + 2 ^ 31
    → newest ≤ t + 2 ^ 31
    → offset_of w (stamp t) ≡ pos t
unfolding offset_of
offset_of-Tracks w t newest tr small h k = ground arith

-- After any stream of timestamps, in any order and across any number of wraps, in which each time
-- is within 2 ^ 31 microseconds of the newest before it, the offset of one more such timestamp is
-- the very time it was made from, if the first time is in the first period and the newest below
-- 2 ^ 63.
pub offset_of-observe_all :
    (first : ℕ) (ts : List ℕ) (t : ℕ)
    → first < 2 ^ 32
    → Streams first ts
    → newest_of first ts < 2 ^ 63
    → t < newest_of first ts + 2 ^ 31
    → newest_of first ts ≤ t + 2 ^ 31
    → offset_of (observe_all (new (stamp first)) ts) (stamp t) ≡ pos t
offset_of-observe_all first ts t hf hs small h k =
    offset_of-Tracks _ t (newest_of first ts)
      (observe_all-Tracks ts (new (stamp first)) first (new-Tracks first hf) hs) small h k
