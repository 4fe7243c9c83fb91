-- ===== src/Timestamp/Tests.antt =====
-- Concrete inputs for the theorems of timestamps.
use srtrust.Prelude.{◌^◌, ◌-◌, ◌+◌, ◌≡◌, arith, [], ◌∷◌}
use srtrust.Prelude.Int.{pos}
use srtrust.Timestamp.{new, offset_of}
use srtrust.Timestamp.Wrap.{stamp, observe_all, offset_of-observe_all}

-- A stream that wraps, with a packet of before the wrap after one of behind it.
offset_of-observe_all_example :
    offset_of
      (observe_all (new (stamp 4000000000)) ((2 ^ 32 + 7) ∷ (2 ^ 32 - 9) ∷ []))
      (stamp (2 ^ 32 - 3))
    ≡ pos (2 ^ 32 - 3)
offset_of-observe_all_example =
    offset_of-observe_all 4000000000 ((2 ^ 32 + 7) ∷ (2 ^ 32 - 9) ∷ []) (2 ^ 32 - 3) (omega arith)
      (omega arith, omega arith, (omega arith, omega arith, tt)) (omega arith) (omega arith)
      (omega arith)
