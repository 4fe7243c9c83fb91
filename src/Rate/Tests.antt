-- ===== src/Rate/Tests.antt =====
-- A concrete input for the rates of a window.
use srtrust.Prelude.{
  ℕ, ◌+◌, ◌-◌, ◌*◌, ◌/◌, ◌≡◌, refl, arith, List, [], ◌∷◌, length, some, clamp_u32,
}
use srtrust.Rate.{RateEstimator, new, wire_header, record_packet, delivery_rate}
use srtrust.Rate.Laws.{Counts, record_all, wire_bytes, delivery_rate-window}

-- A window that one packet of 1316 bytes opened at 500 microseconds.
abbrev opened : RateEstimator
opened = record new { window_start_us = some 500; last_us = some 500; packets = 1; bytes = 1360 }

abbrev arrivals : List (ℕ × ℕ)
arrivals = (400_500, 1316) ∷ (800_500, 1316) ∷ []

delivery_rate-window_example :
    (delivery_rate (record_packet (record_all opened arrivals) 1_200_500 1316) ≡ (
      clamp_u32 (1_000_000 * (1 + length arrivals + 1) / (1_200_500 - 500)),
      clamp_u32
          (1_000_000 * (1360 + wire_bytes arrivals + (1316 + wire_header)) / (1_200_500 - 500)),
    ))
    × Counts 1_200_500 0 0 (record_packet (record_all opened arrivals) 1_200_500 1316)
delivery_rate-window_example =
    delivery_rate-window 500 1 1360 opened arrivals 1_200_500 1316 (refl, refl, refl)
      (omega arith, (omega arith, tt)) (omega arith) (omega arith) (omega arith)
