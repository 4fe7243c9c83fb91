-- ===== src/Rate/Laws.antt =====
-- The rates of a whole window.
use srtrust.Prelude.{
  ℕ, suc, ◌+◌, ◌-◌, ◌*◌, ◌/◌, ◌%◌, ◌^◌, ◌<◌, ◌≤◌, ◌≡◌, refl, arith, true, false, some, leb,
  clamp_u32,
}
use srtrust.Prelude.{List, [], ◌∷◌, All, length}
use srtrust.Rate.{
  RateEstimator, wire_header, window_us, counted, finalize, record_packet, delivery_rate,
}

-- Arrivals: the time and the payload of each.
abbrev pub record_all : RateEstimator → List (ℕ × ℕ) → RateEstimator
record_all e [] = e
record_all e (a ∷ rest) = record_all (record_packet e a.0 a.1) rest

abbrev pub wire_bytes : List (ℕ × ℕ) → ℕ
wire_bytes [] = 0
wire_bytes (a ∷ rest) = a.1 + wire_header + wire_bytes rest

-- The window that started at `start` has counted `n` packets of `b` bytes.
abbrev pub Counts : ℕ → ℕ → ℕ → RateEstimator → Type 0
Counts start n b e = (e.window_start_us ≡ some start) × (e.packets ≡ n) × (e.bytes ≡ b)

record_packet-inside :
    (start n b now payload : ℕ) (e : RateEstimator)
    → Counts start n b e
    → now < start + window_us
    → n + 1 < 2 ^ 32
    → b + (payload + wire_header) < 2 ^ 64
    → Counts start (n + 1) (b + (payload + wire_header)) (record_packet e now payload)
unfolding record_packet counted
record_packet-inside start n b now payload e c h hn hb =
    let inside : leb window_us (now - start) ≡ false = ground arith in
    rw (c.0, inside) (refl, omega arith, omega arith)

record_packet-closes :
    (start n b now payload : ℕ) (e : RateEstimator)
    → Counts start n b e
    → start + window_us ≤ now
    → n + 1 < 2 ^ 32
    → 1_000_000 * (b + (payload + wire_header)) < 2 ^ 64
    → (delivery_rate (record_packet e now payload) ≡ (
      clamp_u32 (1_000_000 * (n + 1) / (now - start)),
      clamp_u32 (1_000_000 * (b + (payload + wire_header)) / (now - start)),
    ))
      × Counts now 0 0 (record_packet e now payload)
unfolding record_packet counted finalize
record_packet-closes start n b now payload e c h hn hb =
    let past : leb window_us (now - start) ≡ true = ground arith in
    let ps : 1_000_000 * ((e.packets + 1) % 2 ^ 32) % 2 ^ 64 ≡ 1_000_000 * (n + 1) = omega arith in
    let bs : 1_000_000 * ((e.bytes + (payload + wire_header)) % 2 ^ 64) % 2 ^ 64
        ≡ 1_000_000 * (b + (payload + wire_header)) =
      omega arith in
    rw (c.0, past, ps, bs) (refl, (refl, refl, refl))

-- A window that opened at `start` and has counted n packets of b bytes, and that arrivals inside it
-- and then one at or past its end fill, reports all its packets and bytes (a header of 44 with each
-- payload) for each second of the time it ran, where the counts fit their words; the next window
-- opens empty at the last arrival.
pub delivery_rate-window :
    (start n b : ℕ) (e : RateEstimator) (inside : List (ℕ × ℕ)) (now payload : ℕ)
    → Counts start n b e
    → All (λ (a : ℕ × ℕ). a.0 < start + window_us) inside
    → start + window_us ≤ now
    → n + length inside + 1 < 2 ^ 32
    → 1_000_000 * (b + wire_bytes inside + (payload + wire_header)) < 2 ^ 64
    → (delivery_rate (record_packet (record_all e inside) now payload) ≡ (
      clamp_u32 (1_000_000 * (n + length inside + 1) / (now - start)),
      clamp_u32 (1_000_000 * (b + wire_bytes inside + (payload + wire_header)) / (now - start)),
    ))
      × Counts now 0 0 (record_packet (record_all e inside) now payload)
delivery_rate-window start n b e [] now payload c hs h hn hb =
    let ns : n + 0 + 1 ≡ n + 1 = omega arith in
    let bs : b + 0 + (payload + wire_header) ≡ b + (payload + wire_header) = omega arith in
    rw (ns, bs) (record_packet-closes start n b now payload e c h (omega arith) (omega arith))
delivery_rate-window start n b e (a ∷ rest) now payload c hs h hn hb =
    let next = record_packet-inside start n b a.0 a.1 e c hs.0 (omega arith) (omega arith) in
    let later =
      delivery_rate-window start (n + 1) (b + (a.1 + wire_header)) (record_packet e a.0 a.1) rest
        now payload next hs.1 h (omega arith) (omega arith) in
    let ns : n + 1 + length rest + 1 ≡ n + suc (length rest) + 1 = omega arith in
    let bs : b + (a.1 + wire_header) + wire_bytes rest + (payload + wire_header)
        ≡ b + (a.1 + wire_header + wire_bytes rest) + (payload + wire_header) =
      omega arith in
    rw (← ns, ← bs) later
