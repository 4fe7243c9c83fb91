-- ===== src/Drift/Epoch.antt =====
-- One epoch of the drift tracer.
use srtrust.Prelude.{
  ℕ, ◌+◌, ◌*◌, ◌^◌, ◌≤◌, ◌≡◌, refl, sym, ap, ◌∙◌, arith, some, false, List, [], ◌∷◌, length, leb,
  All, wrap_i64,
}
use srtrust.Prelude.Int.{ℤ, pos, negsuc, pos_part, neg_part, ◌+ℤ◌, ◌-ℤ◌, div_ℤ, int_laws, +ℤ_assoc}
use srtrust.Drift.{DriftTracer, drift_span, sample}

-- At most 2 ^ 50 microseconds, on either side.
abbrev pub IsDelay : ℤ → Type 0
IsDelay d = pos_part d + neg_part d ≤ 2 ^ 50

abbrev pub total : List ℤ → ℤ
total [] = pos 0
total (d ∷ ds) = d +ℤ total ds

-- A run of samples at one round-trip time.
abbrev pub sample_all : DriftTracer → List ℤ → ℤ → DriftTracer
sample_all t [] rtt = t
sample_all t (d ∷ ds) rtt = sample_all (sample t d rtt) ds rtt

-- The tracer after `count` samples of an epoch.
abbrev pub tracer : ℤ → ℕ → ℤ → ℤ → DriftTracer
tracer sum_us count correction_us rtt = record {
  sum_us = sum_us;
  count = count;
  correction_us = correction_us;
  first_rtt_us = some rtt;
}

wrap_small : (z : ℤ) → pos_part z + neg_part z ≤ 2 ^ 62 → wrap_i64 z ≡ z
wrap_small (pos n) h = ground arith
wrap_small (negsuc n) h = ground arith

self_cancel : (rtt : ℤ) → rtt -ℤ rtt ≡ pos 0
unfolding ◌-ℤ◌
self_cancel rtt = ground arith

minus_zero : (d : ℤ) → d -ℤ pos 0 ≡ d
unfolding ◌-ℤ◌
minus_zero d = ground arith

size-add :
    (a b : ℤ)
    → pos_part (a +ℤ b) + neg_part (a +ℤ b) ≤ pos_part a + neg_part a + (pos_part b + neg_part b)
unfolding ◌+ℤ◌
size-add a b = ground arith

sample-tracer :
    (s d c rtt : ℤ) (k : ℕ)
    → k + 1 ≤ 999
    → pos_part s + neg_part s ≤ k * 2 ^ 50
    → IsDelay d
    → sample (tracer s k c rtt) d rtt ≡ tracer (s +ℤ d) (k + 1) c rtt
unfolding sample
sample-tracer s d c rtt k h b w =
    let test : leb 1000 (k + 1) ≡ false = ground arith in
    rw
      (
        self_cancel rtt,
        minus_zero d,
        wrap_small d (omega (arith, w)),
        wrap_small (s +ℤ d) (omega (arith, size-add s d, b, w)),
        test,
      )
      refl

sample-last :
    (s d c rtt : ℤ)
    → pos_part s + neg_part s ≤ 999 * 2 ^ 50
    → IsDelay d
    → sample (tracer s 999 c rtt) d rtt
      ≡ tracer (pos 0) 0 (wrap_i64 (c +ℤ div_ℤ (s +ℤ d) drift_span)) rtt
unfolding sample
sample-last s d c rtt b w =
    rw
      (
        self_cancel rtt,
        minus_zero d,
        wrap_small d (omega (arith, w)),
        wrap_small (s +ℤ d) (omega (arith, size-add s d, b, w)),
      )
      refl

plus_zero : (s : ℤ) → s +ℤ pos 0 ≡ s
plus_zero s = omega int_laws

zero_plus : (s : ℤ) → pos 0 +ℤ s ≡ s
zero_plus s = omega int_laws

sample_all-tracer :
    (ds : List ℤ) (d s c rtt : ℤ) (k : ℕ)
    → k + length (d ∷ ds) ≡ drift_span
    → pos_part s + neg_part s ≤ k * 2 ^ 50
    → All IsDelay (d ∷ ds)
    → sample_all (tracer s k c rtt) (d ∷ ds) rtt
      ≡ tracer (pos 0) 0 (wrap_i64 (c +ℤ div_ℤ (s +ℤ total (d ∷ ds)) drift_span)) rtt
sample_all-tracer [] d s c rtt k h b w =
    let last : k ≡ 999 = omega (arith, h) in
    ap (λ (n : ℕ). sample (tracer s n c rtt) d rtt) last
    ∙ sample-last s d c rtt (omega (arith, b, last)) w.0
    ∙ ap (λ z. tracer (pos 0) 0 (wrap_i64 (c +ℤ div_ℤ (s +ℤ z) drift_span)) rtt) (sym (plus_zero d))
sample_all-tracer (e ∷ ds) d s c rtt k h b w =
    ap (λ t. sample_all t (e ∷ ds) rtt) (sample-tracer s d c rtt k (omega (arith, h)) b w.0)
    ∙ sample_all-tracer ds e (s +ℤ d) c rtt (k + 1) (omega (arith, h))
        (omega (arith, size-add s d, b, w.0)) w.1
    ∙ ap (λ z. tracer (pos 0) 0 (wrap_i64 (c +ℤ div_ℤ z drift_span)) rtt)
        (+ℤ_assoc s d (total (e ∷ ds)))

-- From the start of an epoch, a thousand samples at an unchanged round-trip time, none beyond 2 ^ 50
-- microseconds, add their mean to the correction and start the next epoch from nothing. The mean is
-- the exact sum of the samples divided by their number towards zero: no sum has wrapped.
pub sample_all-epoch :
    (ds : List ℤ) (c rtt : ℤ)
    → length ds ≡ drift_span
    → All IsDelay ds
    → sample_all (tracer (pos 0) 0 c rtt) ds rtt
      ≡ tracer (pos 0) 0 (wrap_i64 (c +ℤ div_ℤ (total ds) drift_span)) rtt
sample_all-epoch [] c rtt h w = absurd (omega (arith, h))
sample_all-epoch (d ∷ ds) c rtt h w =
    sample_all-tracer ds d (pos 0) c rtt 0 (omega (arith, h)) (omega arith) w
    ∙ ap (λ z. tracer (pos 0) 0 (wrap_i64 (c +ℤ div_ℤ z drift_span)) rtt)
        (zero_plus (total (d ∷ ds)))
