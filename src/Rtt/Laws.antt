-- ===== src/Rtt/Laws.antt =====
-- Bounds of the estimate.
use srtrust.Prelude.{ℕ, ◌+◌, ◌*◌, ◌/◌, ◌^◌, ◌<◌, ◌≤◌, ◌≡◌, refl, arith, true}
use srtrust.Prelude.{List, [], ◌∷◌, All}
use srtrust.Rtt.{Duration, RttEstimator, new, micros, blend_var, blend_rtt, sample, rto}

-- Below 2^60 microseconds nothing saturates or wraps.
abbrev pub Within : ℕ → ℕ → Duration → Type 0
Within lo hi d = (lo ≤ d / 1000) × (d / 1000 ≤ hi)

micros_lem : (d : Duration) → d / 1000 < 2 ^ 60 → micros d ≡ d / 1000
unfolding micros
micros_lem d h = ground arith

blend_rtt-between :
    (a b lo hi : ℕ)
    → lo ≤ a
    → a ≤ hi
    → lo ≤ b
    → b ≤ hi
    → hi < 2 ^ 60
    → (lo ≤ blend_rtt a b) × (blend_rtt a b ≤ hi)
unfolding blend_rtt
blend_rtt-between a b lo hi h1 h2 h3 h4 h5 = ground arith

blend_var-bound :
    (v a b lo hi m : ℕ)
    → lo ≤ a
    → a ≤ hi
    → lo ≤ b
    → b ≤ hi
    → hi < 2 ^ 60
    → v ≤ m
    → m ≤ hi
    → hi ≤ lo + m
    → blend_var v a b ≤ m
unfolding blend_var
blend_var-bound v a b lo hi m h1 h2 h3 h4 h5 h6 h7 h8 = ground arith

abbrev pub sample_all : RttEstimator → List Duration → RttEstimator
sample_all e [] = e
sample_all e (s ∷ ss) = sample_all (sample e s) ss

-- A sampled estimate whose mean lies in [lo, hi] and whose variance is at most m.
abbrev pub IsEstimate : ℕ → ℕ → ℕ → RttEstimator → Type 0
IsEstimate lo hi m e = (e.sampled ≡ true) × Within lo hi e.rtt × (e.var ≤ m * 1000)

sample-IsEstimate :
    (lo hi m : ℕ) (e : RttEstimator) (s : Duration)
    → hi < 2 ^ 60
    → m ≤ hi
    → hi ≤ lo + m
    → IsEstimate lo hi m e
    → Within lo hi s
    → IsEstimate lo hi m (sample e s)
unfolding sample
sample-IsEstimate lo hi m e s h hm hd he hs =
    let r = e.rtt / 1000 in
    let v = e.var / 1000 in
    let b = blend_rtt-between r (s / 1000) lo hi he.1.0 he.1.1 hs.0 hs.1 h in
    let c = blend_var-bound v r (s / 1000) lo hi m he.1.0 he.1.1 hs.0 hs.1 h (omega arith) hm hd in
    rw
      (
        he.0,
        micros_lem s (omega arith),
        micros_lem e.rtt (omega arith),
        micros_lem e.var (omega arith),
      )
      (refl, (omega arith, omega arith), omega arith)

sample_all-IsEstimate :
    (lo hi m : ℕ) (ss : List Duration) (e : RttEstimator)
    → hi < 2 ^ 60
    → m ≤ hi
    → hi ≤ lo + m
    → IsEstimate lo hi m e
    → All (Within lo hi) ss
    → IsEstimate lo hi m (sample_all e ss)
sample_all-IsEstimate lo hi m [] e h hm hd he hs = he
sample_all-IsEstimate lo hi m (s ∷ ss) e h hm hd he hs =
    sample_all-IsEstimate lo hi m ss (sample e s) h hm hd
      (sample-IsEstimate lo hi m e s h hm hd he hs.0) hs.1

-- Once a sample was taken, whatever the estimator started from, samples between lo and hi
-- microseconds (hi below 2^60) keep the mean between them, and the retransmission timeout is at
-- least the mean and at most the mean with four times m microseconds, where m is at most hi and at
-- least hi / 2 and hi - lo.
pub rto-bounds :
    (lo hi m : ℕ) (s : Duration) (ss : List Duration)
    → hi < 2 ^ 60
    → m ≤ hi
    → hi ≤ lo + m
    → hi ≤ 2 * m
    → All (Within lo hi) (s ∷ ss)
    → Within lo hi (sample_all new (s ∷ ss)).rtt
      × ((sample_all new (s ∷ ss)).rtt ≤ rto (sample_all new (s ∷ ss)))
      × (rto (sample_all new (s ∷ ss)) ≤ (sample_all new (s ∷ ss)).rtt + 4 * (m * 1000))
unfolding rto
rto-bounds lo hi m s ss h hm hd hh hs =
    let fresh : IsEstimate lo hi m (sample new s) =
      unfold sample in rw (micros_lem s (omega arith)) (refl, hs.0, omega arith) in
    let all = sample_all-IsEstimate lo hi m ss (sample new s) h hm hd fresh hs.1 in
    (all.1, omega arith, omega arith)
