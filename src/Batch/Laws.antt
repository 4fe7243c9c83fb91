-- ===== src/Batch/Laws.antt =====
-- Batches and splits lose nothing, and keep their bounds.
use mathlib.Core.Path.{subst}
use srtrust.Prelude.{
  ℕ, zero, suc, ◌-◌, ◌≤◌, ◌<◌, ◌≡◌, refl, sym, ap, ◌∙◌, arith, min, max, List, [], ◌∷◌, ◌++◌,
  length, take, drop, take-append-drop, take-all, length-take, length-drop, length-append, ◌==◌,
  ltb, Bool-cases, inl, inr, ==_iff, All, ◌||◌, if◌then◌else◌,
}
use native.Mathlib.Decide.{dec_lt}
use srtrust.Batch.{run_length, batches_from, gso_batches, split_from, gro_split}

abbrev pub flatten : {A : Type 0} → List (List A) → List A
flatten [] = []
flatten (xs ∷ xss) = xs ++ flatten xss

batches_from-flatten :
    (fuel cap : ℕ) (ds : List (List ℕ)) → length ds ≤ fuel → flatten (batches_from fuel cap ds) ≡ ds
unfolding batches_from
batches_from-flatten zero cap [] h = refl
batches_from-flatten zero cap (d ∷ ds) h = absurd (omega arith)
batches_from-flatten (suc fuel) cap [] h = refl
batches_from-flatten (suc fuel) cap (d ∷ ds) h =
    let n = run_length (cap - 1) (length d) ds in
    ap (λ es. d ∷ (take n ds ++ es))
      (batches_from-flatten fuel cap (drop n ds) (omega (arith, length-drop n ds)))
    ∙ ap (λ es. d ∷ es) (take-append-drop n ds)

-- A datagram of a given length.
abbrev pub HasLength : ℕ → List ℕ → Type 0
HasLength n d = length d ≡ n

run_length-equal :
    (room n : ℕ) (ds : List (List ℕ)) → All (HasLength n) (take (run_length room n ds) ds)
unfolding run_length
run_length-equal zero n ds = tt
run_length-equal (suc room) n [] = tt
run_length-equal (suc room) n (d ∷ ds) = elim (Bool-cases (length d == n)) [
  | inl e ↦ rw e ((==_iff (length d) n).0 e, run_length-equal room n ds)
  | inr e ↦ rw e tt
]

run_length-room : (room n : ℕ) (ds : List (List ℕ)) → run_length room n ds ≤ room
unfolding run_length
run_length-room zero n ds = omega arith
run_length-room (suc room) n [] = omega arith
run_length-room (suc room) n (d ∷ ds) = ground (arith, run_length-room room n ds)

-- A batch of at most `cap` datagrams, all as long as the first.
abbrev pub IsBatch : ℕ → List (List ℕ) → Type 0
IsBatch cap [] = ⊥
IsBatch cap (d ∷ ds) = (length (d ∷ ds) ≤ cap) × All (HasLength (length d)) ds

batches_from-IsBatch :
    (fuel cap : ℕ) (ds : List (List ℕ)) → 1 ≤ cap → All (IsBatch cap) (batches_from fuel cap ds)
unfolding batches_from
batches_from-IsBatch zero cap ds h = tt
batches_from-IsBatch (suc fuel) cap [] h = tt
batches_from-IsBatch (suc fuel) cap (d ∷ ds) h =
    let n = run_length (cap - 1) (length d) ds in
    (
      (
        omega (arith, length-take n ds, run_length-room (cap - 1) (length d) ds),
        run_length-equal (cap - 1) (length d) ds,
      ),
      batches_from-IsBatch fuel cap (drop n ds) h,
    )

-- The batches are the datagrams in order, none lost or repeated; each batch holds at least one
-- datagram and at most the larger of 1 and the bound, all of one length.
pub gso_batches-flatten :
    (datagrams : List (List ℕ)) (max_segments : ℕ)
    → (flatten (gso_batches datagrams max_segments) ≡ datagrams)
      × All (IsBatch (max max_segments 1)) (gso_batches datagrams max_segments)
unfolding gso_batches
gso_batches-flatten datagrams max_segments = (
  batches_from-flatten (length datagrams) (max max_segments 1) datagrams (omega arith),
  batches_from-IsBatch (length datagrams) (max max_segments 1) datagrams (omega arith),
)

split_from-flatten :
    (fuel step : ℕ) (bytes : List ℕ)
    → 1 ≤ step
    → length bytes ≤ fuel
    → flatten (split_from fuel step bytes) ≡ bytes
unfolding split_from
split_from-flatten zero step [] s h = refl
split_from-flatten zero step (b ∷ bytes) s h = absurd (omega arith)
split_from-flatten (suc fuel) step [] s h = refl
split_from-flatten (suc fuel) step (b ∷ bytes) s h =
    ap (λ es. take step (b ∷ bytes) ++ es)
      (split_from-flatten fuel step (drop step (b ∷ bytes)) s
        (omega (arith, length-drop step (b ∷ bytes))))
    ∙ take-append-drop step (b ∷ bytes)

-- Segments of `step` bytes each, the last one of at least one byte and at most `step`.
abbrev pub AreSegments : ℕ → List (List ℕ) → Type 0
AreSegments step [] = Unit {0}
AreSegments step (s ∷ []) = (1 ≤ length s) × (length s ≤ step)
AreSegments step (s ∷ t ∷ ts) = (length s ≡ step) × AreSegments step (t ∷ ts)

-- A full segment before the others, which are empty only where no bytes are left.
cons-AreSegments :
    (step : ℕ) (s bytes : List ℕ) (ts : List (List ℕ))
    → 1 ≤ length s
    → length s ≤ step
    → flatten ts ≡ bytes
    → (1 ≤ length bytes → length s ≡ step)
    → AreSegments step ts
    → AreSegments step (s ∷ ts)
cons-AreSegments step s bytes [] low high e full a = (low, high)
cons-AreSegments step s bytes (t ∷ []) low high e full a =
    let some_left : 1 ≤ length bytes = omega (arith, ap length e, length-append t [], a.0) in
    (full some_left, a)
cons-AreSegments step s bytes (t ∷ u ∷ us) low high e full a =
    let some_left : 1 ≤ length bytes =
      omega (arith, ap length e, length-append t (flatten (u ∷ us)), a.0, low, high) in
    (full some_left, a)

split_from-AreSegments :
    (fuel step : ℕ) (bytes : List ℕ)
    → 1 ≤ step
    → length bytes ≤ fuel
    → AreSegments step (split_from fuel step bytes)
unfolding split_from
split_from-AreSegments zero step bytes s h = tt
split_from-AreSegments (suc fuel) step [] s h = tt
split_from-AreSegments (suc fuel) step (b ∷ bytes) s h =
    let left : length (drop step (b ∷ bytes)) ≤ fuel =
      omega (arith, length-drop step (b ∷ bytes)) in
    cons-AreSegments step (take step (b ∷ bytes)) (drop step (b ∷ bytes)) _
      (omega (arith, length-take step (b ∷ bytes))) (omega (arith, length-take step (b ∷ bytes)))
      (split_from-flatten fuel step (drop step (b ∷ bytes)) s left)
      (λ k. omega (arith, length-take step (b ∷ bytes), length-drop step (b ∷ bytes), k))
      (split_from-AreSegments fuel step (drop step (b ∷ bytes)) s left)

abbrev step_of : ℕ → ℕ → ℕ
step_of valid stride = if (stride == 0) || ltb valid stride then valid else stride

step-bounds :
    (valid stride : ℕ)
    → 1 ≤ stride
    → 1 ≤ valid
    → (1 ≤ step_of valid stride) × (step_of valid stride ≤ stride)
step-bounds valid stride h v = ground arith

take-min : (n : ℕ) (xs : List ℕ) → take (min n (length xs)) xs ≡ take n xs
take-min n xs = elim (dec_lt n (length xs)) [
  | yes p ↦ ap (λ k. take k xs) {x = min n (length xs)} {y = n} (omega arith)
  | no p ↦
      take-all xs (min n (length xs)) (omega (arith, p)) ∙ sym (take-all xs n (omega (arith, p)))
]

drop-all : (xs : List ℕ) (n : ℕ) → length xs ≤ n → drop n xs ≡ []
drop-all [] zero h = refl
drop-all [] (suc n) h = refl
drop-all (x ∷ xs) zero h = absurd (omega arith)
drop-all (x ∷ xs) (suc n) h = drop-all xs n (omega arith)

-- A stride beyond the valid bytes gives one segment of them all.
single-AreSegments :
    (valid stride : ℕ) (bytes : List ℕ)
    → suc valid < stride
    → length bytes ≤ suc valid
    → AreSegments stride (split_from (suc valid) (suc valid) bytes)
unfolding split_from
single-AreSegments valid stride [] h l = tt
single-AreSegments zero stride (b ∷ bytes) h l = (omega arith, omega arith)
single-AreSegments (suc valid) stride (b ∷ bytes) h l =
    let gone : drop (suc (suc valid)) (b ∷ bytes) ≡ [] = drop-all (b ∷ bytes) (suc (suc valid)) l in
    rw gone (
      omega (arith, length-take (suc (suc valid)) (b ∷ bytes)),
      omega (arith, length-take (suc (suc valid)) (b ∷ bytes)),
    )

split-valid :
    (valid stride : ℕ) (bytes : List ℕ)
    → 1 ≤ stride
    → length bytes ≤ valid
    → (flatten (split_from valid (step_of valid stride) bytes) ≡ bytes)
      × AreSegments stride (split_from valid (step_of valid stride) bytes)
unfolding split_from
split-valid zero stride [] h l = (refl, tt)
split-valid zero stride (b ∷ bytes) h l = absurd (omega arith)
split-valid (suc valid) stride bytes h l =
    let bounds = step-bounds (suc valid) stride h (omega arith) in
    let all = split_from-flatten (suc valid) (step_of (suc valid) stride) bytes bounds.0 l in
    elim (dec_lt (suc valid) stride) [
      | yes p ↦
          let step : step_of (suc valid) stride ≡ suc valid = ground (arith, p) in
          (
            all,
            subst (λ n. AreSegments stride (split_from (suc valid) n bytes)) (sym step)
                (single-AreSegments valid stride bytes p l),
          )
      | no p ↦
          let step : step_of (suc valid) stride ≡ stride = ground (arith, p, h) in
          (
            all,
            subst (λ n. AreSegments stride (split_from (suc valid) n bytes)) (sym step)
                (split_from-AreSegments (suc valid) stride bytes h l),
          )
    ]

-- With a stride, the datagrams that a coalesced receive is split into are its valid bytes in order
-- (the first `total` of the buffer), and each has exactly the stride's length, but the last one,
-- which has one byte at least and at most the stride.
pub gro_split-flatten :
    (buf : List ℕ) (total stride : ℕ)
    → 1 ≤ stride
    → (flatten (gro_split buf total stride) ≡ take total buf)
      × AreSegments stride (gro_split buf total stride)
unfolding gro_split
gro_split-flatten buf total stride h =
    let valid = min total (length buf) in
    let both = split-valid valid stride (take valid buf) h (omega (arith, length-take valid buf)) in
    (both.0 ∙ take-min total buf, both.1)
