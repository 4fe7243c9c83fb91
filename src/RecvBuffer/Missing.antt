-- ===== src/RecvBuffer/Missing.antt =====
-- `missing` and `missing_aged` against the plain list of the sequence numbers that are absent.
use srtrust.Prelude.{
  ℕ, zero, suc, ◌+◌, ◌-◌, ◌^◌, ◌≤◌, ◌<◌, ◌≡◌, ◌↔◌, refl, arith, ap, ap₂, sym, ◌∙◌, false, none,
  some,
}
use srtrust.Prelude.{inl, inr, ◌⊎◌, List, [], ◌∷◌, ◌++◌, length, take-all, empty_of_length}
use mathlib.Core.Path.{subst}
use native.Mathlib.Numerals.{add-one}
use srtrust.Seq
use srtrust.Seq.{SeqNumber, IsSeq, offset_from}
use srtrust.Seq.Laws.{next-add, prev-add, add-zero, offset-add-add}
use srtrust.RecvBuffer.{
  Slot, RecvBuffer, SeqRange, rposition, missing_from, missing, usize_or_zero, has_gaps,
}
use srtrust.RecvBuffer.Inv.{IsValid, present, top, top-tail}

-- `n` consecutive sequence numbers from `s` on.
abbrev pub numbers : SeqNumber → ℕ → List SeqNumber
numbers s zero = []
numbers s (suc n) = s ∷ numbers (Seq.next s) n

-- The numbers of an inclusive range.
abbrev pub expand : SeqRange → List SeqNumber
expand (start, end) = numbers start (suc (usize_or_zero (offset_from end start)))

abbrev pub expand_all : List SeqRange → List SeqNumber
expand_all [] = []
expand_all (r ∷ rs) = expand r ++ expand_all rs

-- The numbers of the absent slots, in order, where the first slot is that of `s`.
abbrev pub absent_from : SeqNumber → List Slot → List SeqNumber
absent_from s [] = []
absent_from s (none ∷ xs) = s ∷ absent_from (Seq.next s) xs
absent_from s (some p ∷ xs) = absent_from (Seq.next s) xs

numbers-snoc :
    (a : SeqNumber) (s n : ℕ) (ys : List SeqNumber)
    → numbers (Seq.add a s) n ++ (Seq.add a (s + n) ∷ ys) ≡ numbers (Seq.add a s) (suc n) ++ ys
numbers-snoc a s zero ys = ap (λ k. Seq.add a k ∷ ys) (omega arith)
numbers-snoc a s (suc n) ys =
    ap (λ zs. Seq.add a s ∷ zs)
      (rw (next-add a s) (rw (ap (λ (k : ℕ). k) (shift s n)) (numbers-snoc a (s + 1) n ys)))
  where
    shift : (s n : ℕ) → s + suc n ≡ s + 1 + n
    shift s n = omega arith

pub numbers-extend :
    (a : SeqNumber) (s x : ℕ) (ys : List SeqNumber)
    → s ≤ x
    → numbers (Seq.add a s) (x - s) ++ (Seq.add a x ∷ ys) ≡ numbers (Seq.add a s) (x + 1 - s) ++ ys
numbers-extend a s x ys h =
    ap (λ (k : ℕ). numbers (Seq.add a s) (x - s) ++ (Seq.add a k ∷ ys)) (omega arith)
    ∙ numbers-snoc a s (x - s) ys
    ∙ ap (λ (k : ℕ). numbers (Seq.add a s) k ++ ys) {x = suc (x - s)} {y = x + 1 - s} (omega arith)

pub prev-add-suc : (a : SeqNumber) (x : ℕ) → Seq.prev (Seq.add a (suc x)) ≡ Seq.add a x
prev-add-suc a x = rw (← add-one x) (prev-add a x)

-- The range that closes a run from step `s` to before step `x`.
pub expand-run :
    (a : SeqNumber) (s x : ℕ)
    → s < x
    → x ≤ s + 2 ^ 30
    → expand (Seq.add a s, Seq.prev (Seq.add a x)) ≡ numbers (Seq.add a s) (x - s)
expand-run a s zero h k = absurd (omega arith)
expand-run a s (suc x) h k =
    ap (λ (r : SeqNumber). expand (Seq.add a s, r)) (prev-add-suc a x)
    ∙ ap (λ z. numbers (Seq.add a s) (suc (usize_or_zero z)))
        (offset-add-add a x s (omega arith) (omega arith))
    ∙ ap (numbers (Seq.add a s)) {x = suc (x - s)} {y = suc x - s} (omega arith)

pub none-top : (xs : List Slot) → top (none ∷ xs) ≡ length (none ∷ xs) → 0 < length xs
none-top xs h = ground (arith, top-tail none xs h)

mutual
  unfolding missing_from

  -- A run of absent slots from step `s` is open before step `x`.
  missing-open :
      (xs : List Slot) (a : SeqNumber) (s x : ℕ)
      → s < x
      → x + length xs ≤ s + 2 ^ 30
      → 0 < length xs
      → top xs ≡ length xs
      → expand_all (missing_from xs (some (Seq.add a s)) (Seq.add a x))
        ≡ numbers (Seq.add a s) (x - s) ++ absent_from (Seq.add a x) xs
  missing-open [] a s x h k l t = absurd (omega arith)
  missing-open (none ∷ xs) a s x h k l t = rw (next-add a x) (
      missing-open xs a s (x + 1) (omega arith) (omega arith) (none-top xs t) (top-tail none xs t)
      ∙ sym (numbers-extend a s x (absent_from (Seq.add a (x + 1)) xs) (omega arith)))
  missing-open (some p ∷ xs) a s x h k l t =
      ap₂ ◌++◌ (expand-run a s x h (omega arith))
        (rw (next-add a x) (missing-closed xs a (x + 1) (omega arith) (omega arith)))

  missing-closed :
      (xs : List Slot) (a : SeqNumber) (x : ℕ)
      → length xs ≤ 2 ^ 30
      → top xs ≡ length xs
      → expand_all (missing_from xs none (Seq.add a x)) ≡ absent_from (Seq.add a x) xs
  missing-closed [] a x k t = refl
  missing-closed (none ∷ xs) a x k t = rw (next-add a x) (
      missing-open xs a x (x + 1) (omega arith) (omega arith) (none-top xs t) (top-tail none xs t)
      ∙ ap (λ (n : ℕ). numbers (Seq.add a x) n ++ absent_from (Seq.add a (x + 1)) xs)
          {x = x + 1 - x} {y = 1} (omega arith))
  missing-closed (some p ∷ xs) a x k t =
      rw (next-add a x) (missing-closed xs a (x + 1) (omega arith) (omega arith))

pub rposition-top :
    (xs : List Slot)
    → ((rposition xs ≡ none) × (top xs ≡ 0))
      ⊎ ((i : ℕ) × (rposition xs ≡ some i) × (top xs ≡ suc i))
unfolding rposition
rposition-top [] = inl (refl, refl)
rposition-top (none ∷ xs) = elim (rposition-top xs) [
  | inl (e, t) ↦ inl (rw (e, rposition) refl, ground arith)
  | inr (i, e, t) ↦ inr (suc i, rw (e, rposition) refl, ground arith)
]
rposition-top (some p ∷ xs) = elim (rposition-top xs) [
  | inl (e, t) ↦ inr (0, rw (e, rposition) refl, ground arith)
  | inr (i, e, t) ↦ inr (suc i, rw (e, rposition) refl, ground arith)
]

-- Where the back slot is present, `missing` walks all the slots.
pub missing-eq : (b : RecvBuffer) → IsValid b → missing b ≡ missing_from b.slots none b.base
unfolding missing
missing-eq b v = elim (rposition-top b.slots) [
  | inl (e, t) ↦
      rw (e, missing)
        (sym (
          ap (λ (xs : List Slot). missing_from xs none b.base)
            (empty_of_length b.slots (sym v.back ∙ t))))
  | inr (i, e, t) ↦
      rw (e, missing)
        (ap (λ (xs : List Slot). missing_from xs none b.base)
          (take-all b.slots (i + 1) (omega (arith, v.back))))
]

-- On a well-formed buffer `missing` reports, as ranges in order, exactly the numbers of the absent
-- slots.
pub missing_lem : (b : RecvBuffer) → IsValid b → expand_all (missing b) ≡ absent_from b.base b.slots
missing_lem b v =
    ap expand_all (missing-eq b v)
    ∙ subst (λ (s : SeqNumber). expand_all (missing_from b.slots none s) ≡ absent_from s b.slots)
        (add-zero b.base v.base_seq) (missing-closed b.slots b.base 0 v.span v.back)

length-absent :
    (s : SeqNumber) (xs : List Slot) → length (absent_from s xs) + present xs ≡ length xs
length-absent s [] = refl
length-absent s (none ∷ xs) = omega (arith, length-absent (Seq.next s) xs)
length-absent s (some p ∷ xs) = omega (arith, length-absent (Seq.next s) xs)

-- On a well-formed buffer the quick test `has_gaps` answers no exactly when `missing` has nothing
-- to report.
pub has_gaps-missing_iff : (b : RecvBuffer) → IsValid b → (has_gaps b ≡ false) ↔ (missing b ≡ [])
unfolding has_gaps
has_gaps-missing_iff b v = (
  (λ h. no_ranges (missing b) (
      missing_lem b v
      ∙ empty_of_length _ (ground (arith, v.counted, length-absent b.base b.slots)))),
  (λ e. ground (
    arith,
    v.counted,
    length-absent b.base b.slots,
    ap length (missing_lem b v),
    ap (λ rs. length (expand_all rs)) e,
  )),
)
  where
    no_ranges : (rs : List SeqRange) → expand_all rs ≡ [] → rs ≡ []
    no_ranges [] e = refl
    no_ranges (r ∷ rs) e = cc
