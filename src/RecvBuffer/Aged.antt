-- ===== src/RecvBuffer/Aged.antt =====
-- `missing_aged`: only the gaps that the reorder tolerance no longer excuses.
use srtrust.Prelude.{
  ℕ, zero, suc, ◌+◌, ◌-◌, ◌%◌, ◌^◌, ◌≤◌, ◌<◌, ◌≡◌, refl, arith, ap, ap₂, sym, ◌∙◌, none, some, min,
}
use srtrust.Prelude.{
  inl, inr, List, [], ◌∷◌, ◌++◌, length, take, take-all, empty_of_length, ◌==◌, clamp_u32,
  Bool-cases,
}
use mathlib.Core.Path.{subst}
use native.Mathlib.Decide.{dec_le}
use srtrust.Seq
use srtrust.Seq.{SeqNumber, IsSeq, offset_from}
use srtrust.Seq.Laws.{next-add}
use srtrust.Packet.{DataPacket}
use srtrust.RecvBuffer.{Slot, RecvBuffer, missing_from, missing, filter_aged, missing_aged}
use srtrust.RecvBuffer.Inv.{IsValid, top, top-tail}
use srtrust.RecvBuffer.Missing.{
  numbers, expand_all, absent_from, numbers-extend, none-top, missing-eq, rposition-top,
  missing_lem,
}
use srtrust.RecvBuffer.AgeFilter.{filter-run}

-- The absent numbers among the slots from step `x` on, up to the limit of step `m`.
abbrev aged : SeqNumber → ℕ → ℕ → List Slot → List SeqNumber
aged a m x xs = absent_from (Seq.add a x) (take (m + 1 - x) xs)

aged-past : (a : SeqNumber) (m x : ℕ) (xs : List Slot) → m < x → aged a m x xs ≡ []
aged-past a m x xs h =
    ap (λ (k : ℕ). absent_from (Seq.add a x) (take k xs)) {x = m + 1 - x} {y = 0} (omega arith)

take-nil : (k : ℕ) → take {A = Slot} k [] ≡ []
take-nil zero = refl
take-nil (suc k) = refl

aged-nil : (a : SeqNumber) (m x : ℕ) → aged a m x [] ≡ []
aged-nil a m x = ap (absent_from (Seq.add a x)) (take-nil (m + 1 - x))

aged-none :
    (a : SeqNumber) (m x : ℕ) (xs : List Slot)
    → x ≤ m
    → aged a m x (none ∷ xs) ≡ Seq.add a x ∷ aged a m (x + 1) xs
aged-none a m x xs h =
    ap (λ (k : ℕ). absent_from (Seq.add a x) (take k (none ∷ xs))) {x = m + 1 - x}
      {y = suc (m + 1 - (x + 1))} (omega arith)
    ∙ ap (λ (z : SeqNumber). Seq.add a x ∷ absent_from z (take (m + 1 - (x + 1)) xs)) (next-add a x)

aged-some :
    (a : SeqNumber) (m x : ℕ) (p : DataPacket) (xs : List Slot)
    → aged a m x (some p ∷ xs) ≡ aged a m (x + 1) xs
aged-some a m x p xs = elim (dec_le x m) [
  | yes h ↦
      ap (λ (k : ℕ). absent_from (Seq.add a x) (take k (some p ∷ xs))) {x = m + 1 - x}
        {y = suc (m + 1 - (x + 1))} (omega arith)
      ∙ ap (λ (z : SeqNumber). absent_from z (take (m + 1 - (x + 1)) xs)) (next-add a x)
  | no h ↦
      aged-past a m x (some p ∷ xs) (omega arith) ∙ sym (aged-past a m (x + 1) xs (omega arith))
]

-- A run that goes on over one more absent slot.
aged-extend :
    (a : SeqNumber) (m s x : ℕ) (xs : List Slot)
    → s ≤ x
    → numbers (Seq.add a s) (min (x + 1 - s) (m + 1 - s)) ++ aged a m (x + 1) xs
      ≡ numbers (Seq.add a s) (min (x - s) (m + 1 - s)) ++ aged a m x (none ∷ xs)
aged-extend a m s x xs h = elim (dec_le x m) [
  | yes k ↦
      ap (λ (n : ℕ). numbers (Seq.add a s) n ++ aged a m (x + 1) xs)
        {x = min (x + 1 - s) (m + 1 - s)} {y = x + 1 - s} (omega arith)
      ∙ sym (numbers-extend a s x (aged a m (x + 1) xs) h)
      ∙ ap₂ (λ (n : ℕ) ns. numbers (Seq.add a s) n ++ ns) {x = x - s} {y = min (x - s) (m + 1 - s)}
          (omega arith) (sym (aged-none a m x xs k))
  | no k ↦
      ap₂ (λ (n : ℕ) ns. numbers (Seq.add a s) n ++ ns) {x = min (x + 1 - s) (m + 1 - s)}
        {y = min (x - s) (m + 1 - s)} (omega arith)
        (aged-past a m (x + 1) xs (omega arith) ∙ sym (aged-past a m x (none ∷ xs) (omega arith)))
]

mutual
  unfolding missing_from filter_aged

  aged-open :
      (xs : List Slot) (a : SeqNumber) (m s x : ℕ)
      → s < x
      → x + length xs ≤ s + 2 ^ 30
      → m < s + 2 ^ 30
      → x + length xs ≤ m + 2 ^ 30
      → 0 < length xs
      → top xs ≡ length xs
      → expand_all (filter_aged (Seq.add a m) (missing_from xs (some (Seq.add a s)) (Seq.add a x)))
        ≡ numbers (Seq.add a s) (min (x - s) (m + 1 - s)) ++ aged a m x xs
  aged-open [] a m s x h₁ h₂ h₃ h₄ l t = absurd (omega arith)
  aged-open (none ∷ xs) a m s x h₁ h₂ h₃ h₄ l t = rw (next-add a x) (
      aged-open xs a m s (x + 1) (omega arith) (omega arith) h₃ (omega arith) (none-top xs t)
        (top-tail none xs t)
      ∙ aged-extend a m s x xs (omega arith))
  aged-open (some p ∷ xs) a m s x h₁ h₂ h₃ h₄ l t =
      filter-run a m s x (missing_from xs none (Seq.next (Seq.add a x))) h₁ (omega arith) h₃
        (omega arith)
      ∙ ap (λ ns. numbers (Seq.add a s) (min (x - s) (m + 1 - s)) ++ ns)
          (rw (next-add a x)
              (aged-closed xs a m (x + 1) (omega arith) (omega arith) (omega arith) (omega arith))
            ∙ sym (aged-some a m x p xs))

  aged-closed :
      (xs : List Slot) (a : SeqNumber) (m x : ℕ)
      → length xs ≤ 2 ^ 30
      → m < x + 2 ^ 30
      → x + length xs ≤ m + 2 ^ 30
      → top xs ≡ length xs
      → expand_all (filter_aged (Seq.add a m) (missing_from xs none (Seq.add a x))) ≡ aged a m x xs
  aged-closed [] a m x h₂ h₃ h₄ t = sym (aged-nil a m x)
  aged-closed (none ∷ xs) a m x h₂ h₃ h₄ t = rw (next-add a x) (
      aged-open xs a m x (x + 1) (omega arith) (omega arith) h₃ (omega arith) (none-top xs t)
        (top-tail none xs t)
      ∙ aged-extend a m x x xs (omega arith)
      ∙ ap (λ (n : ℕ). numbers (Seq.add a x) n ++ aged a m x (none ∷ xs))
          {x = min (x - x) (m + 1 - x)} {y = 0} (omega arith))
  aged-closed (some p ∷ xs) a m x h₂ h₃ h₄ t =
      rw (next-add a x)
        (aged-closed xs a m (x + 1) (omega arith) (omega arith) (omega arith) (omega arith))
      ∙ sym (aged-some a m x p xs)

anchor-base :
    (base : SeqNumber) (t : ℕ)
    → IsSeq base
    → t < 2 ^ 30
    → Seq.add (Seq.add base (2 ^ 31 - t)) t ≡ base
unfolding Seq.add
anchor-base base t h k = omega arith

anchor-limit :
    (base : SeqNumber) (t i : ℕ)
    → IsSeq base
    → t < 2 ^ 30
    → i < 2 ^ 30
    → Seq.new ((Seq.add base (clamp_u32 i) + 2 ^ 32 - t) % 2 ^ 32)
      ≡ Seq.add (Seq.add base (2 ^ 31 - t)) i
unfolding Seq.add Seq.new
anchor-limit base t i h k l = ground arith

aged-limit :
    (b : RecvBuffer) (t i : ℕ)
    → t < 2 ^ 30
    → IsValid b
    → length b.slots ≡ suc i
    → expand_all
        (filter_aged (Seq.new ((Seq.add b.base (clamp_u32 i) + 2 ^ 32 - t) % 2 ^ 32)) (missing b))
      ≡ absent_from b.base (take (length b.slots - t) b.slots)
aged-limit b t i ht v e =
    let a : SeqNumber = Seq.add b.base (2 ^ 31 - t) in
    ap₂ (λ l rs. expand_all (filter_aged l rs))
      (anchor-limit b.base t i v.base_seq ht (omega (arith, v.span))) (missing-eq b v)
    ∙ subst
        (λ (s : SeqNumber).
          expand_all (filter_aged (Seq.add a i) (missing_from b.slots none s))
          ≡ absent_from s (take (i + 1 - t) b.slots))
        (anchor-base b.base t v.base_seq ht)
        (aged-closed b.slots a i t v.span (omega (arith, v.span)) (omega (arith, v.span)) v.back)
    ∙ ap (λ (k : ℕ). absent_from b.base (take k b.slots)) {x = i + 1 - t} {y = length b.slots - t}
        (omega arith)

-- On a well-formed buffer and with a reorder tolerance below 2 ^ 30, `missing_aged` reports, as
-- ranges in order, exactly the numbers of the absent slots that are at least the tolerance before
-- the highest packet held.
pub missing_aged_lem :
    (b : RecvBuffer) (tolerance : ℕ)
    → tolerance < 2 ^ 30
    → IsValid b
    → expand_all (missing_aged b tolerance)
      ≡ absent_from b.base (take (length b.slots - tolerance) b.slots)
unfolding missing_aged
missing_aged_lem b tolerance ht v = elim (Bool-cases (tolerance == 0)) [
  | inl z ↦ rw z (
      missing_lem b v
      ∙ ap (absent_from b.base)
          (sym (take-all b.slots (length b.slots - tolerance) (ground arith))))
  | inr nz ↦ rw nz (elim (rposition-top b.slots) [
    | inl (e, t) ↦
        rw (e, missing_aged)
          (sym (ap (absent_from b.base) (take-nil (length b.slots - tolerance)))
            ∙ ap (λ (xs : List Slot). absent_from b.base (take (length b.slots - tolerance) xs))
                (sym (empty_of_length b.slots (sym v.back ∙ t))))
    | inr (i, e, t) ↦ rw (e, missing_aged) (aged-limit b tolerance i ht v (sym v.back ∙ t))
  ])
]
