-- ===== src/RecvBuffer/AgeFilter.antt =====
-- What the age filter of `missing_aged` leaves of one range.
use srtrust.Prelude.{
  ℕ, zero, suc, ◌+◌, ◌-◌, ◌^◌, ◌≤◌, ◌<◌, ◌≡◌, refl, arith, ap, ◌∙◌, true, false, none, some, min,
}
use srtrust.Prelude.{inl, inr, ◌⊎◌, List, ◌∷◌, ◌++◌, ltb, if◌then◌else◌, Bool-cases}
use srtrust.Seq
use srtrust.Seq.{SeqNumber, IsSeq, offset_from}
use srtrust.Seq.Laws.{offset-add-add, is_greater-add}
use srtrust.RecvBuffer.{SeqRange, usize_or_zero, filter_aged, age_filter}
use srtrust.RecvBuffer.Missing.{numbers, expand, expand_all, prev-add-suc}

age_filter-add :
    (a : SeqNumber) (m s x : ℕ)
    → s < m + 2 ^ 30
    → m < s + 2 ^ 30
    → x < m + 2 ^ 30
    → m < x + 2 ^ 30
    → age_filter (Seq.add a m) (Seq.add a s, Seq.add a x)
      ≡ (if ltb m s then none else some (Seq.add a s, if ltb m x then Seq.add a m else Seq.add a x))
unfolding age_filter
age_filter-add a m s x h₁ h₂ h₃ h₄ = rw (is_greater-add a s m h₁ h₂, is_greater-add a x m h₃ h₄)

expand-add :
    (a : SeqNumber) (s x n : ℕ)
    → s ≤ x
    → x < s + 2 ^ 30
    → suc (x - s) ≡ n
    → expand (Seq.add a s, Seq.add a x) ≡ numbers (Seq.add a s) n
expand-add a s x n h k e =
    ap (λ z. numbers (Seq.add a s) (suc (usize_or_zero z))) (offset-add-add a x s h k)
    ∙ ap (numbers (Seq.add a s)) e

filter_aged-cons_none :
    (l : SeqNumber) (r : SeqRange) (rs : List SeqRange)
    → age_filter l r ≡ none
    → expand_all (filter_aged l (r ∷ rs)) ≡ expand_all (filter_aged l rs)
unfolding filter_aged
filter_aged-cons_none l r rs e = rw (e, filter_aged)

filter_aged-cons_some :
    (l : SeqNumber) (r r' : SeqRange) (rs : List SeqRange)
    → age_filter l r ≡ some r'
    → expand_all (filter_aged l (r ∷ rs)) ≡ expand r' ++ expand_all (filter_aged l rs)
unfolding filter_aged
filter_aged-cons_some l r r' rs e = rw (e, filter_aged)

-- The range of a run from step `s` to before step `x`, cut at the limit of step `m`.
pub filter-run :
    (a : SeqNumber) (m s x : ℕ) (rs : List SeqRange)
    → s < x
    → x ≤ s + 2 ^ 30
    → m < s + 2 ^ 30
    → x ≤ m + 2 ^ 30
    → expand_all (filter_aged (Seq.add a m) ((Seq.add a s, Seq.prev (Seq.add a x)) ∷ rs))
      ≡ numbers (Seq.add a s) (min (x - s) (m + 1 - s)) ++ expand_all (filter_aged (Seq.add a m) rs)
filter-run a m s zero rs h₁ h₂ h₃ h₄ = absurd (omega arith)
filter-run a m s (suc x) rs h₁ h₂ h₃ h₄ =
    rw (prev-add-suc a x) (go (Bool-cases (ltb m s)) (Bool-cases (ltb m x)))
  where
    kept : List SeqNumber
    kept = expand_all (filter_aged (Seq.add a m) rs)

    result : age_filter (Seq.add a m) (Seq.add a s, Seq.add a x) ≡ (
        if ltb m s then none else some (Seq.add a s, if ltb m x then Seq.add a m else Seq.add a x))
    result = age_filter-add a m s x (omega arith) (omega arith) (omega arith) (omega arith)

    go :
        (ltb m s ≡ true) ⊎ (ltb m s ≡ false)
        → (ltb m x ≡ true) ⊎ (ltb m x ≡ false)
        → expand_all (filter_aged (Seq.add a m) ((Seq.add a s, Seq.add a x) ∷ rs))
          ≡ numbers (Seq.add a s) (min (suc x - s) (m + 1 - s))
            ++ expand_all (filter_aged (Seq.add a m) rs)
    go (inl fresh) _ =
        filter_aged-cons_none (Seq.add a m) (Seq.add a s, Seq.add a x) rs (result ∙ rw fresh refl)
        ∙ ap (λ (n : ℕ). numbers (Seq.add a s) n ++ kept) {x = 0} {y = min (suc x - s) (m + 1 - s)}
            (ground arith)
    go (inr old) (inl cut) =
        filter_aged-cons_some (Seq.add a m) (Seq.add a s, Seq.add a x) (Seq.add a s, Seq.add a m) rs
          (result ∙ rw (old, cut) refl)
        ∙ ap (λ ns. ns ++ kept)
            (expand-add a s m (min (suc x - s) (m + 1 - s)) (ground arith) (ground arith)
              (ground arith))
    go (inr old) (inr whole) =
        filter_aged-cons_some (Seq.add a m) (Seq.add a s, Seq.add a x) (Seq.add a s, Seq.add a x) rs
          (result ∙ rw (old, whole) refl)
        ∙ ap (λ ns. ns ++ kept)
            (expand-add a s x (min (suc x - s) (m + 1 - s)) (ground arith) (ground arith)
              (ground arith))
