-- ===== src/Seq/Laws.antt =====
-- The circular arithmetic of sequence numbers.
use srtrust.Prelude.{
  be_u32, ◌⊎◌, inl, inr, zero, ◌/◌, ◌-◌, ℕ, suc, ◌+◌, ◌%◌, ◌^◌, ◌≤◌, ◌<◌, ◌≡◌, ◌≢◌, ◌↔◌, arith, ap,
}
use srtrust.Prelude.{be_u32, is_greater, ltb, less, equal, greater, reverse_order, order_of_sign}
use srtrust.Prelude.Int.{ℤ, pos, negsuc, ℤ-cases}
use srtrust.Seq.{SeqNumber, new, IsSeq, threshold, next, prev, add, offset_from, circular_cmp}

pub next-IsSeq : (s : SeqNumber) → IsSeq (next s)
unfolding next
next-IsSeq s = omega arith

pub prev-IsSeq : (s : SeqNumber) → IsSeq (prev s)
unfolding prev
prev-IsSeq s = omega arith

pub add-IsSeq : (s : SeqNumber) (n : ℕ) → IsSeq (add s n)
unfolding add
add-IsSeq s n = omega arith

-- `next` and `prev` undo one another on every sequence number, the wrap included.
pub next-prev : (s : SeqNumber) → IsSeq s → (prev (next s) ≡ s) × (next (prev s) ≡ s)
unfolding next prev
next-prev s h = omega arith

pub add-zero : (s : SeqNumber) → IsSeq s → add s 0 ≡ s
unfolding add
add-zero s h = omega arith

pub next-add : (s : SeqNumber) (n : ℕ) → next (add s n) ≡ add s (n + 1)
unfolding next add
next-add s n = omega arith

pub add-next : (s : SeqNumber) (n : ℕ) → add (next s) n ≡ add s (n + 1)
unfolding next add
add-next s n = omega arith

pub prev-add : (s : SeqNumber) (n : ℕ) → prev (add s (n + 1)) ≡ add s n
unfolding prev add
prev-add s n = omega arith

-- Addition composes, with the sum of the two steps reduced modulo 2 ^ 32 as `u32` does.
pub add-add : (s : SeqNumber) (a b : ℕ) → add (add s a) b ≡ add s ((a + b) % 2 ^ 32)
unfolding add
add-add s a b = omega arith

pub add_sum : (s : SeqNumber) (a b : ℕ) → add (add s a) b ≡ add s (a + b)
unfolding add
add_sum s a b = omega arith

pub offset_self : (s : SeqNumber) → offset_from s s ≡ pos 0
unfolding offset_from
offset_self s = ground arith

pub offset-add : (b : SeqNumber) (k : ℕ) → IsSeq b → k ≤ threshold → offset_from (add b k) b ≡ pos k
unfolding offset_from add
offset-add b k h hk = ground arith

pub offset-back :
    (b : SeqNumber) (k : ℕ) → IsSeq b → k ≤ threshold → offset_from b (add b (suc k)) ≡ negsuc k
unfolding offset_from add
offset-back b k h hk = ground arith

-- A number `k` steps ahead of `b`, for `k` from 1 to the threshold, compares greater, its offset
-- is `k`, and seen from it `b` compares less at offset `-k`.
pub offset_window :
    (b : SeqNumber) (k : ℕ)
    → IsSeq b
    → suc k ≤ threshold
    → (offset_from (add b (suc k)) b ≡ pos (suc k))
      × (offset_from b (add b (suc k)) ≡ negsuc k)
      × (circular_cmp (add b (suc k)) b ≡ greater)
      × (circular_cmp b (add b (suc k)) ≡ less)
unfolding circular_cmp
offset_window b k h hk = (
  offset-add b (suc k) h hk,
  offset-back b k h (omega arith),
  ap order_of_sign (offset-add b (suc k) h hk),
  ap order_of_sign (offset-back b k h (omega arith)),
)

-- `Steps s b d`: moving from `b` by the signed distance `d` ends at `s`.
abbrev pub Steps : SeqNumber → SeqNumber → ℤ → Type 0
Steps s b (pos n) = (s ≡ add b n) × (n < 2 ^ 30)
Steps s b (negsuc n) = (b ≡ add s (suc n)) × (n < 2 ^ 30)

-- The offset of two 31-bit numbers leads from `other` to `self`, and is at least -2 ^ 30 and below
-- 2 ^ 30.
pub offset-Steps : (s b : SeqNumber) → IsSeq s → IsSeq b → Steps s b (offset_from s b)
unfolding offset_from add
offset-Steps s b hs hb = ground arith

pub offset-pos_inv :
    (s b : SeqNumber) (n : ℕ)
    → IsSeq s
    → IsSeq b
    → offset_from s b ≡ pos n
    → (s ≡ add b n) × (n < 2 ^ 30)
unfolding offset_from add
offset-pos_inv s b n hs hb e = ground arith

-- Equality is what `circular_cmp` reports as `Equal`.
pub circular_cmp-equal_iff :
    (a b : SeqNumber) → IsSeq a → IsSeq b → (circular_cmp a b ≡ equal) ↔ (a ≡ b)
unfolding circular_cmp offset_from
circular_cmp-equal_iff a b ha hb = ground arith

-- Comparing 31-bit numbers the other way round gives the opposite answer exactly when the two
-- numbers are not half the sequence space apart; at that distance each is reported to be before
-- the other.
pub circular_cmp_antisym :
    (a b : SeqNumber)
    → IsSeq a
    → IsSeq b
    → (circular_cmp a b ≡ reverse_order (circular_cmp b a)) ↔ (a ≢ add b (2 ^ 30))
unfolding circular_cmp offset_from add
circular_cmp_antisym a b ha hb = ground arith

pub not_less-offset :
    (a b : SeqNumber) → circular_cmp a b ≢ less → (n : ℕ) × (offset_from a b ≡ pos n)
unfolding circular_cmp
not_less-offset a b h = elim (ℤ-cases (offset_from a b)) [
  | inl found ↦ found
  | inr (n, e) ↦ absurd (h (ap order_of_sign e))
]

pub not_greater-offset :
    (a b : SeqNumber)
    → circular_cmp a b ≢ greater
    → (offset_from a b ≡ pos 0) ⊎ ((n : ℕ) × (offset_from a b ≡ negsuc n))
unfolding circular_cmp
not_greater-offset a b h = elim (ℤ-cases (offset_from a b)) [
  | inl (n, e) ↦ inl (ground (arith, h))
  | inr found ↦ inr found
]

pub less-offset :
    (a b : SeqNumber) → circular_cmp a b ≡ less → (n : ℕ) × (offset_from a b ≡ negsuc n)
unfolding circular_cmp
less-offset a b h = elim (ℤ-cases (offset_from a b)) [
  | inl (zero, e) ↦ absurd (cc (ap order_of_sign e))
  | inl (suc n, e) ↦ absurd (cc (ap order_of_sign e))
  | inr found ↦ found
]

pub greater-offset :
    (a b : SeqNumber) → circular_cmp a b ≡ greater → (n : ℕ) × (offset_from a b ≡ pos (suc n))
unfolding circular_cmp
greater-offset a b h = elim (ℤ-cases (offset_from a b)) [
  | inl (zero, e) ↦ absurd (cc (ap order_of_sign e))
  | inl (suc n, e) ↦ (n, e)
  | inr (n, e) ↦ absurd (cc (ap order_of_sign e))
]

-- Numbers that are given as steps from a common anchor compare as the steps do, if these are less
-- than half the space apart.
pub is_greater-add :
    (a : SeqNumber) (x y : ℕ)
    → x < y + 2 ^ 30
    → y < x + 2 ^ 30
    → is_greater (circular_cmp (add a x) (add a y)) ≡ ltb y x
unfolding circular_cmp offset_from add
is_greater-add a x y h k = ground arith

pub offset-add-add :
    (a : SeqNumber) (x y : ℕ)
    → y ≤ x
    → x < y + 2 ^ 30
    → offset_from (add a x) (add a y) ≡ pos (x - y)
unfolding offset_from add
offset-add-add a x y h k = ground arith

-- A wire word that holds a sequence number reads back as it.
pub new-word :
    (s : SeqNumber)
    → IsSeq s
    → new (be_u32 (s / 2 ^ 24 % 256) (s / 2 ^ 16 % 256) (s / 2 ^ 8 % 256) (s % 256)) ≡ s
unfolding new
new-word s h = omega arith

pub new-seq : (s : SeqNumber) → IsSeq s → new s ≡ s
unfolding new
new-seq s h = omega arith
