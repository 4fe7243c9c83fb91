-- ===== src/RecvBuffer/Inv.antt =====
-- The well-formedness invariant of the receive buffer, and the facts on slots that it rests on.
use srtrust.Prelude.{ℕ, zero, suc, ◌+◌, ◌^◌, ◌≤◌, ◌<◌, ◌≡◌, refl, arith, ap, ◌∙◌, none, some}
use srtrust.Prelude.{
  Bool-cases, leb→le, inl, inr, List, [], ◌∷◌, length, set, leb, ◌==◌, if◌then◌else◌,
}
use native.Mathlib.Numerals.{add-one}
use srtrust.Seq
use srtrust.Seq.{SeqNumber, IsSeq}
use srtrust.Seq.Laws.{next-IsSeq, add-zero}
use srtrust.Packet.{DataPacket}
use srtrust.RecvBuffer.{Slot, RecvBuffer, new, resize, slot_at}

-- The number of present slots.
abbrev pub present : List Slot → ℕ
present [] = 0
present (none ∷ xs) = present xs
present (some p ∷ xs) = suc (present xs)

-- One more than the index of the last present slot, and 0 if there is none.
abbrev pub top : List Slot → ℕ
top [] = 0
top (none ∷ xs) = if top xs == 0 then 0 else suc (top xs)
top (some p ∷ xs) = suc (top xs)

-- A present slot at `s` holds the packet of that sequence number.
abbrev pub Fits : SeqNumber → Slot → Type 0
Fits s none = Unit
Fits s (some p) = p.seq ≡ s

-- The slots hold the packets of the consecutive numbers from `s` on.
abbrev pub Aligned : SeqNumber → List Slot → Type 0
Aligned s [] = Unit
Aligned s (x ∷ xs) = Fits s x × Aligned (Seq.next s) xs

pub record IsValid (b : RecvBuffer) : Type 0 where
  pub base_seq : IsSeq b.base
  pub counted : b.received ≡ present b.slots
  pub aligned : Aligned b.base b.slots
  pub back : top b.slots ≡ length b.slots
  pub span : length b.slots ≤ 2 ^ 30

-- A fresh buffer is well formed.
pub new-IsValid : (s : SeqNumber) → IsSeq s → IsValid (new s)
unfolding new
new-IsValid s h = record {
  base_seq = h;
  counted = refl;
  aligned = tt;
  back = refl;
  span = omega arith;
}

-- What `insert` leaves: the packet at index `i`, the slots padded where they are too few.
abbrev pub put : ℕ → DataPacket → List Slot → List Slot
put zero p [] = some p ∷ []
put zero p (x ∷ xs) = some p ∷ xs
put (suc i) p [] = none ∷ put i p []
put (suc i) p (x ∷ xs) = x ∷ put i p xs

set-put : (i : ℕ) (p : DataPacket) (xs : List Slot) → i < length xs → set xs i (some p) ≡ put i p xs
set-put i p [] h = absurd (omega arith)
set-put zero p (x ∷ xs) h = refl
set-put (suc i) p (x ∷ xs) h = ap (λ ys. x ∷ ys) (set-put i p xs (omega arith))

set-resize :
    (i : ℕ) (p : DataPacket) (xs : List Slot)
    → length xs ≤ i
    → set (resize (suc i) xs) i (some p) ≡ put i p xs
unfolding resize
set-resize zero p [] h = refl
set-resize zero p (x ∷ xs) h = absurd (omega arith)
set-resize (suc i) p [] h = ap (λ ys. none ∷ ys) (set-resize i p [] (omega arith))
set-resize (suc i) p (x ∷ xs) h = ap (λ ys. x ∷ ys) (set-resize i p xs (omega arith))

pub put_lem :
    (i : ℕ) (p : DataPacket) (xs : List Slot)
    → set (if leb (length xs) i then resize (i + 1) xs else xs) i (some p) ≡ put i p xs
put_lem i p xs = elim (Bool-cases (leb (length xs) i)) [
  | inl short ↦ rw (short, add-one) (set-resize i p xs (leb→le _ _ short))
  | inr long ↦ rw long (set-put i p xs (ground arith))
]

pub slot_at-resize : (n : ℕ) (xs : List Slot) (i : ℕ) → slot_at (resize n xs) i ≡ slot_at xs i
unfolding resize
slot_at-resize zero xs i = refl
slot_at-resize (suc n) [] zero = refl
slot_at-resize (suc n) [] (suc i) = slot_at-resize n [] i
slot_at-resize (suc n) (x ∷ xs) zero = refl
slot_at-resize (suc n) (x ∷ xs) (suc i) = slot_at-resize n xs i

pub present-put :
    (i : ℕ) (p : DataPacket) (xs : List Slot)
    → slot_at xs i ≡ none
    → present (put i p xs) ≡ present xs + 1
present-put zero p [] h = refl
present-put zero p (none ∷ xs) h = omega arith
present-put zero p (some q ∷ xs) h = ground arith
present-put (suc i) p [] h = present-put i p [] refl
present-put (suc i) p (none ∷ xs) h = present-put i p xs h
present-put (suc i) p (some q ∷ xs) h = omega (arith, present-put i p xs h)

pub length-put :
    (i : ℕ) (p : DataPacket) (xs : List Slot) (n : ℕ)
    → i < n
    → length xs ≤ n
    → length (put i p xs) ≤ n
length-put zero p [] n h k = omega arith
length-put zero p (x ∷ xs) n h k = k
length-put (suc i) p [] zero h k = absurd (omega arith)
length-put (suc i) p [] (suc n) h k = omega (arith, length-put i p [] n (omega arith) (omega arith))
length-put (suc i) p (x ∷ xs) zero h k = absurd (omega arith)
length-put (suc i) p (x ∷ xs) (suc n) h k =
    omega (arith, length-put i p xs n (omega arith) (omega arith))

pub top_pos : (i : ℕ) (p : DataPacket) (xs : List Slot) → 0 < top (put i p xs)
top_pos zero p [] = omega arith
top_pos zero p (x ∷ xs) = omega arith
top_pos (suc i) p [] = ground (arith, top_pos i p [])
top_pos (suc i) p (none ∷ xs) = ground (arith, top_pos i p xs)
top_pos (suc i) p (some q ∷ xs) = omega arith

-- Dropping the front slot keeps the back one present.
pub top-tail : (x : Slot) (xs : List Slot) → top (x ∷ xs) ≡ length (x ∷ xs) → top xs ≡ length xs
top-tail none xs h = ground arith
top-tail (some p) xs h = omega arith

pub top-put :
    (i : ℕ) (p : DataPacket) (xs : List Slot)
    → top xs ≡ length xs
    → top (put i p xs) ≡ length (put i p xs)
top-put zero p [] h = refl
top-put zero p (x ∷ xs) h = omega (arith, top-tail x xs h)
top-put (suc i) p [] h = ground (arith, top-put i p [] h, top_pos i p [])
top-put (suc i) p (none ∷ xs) h =
    ground (arith, top-put i p xs (top-tail none xs h), top_pos i p xs)
top-put (suc i) p (some q ∷ xs) h = omega (arith, top-put i p xs (top-tail (some q) xs h))

pub step : (s : SeqNumber) (i : ℕ) → Seq.add s (suc i) ≡ Seq.add (Seq.next s) i
unfolding Seq.add Seq.next
step s i = omega arith

pub Aligned-put :
    (i : ℕ) (p : DataPacket) (s : SeqNumber) (xs : List Slot)
    → IsSeq s
    → Aligned s xs
    → p.seq ≡ Seq.add s i
    → Aligned s (put i p xs)
Aligned-put zero p s [] hs h e = (e ∙ add-zero s hs, tt)
Aligned-put zero p s (x ∷ xs) hs h e = (e ∙ add-zero s hs, h.1)
Aligned-put (suc i) p s [] hs h e =
    (tt, Aligned-put i p (Seq.next s) [] (next-IsSeq s) tt (e ∙ step s i))
Aligned-put (suc i) p s (x ∷ xs) hs h e =
    (h.0, Aligned-put i p (Seq.next s) xs (next-IsSeq s) h.1 (e ∙ step s i))
