-- ===== src/RecvBuffer/Insert.antt =====
-- `insert`: what it keeps, what it accepts and what it stores.
use srtrust.Prelude.{
  ℕ, zero, suc, ◌+◌, ◌^◌, ◌<◌, ◌≡◌, ◌≢◌, ◌↔◌, refl, arith, ap, sym, ◌∙◌, true, false, Option, none,
  some,
}
use srtrust.Prelude.{Option-cases, inl, inr, ◌⊎◌, List, [], ◌∷◌, length, ◌==◌, ◌&&◌, if◌then◌else◌}
use srtrust.Prelude.Int.{ℤ, pos, negsuc, ℤ-cases}
use srtrust.Seq
use srtrust.Seq.{SeqNumber, IsSeq, offset_from}
use srtrust.Seq.Laws.{offset-pos_inv}
use srtrust.Packet.{DataPacket}
use srtrust.RecvBuffer.{Slot, RecvBuffer, slot_at, insert}
use srtrust.RecvBuffer.Inv.{
  IsValid, put, put_lem, slot_at-resize, present-put, length-put, top-put, Aligned-put,
}

-- The packet that the buffer holds under a sequence number.
abbrev pub at_offset : List Slot → ℤ → Option DataPacket
at_offset xs (pos i) = slot_at xs i
at_offset xs (negsuc n) = none

unfoldable pub lookup : RecvBuffer → SeqNumber → Option DataPacket
lookup b s = at_offset b.slots (offset_from s b.base)

pub slot-lt-length :
    (xs : List Slot) (i : ℕ) (q : DataPacket) → slot_at xs i ≡ some q → i < length xs
slot-lt-length [] i q h = cc
slot-lt-length (x ∷ xs) zero q h = omega arith
slot-lt-length (x ∷ xs) (suc i) q h = omega (arith, slot-lt-length xs i q h)

-- A packet behind the ACK point is refused.
pub insert_stale :
    (b : RecvBuffer) (p : DataPacket) (n : ℕ)
    → offset_from p.seq b.base ≡ negsuc n
    → insert b p ≡ (b, false)
unfolding insert
insert_stale b p n e = rw (e, insert)

-- A packet whose place is taken is refused.
pub insert_duplicate :
    (b : RecvBuffer) (p q : DataPacket) (i : ℕ)
    → offset_from p.seq b.base ≡ pos i
    → slot_at b.slots i ≡ some q
    → insert b p ≡ (b, false)
unfolding insert
insert_duplicate b p q i e h =
    rw (e, insert) (ground (arith, slot-lt-length b.slots i q h, slot_at-resize (i + 1) b.slots i))

-- A packet at a free place at or after the ACK point is stored, and nothing else changes.
pub insert_fresh :
    (b : RecvBuffer) (p : DataPacket) (i : ℕ)
    → offset_from p.seq b.base ≡ pos i
    → slot_at b.slots i ≡ none
    → insert b p ≡ (record b { slots = put i p b.slots; received = b.received + 1 }, true)
unfolding insert
insert_fresh b p i e h =
    rw (e, insert) (ground (arith, put_lem i p b.slots, slot_at-resize (i + 1) b.slots i))

-- The three ways in which an insertion can go.
data Insertion (b : RecvBuffer) (p : DataPacket) : Type 0 where
  refused :
      insert b p ≡ (b, false)
      → lookup b p.seq ≢ none ⊎ ((n : ℕ) × (offset_from p.seq b.base ≡ negsuc n))
      → Insertion b p
  stored :
      (i : ℕ)
      → offset_from p.seq b.base ≡ pos i
      → slot_at b.slots i ≡ none
      → insert b p ≡ (record b { slots = put i p b.slots; received = b.received + 1 }, true)
      → Insertion b p

insertion : (b : RecvBuffer) (p : DataPacket) → Insertion b p
unfolding lookup
insertion b p = elim (ℤ-cases (offset_from p.seq b.base)) [
  | inl (i, e) ↦ elim (Option-cases (slot_at b.slots i)) [
    | inl free ↦ stored i e free (insert_fresh b p i e free)
    | inr (q, taken) ↦ refused (insert_duplicate b p q i e taken) (inl (rw e (λ z. cc)))
  ]
  | inr (n, e) ↦ refused (insert_stale b p n e) (inr (n, e))
]

-- `insert` of a packet with a 31-bit number keeps a well-formed buffer well formed.
pub insert-IsValid :
    (b : RecvBuffer) (p : DataPacket) → IsSeq p.seq → IsValid b → IsValid (insert b p).0
insert-IsValid b p hp v = go (insertion b p)
  where
    go : Insertion b p → IsValid (insert b p).0
    go (refused e _) = rw e v
    go (stored i e free done) =
        let at : (p.seq ≡ Seq.add b.base i) × (i < 2 ^ 30) =
          offset-pos_inv p.seq b.base i hp v.base_seq e in
        rw done (record {
          base_seq = v.base_seq;
          counted = omega (arith, v.counted, present-put i p b.slots free);
          aligned = Aligned-put i p b.base b.slots v.base_seq v.aligned at.0;
          back = top-put i p b.slots v.back;
          span = length-put i p b.slots (2 ^ 30) at.1 v.span;
        })

slot_at-put :
    (i j : ℕ) (p : DataPacket) (xs : List Slot)
    → slot_at (put i p xs) j ≡ (if i == j then some p else slot_at xs j)
slot_at-put zero zero p [] = refl
slot_at-put zero (suc j) p [] = ground arith
slot_at-put zero zero p (x ∷ xs) = refl
slot_at-put zero (suc j) p (x ∷ xs) = ground arith
slot_at-put (suc i) zero p [] = ground arith
slot_at-put (suc i) (suc j) p [] = ground (arith, slot_at-put i j p [])
slot_at-put (suc i) zero p (x ∷ xs) = ground arith
slot_at-put (suc i) (suc j) p (x ∷ xs) = ground (arith, slot_at-put i j p xs)

-- A packet is accepted exactly when it is not behind the ACK point and no packet of its number is
-- held.
pub insert-accepts_iff :
    (b : RecvBuffer) (p : DataPacket)
    → ((insert b p).1 ≡ true)
      ↔ ((lookup b p.seq ≡ none) × ((n : ℕ) → offset_from p.seq b.base ≢ negsuc n))
unfolding lookup
insert-accepts_iff b p = go (insertion b p)
  where
    go :
        Insertion b p
        → ((insert b p).1 ≡ true)
          ↔ ((lookup b p.seq ≡ none) × ((n : ℕ) → offset_from p.seq b.base ≢ negsuc n))
    go (refused e (inl held)) = rw e ((λ h. cc), (λ k. absurd (held k.0)))
    go (refused e (inr (n, z))) = rw e ((λ h. cc), (λ k. absurd (k.1 n z)))
    go (stored i e free done) = rw done ((λ h. (rw e free, λ n z. cc)), (λ k. refl))

ne_of_offsets :
    (b : RecvBuffer) (s t : SeqNumber) (i n : ℕ)
    → offset_from t b.base ≡ pos i
    → offset_from s b.base ≡ negsuc n
    → s ≢ t
ne_of_offsets b s t i n e z q = cc

index_iff :
    (base s t : SeqNumber) (i j : ℕ)
    → IsSeq s
    → IsSeq t
    → IsSeq base
    → offset_from t base ≡ pos i
    → offset_from s base ≡ pos j
    → (i ≡ j) ↔ (s ≡ t)
index_iff base s t i j hs ht hb e z = (
  (λ q.
      (offset-pos_inv s base j hs hb z).0
      ∙ ap (λ k. Seq.add base k) (sym q)
      ∙ sym (offset-pos_inv t base i ht hb e).0),
  (λ q. ground (arith, ap (λ k. offset_from k base) q)),
)

-- After an insertion a well-formed buffer holds the packet under its number if it was accepted,
-- and under every other number what it held before.
pub lookup-insert :
    (b : RecvBuffer) (p : DataPacket) (s : SeqNumber)
    → IsSeq s
    → IsSeq p.seq
    → IsValid b
    → lookup (insert b p).0 s ≡ (if (insert b p).1 && (s == p.seq) then some p else lookup b s)
unfolding lookup
lookup-insert b p s hs hp v = go (insertion b p) (ℤ-cases (offset_from s b.base))
  where
    go :
        Insertion b p
        → ((j : ℕ) × (offset_from s b.base ≡ pos j)) ⊎ ((n : ℕ) × (offset_from s b.base ≡ negsuc n))
        → lookup (insert b p).0 s ≡ (if (insert b p).1 && (s == p.seq) then some p else lookup b s)
    go (refused e _) side = rw e refl
    go (stored i e free done) (inr (n, z)) =
        rw done (rw z (ground (arith, ne_of_offsets b s p.seq i n e z)))
    go (stored i e free done) (inl (j, z)) = rw done (
        rw z (
          ground
            (arith, slot_at-put i j p b.slots, index_iff b.base s p.seq i j hs hp v.base_seq e z)))
