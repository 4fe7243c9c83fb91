-- ===== src/RecvBuffer/AckPoint.antt =====
-- The acknowledgement point that the receiver reports.
use srtrust.Prelude.{ℕ, zero, suc, ◌≤◌, ◌<◌, ◌≡◌, refl, arith, ap, none, some}
use srtrust.Prelude.{List, [], ◌∷◌, length}
use srtrust.Seq
use srtrust.Seq.{SeqNumber, IsSeq}
use srtrust.Packet.{DataPacket}
use srtrust.RecvBuffer.{Slot, RecvBuffer, slot_at, contiguous, received_ack_point}
use srtrust.RecvBuffer.Inv.{IsValid}

contiguous-some :
    (xs : List Slot) (j : ℕ) → j < contiguous xs → (p : DataPacket) × (slot_at xs j ≡ some p)
unfolding contiguous
contiguous-some [] j h = absurd (omega arith)
contiguous-some (none ∷ xs) j h = absurd (omega arith)
contiguous-some (some p ∷ xs) zero h = (p, refl)
contiguous-some (some p ∷ xs) (suc j) h = contiguous-some xs j (omega arith)

contiguous-none : (xs : List Slot) → slot_at xs (contiguous xs) ≡ none
unfolding contiguous
contiguous-none [] = refl
contiguous-none (none ∷ xs) = refl
contiguous-none (some p ∷ xs) = contiguous-none xs

contiguous-le : (xs : List Slot) → contiguous xs ≤ length xs
unfolding contiguous
contiguous-le [] = omega arith
contiguous-le (none ∷ xs) = omega arith
contiguous-le (some p ∷ xs) = omega (arith, contiguous-le xs)

-- The acknowledged point of a well-formed buffer is `n` past its base where the `n` packets from
-- the base on are all held and the one at that point is not.
pub received_ack_point_lem :
    (b : RecvBuffer)
    → IsValid b
    → (n : ℕ) × (received_ack_point b ≡ Seq.add b.base n)
      × ((j : ℕ) → j < n → (p : DataPacket) × (slot_at b.slots j ≡ some p))
      × (slot_at b.slots n ≡ none)
unfolding received_ack_point
received_ack_point_lem b v = (
  contiguous b.slots,
  ap (Seq.add b.base) (ground (arith, contiguous-le b.slots, v.span)),
  contiguous-some b.slots,
  contiguous-none b.slots,
)
