-- ===== src/RecvBuffer/Reach.antt =====
-- The buffers that a connection can reach: any sequence of operations on a fresh one.
use srtrust.Prelude.{inl, inr, Option-cases}
use srtrust.Seq.{SeqNumber, IsSeq}
use srtrust.Packet.{DataPacket}
use srtrust.RecvBuffer.{RecvBuffer, new, slot_at, insert, pop, pop_in_order, drop_range}
use srtrust.RecvBuffer.Inv.{IsValid, new-IsValid}
use srtrust.RecvBuffer.Insert.{insert-IsValid}
use srtrust.RecvBuffer.Pop.{pop-IsValid}
use srtrust.RecvBuffer.Drop.{drop_range-IsValid}

-- One operation on the buffer: packets come with 31-bit numbers, as they do from the wire, and a
-- drop request may name any range.
pub data Step : RecvBuffer → RecvBuffer → Type 0 where
  inserts : (b : RecvBuffer) (p : DataPacket) → IsSeq p.seq → Step b (insert b p).0
  pops : (b : RecvBuffer) → Step b (pop b).0
  pops_in_order : (b : RecvBuffer) → Step b (pop_in_order b).0
  drops : (b : RecvBuffer) (first last : SeqNumber) → IsSeq last → Step b (drop_range b first last)

pub data Reaches (initial_seq : SeqNumber) : RecvBuffer → Type 0 where
  starts : Reaches initial_seq (new initial_seq)
  steps : (b b' : RecvBuffer) → Reaches initial_seq b → Step b b' → Reaches initial_seq b'

pop_in_order-IsValid : (b : RecvBuffer) → IsValid b → IsValid (pop_in_order b).0
unfolding pop_in_order
pop_in_order-IsValid b v = elim (Option-cases (slot_at b.slots 0)) [
  | inl e ↦ rw e v
  | inr (p, e) ↦ rw e (pop-IsValid b v)
]

Step-IsValid : (b b' : RecvBuffer) → Step b b' → IsValid b → IsValid b'
Step-IsValid _ _ (inserts b p h) v = insert-IsValid b p h v
Step-IsValid _ _ (pops b) v = pop-IsValid b v
Step-IsValid _ _ (pops_in_order b) v = pop_in_order-IsValid b v
Step-IsValid _ _ (drops b first last h) v = drop_range-IsValid b first last h v

-- Every buffer that a sequence of insertions, deliveries and drop requests reaches from a fresh one
-- is well formed.
pub Reaches-IsValid :
    (initial_seq : SeqNumber) (b : RecvBuffer)
    → IsSeq initial_seq
    → Reaches initial_seq b
    → IsValid b
Reaches-IsValid s _ h starts = new-IsValid s h
Reaches-IsValid s _ h (steps b b' r t) = Step-IsValid b b' t (Reaches-IsValid s b h r)
