-- ===== src/RecvBuffer/Tests.antt =====
-- Concrete inputs for the theorems of the receive buffer.
use srtrust.Prelude.{
  ℕ, refl, ◌-◌, ◌^◌, ◌∷◌, ◌⊎◌, ◌↔◌, ◌<◌, ◌&&◌, ◌≡◌, ◌≢◌, arith, false, none, some, [],
  if◌then◌else◌, ◌==◌, length, take,
}
use srtrust.Prelude.{less, greater}
use srtrust.Seq
use srtrust.Seq.{SeqNumber, offset_from, circular_cmp}
use srtrust.Packet.{DataPacket, single, Encryption}
use srtrust.RecvBuffer.{
  RecvBuffer, new, slot_at, insert, pop, pop_in_order, received_ack_point, has_gaps, drop_range,
  missing, missing_aged,
}
use srtrust.RecvBuffer.Inv.{IsValid, new-IsValid}
use srtrust.RecvBuffer.Insert.{lookup, insert-IsValid, lookup-insert}
use srtrust.RecvBuffer.Pop.{Popped, pop_lem}
use srtrust.RecvBuffer.Reach.{Reaches, starts, steps, inserts, pops_in_order, Reaches-IsValid}
use srtrust.RecvBuffer.AckPoint.{received_ack_point_lem}
use srtrust.RecvBuffer.Drop.{Dropped, drop_range_lem}
use srtrust.RecvBuffer.Missing.{expand_all, absent_from, missing_lem, has_gaps-missing_iff}
use srtrust.RecvBuffer.Aged.{missing_aged_lem}

-- A packet of a sequence number.
abbrev packet : SeqNumber → DataPacket
packet s = record {
  seq = s;
  position = single;
  in_order = false;
  encryption = Encryption.none;
  retransmitted = false;
  message_number = 1;
  timestamp = 1000;
  dest_socket_id = 77;
  payload = [];
}

-- A buffer that wraps: the last number and 1 are held, 0 is missing.
abbrev gapped : RecvBuffer
gapped = (insert (insert (new (2 ^ 31 - 1)) (packet (2 ^ 31 - 1))).0 (packet 1)).0

gapped-IsValid : IsValid gapped
gapped-IsValid =
    insert-IsValid (insert (new (2 ^ 31 - 1)) (packet (2 ^ 31 - 1))).0 (packet 1) (omega arith) (
      insert-IsValid (new (2 ^ 31 - 1)) (packet (2 ^ 31 - 1)) (omega arith)
        (new-IsValid (2 ^ 31 - 1) (omega arith)))

gapped-missing : expand_all (missing gapped) ≡ 0 ∷ []
unfolding missing insert new offset_from Seq.next Seq.prev
gapped-missing = refl

lookup-insert_example :
    lookup (insert gapped (packet 0)).0 1
    ≡ (if (insert gapped (packet 0)).1 && (1 == 0) then some (packet 0) else lookup gapped 1)
lookup-insert_example = lookup-insert gapped (packet 0) 1 (omega arith) (omega arith) gapped-IsValid

pop_lem_example :
    ((gapped.received ≡ 0) × (pop gapped ≡ (gapped, none)))
    ⊎ ((p : DataPacket) × ((pop gapped).1 ≡ some p)
        × Popped gapped (pop gapped).0 p
        × (0 < gapped.received))
pop_lem_example = pop_lem gapped gapped-IsValid

received_ack_point_lem_example :
    (n : ℕ) × (received_ack_point gapped ≡ Seq.add gapped.base n)
    × ((j : ℕ) → j < n → (p : DataPacket) × (slot_at gapped.slots j ≡ some p))
    × (slot_at gapped.slots n ≡ none)
received_ack_point_lem_example = received_ack_point_lem gapped gapped-IsValid

drop_range_lem_example :
    ((circular_cmp 0 gapped.base ≡ less) × (drop_range gapped (2 ^ 31 - 1) 0 ≡ gapped))
    ⊎ ((circular_cmp (2 ^ 31 - 1) gapped.base ≡ greater)
        × (drop_range gapped (2 ^ 31 - 1) 0 ≡ gapped))
    ⊎ ((circular_cmp 0 gapped.base ≢ less)
        × (circular_cmp (2 ^ 31 - 1) gapped.base ≢ greater)
        × Dropped gapped (drop_range gapped (2 ^ 31 - 1) 0) 0)
drop_range_lem_example = drop_range_lem gapped (2 ^ 31 - 1) 0 (omega arith) gapped-IsValid

missing_lem_example : expand_all (missing gapped) ≡ absent_from gapped.base gapped.slots
missing_lem_example = missing_lem gapped gapped-IsValid

has_gaps-missing_iff_example : (has_gaps gapped ≡ false) ↔ (missing gapped ≡ [])
has_gaps-missing_iff_example = has_gaps-missing_iff gapped gapped-IsValid

missing_aged_lem_example :
    expand_all (missing_aged gapped 2)
    ≡ absent_from gapped.base (take (length gapped.slots - 2) gapped.slots)
missing_aged_lem_example = missing_aged_lem gapped 2 (omega arith) gapped-IsValid

-- A packet arrives, a later one, and the one in order is delivered.
abbrev delivered : RecvBuffer
delivered = (pop_in_order gapped).0

delivered-Reaches : Reaches (2 ^ 31 - 1) delivered
delivered-Reaches =
    steps gapped delivered
      (steps (insert (new (2 ^ 31 - 1)) (packet (2 ^ 31 - 1))).0 gapped
        (steps (new (2 ^ 31 - 1)) (insert (new (2 ^ 31 - 1)) (packet (2 ^ 31 - 1))).0 starts
          (inserts (new (2 ^ 31 - 1)) (packet (2 ^ 31 - 1)) (omega arith)))
        (inserts (insert (new (2 ^ 31 - 1)) (packet (2 ^ 31 - 1))).0 (packet 1) (omega arith)))
      (pops_in_order gapped)

Reaches-IsValid_example : IsValid delivered
Reaches-IsValid_example = Reaches-IsValid (2 ^ 31 - 1) delivered (omega arith) delivered-Reaches
