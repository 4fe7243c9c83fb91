-- ===== src/RecvBuffer.antt =====
-- crates/srt-protocol/src/recv_buffer.rs: the receive buffer, a window of slots that starts at the
-- sequence number `base` (the ACK point). The deque is a list, front first.
pub mod Inv
pub mod Insert
pub mod AckPoint
pub mod Pop
pub mod Drop
pub mod Missing
pub mod Reach
pub mod AgeFilter
pub mod Aged
mod Tests
use mathlib.Core.Option
use srtrust.Prelude.{
  ℕ, zero, suc, ◌+◌, ◌-◌, ◌%◌, ◌^◌, Bool, true, false, not, Option, none, some, List, [], ◌∷◌,
}
use srtrust.Prelude.{
  leb, ◌==◌, if◌then◌else◌, length, set, take, drop, clamp_u32, is_less, is_greater,
}
use srtrust.Prelude.Int.{ℤ, pos, negsuc}
use srtrust.Seq
use srtrust.Seq.{SeqNumber, offset_from, circular_cmp}
use srtrust.Timestamp.{Timestamp}
use srtrust.Packet.{DataPacket}

abbrev pub Slot : Type 0
Slot = Option DataPacket

pub record RecvBuffer : Type 0 where
  pub base : SeqNumber
  pub slots : List Slot
  pub received : ℕ

abbrev pub is_some : Slot → Bool
is_some none = false
is_some (some p) = true

unfoldable pub new : SeqNumber → RecvBuffer
new initial_seq = record { base = initial_seq; slots = []; received = 0 }

abbrev pub ack_point : RecvBuffer → SeqNumber
ack_point b = b.base

abbrev pub occupancy : RecvBuffer → ℕ
occupancy b = b.received

-- `iter().take_while(is_some).count()`.
pub contiguous : List Slot → ℕ
contiguous [] = 0
contiguous (none ∷ xs) = 0
contiguous (some p ∷ xs) = suc (contiguous xs)

unfoldable pub received_ack_point : RecvBuffer → SeqNumber
received_ack_point b = Seq.add b.base (clamp_u32 (contiguous b.slots))

unfoldable pub has_gaps : RecvBuffer → Bool
has_gaps b = not (b.received == length b.slots)

-- `resize_with(n, || None)` on a shorter deque.
pub resize : ℕ → List Slot → List Slot
resize zero xs = xs
resize (suc n) [] = none ∷ resize n []
resize (suc n) (x ∷ xs) = x ∷ resize n xs

-- `slots[i]`, `none` also where there is no such slot.
abbrev pub slot_at : List Slot → ℕ → Slot
slot_at [] i = none
slot_at (x ∷ xs) zero = x
slot_at (x ∷ xs) (suc i) = slot_at xs i

-- `insert` once the offset is known not to be negative.
pub insert_at : RecvBuffer → DataPacket → ℕ → RecvBuffer × Bool
insert_at b packet offset =
    let slots = if leb (length b.slots) offset then resize (offset + 1) b.slots else b.slots in
    if is_some (slot_at slots offset)
    then (record b { slots = slots }, false)
    else (record b { slots = set slots offset (some packet); received = b.received + 1 }, true)

unfoldable pub insert : RecvBuffer → DataPacket → RecvBuffer × Bool
unfolding insert_at resize
insert b packet = elim (offset_from packet.seq b.base) [
  | pos offset ↦ insert_at b packet offset
  | negsuc n ↦ (b, false)
]

-- `iter().position(Option::is_some)`.
pub position : List Slot → Option ℕ
position [] = none
position (some p ∷ xs) = some 0
position (none ∷ xs) = Option.map (λ i. suc i) (position xs)

unfoldable pub peek : RecvBuffer → Option (SeqNumber × Timestamp)
unfolding position
peek b = elim (position b.slots) [
  | none ↦ none
  | some i ↦ Option.map (λ (p : DataPacket). (p.seq, p.timestamp)) (slot_at b.slots i)
]

-- `pop_front().flatten()` on the slots left after the leading gap, and what follows it.
pub deliver : RecvBuffer → List Slot → RecvBuffer × Option DataPacket
deliver b [] = (record b { slots = [] }, none)
deliver b (none ∷ rest) = (record b { slots = rest }, none)
deliver b (some p ∷ rest) =
    (record { base = Seq.next p.seq; slots = rest; received = b.received - 1 }, some p)

unfoldable pub pop : RecvBuffer → RecvBuffer × Option DataPacket
unfolding position deliver
pop b = elim (position b.slots) [ none ↦ (b, none) | some i ↦ deliver b (drop i b.slots) ]

unfoldable pub pop_in_order : RecvBuffer → RecvBuffer × Option DataPacket
pop_in_order b = if is_some (slot_at b.slots 0) then pop b else (b, none)

-- The loop of `drop_range`: the slots left and the count of received packets.
pub drop_slots : ℕ → List Slot → ℕ → List Slot × ℕ
drop_slots zero xs received = (xs, received)
drop_slots (suc n) [] received = ([], received)
drop_slots (suc n) (some p ∷ xs) received = drop_slots n xs (received - 1)
drop_slots (suc n) (none ∷ xs) received = drop_slots n xs received

-- `usize::try_from(i32)`, with 0 for a negative number.
abbrev pub usize_or_zero : ℤ → ℕ
usize_or_zero (pos n) = n
usize_or_zero (negsuc n) = 0

unfoldable pub drop_range : RecvBuffer → SeqNumber → SeqNumber → RecvBuffer
unfolding drop_slots
drop_range b first last =
    if is_less (circular_cmp last b.base)
    then b
    else if is_greater (circular_cmp first b.base)
    then b
    else (let (slots, received) =
          drop_slots (usize_or_zero (offset_from last b.base) + 1) b.slots b.received in
        record { base = Seq.next last; slots = slots; received = received })

-- `iter().rposition(Option::is_some)`.
pub rposition : List Slot → Option ℕ
rposition [] = none
rposition (x ∷ xs) = elim (rposition xs) [
  | some i ↦ some (suc i)
  | none ↦ if is_some x then some 0 else none
]

abbrev pub SeqRange : Type 0
SeqRange = SeqNumber × SeqNumber

-- The loop of `missing`, with `run_start` and `seq`; the ranges are pushed in this order.
pub missing_from : List Slot → Option SeqNumber → SeqNumber → List SeqRange
missing_from [] run_start seq = []
missing_from (none ∷ xs) run_start seq =
    missing_from xs (some (Option.get_or run_start seq)) (Seq.next seq)
missing_from (some p ∷ xs) none seq = missing_from xs none (Seq.next seq)
missing_from (some p ∷ xs) (some start) seq =
    (start, Seq.prev seq) ∷ missing_from xs none (Seq.next seq)

unfoldable pub missing : RecvBuffer → List SeqRange
unfolding missing_from rposition
missing b = elim (rposition b.slots) [
  | none ↦ []
  | some highest ↦ missing_from (take (highest + 1) b.slots) none b.base
]

-- The closure of `missing_aged` on one range.
pub age_filter : SeqNumber → SeqRange → Option SeqRange
age_filter limit (start, end) =
    if is_greater (circular_cmp start limit)
    then none
    else some (start, if is_greater (circular_cmp end limit) then limit else end)

pub filter_aged : SeqNumber → List SeqRange → List SeqRange
filter_aged limit [] = []
filter_aged limit (r ∷ rs) = elim (age_filter limit r) [
  | none ↦ filter_aged limit rs
  | some r' ↦ r' ∷ filter_aged limit rs
]

unfoldable pub missing_aged : RecvBuffer → ℕ → List SeqRange
unfolding rposition filter_aged age_filter
missing_aged b tolerance = if tolerance == 0 then missing b else elim (rposition b.slots) [
  | none ↦ []
  | some i ↦
      let highest = Seq.add b.base (clamp_u32 i) in
      filter_aged (Seq.new ((highest + 2 ^ 32 - tolerance) % 2 ^ 32)) (missing b)
]
