-- ===== src/SendBuffer.antt =====
-- crates/srt-protocol/src/send_buffer.rs: the packets sent and not yet acknowledged, front first.
-- An `Instant` is a number of nanoseconds.
pub mod Inv
pub mod Ack
pub mod Index
pub mod Mark
mod Tests
use mathlib.Core.Option
use srtrust.Prelude.{ℕ, zero, suc, ◌+◌, Bool, true, false, Option, none, some, List, [], ◌∷◌, ◌++◌}
use srtrust.Prelude.{ltb, if◌then◌else◌, length, get_elem?, set, is_less}
use srtrust.Prelude.Int.{ℤ, pos, negsuc}
use srtrust.Seq.{SeqNumber, offset_from, circular_cmp}
use srtrust.Packet.{DataPacket}

abbrev pub Instant : Type 0
Instant = ℕ

pub record Sent : Type 0 where
  pub packet : DataPacket
  pub last_retransmit : Option Instant

pub record SendBuffer : Type 0 where
  pub packets : List Sent

unfoldable pub new : SendBuffer
new = record { packets = [] }

abbrev pub is_empty : SendBuffer → Bool
is_empty b = elim b.packets [ [] ↦ true | x ∷ xs ↦ false ]

abbrev pub len : SendBuffer → ℕ
len b = length b.packets

abbrev pub head_packet : List Sent → Option DataPacket
head_packet [] = none
head_packet (x ∷ xs) = some x.packet

abbrev pub last_packet : List Sent → Option DataPacket
last_packet [] = none
last_packet (x ∷ []) = some x.packet
last_packet (x ∷ y ∷ ys) = last_packet (y ∷ ys)

abbrev pub front : SendBuffer → Option DataPacket
front b = head_packet b.packets

abbrev pub first_seq : SendBuffer → Option SeqNumber
first_seq b = Option.map (λ (p : DataPacket). p.seq) (front b)

abbrev pub last_seq : SendBuffer → Option SeqNumber
last_seq b = Option.map (λ (p : DataPacket). p.seq) (last_packet b.packets)

-- `pop_front`: the slots after the first.
abbrev pub tail_of : List Sent → List Sent
tail_of [] = []
tail_of (x ∷ xs) = xs

unfoldable pub drop_front : SendBuffer → SendBuffer × Option DataPacket
drop_front b = (record { packets = tail_of b.packets }, front b)

-- The assertion of the source is a debug one, and is stated where it is needed.
unfoldable pub push : SendBuffer → DataPacket → SendBuffer
push b packet = record {
  packets = b.packets ++ (record { packet = packet; last_retransmit = none } ∷ []);
}

-- The loop of `ack`: the packets left, and the count of those dropped.
pub ack_from : List Sent → SeqNumber → ℕ → List Sent × ℕ
ack_from [] next_expected dropped = ([], dropped)
ack_from (x ∷ xs) next_expected dropped =
    let rest = ack_from xs next_expected (dropped + 1) in
    if is_less (circular_cmp x.packet.seq next_expected) then rest else (x ∷ xs, dropped)

unfoldable pub ack : SendBuffer → SeqNumber → SendBuffer × ℕ
unfolding ack_from
ack b next_expected =
    let (packets, dropped) = ack_from b.packets next_expected 0 in
    (record { packets = packets }, dropped)

-- `usize::try_from(offset).ok().filter(|&i| i < len)`.
abbrev pub index_in : ℤ → ℕ → Option ℕ
index_in (pos i) n = if ltb i n then some i else none
index_in (negsuc k) n = none

unfoldable pub index_of : SendBuffer → SeqNumber → Option ℕ
index_of b s = elim (first_seq b) [ none ↦ none | some f ↦ index_in (offset_from s f) (len b) ]

-- The entry that `get`, `last_retransmitted` and `mark_retransmitted` look at.
unfoldable pub entry : SendBuffer → SeqNumber → Option Sent
unfolding index_of
entry b s = elim (index_of b s) [ none ↦ none | some i ↦ get_elem? b.packets i ]

unfoldable pub get : SendBuffer → SeqNumber → Option DataPacket
unfolding entry
get b s = Option.map (λ (x : Sent). x.packet) (entry b s)

unfoldable pub last_retransmitted : SendBuffer → SeqNumber → Option Instant
unfolding entry
last_retransmitted b s = elim (entry b s) [ none ↦ none | some x ↦ x.last_retransmit ]

-- The write through `get_mut(i)`, if there is such an entry.
abbrev pub mark_at : List Sent → ℕ → Instant → List Sent
mark_at [] i now = []
mark_at (x ∷ xs) zero now = record x { last_retransmit = some now } ∷ xs
mark_at (x ∷ xs) (suc i) now = x ∷ mark_at xs i now

unfoldable pub mark_retransmitted : SendBuffer → SeqNumber → Instant → SendBuffer
unfolding index_of
mark_retransmitted b s now = elim (index_of b s) [
  | none ↦ b
  | some i ↦ record { packets = mark_at b.packets i now }
]
