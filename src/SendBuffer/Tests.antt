-- ===== src/SendBuffer/Tests.antt =====
-- Concrete inputs for the theorems of the send buffer.
use srtrust.Prelude.{
  ℕ, ◌^◌, ◌-◌, false, ◌≡◌, ◌↔◌, refl, arith, none, some, [], ◌∷◌, get_elem?, drop,
}
use srtrust.Seq
use srtrust.Seq.{SeqNumber, IsSeq, offset_from}
use srtrust.Packet.{DataPacket, single, Encryption}
use srtrust.SendBuffer.{Sent, SendBuffer, ack, get}
use srtrust.SendBuffer.Inv.{IsValid, Runs}
use srtrust.SendBuffer.Ack.{released, ack_lem}
use srtrust.SendBuffer.Index.{get_iff}

abbrev packet : SeqNumber → DataPacket
packet s = record {
  seq = s;
  position = single;
  in_order = false;
  encryption = Encryption.none;
  retransmitted = false;
  message_number = 1;
  timestamp = 1000;
  dest_socket_id = 77;
  payload = [];
}

abbrev sent : SeqNumber → Sent
sent s = record { packet = packet s; last_retransmit = none }

-- Three packets on both sides of the wrap.
abbrev three : SendBuffer
three = record { packets = sent (2 ^ 31 - 1) ∷ sent 0 ∷ sent 1 ∷ [] }

three-Runs : Runs (2 ^ 31 - 1) three.packets
unfolding Seq.next
three-Runs = (refl, (refl, (refl, tt)))

abbrev three-IsValid : IsValid three
three-IsValid = record {
  start = 2 ^ 31 - 1;
  start_seq = omega arith;
  runs = three-Runs;
  span = omega arith;
}

ack_lem_example : ack three 1 ≡ (
  record { packets = drop (released (offset_from 1 (2 ^ 31 - 1)) 3) three.packets },
  released (offset_from 1 (2 ^ 31 - 1)) 3,
)
ack_lem_example = ack_lem three three-IsValid 1 (omega arith) (unfold Seq.add in omega arith)

get_iff_example : (get three 0 ≡ some (packet 0)) ↔ (
    (i : ℕ) × (x : Sent) × (get_elem? three.packets i ≡ some x)
    × (x.packet ≡ packet 0)
    × ((packet 0).seq ≡ 0))
get_iff_example = get_iff three 0 (packet 0) (omega arith) three-IsValid
