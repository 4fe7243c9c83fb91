-- ===== src/Connection/Receive.antt =====
-- crates/srt-protocol/src/connection/arq.rs: receiving: the play times of TSBPD, delivery, reorder
-- tolerance, and the packets that FEC recovers. Feedback to the sender stands in Feedback.
use srtrust.Prelude.{
  ℕ, zero, suc, ◌+◌, ◌-◌, ◌*◌, ◌/◌, max, min, Bool, true, false, Option, none, some,
}
use srtrust.Prelude.{List, [], ◌∷◌, length, ltb, leb, ◌==◌, if◌then◌else◌, wrap_i64, clamp_u32}
use srtrust.Prelude.Int.{ℤ, pos, negsuc, sub_ℕ, ◌+ℤ◌, ◌-ℤ◌}
use srtrust.External.{External}
use srtrust.Seq.{SeqNumber, offset_from}
use srtrust.Timestamp
use srtrust.Timestamp.{Timestamp, TsbpdWrap}
use srtrust.Packet.{
  DataPacket, single, Encryption, key_to_bits, key_from_bits, msg_number, header_aad,
}
use srtrust.Rate
use srtrust.Drift
use srtrust.Fec.Receiver.{FecReceiver, RecoveredPacket, observe_data, observe_parity}
use srtrust.RecvBuffer
use srtrust.RecvBuffer.{RecvBuffer, SeqRange, usize_or_zero}
use srtrust.SendBuffer.{Instant}
use srtrust.Crypto.Session.{SessionCrypto, decrypt}
use srtrust.Event.{data_received, set_timer, clear_timer, tsbpd}
use srtrust.Connection.{Connection, push_output, push_event}
use srtrust.Connection.Messages
use srtrust.Connection.Send.{clamp_u16}
use srtrust.Connection.Retransmit.{micros_i64}
use srtrust.Connection.Feedback.{
  available_recv_buffer, light_ack_every, send_light_ack, report_gaps,
}

abbrev pub max_reorder_tolerance : ℕ
max_reorder_tolerance = 32

abbrev pub reorder_decay_after : ℕ
reorder_decay_after = 50

-- An instant moved by microseconds; unmoved where that lies before the origin of the clock.
unfoldable pub apply_signed : Instant → ℤ → Instant
apply_signed instant (pos micros) = instant + micros * 1000
apply_signed instant (negsuc n) =
    if leb (suc n * 1000) instant then instant - suc n * 1000 else instant

-- The microseconds from one instant to another.
unfoldable pub signed_micros : Instant → Instant → ℤ
signed_micros from to =
    if leb from to then pos (micros_i64 (to - from)) else sub_ℕ 0 (micros_i64 (from - to))

abbrev pub expected_offset : Connection → TsbpdWrap → Timestamp → Timestamp → ℤ
expected_offset c wrap ref_ts timestamp = wrap_i64 (
    wrap_i64 (wrap_i64 (Timestamp.offset_of wrap timestamp) -ℤ pos ref_ts) +ℤ c.drift.correction_us)

unfoldable pub tsbpd_expected_arrival : Connection → Timestamp → Option Instant
unfolding apply_signed ◌+ℤ◌ ◌-ℤ◌
tsbpd_expected_arrival c timestamp = elim c.tsbpd_base [
  | none ↦ none
  | some (ref_ts, ref_instant) ↦ elim c.ts_wrap [
    | none ↦ none
    | some wrap ↦ some (apply_signed ref_instant (expected_offset c wrap ref_ts timestamp))
  ]
]

unfoldable pub tsbpd_play_time : Connection → Timestamp → Option Instant
unfolding tsbpd_expected_arrival
tsbpd_play_time c timestamp = elim (tsbpd_expected_arrival c timestamp) [
  | none ↦ none
  | some at ↦ some (at + c.latency)
]

-- `if let Some(message) = ... { events.push_back(Event::DataReceived(message)) }`.
abbrev pub deliver_message : Connection → Option (List ℕ) → Connection
deliver_message c none = c
deliver_message c (some message) = push_event c (data_received message)

-- The reassembler takes a delivered packet.
unfoldable pub reassemble : Connection → DataPacket → Connection
unfolding push_event
reassemble c packet =
    let (reassembler, message) = Messages.push c.reassembler packet in
    deliver_message (record c { reassembler = reassembler }) message

-- The numbers by which the ACK point advanced past a gap.
abbrev pub gap_before : ℤ → ℕ
gap_before (pos n) = n - 1
gap_before (negsuc n) = 0

-- The buffer after a delivery or a drop, with the count of what was skipped.
unfoldable pub advanced : Connection → RecvBuffer → ℕ → Connection
advanced c buffer skipped = record c {
  recv_buffer = buffer;
  stats = record c.stats { packets_dropped = c.stats.packets_dropped + skipped };
}

-- One delivered packet, in the loop of `deliver_tsbpd`.
unfoldable pub deliver_next : Connection → Connection
unfolding advanced reassemble
deliver_next c =
    let (buffer, popped) = RecvBuffer.pop c.recv_buffer in
    elim popped [
      | none ↦ advanced c buffer 0
      | some packet ↦
          reassemble (advanced c buffer (gap_before (offset_from buffer.base c.recv_buffer.base)))
            packet
    ]

-- The loop, on fuel: each round takes a slot at least, so one more than the slots is enough.
unfoldable pub deliver_loop : ℕ → Connection → Instant → Connection
unfolding tsbpd_play_time deliver_next push_output
deliver_loop zero c now = c
deliver_loop (suc fuel) c now = elim (RecvBuffer.peek c.recv_buffer) [
  | none ↦ push_output c (clear_timer tsbpd)
  | some (seq, timestamp) ↦ elim (tsbpd_play_time c timestamp) [
    | none ↦ c
    | some play_time ↦ elim (ltb now play_time) [
      | true ↦ push_output c (set_timer tsbpd (play_time - now))
      | false ↦ deliver_loop fuel (deliver_next c) now
    ]
  ]
]

unfoldable pub deliver_tsbpd : Connection → Instant → Connection
unfolding deliver_loop
deliver_tsbpd c now = deliver_loop (suc (length c.recv_buffer.slots)) c now

unfoldable pub drop_requested : Connection → SeqNumber → SeqNumber → Connection
unfolding advanced
drop_requested c first last =
    let buffer = RecvBuffer.drop_range c.recv_buffer first last in
    let skipped = usize_or_zero (offset_from buffer.base c.recv_buffer.base) in
    record (advanced c buffer skipped) { reported_loss = RecvBuffer.missing buffer }

unfoldable pub on_dropreq : Connection → SeqNumber → SeqNumber → Instant → Connection
unfolding drop_requested deliver_tsbpd
on_dropreq c first last now = deliver_tsbpd (drop_requested c first last) now

-- `track_reorder` for an original whose offset from the highest one is known.
unfoldable pub track_offset : Connection → SeqNumber → ℤ → Connection
track_offset c seq (pos n) =
    if leb reorder_decay_after (c.orderly_streak + 1)
    then record c {
      highest_recv_seq = some seq;
      orderly_streak = 0;
      reorder_tolerance = c.reorder_tolerance - 1;
    }
    else record c { highest_recv_seq = some seq; orderly_streak = c.orderly_streak + 1 }
track_offset c seq (negsuc n) = record c {
  reorder_tolerance = max c.reorder_tolerance (min (suc n) max_reorder_tolerance);
  orderly_streak = 0;
}

unfoldable pub track_reorder : Connection → SeqNumber → Bool → Connection
unfolding track_offset
track_reorder c seq retransmitted = if retransmitted then c else elim c.highest_recv_seq [
  | none ↦ record c { highest_recv_seq = some seq }
  | some highest ↦ track_offset c seq (offset_from seq highest)
]

-- The first accepted packet anchors the timeline, and the wrap tracker follows the later ones.
unfoldable pub anchor : Connection → Timestamp → Instant → Connection
anchor c timestamp now = elim c.tsbpd_base [
  | none ↦ record c { tsbpd_base = some (timestamp, now); ts_wrap = some (Timestamp.new timestamp) }
  | some base ↦ elim c.ts_wrap [
    | none ↦ c
    | some wrap ↦ record c { ts_wrap = some (Timestamp.observe wrap timestamp) }
  ]
]

unfoldable pub sample_drift : Connection → Timestamp → Bool → Instant → Connection
unfolding tsbpd_expected_arrival signed_micros
sample_drift c timestamp retransmitted now =
    if retransmitted then c else elim (tsbpd_expected_arrival c timestamp) [
      | none ↦ c
      | some expected ↦ record c {
        drift = Drift.sample c.drift (signed_micros expected now) (pos (micros_i64 c.rtt.rtt));
      }
    ]

abbrev pub is_plain : Encryption → Bool
is_plain Encryption.none = true
is_plain _ = false

-- The payload after decryption, `none` for a packet that cannot be decrypted.
unfoldable pub open_payload : External → Option SessionCrypto → DataPacket → Option (List ℕ)
open_payload env crypto packet =
    if is_plain packet.encryption then some packet.payload else elim crypto [
      | none ↦ none
      | some keys ↦ decrypt env keys packet.seq packet.encryption (header_aad packet) packet.payload
    ]

unfoldable pub count_received : Connection → ℕ → Connection
count_received c size = record c {
  stats = record c.stats {
    packets_received = c.stats.packets_received + 1;
    bytes_received = c.stats.bytes_received + size;
  };
}

-- The arrival time in microseconds does not reach 2 ^ 64.
unfoldable pub record_rate : Connection → ℕ → Instant → Connection
record_rate c size now = record c {
  rate = Rate.record_packet c.rate ((now - c.start) / 1000) (clamp_u32 size);
}

-- One more packet since the last ACK, and a light ACK at every 64th.
unfoldable pub count_to_ack : Connection → Instant → Connection
unfolding send_light_ack
count_to_ack c0 now =
    let c = record c0 { packets_since_ack = c0.packets_since_ack + 1 } in
    if leb light_ack_every c.packets_since_ack then send_light_ack c now else c

-- `insert_data` once the packet was accepted into the buffer.
unfoldable pub accepted : Connection → DataPacket → Instant → Connection
unfolding count_received track_reorder record_rate anchor sample_drift deliver_tsbpd count_to_ack
    report_gaps
accepted c packet now =
    let size = length packet.payload in
    let c = track_reorder (count_received c size) packet.seq packet.retransmitted in
    let c = anchor (record_rate c size now) packet.timestamp now in
    let c = sample_drift c packet.timestamp packet.retransmitted now in
    report_gaps (count_to_ack (deliver_tsbpd c now) now) now

unfoldable pub count_duplicate : Connection → RecvBuffer → Connection
count_duplicate c buffer = record c {
  recv_buffer = buffer;
  stats = record c.stats { packets_duplicate = c.stats.packets_duplicate + 1 };
}

-- `insert_data` once the payload is plain.
unfoldable pub insert_plain : Connection → DataPacket → Instant → Connection
unfolding accepted count_duplicate
insert_plain c packet now =
    let (buffer, fresh) = RecvBuffer.insert c.recv_buffer packet in
    if fresh
    then accepted (record c { recv_buffer = buffer }) packet now
    else count_duplicate c buffer

unfoldable pub count_full : Connection → Connection
count_full c = record c {
  stats = record c.stats { packets_dropped_full = c.stats.packets_dropped_full + 1 };
}

unfoldable pub count_undecryptable : Connection → Connection
count_undecryptable c = record c {
  stats = record c.stats { packets_undecryptable = c.stats.packets_undecryptable + 1 };
}

unfoldable pub count_recovered : Connection → Connection
count_recovered c = record c {
  stats = record c.stats { packets_recovered = c.stats.packets_recovered + 1 };
}

-- A recovered packet as if it had arrived.
abbrev pub recovered_packet : Connection → RecoveredPacket → Encryption → DataPacket
recovered_packet c rp encryption = record {
  seq = rp.seq;
  position = single;
  in_order = true;
  encryption = encryption;
  retransmitted = true;
  message_number = msg_number 1;
  timestamp = rp.timestamp;
  dest_socket_id = c.peer_socket_id;
  payload = rp.payload;
}

module _ (env : External) where
  unfoldable pub insert_data : Connection → DataPacket → Instant → Connection
  unfolding open_payload insert_plain available_recv_buffer count_full count_undecryptable
  insert_data c packet now =
      if available_recv_buffer c == 0
      then count_full c
      else elim (open_payload env c.crypto packet) [
        | none ↦ count_undecryptable c
        | some plaintext ↦ insert_plain c (record packet { payload = plaintext }) now
      ]

  unfoldable pub inject_recovered : Connection → RecoveredPacket → Instant → Connection
  unfolding insert_data count_recovered
  inject_recovered c rp now = elim (key_from_bits rp.flags) [
    | none ↦ c
    | some encryption ↦ insert_data (count_recovered c) (recovered_packet c rp encryption) now
  ]

  unfoldable pub inject_all : Connection → List RecoveredPacket → Instant → Connection
  unfolding inject_recovered
  inject_all c [] now = c
  inject_all c (rp ∷ rps) now = inject_all (inject_recovered c rp now) rps now

  -- A parity packet: what it recovers is received.
  unfoldable pub on_parity : Connection → FecReceiver → DataPacket → Instant → Connection
  unfolding inject_all
  on_parity c fec packet now =
      let (fec', recovered) = observe_parity fec packet.seq packet.payload packet.timestamp in
      inject_all (record c { fec_recv = some fec' }) recovered now

  -- A packet of the stream: what it completes is received after it.
  unfoldable pub on_member : Connection → FecReceiver → DataPacket → Instant → Connection
  unfolding inject_all insert_data
  on_member c fec packet now =
      let (fec', recovered) =
        observe_data fec packet.seq (clamp_u16 (length packet.payload))
          (key_to_bits packet.encryption) packet.timestamp packet.payload in
      inject_all (insert_data (record c { fec_recv = some fec' }) packet now) recovered now

  unfoldable pub on_data : Connection → DataPacket → Instant → Connection
  unfolding on_parity on_member insert_data
  on_data c packet now = elim c.fec_recv [
    | none ↦ insert_data c packet now
    | some fec ↦
        if packet.message_number == 0
        then on_parity c fec packet now
        else on_member c fec packet now
  ]
