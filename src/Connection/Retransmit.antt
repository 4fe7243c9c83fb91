-- ===== src/Connection/Retransmit.antt =====
-- crates/srt-protocol/src/connection/arq.rs: acknowledgement, loss reports, the drop of what is too
-- late, and retransmission.
use srtrust.Prelude.{
  ℕ, zero, suc, ◌+◌, ◌-◌, ◌*◌, ◌/◌, ◌%◌, ◌^◌, max, min, Bool, true, false, not, Option, none, some,
}
use srtrust.Prelude.{List, [], ◌∷◌, length, ltb, leb, ◌==◌, ◌&&◌, if◌then◌else◌, wrap_i64}
use srtrust.Prelude.Int.{ℤ, pos, negsuc, ltb_ℤ}
use srtrust.External.{External}
use srtrust.Seq
use srtrust.Seq.{SeqNumber, offset_from}
use srtrust.Timestamp.{Timestamp, wrapping_diff}
use srtrust.Packet.{DataPacket, MsgNumber}
use srtrust.LossList.{LossRange}
use srtrust.Control.{Ack, AckCif, light, small, full, ack_ack_body, drop_req_body}
use srtrust.Rtt.{Duration}
use srtrust.LiveCc
use srtrust.LiveCc.{LiveCc}
use srtrust.SendBuffer
use srtrust.SendBuffer.{Instant, Sent, SendBuffer}
use srtrust.Config.{from_millis, from_secs}
use srtrust.Event.{clear_timer, exp}
use srtrust.Connection.{
  Connection, option_map, push_output, emit, wire_ts, encode_control, encode_data,
}
use srtrust.Connection.Close.{is_connected, finish_close_if_drained}
use srtrust.Connection.Send.{arm_exp}

abbrev pub ack_interval : Duration
ack_interval = from_millis 10

abbrev pub snd_drop_min_threshold : Duration
snd_drop_min_threshold = from_secs 1

abbrev pub max_exp_count : ℕ
max_exp_count = 8

-- A Duration in microseconds, clamped to i64.
abbrev pub micros_i64 : Duration → ℕ
micros_i64 d = if ltb (d / 1000) (2 ^ 63) then d / 1000 else 2 ^ 63 - 1

-- What `drop_too_late` finds: the packets left, and the first and last number and the last message
-- of those dropped, with their count.
pub record TooLate : Type 0 where
  pub packets : List Sent
  pub range : Option (SeqNumber × SeqNumber)
  pub last_msg : MsgNumber
  pub dropped : ℕ

abbrev pub drop_budget : Connection → ℤ
drop_budget c = wrap_i64 (
    pos (
      max (micros_i64 c.latency) (micros_i64 snd_drop_min_threshold) + 2 * micros_i64 ack_interval))

-- `first.get_or_insert(seq)` and `last_dropped = Some(seq)`.
abbrev pub extend_range : Option (SeqNumber × SeqNumber) → SeqNumber → SeqNumber × SeqNumber
extend_range none seq = (seq, seq)
extend_range (some (first, last)) seq = (first, seq)

-- The loop of `drop_too_late` over the packets, front first.
unfoldable pub too_late_from : ℤ → Timestamp → List Sent → TooLate → TooLate
too_late_from budget now_ts [] found = record found { packets = [] }
too_late_from budget now_ts (x ∷ xs) found =
    let rest = too_late_from budget now_ts xs (record found {
      range = some (extend_range found.range x.packet.seq);
      last_msg = x.packet.message_number;
      dropped = found.dropped + 1;
    }) in
    if ltb_ℤ budget (wrapping_diff now_ts x.packet.timestamp)
    then rest
    else record found { packets = x ∷ xs }

unfoldable pub too_late : Connection → Instant → TooLate
unfolding too_late_from
too_late c now =
    too_late_from (drop_budget c) (wire_ts c now) c.send_buffer.packets
      (record { packets = []; range = none; last_msg = 0; dropped = 0 })

-- The announcement of what was dropped, and EXP disarmed with nothing left.
unfoldable pub announce_drop : Connection → MsgNumber → SeqNumber → SeqNumber → Instant → Connection
unfolding emit push_output
announce_drop c last_msg first last now =
    let c =
      emit c (encode_control c.peer_socket_id (wire_ts c now) (drop_req_body last_msg first last))
        now in
    if SendBuffer.is_empty c.send_buffer then push_output c (clear_timer exp) else c

-- The connection without the dropped packets, which are counted.
unfoldable pub dropped_late : Connection → TooLate → Connection
dropped_late c found = record c {
  send_buffer = record { packets = found.packets };
  stats = record c.stats { packets_dropped_sent = c.stats.packets_dropped_sent + found.dropped };
}

unfoldable pub drop_too_late : Connection → Instant → Connection
unfolding too_late dropped_late announce_drop
drop_too_late c0 now =
    let found = too_late c0 now in
    let c = dropped_late c0 found in
    elim found.range [
      | none ↦ c
      | some (first, last) ↦ announce_drop c found.last_msg first last now
    ]

abbrev pub is_nonneg : ℤ → Bool
is_nonneg (pos n) = true
is_nonneg (negsuc n) = false

-- Whether `seq` lies in the circular range.
unfoldable pub in_range : SeqNumber → SeqNumber → SeqNumber → Bool
in_range seq start end = is_nonneg (offset_from seq start) && is_nonneg (offset_from end seq)

unfoldable pub encode_retransmit : DataPacket → List ℕ
encode_retransmit packet = encode_data (record packet { retransmitted = true })

-- `last_retransmitted(seq).is_none_or(|at| now - at >= gate)`.
abbrev pub passes_gate : Option Instant → Instant → Duration → Bool
passes_gate none now gate = true
passes_gate (some at) now gate = leb gate (now - at)

unfoldable pub counted_resend : Connection → ℕ → Connection
counted_resend c size = record c {
  stats = record c.stats {
    packets_retransmitted = c.stats.packets_retransmitted + 1;
    bytes_retransmitted = c.stats.bytes_retransmitted + size;
  };
}

unfoldable pub resend : Connection → SeqNumber → DataPacket → Instant → Connection
unfolding counted_resend emit
resend c seq packet now =
    let c = emit (counted_resend c (length packet.payload)) (encode_retransmit packet) now in
    record c { send_buffer = SendBuffer.mark_retransmitted c.send_buffer seq now }

-- One round of the loop of `retransmit_range`.
unfoldable pub retransmit_one :
    Connection → SeqNumber → SeqNumber → SeqNumber → Duration → Instant → Connection
unfolding resend in_range
retransmit_one c seq start end gate now =
    if in_range seq start end
      && passes_gate (SendBuffer.last_retransmitted c.send_buffer seq) now gate
    then elim (SendBuffer.get c.send_buffer seq) [
      | none ↦ c
      | some packet ↦ resend c seq packet now
    ]
    else c

-- The loop, on fuel: it goes once through the numbers from `seq` to `last`.
unfoldable pub retransmit_loop :
    ℕ → Connection → SeqNumber → SeqNumber → SeqNumber → SeqNumber → Duration → Instant → Connection
unfolding retransmit_one
retransmit_loop zero c seq last start end gate now = c
retransmit_loop (suc fuel) c seq last start end gate now =
    let c' = retransmit_one c seq start end gate now in
    elim (seq == last) [
      | true ↦ c'
      | false ↦ retransmit_loop fuel c' (Seq.next seq) last start end gate now
    ]

-- How many numbers there are from `first` to `last`.
abbrev pub span : SeqNumber → SeqNumber → ℕ
span first last = (last + 2 ^ 31 - first) % 2 ^ 31 + 1

unfoldable pub retransmit_range : Connection → SeqNumber → SeqNumber → Instant → Connection
unfolding retransmit_loop
retransmit_range c start end now = elim (SendBuffer.first_seq c.send_buffer) [
  | none ↦ c
  | some first ↦ elim (SendBuffer.last_seq c.send_buffer) [
    | none ↦ c
    | some last ↦ retransmit_loop (span first last) c first last start end c.rtt.rtt now
  ]
]

unfoldable pub retransmit_all : Connection → List LossRange → Instant → Connection
unfolding retransmit_range
retransmit_all c [] now = c
retransmit_all c (range ∷ loss) now =
    retransmit_all (retransmit_range c range.start range.end now) loss now

unfoldable pub counted_nak : Connection → Connection
counted_nak c = record c { stats = record c.stats { naks_received = c.stats.naks_received + 1 } }

unfoldable pub on_nak : Connection → List LossRange → Instant → Connection
unfolding counted_nak drop_too_late retransmit_all
on_nak c loss now = retransmit_all (drop_too_late (counted_nak c) now) loss now

-- All that the buffer holds.
unfoldable pub retransmit_held : Connection → Instant → Connection
unfolding retransmit_range
retransmit_held c now = elim (SendBuffer.first_seq c.send_buffer) [
  | none ↦ c
  | some first ↦ elim (SendBuffer.last_seq c.send_buffer) [
    | none ↦ c
    | some last ↦ retransmit_range c first last now
  ]
]

unfoldable pub backed_off : Connection → Connection
backed_off c = record c { exp_count = min (c.exp_count + 1) max_exp_count }

-- The end of `on_exp_timer`, with the packets that are still young enough.
unfoldable pub expire : Connection → Instant → Connection
unfolding retransmit_held backed_off arm_exp
expire c now =
    if SendBuffer.is_empty c.send_buffer then c else arm_exp (backed_off (retransmit_held c now))

unfoldable pub on_exp_timer : Connection → Instant → Connection
unfolding drop_too_late expire
on_exp_timer c now =
    if not (is_connected c.state)
    then c
    else if SendBuffer.is_empty c.send_buffer
    then c
    else expire (drop_too_late c now) now

abbrev pub is_light : AckCif → Bool
is_light light = true
is_light (small rtt var buffer) = false
is_light (full rtt var buffer packets capacity rate) = false

-- The window that a full ACK advertises.
abbrev pub advertised : AckCif → ℕ → ℕ
advertised (full rtt var buffer packets capacity rate) window = buffer
advertised light window = window
advertised (small rtt var buffer) window = window

-- The acknowledged packets released, and the peer's window.
unfoldable pub acknowledged : Connection → Ack → Connection
acknowledged c ack = record c {
  stats = record c.stats { acks_received = c.stats.acks_received + 1 };
  send_buffer = (SendBuffer.ack c.send_buffer ack.last_ack_seq).0;
  peer_avail_window = advertised ack.cif c.peer_avail_window;
}

-- The pacing period computed again, and the backoff reset.
unfoldable pub renewed : External → Connection → Connection
renewed env c = record c {
  live_cc = option_map (λ (cc : LiveCc). LiveCc.on_ack env cc) c.live_cc;
  exp_count = 1;
}

unfoldable pub rearm_exp : Connection → Connection
unfolding push_output arm_exp
rearm_exp c =
    if SendBuffer.is_empty c.send_buffer then push_output c (clear_timer exp) else arm_exp c

unfoldable pub on_ack : External → Connection → Ack → Instant → Connection
unfolding acknowledged drop_too_late renewed rearm_exp finish_close_if_drained emit
on_ack env c ack now =
    let c = rearm_exp (renewed env (drop_too_late (acknowledged c ack) now)) in
    let c = finish_close_if_drained c now in
    if is_light ack.cif
    then c
    else emit c (encode_control c.peer_socket_id (wire_ts c now) (ack_ack_body ack.ack_number)) now
