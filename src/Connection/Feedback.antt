-- ===== src/Connection/Feedback.antt =====
-- crates/srt-protocol/src/connection/arq.rs: what the receiver reports: acknowledgements, the free
-- buffer, and losses; and the round trip that an ACKACK measures.
use srtrust.Prelude.{ℕ, ◌+◌, ◌-◌, ◌/◌, ◌%◌, ◌^◌, max, Bool, true, false, not, Option, none, some}
use srtrust.Prelude.{List, [], ◌∷◌, ◌++◌, map, length, ltb, ◌==◌, ◌&&◌, if◌then◌else◌, clamp_u32}
use srtrust.Seq.{SeqNumber}
use srtrust.LossList.{LossRange}
use srtrust.Control.{light, full, ack_body, nak_body}
use srtrust.Rtt
use srtrust.Rtt.{Duration, rto}
use srtrust.Rate
use srtrust.RecvBuffer
use srtrust.RecvBuffer.{SeqRange}
use srtrust.SendBuffer.{Instant}
use srtrust.Config.{from_millis}
use srtrust.Event.{set_timer, ack, nak}
use srtrust.Connection.{Connection, push_output, emit, wire_ts, encode_control}
use srtrust.Connection.Close.{is_connected, is_nil}
use srtrust.Connection.Retransmit.{ack_interval}

abbrev pub light_ack_every : ℕ
light_ack_every = 64

abbrev pub min_nak_interval : Duration
min_nak_interval = from_millis 20

abbrev pub max_pending_acks : ℕ
max_pending_acks = 16

abbrev pub micros_u32 : Duration → ℕ
micros_u32 d = clamp_u32 (d / 1000)

unfoldable pub nak_interval : Connection → Duration
nak_interval c = max (rto c.rtt / 2) min_nak_interval

-- `flow_window.saturating_sub(held)`.
unfoldable pub available_recv_buffer : Connection → ℕ
available_recv_buffer c =
    c.config.flow_window - clamp_u32 (c.recv_buffer.received + length c.events)

abbrev pub count_ack : Connection → Connection
count_ack c = record c { stats = record c.stats { acks_sent = c.stats.acks_sent + 1 } }

unfoldable pub send_light_ack : Connection → Instant → Connection
unfolding emit
send_light_ack c now =
    let c = record c { packets_since_ack = 0 } in
    let body = ack_body (record {
      ack_number = 0;
      last_ack_seq = RecvBuffer.received_ack_point c.recv_buffer;
      cif = light;
    }) in
    let c = count_ack c in emit c (encode_control c.peer_socket_id (wire_ts c now) body) now

abbrev pub to_range : SeqRange → LossRange
to_range (start, end) = record { start = start; end = end }

unfoldable pub send_nak : Connection → List SeqRange → Instant → Connection
unfolding emit
send_nak c missing now =
    let bytes = encode_control c.peer_socket_id (wire_ts c now) (nak_body (map to_range missing)) in
    let c = record c { stats = record c.stats { naks_sent = c.stats.naks_sent + 1 } } in
    let c = emit c bytes now in record c { last_nak = some now }

-- `missing != self.reported_loss`.
abbrev pub same_ranges : List SeqRange → List SeqRange → Bool
same_ranges [] [] = true
same_ranges [] (r ∷ rs) = false
same_ranges (q ∷ qs) [] = false
same_ranges ((a, b) ∷ qs) ((c, d) ∷ rs) = (a == c) && ((b == d) && same_ranges qs rs)

-- The end of `insert_data`: a NAK for aged gaps that were not reported yet.
unfoldable pub report_gaps : Connection → Instant → Connection
unfolding send_nak
report_gaps c now =
    if RecvBuffer.has_gaps c.recv_buffer
    then (let missing = RecvBuffer.missing_aged c.recv_buffer c.reorder_tolerance in
        if not (is_nil missing) && not (same_ranges missing c.reported_loss)
        then record (send_nak c missing now) { reported_loss = missing }
        else c)
    else record c { reported_loss = [] }

-- `position(|(n, _)| n == ack_number)`: its send time, and the entries after it.
unfoldable pub find_ack : ℕ → List (ℕ × Instant) → Option (Instant × List (ℕ × Instant))
find_ack ack_number [] = none
find_ack ack_number ((n, at) ∷ acks) =
    let rest = find_ack ack_number acks in if n == ack_number then some (at, acks) else rest

unfoldable pub on_ackack : Connection → ℕ → Instant → Connection
unfolding find_ack
on_ackack c ack_number now = elim (find_ack ack_number c.pending_acks) [
  | none ↦ c
  | some (sent_at, acks) ↦ record c { rtt = Rtt.sample c.rtt (now - sent_at); pending_acks = acks }
]

abbrev pub is_same : Option ℕ → ℕ → Bool
is_same none n = false
is_same (some m) n = m == n

abbrev pub tail : {A : Type 0} → List A → List A
tail [] = []
tail (x ∷ xs) = xs

-- `push_back`, and `pop_front` past the bound.
abbrev pub remember : List (ℕ × Instant) → ℕ × Instant → List (ℕ × Instant)
remember acks entry =
    if ltb max_pending_acks (length (acks ++ (entry ∷ [])))
    then tail (acks ++ (entry ∷ []))
    else acks ++ (entry ∷ [])

-- The full ACK of `on_ack_timer`, for an ACK point and a free buffer.
unfoldable pub send_full_ack : Connection → SeqNumber → ℕ → Instant → Connection
unfolding emit
send_full_ack c0 ack_point avail now =
    let ack_number = c0.next_ack_number in
    let c = record c0 {
      next_ack_number = (c0.next_ack_number + 1) % 2 ^ 32;
      pending_acks = remember c0.pending_acks (ack_number, now);
      last_acked_point = some ack_point;
      last_acked_avail = some avail;
      packets_since_ack = 0;
    } in
    let (packets_recv_rate, receiving_rate) = Rate.delivery_rate c.rate in
    let cif =
      full (micros_u32 c.rtt.rtt) (micros_u32 c.rtt.var) avail packets_recv_rate
        (Rate.peak_rate c.rate) receiving_rate in
    let body = ack_body (record { ack_number = ack_number; last_ack_seq = ack_point; cif = cif }) in
    let c = count_ack c in emit c (encode_control c.peer_socket_id (wire_ts c now) body) now

unfoldable pub on_ack_timer : Connection → Instant → Connection
unfolding push_output available_recv_buffer send_full_ack
on_ack_timer c now =
    if not (is_connected c.state)
    then c
    else (let c = push_output c (set_timer ack ack_interval) in
        let ack_point = RecvBuffer.received_ack_point c.recv_buffer in
        let avail = available_recv_buffer c in
        if is_same c.last_acked_point ack_point && is_same c.last_acked_avail avail
        then c
        else send_full_ack c ack_point avail now)

-- `last_nak.is_some_and(|at| now - at < rto)`.
abbrev pub is_recent : Option Instant → Instant → Duration → Bool
is_recent none now wait = false
is_recent (some at) now wait = ltb (now - at) wait

unfoldable pub on_nak_timer : Connection → Instant → Connection
unfolding push_output nak_interval send_nak
on_nak_timer c now =
    if not (is_connected c.state)
    then c
    else (let c = push_output c (set_timer nak (nak_interval c)) in
        if is_recent c.last_nak now (rto c.rtt)
        then c
        else (let missing = RecvBuffer.missing_aged c.recv_buffer c.reorder_tolerance in
            if is_nil missing then c else send_nak c missing now))
