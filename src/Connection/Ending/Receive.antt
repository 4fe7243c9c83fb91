-- ===== src/Connection/Ending/Receive.antt =====
-- The receiver's handlers on an ending connection.
use srtrust.Prelude.{
  ℕ, zero, suc, ◌+◌, ◌-◌, refl, length, ltb, Bool, true, false, Option, none, some, List, [], ◌∷◌,
}
use srtrust.Prelude.Int.{ℤ, pos, negsuc}
use srtrust.External.{External}
use srtrust.Seq.{SeqNumber}
use srtrust.SendBuffer.{Instant}
use srtrust.Timestamp
use srtrust.Timestamp.{Timestamp}
use srtrust.Packet.{DataPacket, key_from_bits}
use srtrust.RecvBuffer
use srtrust.RecvBuffer.{RecvBuffer, SeqRange}
use srtrust.Fec.Receiver.{FecReceiver, RecoveredPacket}
use srtrust.Event.{set_timer, clear_timer, tsbpd}
use srtrust.Connection.{Connection}
use srtrust.Connection.Messages
use srtrust.Connection.Receive.{
  reassemble, deliver_message, advanced, deliver_next, deliver_loop, tsbpd_play_time, deliver_tsbpd,
  drop_requested, on_dropreq, track_offset, track_reorder, anchor, sample_drift,
  tsbpd_expected_arrival, count_received, record_rate, count_to_ack, accepted, count_duplicate,
  insert_plain, count_full, count_undecryptable, count_recovered, open_payload, insert_data,
  inject_recovered, inject_all, on_parity, on_member, on_data,
}
use srtrust.Connection.Ending.{
  IsEnding, keep, push_output-IsEnding, push_event-IsEnding, if-IsEnding, option-IsEnding,
}
use srtrust.Connection.Ending.Feedback.{send_light_ack-IsEnding, report_gaps-IsEnding}
use srtrust.Connection.Retransmit.{micros_i64}
use srtrust.Connection.Send.{clamp_u16}
use srtrust.Connection.Receive.{signed_micros, recovered_packet}
use srtrust.Drift
use srtrust.Packet.{key_to_bits}
use srtrust.Fec.Receiver.{observe_parity, observe_data}

deliver_message-IsEnding :
    (c : Connection) (m : Option (List ℕ)) → IsEnding c → IsEnding (deliver_message c m)
deliver_message-IsEnding c none v = v
deliver_message-IsEnding c (some m) v = push_event-IsEnding c _ v

pub reassemble-IsEnding : (c : Connection) (p : DataPacket) → IsEnding c → IsEnding (reassemble c p)
unfolding reassemble
reassemble-IsEnding c p v =
    let r = (Messages.push c.reassembler p).0 in
    deliver_message-IsEnding (record c { reassembler = r }) _
      (keep c (record c { reassembler = r }) refl v)

advanced-IsEnding :
    (c : Connection) (b : RecvBuffer) (n : ℕ) → IsEnding c → IsEnding (advanced c b n)
unfolding advanced
advanced-IsEnding c b n v = keep c (advanced c b n) refl v

deliver_next-IsEnding : (c : Connection) → IsEnding c → IsEnding (deliver_next c)
unfolding deliver_next
deliver_next-IsEnding c v =
    option-IsEnding (RecvBuffer.pop c.recv_buffer).1 _ _ (advanced-IsEnding c _ 0 v)
      (λ p. reassemble-IsEnding _ p (advanced-IsEnding c _ _ v))

test-IsEnding :
    (b : Bool) (x y : Connection)
    → IsEnding x
    → IsEnding y
    → IsEnding (elim b as (λ (t : Bool). Connection) [ true ↦ x | false ↦ y ])
test-IsEnding true x y u v = u
test-IsEnding false x y u v = v

deliver_loop-IsEnding :
    (n : ℕ) (c : Connection) (now : Instant) → IsEnding c → IsEnding (deliver_loop n c now)
unfolding deliver_loop
deliver_loop-IsEnding zero c now v = v
deliver_loop-IsEnding (suc n) c now v =
    option-IsEnding (RecvBuffer.peek c.recv_buffer) _ _
      (push_output-IsEnding c (clear_timer tsbpd) v)
      (λ r. option-IsEnding (tsbpd_play_time c r.1) _ _ v (λ at.
        test-IsEnding (ltb now at) _ _ (push_output-IsEnding c (set_timer tsbpd (at - now)) v)
          (deliver_loop-IsEnding n (deliver_next c) now (deliver_next-IsEnding c v))))

pub deliver_tsbpd-IsEnding :
    (c : Connection) (now : Instant) → IsEnding c → IsEnding (deliver_tsbpd c now)
unfolding deliver_tsbpd
deliver_tsbpd-IsEnding c now v = deliver_loop-IsEnding (suc (length c.recv_buffer.slots)) c now v

drop_requested-IsEnding :
    (c : Connection) (first last : SeqNumber) → IsEnding c → IsEnding (drop_requested c first last)
unfolding drop_requested advanced
drop_requested-IsEnding c first last v = keep c (drop_requested c first last) refl v

pub on_dropreq-IsEnding :
    (c : Connection) (first last : SeqNumber) (now : Instant)
    → IsEnding c
    → IsEnding (on_dropreq c first last now)
unfolding on_dropreq
on_dropreq-IsEnding c first last now v =
    deliver_tsbpd-IsEnding _ now (drop_requested-IsEnding c first last v)

track_offset-IsEnding :
    (c : Connection) (seq : SeqNumber) (offset : ℤ)
    → IsEnding c
    → IsEnding (track_offset c seq offset)
unfolding track_offset
track_offset-IsEnding c seq (pos n) v =
    if-IsEnding _ _ _
      (keep c
        (record c {
          highest_recv_seq = some seq;
          orderly_streak = 0;
          reorder_tolerance = c.reorder_tolerance - 1;
        })
        refl v)
      (keep c (record c { highest_recv_seq = some seq; orderly_streak = c.orderly_streak + 1 }) refl
        v)
track_offset-IsEnding c seq (negsuc n) v = keep c (track_offset c seq (negsuc n)) refl v

track_reorder-IsEnding :
    (c : Connection) (seq : SeqNumber) (retransmitted : Bool)
    → IsEnding c
    → IsEnding (track_reorder c seq retransmitted)
unfolding track_reorder
track_reorder-IsEnding c seq retransmitted v = if-IsEnding retransmitted _ _ v (
    option-IsEnding c.highest_recv_seq _ _
      (keep c (record c { highest_recv_seq = some seq }) refl v)
      (λ highest. track_offset-IsEnding c seq _ v))

anchor-IsEnding :
    (c : Connection) (ts : Timestamp) (now : Instant) → IsEnding c → IsEnding (anchor c ts now)
unfolding anchor
anchor-IsEnding c ts now v =
    option-IsEnding c.tsbpd_base _ _
      (keep c (record c { tsbpd_base = some (ts, now); ts_wrap = some (Timestamp.new ts) }) refl v)
      (λ base.
        option-IsEnding c.ts_wrap _ _ v
          (λ wrap. keep c (record c { ts_wrap = some (Timestamp.observe wrap ts) }) refl v))

sample_drift-IsEnding :
    (c : Connection) (ts : Timestamp) (retransmitted : Bool) (now : Instant)
    → IsEnding c
    → IsEnding (sample_drift c ts retransmitted now)
unfolding sample_drift
sample_drift-IsEnding c ts retransmitted now v = if-IsEnding retransmitted _ _ v (
    option-IsEnding (tsbpd_expected_arrival c ts) _ _ v (λ expected.
      keep c
        (record c {
          drift = Drift.sample c.drift (signed_micros expected now) (pos (micros_i64 c.rtt.rtt));
        })
        refl v))

count_to_ack-IsEnding :
    (c : Connection) (now : Instant) → IsEnding c → IsEnding (count_to_ack c now)
unfolding count_to_ack
count_to_ack-IsEnding c now v =
    let d = record c { packets_since_ack = c.packets_since_ack + 1 } in
    if-IsEnding _ _ _ (send_light_ack-IsEnding d now (keep c d refl v)) (keep c d refl v)

received-IsEnding : (c : Connection) (n : ℕ) → IsEnding c → IsEnding (count_received c n)
unfolding count_received
received-IsEnding c n v = keep c (count_received c n) refl v

record_rate-IsEnding :
    (c : Connection) (n : ℕ) (now : Instant) → IsEnding c → IsEnding (record_rate c n now)
unfolding record_rate
record_rate-IsEnding c n now v = keep c (record_rate c n now) refl v

accepted-IsEnding :
    (c : Connection) (p : DataPacket) (now : Instant) → IsEnding c → IsEnding (accepted c p now)
unfolding accepted
accepted-IsEnding c p now v =
    let size = length p.payload in
    let tracked = track_reorder-IsEnding _ p.seq p.retransmitted (received-IsEnding c size v) in
    let anchored = anchor-IsEnding _ p.timestamp now (record_rate-IsEnding _ size now tracked) in
    report_gaps-IsEnding _ now (
      count_to_ack-IsEnding _ now (
        deliver_tsbpd-IsEnding _ now
          (sample_drift-IsEnding _ p.timestamp p.retransmitted now anchored)))

insert_plain-IsEnding :
    (c : Connection) (p : DataPacket) (now : Instant) → IsEnding c → IsEnding (insert_plain c p now)
unfolding insert_plain count_duplicate
insert_plain-IsEnding c p now v =
    let b = (RecvBuffer.insert c.recv_buffer p).0 in
    if-IsEnding (RecvBuffer.insert c.recv_buffer p).1 _ _
      (accepted-IsEnding (record c { recv_buffer = b }) p now
        (keep c (record c { recv_buffer = b }) refl v))
      (keep c (count_duplicate c b) refl v)

counted-full : (c : Connection) → IsEnding c → IsEnding (count_full c)
unfolding count_full
counted-full c v = keep c (count_full c) refl v

counted-undecryptable : (c : Connection) → IsEnding c → IsEnding (count_undecryptable c)
unfolding count_undecryptable
counted-undecryptable c v = keep c (count_undecryptable c) refl v

counted-recovered : (c : Connection) → IsEnding c → IsEnding (count_recovered c)
unfolding count_recovered
counted-recovered c v = keep c (count_recovered c) refl v

module _ (env : External) where
  insert_data-IsEnding :
      (c : Connection) (p : DataPacket) (now : Instant)
      → IsEnding c
      → IsEnding (insert_data env c p now)
  unfolding insert_data
  insert_data-IsEnding c p now v = if-IsEnding _ _ _ (counted-full c v) (
      option-IsEnding (open_payload env c.crypto p) _ _ (counted-undecryptable c v)
        (λ bytes. insert_plain-IsEnding c (record p { payload = bytes }) now v))

  inject_recovered-IsEnding :
      (c : Connection) (rp : RecoveredPacket) (now : Instant)
      → IsEnding c
      → IsEnding (inject_recovered env c rp now)
  unfolding inject_recovered
  inject_recovered-IsEnding c rp now v = option-IsEnding (key_from_bits rp.flags) _ _ v (λ e.
      insert_data-IsEnding (count_recovered c) (recovered_packet c rp e) now
        (counted-recovered c v))

  inject_all-IsEnding :
      (rps : List RecoveredPacket) (c : Connection) (now : Instant)
      → IsEnding c
      → IsEnding (inject_all env c rps now)
  unfolding inject_all
  inject_all-IsEnding [] c now v = v
  inject_all-IsEnding (rp ∷ rps) c now v =
      inject_all-IsEnding rps (inject_recovered env c rp now) now
        (inject_recovered-IsEnding c rp now v)

  with_fec :
      (c : Connection) (fec : FecReceiver)
      → IsEnding c
      → IsEnding (record c { fec_recv = some fec })
  with_fec c fec v = keep c (record c { fec_recv = some fec }) refl v

  on_parity-IsEnding :
      (c : Connection) (fec : FecReceiver) (p : DataPacket) (now : Instant)
      → IsEnding c
      → IsEnding (on_parity env c fec p now)
  unfolding on_parity
  on_parity-IsEnding c fec p now v =
      let r = observe_parity fec p.seq p.payload p.timestamp in
      inject_all-IsEnding r.1 (record c { fec_recv = some r.0 }) now (with_fec c r.0 v)

  on_member-IsEnding :
      (c : Connection) (fec : FecReceiver) (p : DataPacket) (now : Instant)
      → IsEnding c
      → IsEnding (on_member env c fec p now)
  unfolding on_member
  on_member-IsEnding c fec p now v =
      let r =
        observe_data fec p.seq (clamp_u16 (length p.payload)) (key_to_bits p.encryption) p.timestamp
          p.payload in
      inject_all-IsEnding r.1 (insert_data env (record c { fec_recv = some r.0 }) p now) now
        (insert_data-IsEnding (record c { fec_recv = some r.0 }) p now (with_fec c r.0 v))

  pub on_data-IsEnding :
      (c : Connection) (p : DataPacket) (now : Instant)
      → IsEnding c
      → IsEnding (on_data env c p now)
  unfolding on_data
  on_data-IsEnding c p now v =
      option-IsEnding c.fec_recv _ _ (insert_data-IsEnding c p now v) (λ fec.
        if-IsEnding _ _ _ (on_parity-IsEnding c fec p now v) (on_member-IsEnding c fec p now v))
