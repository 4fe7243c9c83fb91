-- ===== src/Connection/Inv/Receive.antt =====
-- The receiver's handlers keep the invariant.
use srtrust.Prelude.{
  ℕ, zero, suc, ◌+◌, ◌-◌, ◌≤◌, refl, arith, max, min, length, ltb, Bool, true, false, Option, none,
  some, List, [], ◌∷◌,
}
use srtrust.Prelude.Int.{ℤ, pos, negsuc}
use srtrust.External.{External}
use srtrust.Seq.{SeqNumber}
use srtrust.SendBuffer.{Instant}
use srtrust.Timestamp
use srtrust.Timestamp.{Timestamp}
use srtrust.Packet.{DataPacket, key_from_bits}
use srtrust.RecvBuffer
use srtrust.RecvBuffer.{RecvBuffer, SeqRange}
use srtrust.Fec.Receiver.{FecReceiver, RecoveredPacket}
use srtrust.Event.{set_timer, clear_timer, tsbpd}
use srtrust.Connection.{Connection}
use srtrust.Connection.Messages
use srtrust.Connection.Receive.{
  reassemble, deliver_message, advanced, deliver_next, deliver_loop, tsbpd_play_time, deliver_tsbpd,
  drop_requested, on_dropreq, track_offset, track_reorder, anchor, sample_drift,
  tsbpd_expected_arrival, count_received, record_rate, count_to_ack, accepted, count_duplicate,
  insert_plain, count_full, count_undecryptable, count_recovered, open_payload, insert_data,
  inject_recovered, inject_all, on_parity, on_member, on_data,
}
use srtrust.Connection.Inv.{
  IsValid, keep, push_output-IsValid, push_event-IsValid, if-IsValid, option-IsValid,
}
use srtrust.Connection.Inv.Feedback.{send_light_ack-IsValid, report_gaps-IsValid}
use srtrust.Connection.Retransmit.{micros_i64}
use srtrust.Connection.Send.{clamp_u16}
use srtrust.Connection.Receive.{signed_micros, recovered_packet, max_reorder_tolerance}
use srtrust.Drift
use srtrust.Packet.{key_to_bits}
use srtrust.Fec.Receiver.{observe_parity, observe_data}

deliver_message-IsValid :
    (c : Connection) (m : Option (List ℕ)) → IsValid c → IsValid (deliver_message c m)
deliver_message-IsValid c none v = v
deliver_message-IsValid c (some m) v = push_event-IsValid c _ v

pub reassemble-IsValid : (c : Connection) (p : DataPacket) → IsValid c → IsValid (reassemble c p)
unfolding reassemble
reassemble-IsValid c p v =
    let r = (Messages.push c.reassembler p).0 in
    deliver_message-IsValid (record c { reassembler = r }) _
      (keep c (record c { reassembler = r }) refl v)

advanced-IsValid : (c : Connection) (b : RecvBuffer) (n : ℕ) → IsValid c → IsValid (advanced c b n)
unfolding advanced
advanced-IsValid c b n v = keep c (advanced c b n) refl v

deliver_next-IsValid : (c : Connection) → IsValid c → IsValid (deliver_next c)
unfolding deliver_next
deliver_next-IsValid c v =
    option-IsValid (RecvBuffer.pop c.recv_buffer).1 _ _ (advanced-IsValid c _ 0 v)
      (λ p. reassemble-IsValid _ p (advanced-IsValid c _ _ v))

test-IsValid :
    (b : Bool) (x y : Connection)
    → IsValid x
    → IsValid y
    → IsValid (elim b as (λ (t : Bool). Connection) [ true ↦ x | false ↦ y ])
test-IsValid true x y u v = u
test-IsValid false x y u v = v

deliver_loop-IsValid :
    (n : ℕ) (c : Connection) (now : Instant) → IsValid c → IsValid (deliver_loop n c now)
unfolding deliver_loop
deliver_loop-IsValid zero c now v = v
deliver_loop-IsValid (suc n) c now v =
    option-IsValid (RecvBuffer.peek c.recv_buffer) _ _ (push_output-IsValid c (clear_timer tsbpd) v)
      (λ r. option-IsValid (tsbpd_play_time c r.1) _ _ v (λ at.
        test-IsValid (ltb now at) _ _ (push_output-IsValid c (set_timer tsbpd (at - now)) v)
          (deliver_loop-IsValid n (deliver_next c) now (deliver_next-IsValid c v))))

pub deliver_tsbpd-IsValid :
    (c : Connection) (now : Instant) → IsValid c → IsValid (deliver_tsbpd c now)
unfolding deliver_tsbpd
deliver_tsbpd-IsValid c now v = deliver_loop-IsValid (suc (length c.recv_buffer.slots)) c now v

drop_requested-IsValid :
    (c : Connection) (first last : SeqNumber) → IsValid c → IsValid (drop_requested c first last)
unfolding drop_requested advanced
drop_requested-IsValid c first last v = keep c (drop_requested c first last) refl v

pub on_dropreq-IsValid :
    (c : Connection) (first last : SeqNumber) (now : Instant)
    → IsValid c
    → IsValid (on_dropreq c first last now)
unfolding on_dropreq
on_dropreq-IsValid c first last now v =
    deliver_tsbpd-IsValid _ now (drop_requested-IsValid c first last v)

-- The invariant with another reorder tolerance.
with_tolerance :
    (c : Connection) (n : ℕ)
    → IsValid c
    → n ≤ max_reorder_tolerance
    → IsValid (record c { reorder_tolerance = n })
unfolding IsValid
with_tolerance c n v h = record {
  slots = v.slots;
  exp_low = v.exp_low;
  exp_high = v.exp_high;
  acks = v.acks;
  tolerance = h;
}

low_tolerance : (c : Connection) → IsValid c → c.reorder_tolerance ≤ max_reorder_tolerance
unfolding IsValid
low_tolerance c v = v.tolerance

track_offset-IsValid :
    (c : Connection) (seq : SeqNumber) (offset : ℤ)
    → IsValid c
    → IsValid (track_offset c seq offset)
unfolding track_offset
track_offset-IsValid c seq (pos n) v =
    let less = with_tolerance c (c.reorder_tolerance - 1) v (omega (arith, low_tolerance c v)) in
    let low = record c { reorder_tolerance = c.reorder_tolerance - 1 } in
    if-IsValid _ _ _
      (keep low (record low { highest_recv_seq = some seq; orderly_streak = 0 }) refl less)
      (keep c (record c { highest_recv_seq = some seq; orderly_streak = c.orderly_streak + 1 }) refl
        v)
track_offset-IsValid c seq (negsuc n) v =
    let t = max c.reorder_tolerance (min (suc n) max_reorder_tolerance) in
    keep (record c { reorder_tolerance = t })
      (record c { reorder_tolerance = t; orderly_streak = 0 }) refl
      (with_tolerance c t v (omega (arith, low_tolerance c v)))

track_reorder-IsValid :
    (c : Connection) (seq : SeqNumber) (retransmitted : Bool)
    → IsValid c
    → IsValid (track_reorder c seq retransmitted)
unfolding track_reorder
track_reorder-IsValid c seq retransmitted v = if-IsValid retransmitted _ _ v (
    option-IsValid c.highest_recv_seq _ _ (keep c (record c { highest_recv_seq = some seq }) refl v)
      (λ highest. track_offset-IsValid c seq _ v))

anchor-IsValid :
    (c : Connection) (ts : Timestamp) (now : Instant) → IsValid c → IsValid (anchor c ts now)
unfolding anchor
anchor-IsValid c ts now v =
    option-IsValid c.tsbpd_base _ _
      (keep c (record c { tsbpd_base = some (ts, now); ts_wrap = some (Timestamp.new ts) }) refl v)
      (λ base.
        option-IsValid c.ts_wrap _ _ v
          (λ wrap. keep c (record c { ts_wrap = some (Timestamp.observe wrap ts) }) refl v))

sample_drift-IsValid :
    (c : Connection) (ts : Timestamp) (retransmitted : Bool) (now : Instant)
    → IsValid c
    → IsValid (sample_drift c ts retransmitted now)
unfolding sample_drift
sample_drift-IsValid c ts retransmitted now v = if-IsValid retransmitted _ _ v (
    option-IsValid (tsbpd_expected_arrival c ts) _ _ v (λ expected.
      keep c
        (record c {
          drift = Drift.sample c.drift (signed_micros expected now) (pos (micros_i64 c.rtt.rtt));
        })
        refl v))

count_to_ack-IsValid : (c : Connection) (now : Instant) → IsValid c → IsValid (count_to_ack c now)
unfolding count_to_ack
count_to_ack-IsValid c now v =
    let d = record c { packets_since_ack = c.packets_since_ack + 1 } in
    if-IsValid _ _ _ (send_light_ack-IsValid d now (keep c d refl v)) (keep c d refl v)

received-IsValid : (c : Connection) (n : ℕ) → IsValid c → IsValid (count_received c n)
unfolding count_received
received-IsValid c n v = keep c (count_received c n) refl v

record_rate-IsValid :
    (c : Connection) (n : ℕ) (now : Instant) → IsValid c → IsValid (record_rate c n now)
unfolding record_rate
record_rate-IsValid c n now v = keep c (record_rate c n now) refl v

accepted-IsValid :
    (c : Connection) (p : DataPacket) (now : Instant) → IsValid c → IsValid (accepted c p now)
unfolding accepted
accepted-IsValid c p now v =
    let size = length p.payload in
    let tracked = track_reorder-IsValid _ p.seq p.retransmitted (received-IsValid c size v) in
    let anchored = anchor-IsValid _ p.timestamp now (record_rate-IsValid _ size now tracked) in
    report_gaps-IsValid _ now (
      count_to_ack-IsValid _ now (
        deliver_tsbpd-IsValid _ now
          (sample_drift-IsValid _ p.timestamp p.retransmitted now anchored)))

insert_plain-IsValid :
    (c : Connection) (p : DataPacket) (now : Instant) → IsValid c → IsValid (insert_plain c p now)
unfolding insert_plain count_duplicate
insert_plain-IsValid c p now v =
    let b = (RecvBuffer.insert c.recv_buffer p).0 in
    if-IsValid (RecvBuffer.insert c.recv_buffer p).1 _ _
      (accepted-IsValid (record c { recv_buffer = b }) p now
        (keep c (record c { recv_buffer = b }) refl v))
      (keep c (count_duplicate c b) refl v)

counted-full : (c : Connection) → IsValid c → IsValid (count_full c)
unfolding count_full
counted-full c v = keep c (count_full c) refl v

counted-undecryptable : (c : Connection) → IsValid c → IsValid (count_undecryptable c)
unfolding count_undecryptable
counted-undecryptable c v = keep c (count_undecryptable c) refl v

counted-recovered : (c : Connection) → IsValid c → IsValid (count_recovered c)
unfolding count_recovered
counted-recovered c v = keep c (count_recovered c) refl v

module _ (env : External) where
  insert_data-IsValid :
      (c : Connection) (p : DataPacket) (now : Instant)
      → IsValid c
      → IsValid (insert_data env c p now)
  unfolding insert_data
  insert_data-IsValid c p now v = if-IsValid _ _ _ (counted-full c v) (
      option-IsValid (open_payload env c.crypto p) _ _ (counted-undecryptable c v)
        (λ bytes. insert_plain-IsValid c (record p { payload = bytes }) now v))

  inject_recovered-IsValid :
      (c : Connection) (rp : RecoveredPacket) (now : Instant)
      → IsValid c
      → IsValid (inject_recovered env c rp now)
  unfolding inject_recovered
  inject_recovered-IsValid c rp now v = option-IsValid (key_from_bits rp.flags) _ _ v (λ e.
      insert_data-IsValid (count_recovered c) (recovered_packet c rp e) now (counted-recovered c v))

  inject_all-IsValid :
      (rps : List RecoveredPacket) (c : Connection) (now : Instant)
      → IsValid c
      → IsValid (inject_all env c rps now)
  unfolding inject_all
  inject_all-IsValid [] c now v = v
  inject_all-IsValid (rp ∷ rps) c now v =
      inject_all-IsValid rps (inject_recovered env c rp now) now
        (inject_recovered-IsValid c rp now v)

  with_fec :
      (c : Connection) (fec : FecReceiver) → IsValid c → IsValid (record c { fec_recv = some fec })
  with_fec c fec v = keep c (record c { fec_recv = some fec }) refl v

  on_parity-IsValid :
      (c : Connection) (fec : FecReceiver) (p : DataPacket) (now : Instant)
      → IsValid c
      → IsValid (on_parity env c fec p now)
  unfolding on_parity
  on_parity-IsValid c fec p now v =
      let r = observe_parity fec p.seq p.payload p.timestamp in
      inject_all-IsValid r.1 (record c { fec_recv = some r.0 }) now (with_fec c r.0 v)

  on_member-IsValid :
      (c : Connection) (fec : FecReceiver) (p : DataPacket) (now : Instant)
      → IsValid c
      → IsValid (on_member env c fec p now)
  unfolding on_member
  on_member-IsValid c fec p now v =
      let r =
        observe_data fec p.seq (clamp_u16 (length p.payload)) (key_to_bits p.encryption) p.timestamp
          p.payload in
      inject_all-IsValid r.1 (insert_data env (record c { fec_recv = some r.0 }) p now) now
        (insert_data-IsValid (record c { fec_recv = some r.0 }) p now (with_fec c r.0 v))

  pub on_data-IsValid :
      (c : Connection) (p : DataPacket) (now : Instant) → IsValid c → IsValid (on_data env c p now)
  unfolding on_data
  on_data-IsValid c p now v =
      option-IsValid c.fec_recv _ _ (insert_data-IsValid c p now v) (λ fec.
        if-IsValid _ _ _ (on_parity-IsValid c fec p now v) (on_member-IsValid c fec p now v))
