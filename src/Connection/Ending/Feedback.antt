-- ===== src/Connection/Ending/Feedback.antt =====
-- The receiver's reports on an ending connection.
use srtrust.Prelude.{ℕ, ◌-◌, refl, List, []}
use srtrust.Seq.{SeqNumber}
use srtrust.SendBuffer.{Instant}
use srtrust.RecvBuffer
use srtrust.RecvBuffer.{RecvBuffer, SeqRange}
use srtrust.Event.{set_timer, ack, nak}
use srtrust.Connection.{Connection, emit}
use srtrust.Connection.Feedback.{
  send_light_ack, send_nak, report_gaps, find_ack, on_ackack, send_full_ack, on_ack_timer,
  on_nak_timer, nak_interval,
}
use srtrust.Connection.Retransmit.{ack_interval}
use srtrust.Rtt.{RttEstimator}
use srtrust.Connection.Ending.{IsEnding, keep, push_output-IsEnding, if-IsEnding, option-IsEnding}

pub send_light_ack-IsEnding :
    (c : Connection) (now : Instant) → IsEnding c → IsEnding (send_light_ack c now)
unfolding send_light_ack emit
send_light_ack-IsEnding c now v = keep c (send_light_ack c now) refl v

send_nak-IsEnding :
    (c : Connection) (missing : List SeqRange) (now : Instant)
    → IsEnding c
    → IsEnding (send_nak c missing now)
unfolding send_nak emit
send_nak-IsEnding c missing now v = keep c (send_nak c missing now) refl v

pub report_gaps-IsEnding :
    (c : Connection) (now : Instant) → IsEnding c → IsEnding (report_gaps c now)
unfolding report_gaps send_nak emit
report_gaps-IsEnding c now v =
    let missing = RecvBuffer.missing_aged c.recv_buffer c.reorder_tolerance in
    if-IsEnding _ _ _
      (if-IsEnding _ _ _
        (keep c (record (send_nak c missing now) { reported_loss = missing }) refl v) v)
      (keep c (record c { reported_loss = [] }) refl v)

pub on_ackack-IsEnding :
    (c : Connection) (n : ℕ) (now : Instant) → IsEnding c → IsEnding (on_ackack c n now)
unfolding on_ackack
on_ackack-IsEnding c n now v = option-IsEnding (find_ack n c.pending_acks) _ _ v (λ r.
    keep c (record c { rtt = srtrust.Rtt.sample c.rtt (now - r.0); pending_acks = r.1 }) refl v)

send_full_ack-IsEnding :
    (c : Connection) (point : SeqNumber) (avail : ℕ) (now : Instant)
    → IsEnding c
    → IsEnding (send_full_ack c point avail now)
unfolding send_full_ack emit
send_full_ack-IsEnding c point avail now v = keep c (send_full_ack c point avail now) refl v

pub on_ack_timer-IsEnding :
    (c : Connection) (now : Instant) → IsEnding c → IsEnding (on_ack_timer c now)
unfolding on_ack_timer
on_ack_timer-IsEnding c now v =
    let w = push_output-IsEnding c (set_timer ack ack_interval) v in
    if-IsEnding _ _ _ v (if-IsEnding _ _ _ w (send_full_ack-IsEnding _ _ _ now w))

pub on_nak_timer-IsEnding :
    (c : Connection) (now : Instant) → IsEnding c → IsEnding (on_nak_timer c now)
unfolding on_nak_timer
on_nak_timer-IsEnding c now v =
    let w = push_output-IsEnding c (set_timer nak (nak_interval c)) v in
    if-IsEnding _ _ _ v (if-IsEnding _ _ _ w (if-IsEnding _ _ _ w (send_nak-IsEnding _ _ now w)))
