-- ===== src/Connection/Ending/Retransmit.antt =====
-- Acknowledgement, loss reports and retransmission on an ending connection.
use srtrust.Prelude.{ℕ, zero, suc, refl, Bool, true, false, List, [], ◌∷◌, ◌==◌}
use srtrust.External.{External}
use srtrust.Seq
use srtrust.Seq.{SeqNumber}
use srtrust.SendBuffer
use srtrust.SendBuffer.{Instant}
use srtrust.Packet.{DataPacket, MsgNumber}
use srtrust.Rtt.{Duration}
use srtrust.LossList.{LossRange}
use srtrust.Control.{Ack}
use srtrust.Event.{clear_timer, exp}
use srtrust.Connection.{Connection, emit}
use srtrust.Connection.Retransmit.{
  TooLate, too_late, dropped_late, announce_drop, drop_too_late, resend, counted_resend,
  retransmit_one, retransmit_loop, retransmit_range, retransmit_all, on_nak, counted_nak,
  retransmit_held, backed_off, expire, on_exp_timer, acknowledged, renewed, rearm_exp, on_ack,
  is_light,
}
use srtrust.Connection.Ending.{
  IsEnding, keep, push_output-IsEnding, emit-IsEnding, if-IsEnding, option-IsEnding,
}
use srtrust.Connection.Ending.Send.{arm_exp-IsEnding, finish_close-IsEnding}

announce_drop-IsEnding :
    (c : Connection) (m : MsgNumber) (first last : SeqNumber) (now : Instant)
    → IsEnding c
    → IsEnding (announce_drop c m first last now)
unfolding announce_drop
announce_drop-IsEnding c m first last now v =
    if-IsEnding _ _ _ (push_output-IsEnding _ (clear_timer exp) (emit-IsEnding c _ now v))
      (emit-IsEnding c _ now v)

dropped-IsEnding : (c : Connection) (found : TooLate) → IsEnding c → IsEnding (dropped_late c found)
unfolding dropped_late
dropped-IsEnding c found v = keep c (dropped_late c found) refl v

pub drop_too_late-IsEnding :
    (c : Connection) (now : Instant) → IsEnding c → IsEnding (drop_too_late c now)
unfolding drop_too_late
drop_too_late-IsEnding c now v =
    option-IsEnding (too_late c now).range _ _ (dropped-IsEnding c (too_late c now) v)
      (λ r. announce_drop-IsEnding _ _ r.0 r.1 now (dropped-IsEnding c (too_late c now) v))

resend-IsEnding :
    (c : Connection) (seq : SeqNumber) (p : DataPacket) (now : Instant)
    → IsEnding c
    → IsEnding (resend c seq p now)
unfolding resend counted_resend emit
resend-IsEnding c seq p now v = keep c (resend c seq p now) refl v

retransmit_one-IsEnding :
    (c : Connection) (seq start end : SeqNumber) (gate : Duration) (now : Instant)
    → IsEnding c
    → IsEnding (retransmit_one c seq start end gate now)
unfolding retransmit_one
retransmit_one-IsEnding c seq start end gate now v =
    if-IsEnding _ _ _
      (option-IsEnding (SendBuffer.get c.send_buffer seq) _ _ v
        (λ p. resend-IsEnding c seq p now v))
      v

test-IsEnding :
    (b : Bool) (x y : Connection)
    → IsEnding x
    → IsEnding y
    → IsEnding (elim b as (λ (t : Bool). Connection) [ true ↦ x | false ↦ y ])
test-IsEnding true x y u v = u
test-IsEnding false x y u v = v

retransmit_loop-IsEnding :
    (n : ℕ) (c : Connection) (seq last start end : SeqNumber) (gate : Duration) (now : Instant)
    → IsEnding c
    → IsEnding (retransmit_loop n c seq last start end gate now)
unfolding retransmit_loop
retransmit_loop-IsEnding zero c seq last start end gate now v = v
retransmit_loop-IsEnding (suc n) c seq last start end gate now v =
    let w = retransmit_one-IsEnding c seq start end gate now v in
    test-IsEnding (seq == last) _ _ w (
      retransmit_loop-IsEnding n (retransmit_one c seq start end gate now) (Seq.next seq) last start
        end gate now w)

pub retransmit_range-IsEnding :
    (c : Connection) (start end : SeqNumber) (now : Instant)
    → IsEnding c
    → IsEnding (retransmit_range c start end now)
unfolding retransmit_range
retransmit_range-IsEnding c start end now v =
    option-IsEnding (SendBuffer.first_seq c.send_buffer) _ _ v (λ first.
      option-IsEnding (SendBuffer.last_seq c.send_buffer) _ _ v
        (λ last. retransmit_loop-IsEnding _ c first last start end _ now v))

retransmit_all-IsEnding :
    (loss : List LossRange) (c : Connection) (now : Instant)
    → IsEnding c
    → IsEnding (retransmit_all c loss now)
unfolding retransmit_all
retransmit_all-IsEnding [] c now v = v
retransmit_all-IsEnding (r ∷ loss) c now v =
    retransmit_all-IsEnding loss (retransmit_range c r.start r.end now) now
      (retransmit_range-IsEnding c r.start r.end now v)

pub on_nak-IsEnding :
    (c : Connection) (loss : List LossRange) (now : Instant)
    → IsEnding c
    → IsEnding (on_nak c loss now)
unfolding on_nak counted_nak
on_nak-IsEnding c loss now v =
    retransmit_all-IsEnding loss _ now
      (drop_too_late-IsEnding _ now (keep c (counted_nak c) refl v))

retransmit_held-IsEnding :
    (c : Connection) (now : Instant) → IsEnding c → IsEnding (retransmit_held c now)
unfolding retransmit_held
retransmit_held-IsEnding c now v =
    option-IsEnding (SendBuffer.first_seq c.send_buffer) _ _ v (λ first.
      option-IsEnding (SendBuffer.last_seq c.send_buffer) _ _ v
        (λ last. retransmit_range-IsEnding c first last now v))

backed_off-IsEnding : (c : Connection) → IsEnding c → IsEnding (backed_off c)
unfolding backed_off
backed_off-IsEnding c v = keep c (backed_off c) refl v

expire-IsEnding : (c : Connection) (now : Instant) → IsEnding c → IsEnding (expire c now)
unfolding expire
expire-IsEnding c now v =
    if-IsEnding _ _ _ v
      (arm_exp-IsEnding _ (backed_off-IsEnding _ (retransmit_held-IsEnding c now v)))

pub on_exp_timer-IsEnding :
    (c : Connection) (now : Instant) → IsEnding c → IsEnding (on_exp_timer c now)
unfolding on_exp_timer
on_exp_timer-IsEnding c now v =
    if-IsEnding _ _ _ v
      (if-IsEnding _ _ _ v (expire-IsEnding _ now (drop_too_late-IsEnding c now v)))

module _ (env : External) where
  renewed-IsEnding : (c : Connection) → IsEnding c → IsEnding (renewed env c)
  unfolding renewed
  renewed-IsEnding c v = keep c (renewed env c) refl v

  acknowledged-IsEnding : (c : Connection) (ack : Ack) → IsEnding c → IsEnding (acknowledged c ack)
  unfolding acknowledged
  acknowledged-IsEnding c ack v = keep c (acknowledged c ack) refl v

  rearm_exp-IsEnding : (c : Connection) → IsEnding c → IsEnding (rearm_exp c)
  unfolding rearm_exp
  rearm_exp-IsEnding c v =
      if-IsEnding _ _ _ (push_output-IsEnding c (clear_timer exp) v) (arm_exp-IsEnding c v)

  pub on_ack-IsEnding :
      (c : Connection) (ack : Ack) (now : Instant) → IsEnding c → IsEnding (on_ack env c ack now)
  unfolding on_ack
  on_ack-IsEnding c ack now v =
      let r =
        rearm_exp-IsEnding _
          (renewed-IsEnding _ (drop_too_late-IsEnding _ now (acknowledged-IsEnding c ack v))) in
      let f = finish_close-IsEnding _ now r in
      if-IsEnding (is_light ack.cif) _ _ f (emit-IsEnding _ _ now f)
