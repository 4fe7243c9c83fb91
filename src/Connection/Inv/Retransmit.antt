-- ===== src/Connection/Inv/Retransmit.antt =====
-- Acknowledgement, loss reports and retransmission keep the invariant.
use srtrust.Prelude.{ℕ, zero, suc, refl, arith, Bool, true, false, List, [], ◌∷◌, ◌==◌}
use srtrust.External.{External}
use srtrust.Seq
use srtrust.Seq.{SeqNumber}
use srtrust.SendBuffer
use srtrust.SendBuffer.{Instant}
use srtrust.Packet.{DataPacket, MsgNumber}
use srtrust.Rtt.{Duration}
use srtrust.LossList.{LossRange}
use srtrust.Control.{Ack}
use srtrust.Event.{clear_timer, exp}
use srtrust.Connection.{Connection, emit}
use srtrust.Connection.Retransmit.{
  TooLate, too_late, dropped_late, announce_drop, drop_too_late, resend, counted_resend,
  retransmit_one, retransmit_loop, retransmit_range, retransmit_all, on_nak, counted_nak,
  retransmit_held, backed_off, expire, on_exp_timer, acknowledged, renewed, rearm_exp, on_ack,
  is_light,
}
use srtrust.Connection.Inv.{
  IsValid, keep, push_output-IsValid, emit-IsValid, if-IsValid, option-IsValid,
}
use srtrust.Connection.Inv.Send.{arm_exp-IsValid, finish_close-IsValid}

announce_drop-IsValid :
    (c : Connection) (m : MsgNumber) (first last : SeqNumber) (now : Instant)
    → IsValid c
    → IsValid (announce_drop c m first last now)
unfolding announce_drop
announce_drop-IsValid c m first last now v =
    if-IsValid _ _ _ (push_output-IsValid _ (clear_timer exp) (emit-IsValid c _ now v))
      (emit-IsValid c _ now v)

dropped-IsValid : (c : Connection) (found : TooLate) → IsValid c → IsValid (dropped_late c found)
unfolding dropped_late
dropped-IsValid c found v = keep c (dropped_late c found) refl v

pub drop_too_late-IsValid :
    (c : Connection) (now : Instant) → IsValid c → IsValid (drop_too_late c now)
unfolding drop_too_late
drop_too_late-IsValid c now v =
    option-IsValid (too_late c now).range _ _ (dropped-IsValid c (too_late c now) v)
      (λ r. announce_drop-IsValid _ _ r.0 r.1 now (dropped-IsValid c (too_late c now) v))

resend-IsValid :
    (c : Connection) (seq : SeqNumber) (p : DataPacket) (now : Instant)
    → IsValid c
    → IsValid (resend c seq p now)
unfolding resend counted_resend emit
resend-IsValid c seq p now v = keep c (resend c seq p now) refl v

retransmit_one-IsValid :
    (c : Connection) (seq start end : SeqNumber) (gate : Duration) (now : Instant)
    → IsValid c
    → IsValid (retransmit_one c seq start end gate now)
unfolding retransmit_one
retransmit_one-IsValid c seq start end gate now v =
    if-IsValid _ _ _
      (option-IsValid (SendBuffer.get c.send_buffer seq) _ _ v (λ p. resend-IsValid c seq p now v))
      v

test-IsValid :
    (b : Bool) (x y : Connection)
    → IsValid x
    → IsValid y
    → IsValid (elim b as (λ (t : Bool). Connection) [ true ↦ x | false ↦ y ])
test-IsValid true x y u v = u
test-IsValid false x y u v = v

retransmit_loop-IsValid :
    (n : ℕ) (c : Connection) (seq last start end : SeqNumber) (gate : Duration) (now : Instant)
    → IsValid c
    → IsValid (retransmit_loop n c seq last start end gate now)
unfolding retransmit_loop
retransmit_loop-IsValid zero c seq last start end gate now v = v
retransmit_loop-IsValid (suc n) c seq last start end gate now v =
    let w = retransmit_one-IsValid c seq start end gate now v in
    test-IsValid (seq == last) _ _ w (
      retransmit_loop-IsValid n (retransmit_one c seq start end gate now) (Seq.next seq) last start
        end gate now w)

pub retransmit_range-IsValid :
    (c : Connection) (start end : SeqNumber) (now : Instant)
    → IsValid c
    → IsValid (retransmit_range c start end now)
unfolding retransmit_range
retransmit_range-IsValid c start end now v =
    option-IsValid (SendBuffer.first_seq c.send_buffer) _ _ v (λ first.
      option-IsValid (SendBuffer.last_seq c.send_buffer) _ _ v
        (λ last. retransmit_loop-IsValid _ c first last start end _ now v))

retransmit_all-IsValid :
    (loss : List LossRange) (c : Connection) (now : Instant)
    → IsValid c
    → IsValid (retransmit_all c loss now)
unfolding retransmit_all
retransmit_all-IsValid [] c now v = v
retransmit_all-IsValid (r ∷ loss) c now v =
    retransmit_all-IsValid loss (retransmit_range c r.start r.end now) now
      (retransmit_range-IsValid c r.start r.end now v)

pub on_nak-IsValid :
    (c : Connection) (loss : List LossRange) (now : Instant)
    → IsValid c
    → IsValid (on_nak c loss now)
unfolding on_nak counted_nak
on_nak-IsValid c loss now v =
    retransmit_all-IsValid loss _ now (drop_too_late-IsValid _ now (keep c (counted_nak c) refl v))

retransmit_held-IsValid :
    (c : Connection) (now : Instant) → IsValid c → IsValid (retransmit_held c now)
unfolding retransmit_held
retransmit_held-IsValid c now v =
    option-IsValid (SendBuffer.first_seq c.send_buffer) _ _ v (λ first.
      option-IsValid (SendBuffer.last_seq c.send_buffer) _ _ v
        (λ last. retransmit_range-IsValid c first last now v))

backed_off-IsValid : (c : Connection) → IsValid c → IsValid (backed_off c)
unfolding backed_off IsValid
backed_off-IsValid c v = record {
  slots = v.slots;
  exp_low = omega (arith, v.exp_low);
  exp_high = omega (arith, v.exp_high);
  acks = v.acks;
  tolerance = v.tolerance;
}

expire-IsValid : (c : Connection) (now : Instant) → IsValid c → IsValid (expire c now)
unfolding expire
expire-IsValid c now v =
    if-IsValid _ _ _ v (arm_exp-IsValid _ (backed_off-IsValid _ (retransmit_held-IsValid c now v)))

pub on_exp_timer-IsValid :
    (c : Connection) (now : Instant) → IsValid c → IsValid (on_exp_timer c now)
unfolding on_exp_timer
on_exp_timer-IsValid c now v =
    if-IsValid _ _ _ v (if-IsValid _ _ _ v (expire-IsValid _ now (drop_too_late-IsValid c now v)))

module _ (env : External) where
  renewed-IsValid : (c : Connection) → IsValid c → IsValid (renewed env c)
  unfolding renewed IsValid
  renewed-IsValid c v = record {
    slots = v.slots;
    exp_low = omega arith;
    exp_high = omega arith;
    acks = v.acks;
    tolerance = v.tolerance;
  }

  acknowledged-IsValid : (c : Connection) (ack : Ack) → IsValid c → IsValid (acknowledged c ack)
  unfolding acknowledged
  acknowledged-IsValid c ack v = keep c (acknowledged c ack) refl v

  rearm_exp-IsValid : (c : Connection) → IsValid c → IsValid (rearm_exp c)
  unfolding rearm_exp
  rearm_exp-IsValid c v =
      if-IsValid _ _ _ (push_output-IsValid c (clear_timer exp) v) (arm_exp-IsValid c v)

  pub on_ack-IsValid :
      (c : Connection) (ack : Ack) (now : Instant) → IsValid c → IsValid (on_ack env c ack now)
  unfolding on_ack
  on_ack-IsValid c ack now v =
      let r =
        rearm_exp-IsValid _
          (renewed-IsValid _ (drop_too_late-IsValid _ now (acknowledged-IsValid c ack v))) in
      let f = finish_close-IsValid _ now r in
      if-IsValid (is_light ack.cif) _ _ f (emit-IsValid _ _ now f)
