-- ===== src/Connection/Inv/Feedback.antt =====
-- The receiver's reports keep the invariant.
use srtrust.Prelude.{
  ℕ, suc, ◌+◌, ◌-◌, ◌≤◌, ◌≡◌, refl, arith, length, length-append, ltb, Bool, true, false, Option,
  none, some, List, [], ◌∷◌, ◌++◌, if◌then◌else◌, ◌==◌,
}
use mathlib.Core.Path.{subst}
use srtrust.Seq.{SeqNumber}
use srtrust.SendBuffer.{Instant}
use srtrust.RecvBuffer
use srtrust.RecvBuffer.{RecvBuffer, SeqRange}
use srtrust.Event.{set_timer, ack, nak}
use srtrust.Connection.{Connection, emit}
use srtrust.Connection.Feedback.{
  send_light_ack, send_nak, report_gaps, find_ack, on_ackack, remember, send_full_ack, on_ack_timer,
  on_nak_timer, nak_interval, max_pending_acks, tail,
}
use srtrust.Connection.Retransmit.{ack_interval}
use srtrust.Rtt.{RttEstimator}
use srtrust.Connection.Inv.{IsValid, keep, push_output-IsValid, if-IsValid, option-IsValid_with}

pub send_light_ack-IsValid :
    (c : Connection) (now : Instant) → IsValid c → IsValid (send_light_ack c now)
unfolding send_light_ack emit
send_light_ack-IsValid c now v = keep c (send_light_ack c now) refl v

send_nak-IsValid :
    (c : Connection) (missing : List SeqRange) (now : Instant)
    → IsValid c
    → IsValid (send_nak c missing now)
unfolding send_nak emit
send_nak-IsValid c missing now v = keep c (send_nak c missing now) refl v

pub report_gaps-IsValid : (c : Connection) (now : Instant) → IsValid c → IsValid (report_gaps c now)
unfolding report_gaps send_nak emit
report_gaps-IsValid c now v =
    let missing = RecvBuffer.missing_aged c.recv_buffer c.reorder_tolerance in
    if-IsValid _ _ _
      (if-IsValid _ _ _
        (keep c (record (send_nak c missing now) { reported_loss = missing }) refl v) v)
      (keep c (record c { reported_loss = [] }) refl v)

-- The entries after an ACK that is found are fewer.
abbrev IsFewer : ℕ → Option (Instant × List (ℕ × Instant)) → Type 0
IsFewer n none = Unit {0}
IsFewer n (some (at, rest)) = length rest ≤ n

IsFewer-if :
    (b : Bool) (t : Instant) (acks : List (ℕ × Instant)) (r : Option (Instant × List (ℕ × Instant)))
    → IsFewer (length acks) r
    → IsFewer (suc (length acks)) (if b then some (t, acks) else r)
IsFewer-if true t acks r h = omega arith
IsFewer-if false t acks none h = tt
IsFewer-if false t acks (some (at, rest)) h = omega (arith, h)

find_ack-IsFewer : (acks : List (ℕ × Instant)) (n : ℕ) → IsFewer (length acks) (find_ack n acks)
unfolding find_ack
find_ack-IsFewer [] n = tt
find_ack-IsFewer ((m, t) ∷ acks) n =
    IsFewer-if (m == n) t acks (find_ack n acks) (find_ack-IsFewer acks n)

-- The invariant with other outstanding ACKs.
with_acks :
    (c : Connection) (acks : List (ℕ × Instant))
    → IsValid c
    → length acks ≤ max_pending_acks
    → IsValid (record c { pending_acks = acks })
unfolding IsValid
with_acks c acks v h = record {
  slots = v.slots;
  exp_low = v.exp_low;
  exp_high = v.exp_high;
  acks = h;
  tolerance = v.tolerance;
}

few_acks : (c : Connection) → IsValid c → length c.pending_acks ≤ max_pending_acks
unfolding IsValid
few_acks c v = v.acks

sampled-IsValid :
    (c : Connection) (rtt : RttEstimator) (acks : List (ℕ × Instant))
    → IsValid c
    → length acks ≤ max_pending_acks
    → IsValid (record c { rtt = rtt; pending_acks = acks })
sampled-IsValid c rtt acks v h =
    keep (record c { pending_acks = acks }) (record c { rtt = rtt; pending_acks = acks }) refl
      (with_acks c acks v h)

pub on_ackack-IsValid :
    (c : Connection) (n : ℕ) (now : Instant) → IsValid c → IsValid (on_ackack c n now)
unfolding on_ackack
on_ackack-IsValid c n now v = option-IsValid_with (find_ack n c.pending_acks) _ _ v (λ r e.
    let fewer : length r.1 ≤ length c.pending_acks =
      subst (λ o. IsFewer (length c.pending_acks) o) e (find_ack-IsFewer c.pending_acks n) in
    sampled-IsValid c _ r.1 v (omega (arith, few_acks c v, fewer)))

length-tail : (acks : List (ℕ × Instant)) → length (tail acks) ≡ length acks - 1
length-tail [] = omega arith
length-tail (a ∷ acks) = omega arith

few-if :
    (b : Bool) (n : ℕ) (acks : List (ℕ × Instant))
    → ltb max_pending_acks (length acks) ≡ b
    → length acks ≤ max_pending_acks + 1
    → length (if b then tail acks else acks) ≤ max_pending_acks
few-if true n acks e h = omega (arith, length-tail acks)
few-if false n acks e h = ground arith

length-remember :
    (acks : List (ℕ × Instant)) (entry : ℕ × Instant)
    → length acks ≤ max_pending_acks
    → length (remember acks entry) ≤ max_pending_acks
length-remember acks entry h =
    few-if (ltb max_pending_acks (length (acks ++ (entry ∷ [])))) 0 (acks ++ (entry ∷ [])) refl
      (omega (arith, length-append acks (entry ∷ [])))

send_full_ack-IsValid :
    (c : Connection) (point : SeqNumber) (avail : ℕ) (now : Instant)
    → IsValid c
    → IsValid (send_full_ack c point avail now)
unfolding send_full_ack emit
send_full_ack-IsValid c point avail now v =
    let acks = remember c.pending_acks (c.next_ack_number, now) in
    keep (record c { pending_acks = acks }) (send_full_ack c point avail now) refl
      (with_acks c acks v (length-remember c.pending_acks (c.next_ack_number, now) (few_acks c v)))

pub on_ack_timer-IsValid :
    (c : Connection) (now : Instant) → IsValid c → IsValid (on_ack_timer c now)
unfolding on_ack_timer
on_ack_timer-IsValid c now v =
    let w = push_output-IsValid c (set_timer ack ack_interval) v in
    if-IsValid _ _ _ v (if-IsValid _ _ _ w (send_full_ack-IsValid _ _ _ now w))

pub on_nak_timer-IsValid :
    (c : Connection) (now : Instant) → IsValid c → IsValid (on_nak_timer c now)
unfolding on_nak_timer
on_nak_timer-IsValid c now v =
    let w = push_output-IsValid c (set_timer nak (nak_interval c)) v in
    if-IsValid _ _ _ v (if-IsValid _ _ _ w (if-IsValid _ _ _ w (send_nak-IsValid _ _ now w)))
