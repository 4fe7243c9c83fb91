-- ===== src/Connection/Delivery.antt =====
-- Time-based delivery runs until nothing more is due.
use mathlib.Core.Path.{subst}
use srtrust.Prelude.{
  ℕ, zero, suc, ◌-◌, ◌≤◌, ◌<◌, ◌≡◌, refl, arith, ap, sym, true, false, Bool-cases, Option, none,
  some, Option-cases, inl, inr, ◌⊎◌, List, ◌∷◌, length, drop, length-drop, ltb,
}
use srtrust.Packet.{DataPacket}
use srtrust.Seq.{SeqNumber}
use srtrust.Timestamp.{Timestamp}
use srtrust.SendBuffer.{Instant}
use srtrust.RecvBuffer
use srtrust.RecvBuffer.{RecvBuffer, position, deliver}
use srtrust.RecvBuffer.Pop.{front, nothing, leading}
use srtrust.Event.{set_timer, clear_timer, tsbpd}
use srtrust.Connection.{Connection, push_output, push_event}
use srtrust.Connection.Messages
use srtrust.Connection.Receive.{
  tsbpd_play_time, deliver_message, reassemble, advanced, deliver_next, deliver_loop, deliver_tsbpd,
}

-- Nothing is due: the buffer is empty, or its first packet has no play time yet or a later one.
abbrev pub IsWaiting : Connection → Instant → Option (SeqNumber × Timestamp) → Type 0
IsWaiting c now none = Unit {0}
IsWaiting c now (some (seq, timestamp)) =
    (tsbpd_play_time c timestamp ≡ none)
    ⊎ ((at : Instant) × (tsbpd_play_time c timestamp ≡ some at) × (now < at))

abbrev pub IsSettled : Connection → Instant → Type 0
IsSettled c now = IsWaiting c now (RecvBuffer.peek c.recv_buffer)

-- A delivery takes a slot.
deliver-length :
    (b : RecvBuffer) (p : DataPacket) (rest xs : List RecvBuffer.Slot) (i : ℕ)
    → drop i xs ≡ some p ∷ rest
    → (suc (length rest) ≤ length xs)
      × (RecvBuffer.deliver b (drop i xs) ≡ RecvBuffer.deliver b (some p ∷ rest))
deliver-length b p rest xs i e =
    let size : length (drop i xs) ≡ suc (length rest) = ap length e in
    (omega (arith, size, length-drop i xs), ap (RecvBuffer.deliver b) e)

pop-length :
    (b : RecvBuffer)
    → (RecvBuffer.peek b ≡ none) ⊎ (suc (length (RecvBuffer.pop b).0.slots) ≤ length b.slots)
unfolding RecvBuffer.peek RecvBuffer.pop
pop-length b = elim (front b.slots) [
  | nothing e z ↦ inl (rw (e, RecvBuffer.peek) refl)
  | leading i p rest l ↦
      let size : suc (length rest) ≤ length b.slots =
        (deliver-length b p rest b.slots i l.dropped).0 in
      inr (rw (l.found, RecvBuffer.pop) (rw (l.dropped, RecvBuffer.deliver) size))
]

message-buffer :
    (c : Connection) (m : Option (List ℕ)) → (deliver_message c m).recv_buffer ≡ c.recv_buffer
unfolding push_event
message-buffer c none = refl
message-buffer c (some m) = refl

deliver_next-buffer :
    (c : Connection) → (deliver_next c).recv_buffer ≡ (RecvBuffer.pop c.recv_buffer).0
unfolding deliver_next reassemble advanced
deliver_next-buffer c = elim (Option-cases (RecvBuffer.pop c.recv_buffer).1) [
  | inl e ↦ rw (e, deliver_next) refl
  | inr (p, e) ↦ rw (e, deliver_next) (message-buffer _ (Messages.push c.reassembler p).1)
]

-- One round of the loop, on each branch.
loop-empty :
    (fuel : ℕ) (c : Connection) (now : Instant)
    → RecvBuffer.peek c.recv_buffer ≡ none
    → deliver_loop (suc fuel) c now ≡ push_output c (clear_timer tsbpd)
unfolding deliver_loop
loop-empty fuel c now e = rw (e, deliver_loop) refl

loop-unanchored :
    (fuel : ℕ) (c : Connection) (now : Instant) (seq : SeqNumber) (ts : Timestamp)
    → RecvBuffer.peek c.recv_buffer ≡ some (seq, ts)
    → tsbpd_play_time c ts ≡ none
    → deliver_loop (suc fuel) c now ≡ c
unfolding deliver_loop
loop-unanchored fuel c now seq ts e t = rw (e, t, deliver_loop) refl

loop-early :
    (fuel : ℕ) (c : Connection) (now : Instant) (seq : SeqNumber) (ts : Timestamp) (at : Instant)
    → RecvBuffer.peek c.recv_buffer ≡ some (seq, ts)
    → tsbpd_play_time c ts ≡ some at
    → ltb now at ≡ true
    → deliver_loop (suc fuel) c now ≡ push_output c (set_timer tsbpd (at - now))
unfolding deliver_loop
loop-early fuel c now seq ts at e t l = rw (e, t, l, deliver_loop) refl

loop-due :
    (fuel : ℕ) (c : Connection) (now : Instant) (seq : SeqNumber) (ts : Timestamp) (at : Instant)
    → RecvBuffer.peek c.recv_buffer ≡ some (seq, ts)
    → tsbpd_play_time c ts ≡ some at
    → ltb now at ≡ false
    → deliver_loop (suc fuel) c now ≡ deliver_loop fuel (deliver_next c) now
unfolding deliver_loop
loop-due fuel c now seq ts at e t l = rw (e, t, l, deliver_loop) refl

next-shorter :
    (c : Connection) (seq : SeqNumber) (ts : Timestamp)
    → RecvBuffer.peek c.recv_buffer ≡ some (seq, ts)
    → suc (length (deliver_next c).recv_buffer.slots) ≤ length c.recv_buffer.slots
next-shorter c seq ts e = elim (pop-length c.recv_buffer) [
  | inl n ↦ absurd (cc)
  | inr h ↦
      let same : length (deliver_next c).recv_buffer.slots
          ≡ length (RecvBuffer.pop c.recv_buffer).0.slots =
        ap (λ (b : RecvBuffer). length b.slots) (deliver_next-buffer c) in
      omega (arith, same, h)
]

waiting-early :
    (c : Connection) (now : Instant) (seq : SeqNumber) (ts : Timestamp) (at : Instant)
    → RecvBuffer.peek c.recv_buffer ≡ some (seq, ts)
    → tsbpd_play_time c ts ≡ some at
    → ltb now at ≡ true
    → IsSettled (push_output c (set_timer tsbpd (at - now))) now
unfolding push_output tsbpd_play_time
waiting-early c now seq ts at e t l = rw e (inr (at, t, ground arith))

waiting-empty :
    (c : Connection) (now : Instant)
    → RecvBuffer.peek c.recv_buffer ≡ none
    → IsSettled (push_output c (clear_timer tsbpd)) now
unfolding push_output
waiting-empty c now e = rw e tt

waiting-unanchored :
    (c : Connection) (now : Instant) (seq : SeqNumber) (ts : Timestamp)
    → RecvBuffer.peek c.recv_buffer ≡ some (seq, ts)
    → tsbpd_play_time c ts ≡ none
    → IsSettled c now
waiting-unanchored c now seq ts e t = rw e (inl t)

loop-IsSettled :
    (fuel : ℕ) (c : Connection) (now : Instant)
    → length c.recv_buffer.slots < fuel
    → IsSettled (deliver_loop fuel c now) now
loop-IsSettled zero c now h = absurd (omega arith)
loop-IsSettled (suc fuel) c now h = elim (Option-cases (RecvBuffer.peek c.recv_buffer)) [
  | inl e ↦ subst (λ d. IsSettled d now) (sym (loop-empty fuel c now e)) (waiting-empty c now e)
  | inr ((seq, ts), e) ↦ elim (Option-cases (tsbpd_play_time c ts)) [
    | inl t ↦
        subst (λ d. IsSettled d now) (sym (loop-unanchored fuel c now seq ts e t))
          (waiting-unanchored c now seq ts e t)
    | inr (at, t) ↦ elim (Bool-cases (ltb now at)) [
      | inl l ↦
          subst (λ d. IsSettled d now) (sym (loop-early fuel c now seq ts at e t l))
            (waiting-early c now seq ts at e t l)
      | inr l ↦
          subst (λ d. IsSettled d now) (sym (loop-due fuel c now seq ts at e t l))
            (loop-IsSettled fuel (deliver_next c) now (omega (arith, next-shorter c seq ts e, h)))
    ]
  ]
]

-- The delivery loop ends by itself with nothing due: afterwards the receive buffer is empty, or its
-- first packet has no play time yet, or one that is still ahead.
pub deliver_tsbpd-IsSettled : (c : Connection) (now : Instant) → IsSettled (deliver_tsbpd c now) now
unfolding deliver_tsbpd
deliver_tsbpd-IsSettled c now =
    loop-IsSettled (suc (length c.recv_buffer.slots)) c now (omega arith)
