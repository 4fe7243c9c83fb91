-- ===== src/Connection/Inv/Send.antt =====
-- The sender's handlers keep the invariant, and so does the end of a connection.
use srtrust.Prelude.{
  ℕ, zero, suc, ◌+◌, ◌-◌, refl, length, Bool, true, false, Option, none, some, List, [], ◌∷◌,
}
use srtrust.External.{External}
use srtrust.Seq.{SeqNumber}
use srtrust.SendBuffer.{Instant}
use srtrust.Packet.{DataPacket}
use srtrust.Rtt.{Duration}
use srtrust.Fec.{FecEncoder, FecParity}
use srtrust.Connection.{Connection, State, Fragment, push_output, push_event}
use srtrust.Connection.Close.{
  is_connected, is_failed, is_drained, is_nil, clear_arq_timers, finalize_shutdown,
  finish_close_if_drained, on_linger_timer, close,
}
use srtrust.Connection.Rekey.{account_key_and_maybe_rotate}
use srtrust.Connection.Send.{
  arm_exp, on_keepalive_timer, emit_fec_parity, emit_parity, buffered, advance, send_stored,
  send_data, count_sent, seal, plain_packet, release, pace_loop, resync, rearm_pacing, pace,
  is_later, or_now, max_pace_burst,
}
use srtrust.Event.{set_timer, clear_timer, linger, snd_pacing, closed}
use srtrust.Connection.Inv.{
  IsValid, keep, push_output-IsValid, push_event-IsValid, emit-IsValid, if-IsValid, option-IsValid,
}
use srtrust.Connection.Inv.Keys.{account-IsValid, resend-IsValid}

pub clear_arq_timers-IsValid : (c : Connection) → IsValid c → IsValid (clear_arq_timers c)
unfolding clear_arq_timers
clear_arq_timers-IsValid c v = keep c (clear_arq_timers c) refl v

pub finalize_shutdown-IsValid :
    (c : Connection) (now : Instant) → IsValid c → IsValid (finalize_shutdown c now)
unfolding finalize_shutdown clear_arq_timers push_output push_event
finalize_shutdown-IsValid c now v = keep c (finalize_shutdown c now) refl v

pub finish_close-IsValid :
    (c : Connection) (now : Instant) → IsValid c → IsValid (finish_close_if_drained c now)
unfolding finish_close_if_drained
finish_close-IsValid c now v = if-IsValid _ _ _ (finalize_shutdown-IsValid c now v) v

pub on_linger_timer-IsValid :
    (c : Connection) (now : Instant) → IsValid c → IsValid (on_linger_timer c now)
unfolding on_linger_timer
on_linger_timer-IsValid c now v = if-IsValid _ _ _ (finalize_shutdown-IsValid c now v) v

pub close-IsValid : (c : Connection) (now : Instant) → IsValid c → IsValid (close c now)
unfolding close
close-IsValid c now v = if-IsValid c.closing _ _ v (
    if-IsValid (is_failed c.state) _ _ v (
      if-IsValid (is_connected c.state) _ _
        (if-IsValid (is_drained c) _ _ (finalize_shutdown-IsValid c now v) (
          push_output-IsValid _ (set_timer linger c.config.linger)
            (keep c (record c { closing = true }) refl v)))
        (push_event-IsValid _ closed (keep c (record c { state = State.failed }) refl v))))

pub arm_exp-IsValid : (c : Connection) → IsValid c → IsValid (arm_exp c)
unfolding arm_exp
arm_exp-IsValid c v = push_output-IsValid c _ v

pub on_keepalive_timer-IsValid :
    (c : Connection) (now : Instant) → IsValid c → IsValid (on_keepalive_timer c now)
unfolding on_keepalive_timer
on_keepalive_timer-IsValid c now v =
    let resent = resend-IsValid c now v in
    if-IsValid _ _ _ v
      (push_output-IsValid _ _ (if-IsValid _ _ _ (emit-IsValid _ _ now resent) resent))

emit_parity-IsValid :
    (c : Connection) (seq : SeqNumber) (p : Option FecParity) (now : Instant)
    → IsValid c
    → IsValid (emit_parity c seq p now)
unfolding emit_fec_parity
emit_parity-IsValid c seq none now v = v
emit_parity-IsValid c seq (some p) now v = emit-IsValid c _ now v

buffered-IsValid :
    (c : Connection) (fec : Option FecEncoder) (p : DataPacket)
    → IsValid c
    → IsValid (buffered c fec p)
unfolding buffered
buffered-IsValid c fec p v = keep c (buffered c fec p) refl v

advance-IsValid : (env : External) (c : Connection) (n : ℕ) → IsValid c → IsValid (advance env c n)
unfolding advance
advance-IsValid env c n v = keep c (advance env c n) refl v

send_stored-IsValid :
    (env : External) (c : Connection) (p : DataPacket) (now : Instant)
    → IsValid c
    → IsValid (send_stored env c p now)
unfolding send_stored
send_stored-IsValid env c p now v =
    if-IsValid _ _ _
      (arm_exp-IsValid _ (
        advance-IsValid env _ _
          (emit_parity-IsValid _ _ _ now (emit-IsValid _ _ now (buffered-IsValid c _ p v)))))
      (advance-IsValid env _ _
        (emit_parity-IsValid _ _ _ now (emit-IsValid _ _ now (buffered-IsValid c _ p v))))

pub send_data-IsValid :
    (env : External) (c : Connection) (f : Fragment) (now : Instant)
    → IsValid c
    → IsValid (send_data env c f now)
unfolding send_data
send_data-IsValid env c f now v =
    let a = account_key_and_maybe_rotate c in
    send_stored-IsValid env (count_sent a (length f.payload))
      (seal env a.crypto (plain_packet (count_sent a (length f.payload)) f now)) now
      (keep a (count_sent a (length f.payload)) refl (account-IsValid c v))

module _ (env : External) where
  release-IsValid :
      (c : Connection) (period : Duration) (f : Fragment) (queue : List Fragment) (now : Instant)
      → IsValid c
      → IsValid (release env c period f queue now)
  unfolding release
  release-IsValid c period f queue now v =
      let sent = send_data env (record c { send_queue = queue }) f now in
      keep sent (release env c period f queue now) refl (
        send_data-IsValid env (record c { send_queue = queue }) f now
          (keep c (record c { send_queue = queue }) refl v))

  pace_step-IsValid :
      (late : Bool) (queued : List Fragment) (n : ℕ) (c : Connection) (period : Duration)
      (now : Instant)
      → IsValid c
      → ((f : Fragment) (queue : List Fragment)
          → IsValid (pace_loop env n (release env c period f queue now) period now).0)
      → IsValid
          (elim late as (λ (t : Bool). Connection × Bool) [
            | true ↦ (c, false)
            | false ↦ elim queued as (λ (t : List Fragment). Connection × Bool) [
              | [] ↦ (record c { next_send = none }, false)
              | f ∷ queue ↦ pace_loop env n (release env c period f queue now) period now
            ]
          ]).0
  pace_step-IsValid true queued n c period now v later = v
  pace_step-IsValid false [] n c period now v later = keep c (record c { next_send = none }) refl v
  pace_step-IsValid false (f ∷ queue) n c period now v later = later f queue

  pace_loop-IsValid :
      (n : ℕ) (c : Connection) (period : Duration) (now : Instant)
      → IsValid c
      → IsValid (pace_loop env n c period now).0
  unfolding pace_loop
  pace_loop-IsValid zero c period now v = v
  pace_loop-IsValid (suc n) c period now v =
      pace_step-IsValid (is_later c.next_send now) c.send_queue n c period now v (λ f queue.
        pace_loop-IsValid n (release env c period f queue now) period now
          (release-IsValid c period f queue now v))

  resync-IsValid :
      (c : Connection) (capped : Bool) (period : Duration) (now : Instant)
      → IsValid c
      → IsValid (resync env c capped period now)
  unfolding resync
  resync-IsValid c capped period now v =
      if-IsValid _ _ _ (keep c (record c { next_send = some (now + period) }) refl v) v

  rearm-IsValid : (c : Connection) (now : Instant) → IsValid c → IsValid (rearm_pacing env c now)
  unfolding rearm_pacing
  rearm-IsValid c now v =
      if-IsValid (is_nil c.send_queue) _ _
        (finish_close-IsValid _ now (push_output-IsValid c (clear_timer snd_pacing) v))
        (push_output-IsValid c (set_timer snd_pacing (or_now c.next_send now - now)) v)

  pub pace-IsValid : (c : Connection) (now : Instant) → IsValid c → IsValid (pace env c now)
  unfolding pace
  pace-IsValid c now v = option-IsValid c.live_cc _ _ v (λ cc. rearm-IsValid _ now (
      resync-IsValid _ (pace_loop env max_pace_burst c cc.snd_period now).1 cc.snd_period now
        (pace_loop-IsValid max_pace_burst c cc.snd_period now v)))
