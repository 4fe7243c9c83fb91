-- ===== src/Connection/Ending/Send.antt =====
-- The sender's handlers and the close of an ending connection.
use srtrust.Prelude.{
  ℕ, zero, suc, ◌+◌, ◌-◌, refl, length, Bool, true, false, Option, none, some, List, [], ◌∷◌,
}
use srtrust.External.{External}
use srtrust.Seq.{SeqNumber}
use srtrust.SendBuffer.{Instant}
use srtrust.Packet.{DataPacket}
use srtrust.Rtt.{Duration}
use srtrust.Fec.{FecEncoder, FecParity}
use srtrust.Connection.{Connection, State, Fragment, push_output, push_event}
use srtrust.Connection.Close.{
  is_connected, is_failed, is_drained, is_nil, clear_arq_timers, finalize_shutdown,
  finish_close_if_drained, on_linger_timer, close,
}
use srtrust.Connection.Rekey.{account_key_and_maybe_rotate}
use srtrust.Connection.Send.{
  arm_exp, on_keepalive_timer, emit_fec_parity, emit_parity, buffered, advance, send_stored,
  send_data, count_sent, seal, plain_packet, release, pace_loop, resync, rearm_pacing, pace,
  is_later, or_now, max_pace_burst,
}
use srtrust.Event.{set_timer, clear_timer, linger, snd_pacing, closed}
use srtrust.Connection.Ending.{
  IsEnding, keep, while_closing, once_failed, push_output-IsEnding, push_event-IsEnding,
  emit-IsEnding, if-IsEnding, option-IsEnding,
}
use srtrust.Connection.Ending.Keys.{account-IsEnding, resend-IsEnding}

pub clear_arq_timers-IsEnding : (c : Connection) → IsEnding c → IsEnding (clear_arq_timers c)
unfolding clear_arq_timers
clear_arq_timers-IsEnding c v = keep c (clear_arq_timers c) refl v

pub finalize_shutdown-IsEnding :
    (c : Connection) (now : Instant) → IsEnding c → IsEnding (finalize_shutdown c now)
unfolding finalize_shutdown clear_arq_timers push_output push_event
finalize_shutdown-IsEnding c now v = once_failed (finalize_shutdown c now) refl

pub finish_close-IsEnding :
    (c : Connection) (now : Instant) → IsEnding c → IsEnding (finish_close_if_drained c now)
unfolding finish_close_if_drained
finish_close-IsEnding c now v = if-IsEnding _ _ _ (finalize_shutdown-IsEnding c now v) v

pub on_linger_timer-IsEnding :
    (c : Connection) (now : Instant) → IsEnding c → IsEnding (on_linger_timer c now)
unfolding on_linger_timer
on_linger_timer-IsEnding c now v = if-IsEnding _ _ _ (finalize_shutdown-IsEnding c now v) v

pub close-IsEnding : (c : Connection) (now : Instant) → IsEnding c → IsEnding (close c now)
unfolding close
close-IsEnding c now v = if-IsEnding c.closing _ _ v (
    if-IsEnding (is_failed c.state) _ _ v (
      if-IsEnding (is_connected c.state) _ _
        (if-IsEnding (is_drained c) _ _ (finalize_shutdown-IsEnding c now v) (
          push_output-IsEnding _ (set_timer linger c.config.linger)
            (while_closing (record c { closing = true }) refl)))
        (push_event-IsEnding _ closed (once_failed (record c { state = State.failed }) refl))))

pub arm_exp-IsEnding : (c : Connection) → IsEnding c → IsEnding (arm_exp c)
unfolding arm_exp
arm_exp-IsEnding c v = push_output-IsEnding c _ v

pub on_keepalive_timer-IsEnding :
    (c : Connection) (now : Instant) → IsEnding c → IsEnding (on_keepalive_timer c now)
unfolding on_keepalive_timer
on_keepalive_timer-IsEnding c now v =
    let resent = resend-IsEnding c now v in
    if-IsEnding _ _ _ v
      (push_output-IsEnding _ _ (if-IsEnding _ _ _ (emit-IsEnding _ _ now resent) resent))

emit_parity-IsEnding :
    (c : Connection) (seq : SeqNumber) (p : Option FecParity) (now : Instant)
    → IsEnding c
    → IsEnding (emit_parity c seq p now)
unfolding emit_fec_parity
emit_parity-IsEnding c seq none now v = v
emit_parity-IsEnding c seq (some p) now v = emit-IsEnding c _ now v

buffered-IsEnding :
    (c : Connection) (fec : Option FecEncoder) (p : DataPacket)
    → IsEnding c
    → IsEnding (buffered c fec p)
unfolding buffered
buffered-IsEnding c fec p v = keep c (buffered c fec p) refl v

advance-IsEnding :
    (env : External) (c : Connection) (n : ℕ) → IsEnding c → IsEnding (advance env c n)
unfolding advance
advance-IsEnding env c n v = keep c (advance env c n) refl v

send_stored-IsEnding :
    (env : External) (c : Connection) (p : DataPacket) (now : Instant)
    → IsEnding c
    → IsEnding (send_stored env c p now)
unfolding send_stored
send_stored-IsEnding env c p now v =
    if-IsEnding _ _ _
      (arm_exp-IsEnding _ (
        advance-IsEnding env _ _
          (emit_parity-IsEnding _ _ _ now (emit-IsEnding _ _ now (buffered-IsEnding c _ p v)))))
      (advance-IsEnding env _ _
        (emit_parity-IsEnding _ _ _ now (emit-IsEnding _ _ now (buffered-IsEnding c _ p v))))

pub send_data-IsEnding :
    (env : External) (c : Connection) (f : Fragment) (now : Instant)
    → IsEnding c
    → IsEnding (send_data env c f now)
unfolding send_data
send_data-IsEnding env c f now v =
    let a = account_key_and_maybe_rotate c in
    send_stored-IsEnding env (count_sent a (length f.payload))
      (seal env a.crypto (plain_packet (count_sent a (length f.payload)) f now)) now
      (keep a (count_sent a (length f.payload)) refl (account-IsEnding c v))

module _ (env : External) where
  release-IsEnding :
      (c : Connection) (period : Duration) (f : Fragment) (queue : List Fragment) (now : Instant)
      → IsEnding c
      → IsEnding (release env c period f queue now)
  unfolding release
  release-IsEnding c period f queue now v =
      let sent = send_data env (record c { send_queue = queue }) f now in
      keep sent (release env c period f queue now) refl (
        send_data-IsEnding env (record c { send_queue = queue }) f now
          (keep c (record c { send_queue = queue }) refl v))

  pace_step-IsEnding :
      (late : Bool) (queued : List Fragment) (n : ℕ) (c : Connection) (period : Duration)
      (now : Instant)
      → IsEnding c
      → ((f : Fragment) (queue : List Fragment)
          → IsEnding (pace_loop env n (release env c period f queue now) period now).0)
      → IsEnding
          (elim late as (λ (t : Bool). Connection × Bool) [
            | true ↦ (c, false)
            | false ↦ elim queued as (λ (t : List Fragment). Connection × Bool) [
              | [] ↦ (record c { next_send = none }, false)
              | f ∷ queue ↦ pace_loop env n (release env c period f queue now) period now
            ]
          ]).0
  pace_step-IsEnding true queued n c period now v later = v
  pace_step-IsEnding false [] n c period now v later = keep c (record c { next_send = none }) refl v
  pace_step-IsEnding false (f ∷ queue) n c period now v later = later f queue

  pace_loop-IsEnding :
      (n : ℕ) (c : Connection) (period : Duration) (now : Instant)
      → IsEnding c
      → IsEnding (pace_loop env n c period now).0
  unfolding pace_loop
  pace_loop-IsEnding zero c period now v = v
  pace_loop-IsEnding (suc n) c period now v =
      pace_step-IsEnding (is_later c.next_send now) c.send_queue n c period now v (λ f queue.
        pace_loop-IsEnding n (release env c period f queue now) period now
          (release-IsEnding c period f queue now v))

  resync-IsEnding :
      (c : Connection) (capped : Bool) (period : Duration) (now : Instant)
      → IsEnding c
      → IsEnding (resync env c capped period now)
  unfolding resync
  resync-IsEnding c capped period now v =
      if-IsEnding _ _ _ (keep c (record c { next_send = some (now + period) }) refl v) v

  rearm-IsEnding : (c : Connection) (now : Instant) → IsEnding c → IsEnding (rearm_pacing env c now)
  unfolding rearm_pacing
  rearm-IsEnding c now v =
      if-IsEnding (is_nil c.send_queue) _ _
        (finish_close-IsEnding _ now (push_output-IsEnding c (clear_timer snd_pacing) v))
        (push_output-IsEnding c (set_timer snd_pacing (or_now c.next_send now - now)) v)

  pub pace-IsEnding : (c : Connection) (now : Instant) → IsEnding c → IsEnding (pace env c now)
  unfolding pace
  pace-IsEnding c now v = option-IsEnding c.live_cc _ _ v (λ cc. rearm-IsEnding _ now (
      resync-IsEnding _ (pace_loop env max_pace_burst c cc.snd_period now).1 cc.snd_period now
        (pace_loop-IsEnding max_pace_burst c cc.snd_period now v)))
