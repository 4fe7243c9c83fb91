-- ===== src/Connection/Ending/Phases.antt =====
-- The handshake, the idle and the shutdown handlers on an ending connection.
use srtrust.Prelude.{◌≡◌, true, ℕ, zero, suc, ◌-◌, refl, length, leb, not, Option, none, some, List}
use srtrust.SendBuffer.{Instant}
use srtrust.RecvBuffer
use srtrust.Packet.{SocketId}
use srtrust.Handshake.Types.{Handshake, reject_reason}
use srtrust.Config.{Negotiated}
use srtrust.Event.{
  TimerId, Event, set_timer, clear_timer, idle_timeout, handshake_timeout, rejected,
}
use srtrust.Connection.{Connection, State, push_output, push_event}
use srtrust.Connection.Close.{is_connected}
use srtrust.Connection.Receive.{reassemble}
use srtrust.Connection.Setup.{
  emit_handshake, send_conclusion, on_induction_response, on_conclusion_response, enter_connected,
  negotiate, conclusion_handshake,
}
use srtrust.Connection.Machine.{
  flush_in_order, on_shutdown, resend_handshake, on_late_handshake, on_peer_idle_timer,
  retry_handshake, on_handshake_timer, on_handshake,
}
use srtrust.Connection.Ending.{
  IsEnding, keep, while_closing, once_failed, push_output-IsEnding, push_event-IsEnding,
  if-IsEnding, option-IsEnding,
}
use srtrust.Connection.Ending.Send.{clear_arq_timers-IsEnding}
use srtrust.Connection.Ending.Receive.{reassemble-IsEnding}

flush-IsEnding : (n : ℕ) (c : Connection) → IsEnding c → IsEnding (flush_in_order n c)
unfolding flush_in_order
flush-IsEnding zero c v = v
flush-IsEnding (suc n) c v =
    let d = record c { recv_buffer = (RecvBuffer.pop_in_order c.recv_buffer).0 } in
    option-IsEnding (RecvBuffer.pop_in_order c.recv_buffer).1 _ _ v
      (λ p. flush-IsEnding n (reassemble d p) (reassemble-IsEnding d p (keep c d refl v)))

failed-IsEnding : (c : Connection) → IsEnding c → IsEnding (record c { state = State.failed })
failed-IsEnding c v = once_failed (record c { state = State.failed }) refl

pub on_shutdown-IsEnding : (c : Connection) → IsEnding c → IsEnding (on_shutdown c)
unfolding on_shutdown
on_shutdown-IsEnding c v = push_event-IsEnding _ _ (
    clear_arq_timers-IsEnding _
      (failed-IsEnding _ (flush-IsEnding (length c.recv_buffer.slots) c v)))

resend_handshake-IsEnding :
    (c : Connection) (o : Option (List ℕ)) → IsEnding c → IsEnding (resend_handshake c o)
resend_handshake-IsEnding c none v = v
resend_handshake-IsEnding c (some bytes) v = push_output-IsEnding c _ v

pub late_handshake-IsEnding :
    (c : Connection) (hs : Handshake) → IsEnding c → IsEnding (on_late_handshake c hs)
unfolding on_late_handshake
late_handshake-IsEnding c hs v =
    if-IsEnding _ _ _ (resend_handshake-IsEnding c c.last_handshake v) v

pub peer_idle-IsEnding :
    (c : Connection) (now : Instant) → IsEnding c → IsEnding (on_peer_idle_timer c now)
unfolding on_peer_idle_timer
peer_idle-IsEnding c now v = if-IsEnding (not (is_connected c.state)) _ _ v (
    if-IsEnding (leb c.config.peer_idle_timeout (now - c.last_recv_any)) _ _
      (push_event-IsEnding _ (Event.failed idle_timeout)
        (clear_arq_timers-IsEnding _ (failed-IsEnding c v)))
      (push_output-IsEnding c
        (set_timer TimerId.peer_idle (c.config.peer_idle_timeout - (now - c.last_recv_any))) v))

retry-IsEnding :
    (c : Connection) (o : Option (List ℕ)) → IsEnding c → IsEnding (retry_handshake c o)
retry-IsEnding c none v = v
retry-IsEnding c (some bytes) v = push_output-IsEnding _ _ (push_output-IsEnding c _ v)

pub handshake_timer-IsEnding :
    (c : Connection) (now : Instant) → IsEnding c → IsEnding (on_handshake_timer c now)
unfolding on_handshake_timer
handshake_timer-IsEnding c now v = if-IsEnding _ _ _ v (
    if-IsEnding _ _ _
      (push_event-IsEnding _ (Event.failed handshake_timeout)
        (push_output-IsEnding _ (clear_timer TimerId.handshake) (failed-IsEnding c v)))
      (retry-IsEnding c c.last_handshake v))

emit_handshake-IsEnding :
    (c : Connection) (id : SocketId) (hs : Handshake) (now : Instant)
    → IsEnding c
    → IsEnding (emit_handshake c id hs now)
unfolding emit_handshake push_output
emit_handshake-IsEnding c id hs now v = keep c (emit_handshake c id hs now) refl v

pub enter_connected-IsEnding :
    (c : Connection) (n : Negotiated) (now : Instant)
    → c.closing ≡ true
    → IsEnding (enter_connected c n now)
unfolding enter_connected push_output push_event
enter_connected-IsEnding c n now h = while_closing (enter_connected c n now) h

induction_response-IsEnding :
    (c : Connection) (hs : Handshake) (now : Instant)
    → c.closing ≡ true
    → IsEnding (on_induction_response c hs now)
unfolding on_induction_response send_conclusion
induction_response-IsEnding c hs now h =
    let d = record c {
      peer_socket_id = hs.srt_socket_id;
      syn_cookie = hs.syn_cookie;
      state = State.conclusion;
    } in
    if-IsEnding _ _ _ (while_closing c h)
      (emit_handshake-IsEnding d 0 (conclusion_handshake d) now (while_closing d h))

conclusion_response-IsEnding :
    (c : Connection) (hs : Handshake) (now : Instant)
    → c.closing ≡ true
    → IsEnding (on_conclusion_response c hs now)
unfolding on_conclusion_response push_output
conclusion_response-IsEnding c hs now h = if-IsEnding _ _ _ (while_closing c h) (
    enter_connected-IsEnding (push_output c (clear_timer TimerId.handshake))
      (negotiate c.config.latency hs) now h)

by_state :
    (s : State) (x y : Connection)
    → IsEnding x
    → IsEnding y
    → IsEnding (elim s as (λ (t : State). Connection) [ State.induction ↦ x | _ ↦ y ])
by_state State.induction x y u v = u
by_state State.conclusion x y u v = v
by_state State.connected x y u v = v
by_state State.failed x y u v = v

pub on_handshake-IsEnding :
    (c : Connection) (hs : Handshake) (now : Instant)
    → c.closing ≡ true
    → IsEnding (on_handshake c hs now)
unfolding on_handshake
on_handshake-IsEnding c hs now h =
    option-IsEnding (reject_reason hs.handshake_type) _ _
      (by_state c.state _ _ (induction_response-IsEnding c hs now h)
        (conclusion_response-IsEnding c hs now h))
      (λ reason. push_event-IsEnding _ (Event.failed (rejected reason)) (
        push_output-IsEnding _ (clear_timer TimerId.handshake)
          (failed-IsEnding c (while_closing c h))))
