-- ===== src/Connection/Inv/Phases.antt =====
-- The handshake, the idle and the shutdown handlers keep the invariant.
use srtrust.Prelude.{ℕ, zero, suc, ◌-◌, refl, length, leb, not, Option, none, some, List}
use srtrust.SendBuffer.{Instant}
use srtrust.RecvBuffer
use srtrust.Packet.{SocketId}
use srtrust.Handshake.Types.{Handshake, reject_reason}
use srtrust.Config.{Negotiated}
use srtrust.Event.{
  TimerId, Event, set_timer, clear_timer, idle_timeout, handshake_timeout, rejected,
}
use srtrust.Connection.{Connection, State, push_output, push_event}
use srtrust.Connection.Close.{is_connected}
use srtrust.Connection.Receive.{reassemble}
use srtrust.Connection.Setup.{
  emit_handshake, send_conclusion, on_induction_response, on_conclusion_response, enter_connected,
  negotiate, conclusion_handshake,
}
use srtrust.Connection.Machine.{
  flush_in_order, on_shutdown, resend_handshake, on_late_handshake, on_peer_idle_timer,
  retry_handshake, on_handshake_timer, on_handshake,
}
use srtrust.Connection.Inv.{
  IsValid, keep, push_output-IsValid, push_event-IsValid, if-IsValid, option-IsValid,
}
use srtrust.Connection.Inv.Send.{clear_arq_timers-IsValid}
use srtrust.Connection.Inv.Receive.{reassemble-IsValid}

flush-IsValid : (n : ℕ) (c : Connection) → IsValid c → IsValid (flush_in_order n c)
unfolding flush_in_order
flush-IsValid zero c v = v
flush-IsValid (suc n) c v =
    let d = record c { recv_buffer = (RecvBuffer.pop_in_order c.recv_buffer).0 } in
    option-IsValid (RecvBuffer.pop_in_order c.recv_buffer).1 _ _ v
      (λ p. flush-IsValid n (reassemble d p) (reassemble-IsValid d p (keep c d refl v)))

failed-IsValid : (c : Connection) → IsValid c → IsValid (record c { state = State.failed })
failed-IsValid c v = keep c (record c { state = State.failed }) refl v

pub on_shutdown-IsValid : (c : Connection) → IsValid c → IsValid (on_shutdown c)
unfolding on_shutdown
on_shutdown-IsValid c v =
    push_event-IsValid _ _ (
      clear_arq_timers-IsValid _
        (failed-IsValid _ (flush-IsValid (length c.recv_buffer.slots) c v)))

resend_handshake-IsValid :
    (c : Connection) (o : Option (List ℕ)) → IsValid c → IsValid (resend_handshake c o)
resend_handshake-IsValid c none v = v
resend_handshake-IsValid c (some bytes) v = push_output-IsValid c _ v

pub late_handshake-IsValid :
    (c : Connection) (hs : Handshake) → IsValid c → IsValid (on_late_handshake c hs)
unfolding on_late_handshake
late_handshake-IsValid c hs v = if-IsValid _ _ _ (resend_handshake-IsValid c c.last_handshake v) v

pub peer_idle-IsValid :
    (c : Connection) (now : Instant) → IsValid c → IsValid (on_peer_idle_timer c now)
unfolding on_peer_idle_timer
peer_idle-IsValid c now v = if-IsValid (not (is_connected c.state)) _ _ v (
    if-IsValid (leb c.config.peer_idle_timeout (now - c.last_recv_any)) _ _
      (push_event-IsValid _ (Event.failed idle_timeout)
        (clear_arq_timers-IsValid _ (failed-IsValid c v)))
      (push_output-IsValid c
        (set_timer TimerId.peer_idle (c.config.peer_idle_timeout - (now - c.last_recv_any))) v))

retry-IsValid : (c : Connection) (o : Option (List ℕ)) → IsValid c → IsValid (retry_handshake c o)
retry-IsValid c none v = v
retry-IsValid c (some bytes) v = push_output-IsValid _ _ (push_output-IsValid c _ v)

pub handshake_timer-IsValid :
    (c : Connection) (now : Instant) → IsValid c → IsValid (on_handshake_timer c now)
unfolding on_handshake_timer
handshake_timer-IsValid c now v = if-IsValid _ _ _ v (
    if-IsValid _ _ _
      (push_event-IsValid _ (Event.failed handshake_timeout)
        (push_output-IsValid _ (clear_timer TimerId.handshake) (failed-IsValid c v)))
      (retry-IsValid c c.last_handshake v))

emit_handshake-IsValid :
    (c : Connection) (id : SocketId) (hs : Handshake) (now : Instant)
    → IsValid c
    → IsValid (emit_handshake c id hs now)
unfolding emit_handshake push_output
emit_handshake-IsValid c id hs now v = keep c (emit_handshake c id hs now) refl v

pub enter_connected-IsValid :
    (c : Connection) (n : Negotiated) (now : Instant)
    → IsValid c
    → IsValid (enter_connected c n now)
unfolding enter_connected push_output push_event
enter_connected-IsValid c n now v = keep c (enter_connected c n now) refl v

induction_response-IsValid :
    (c : Connection) (hs : Handshake) (now : Instant)
    → IsValid c
    → IsValid (on_induction_response c hs now)
unfolding on_induction_response send_conclusion
induction_response-IsValid c hs now v =
    let d = record c {
      peer_socket_id = hs.srt_socket_id;
      syn_cookie = hs.syn_cookie;
      state = State.conclusion;
    } in
    if-IsValid _ _ _ v (emit_handshake-IsValid d 0 (conclusion_handshake d) now (keep c d refl v))

conclusion_response-IsValid :
    (c : Connection) (hs : Handshake) (now : Instant)
    → IsValid c
    → IsValid (on_conclusion_response c hs now)
unfolding on_conclusion_response
conclusion_response-IsValid c hs now v = if-IsValid _ _ _ v (
    enter_connected-IsValid _ (negotiate c.config.latency hs) now
      (push_output-IsValid c (clear_timer TimerId.handshake) v))

by_state :
    (s : State) (x y : Connection)
    → IsValid x
    → IsValid y
    → IsValid (elim s as (λ (t : State). Connection) [ State.induction ↦ x | _ ↦ y ])
by_state State.induction x y u v = u
by_state State.conclusion x y u v = v
by_state State.connected x y u v = v
by_state State.failed x y u v = v

pub on_handshake-IsValid :
    (c : Connection) (hs : Handshake) (now : Instant) → IsValid c → IsValid (on_handshake c hs now)
unfolding on_handshake
on_handshake-IsValid c hs now v =
    option-IsValid (reject_reason hs.handshake_type) _ _
      (by_state c.state _ _ (induction_response-IsValid c hs now v)
        (conclusion_response-IsValid c hs now v))
      (λ reason.
        push_event-IsValid _ (Event.failed (rejected reason))
          (push_output-IsValid _ (clear_timer TimerId.handshake) (failed-IsValid c v)))
