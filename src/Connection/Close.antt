-- ===== src/Connection/Close.antt =====
-- crates/srt-protocol/src/connection.rs and connection/arq.rs: the end of a connection.
use srtrust.Prelude.{Bool, true, false, List, [], ◌∷◌, ◌++◌, ◌&&◌, if◌then◌else◌}
use srtrust.Control.{shutdown_body}
use srtrust.SendBuffer
use srtrust.SendBuffer.{Instant}
use srtrust.Event.{
  closed, Output, send_datagram, set_timer, clear_timer, ack, nak, exp, tsbpd, snd_pacing, linger,
  keepalive, peer_idle,
}
use srtrust.Connection.{
  Connection, State, connected, failed, push_event, push_output, wire_ts, encode_control,
}

abbrev pub is_connected : State → Bool
is_connected connected = true
is_connected _ = false

abbrev pub is_failed : State → Bool
is_failed failed = true
is_failed _ = false

abbrev pub is_nil {ℓ} : {A : Type ℓ} → List A → Bool
is_nil [] = true
is_nil (x ∷ xs) = false

abbrev pub arq_timers : List Output
arq_timers =
    clear_timer ack
    ∷ clear_timer nak
    ∷ clear_timer exp
    ∷ clear_timer tsbpd
    ∷ clear_timer snd_pacing
    ∷ clear_timer keepalive
    ∷ clear_timer peer_idle
    ∷ []

unfoldable pub clear_arq_timers : Connection → Connection
clear_arq_timers c = record c { outputs = c.outputs ++ arq_timers }

unfoldable pub finalize_shutdown : Connection → Instant → Connection
unfolding clear_arq_timers push_output push_event
finalize_shutdown c now =
    let bytes = encode_control c.peer_socket_id (wire_ts c now) shutdown_body in
    let c = clear_arq_timers (push_output c (send_datagram bytes)) in
    let c = push_output c (clear_timer linger) in
    push_event (record c { closing = false; state = failed }) closed

-- Nothing is unacknowledged and nothing is queued.
abbrev pub is_drained : Connection → Bool
is_drained c = SendBuffer.is_empty c.send_buffer && is_nil c.send_queue

unfoldable pub finish_close_if_drained : Connection → Instant → Connection
unfolding finalize_shutdown
finish_close_if_drained c now = if c.closing && is_drained c then finalize_shutdown c now else c

unfoldable pub on_linger_timer : Connection → Instant → Connection
unfolding finalize_shutdown
on_linger_timer c now = if c.closing then finalize_shutdown c now else c

unfoldable pub close : Connection → Instant → Connection
unfolding finalize_shutdown push_output push_event
close c now =
    if c.closing
    then c
    else if is_failed c.state
    then c
    else if is_connected c.state
    then (if is_drained c
        then finalize_shutdown c now
        else push_output (record c { closing = true }) (set_timer linger c.config.linger))
    else push_event (record c { state = failed }) closed
