-- ===== src/Connection/Machine.antt =====
-- crates/srt-protocol/src/connection.rs: the inputs of the state machine: datagrams, timers,
-- application data, and what it answers.
use srtrust.Prelude.{ℕ, ◌+◌, ◌-◌, ◌/◌, ◌%◌, ◌^◌, min, Bool, true, false, not, Option, none, some}
use srtrust.Prelude.{
  zero, suc, List, [], ◌∷◌, ◌++◌, length, ltb, leb, ◌==◌, ◌&&◌, ◌||◌, if◌then◌else◌, clamp_u32,
}
use srtrust.Prelude.Result.{Result, ok, err}
use srtrust.External.{External}
use srtrust.Packet.{msg_number}
use srtrust.Handshake.Types.{Handshake, reject_reason}
use srtrust.Control.{
  ControlBody, keepalive_body, shutdown_body, congestion_warning_body, ack_ack_body, drop_req_body,
  peer_error_body, ack_body, nak_body, handshake_body, raw_body, ControlType, user_defined,
}
use srtrust.Wire
use srtrust.Wire.{Packet, data_packet, control_packet}
use srtrust.Rate
use srtrust.RecvBuffer
use srtrust.SendBuffer
use srtrust.SendBuffer.{Instant}
use srtrust.Stats.{Stats}
use srtrust.Event.{
  ConnectionError, handshake_timeout, idle_timeout, invalid_state, rejected, Event, Output,
  send_datagram, set_timer, clear_timer, TimerId,
}
use srtrust.Connection.{
  Connection, Fragment, Side, State, ext_kmreq, ext_kmrsp, syn_interval, push_event, push_output,
}
use srtrust.Connection.Messages.{fragment_message}
use srtrust.Connection.Close.{is_connected, clear_arq_timers, on_linger_timer}
use srtrust.Connection.Rekey.{on_km_req, on_km_rsp}
use srtrust.Connection.Send.{send_data, pace, on_keepalive_timer}
use srtrust.Connection.Retransmit.{on_ack, on_nak, on_exp_timer}
use srtrust.Connection.Feedback.{on_ackack, on_ack_timer, on_nak_timer}
use srtrust.Connection.Receive.{on_data, on_dropreq, deliver_tsbpd, reassemble}
use srtrust.Connection.Setup.{conclusion_type, on_induction_response, on_conclusion_response}

-- The loop of a SHUTDOWN over what is held in order, on fuel: each round takes a slot, so the slots
-- are enough.
unfoldable pub flush_in_order : ℕ → Connection → Connection
unfolding reassemble
flush_in_order zero c = c
flush_in_order (suc fuel) c =
    let (buffer, popped) = RecvBuffer.pop_in_order c.recv_buffer in
    elim popped [
      | none ↦ c
      | some packet ↦ flush_in_order fuel (reassemble (record c { recv_buffer = buffer }) packet)
    ]

unfoldable pub on_shutdown : Connection → Connection
unfolding flush_in_order clear_arq_timers push_event
on_shutdown c =
    let c = flush_in_order (length c.recv_buffer.slots) c in
    push_event (clear_arq_timers (record c { state = State.failed })) Event.closed

abbrev pub is_acceptor : Side → Bool
is_acceptor Side.acceptor = true
is_acceptor Side.caller = false

abbrev pub resend_handshake : Connection → Option (List ℕ) → Connection
resend_handshake c none = c
resend_handshake c (some bytes) = push_output c (send_datagram bytes)

-- A conclusion that the caller sent again.
unfoldable pub on_late_handshake : Connection → Handshake → Connection
unfolding push_output
on_late_handshake c hs =
    if is_acceptor c.side && (hs.handshake_type == conclusion_type)
    then resend_handshake c c.last_handshake
    else c

unfoldable pub on_peer_idle_timer : Connection → Instant → Connection
unfolding clear_arq_timers push_event push_output
on_peer_idle_timer c now =
    let idle = now - c.last_recv_any in
    if not (is_connected c.state)
    then c
    else if leb c.config.peer_idle_timeout idle
    then push_event (clear_arq_timers (record c { state = State.failed }))
        (Event.failed idle_timeout)
    else push_output c (set_timer TimerId.peer_idle (c.config.peer_idle_timeout - idle))

-- The end of `on_handshake_timer`: the last handshake again, if there is one.
abbrev pub retry_handshake : Connection → Option (List ℕ) → Connection
retry_handshake c none = c
retry_handshake c (some bytes) =
    push_output (push_output c (send_datagram bytes)) (set_timer TimerId.handshake syn_interval)

abbrev pub is_handshaking : State → Bool
is_handshaking State.induction = true
is_handshaking State.conclusion = true
is_handshaking State.connected = false
is_handshaking State.failed = false

unfoldable pub on_handshake_timer : Connection → Instant → Connection
unfolding push_output push_event
on_handshake_timer c now =
    if not (is_handshaking c.state)
    then c
    else if leb c.config.connect_timeout (now - c.start)
    then push_event
        (push_output (record c { state = State.failed }) (clear_timer TimerId.handshake))
        (Event.failed handshake_timeout)
    else retry_handshake c c.last_handshake

-- A handshake before the connection is up.
unfoldable pub on_handshake : Connection → Handshake → Instant → Connection
unfolding push_output push_event on_induction_response on_conclusion_response
on_handshake c hs now = elim (reject_reason hs.handshake_type) [
  | some reason ↦
      push_event (push_output (record c { state = State.failed }) (clear_timer TimerId.handshake))
        (Event.failed (rejected reason))
  | none ↦ elim c.state [
    | State.induction ↦ on_induction_response c hs now
    | _ ↦ on_conclusion_response c hs now
  ]
]

-- The number after `next_message`, on 32 bits; 0 on the 26 bits of the wire is the FEC marker.
abbrev pub message_after : ℕ → ℕ
message_after n = let next = (n + 1) % 2 ^ 32 in if msg_number next == 0 then 1 else next

module _ (env : External) where
  -- The extension messages of a rekey.
  unfoldable pub on_extension : Connection → ℕ → List ℕ → Instant → Connection
  unfolding on_km_req on_km_rsp
  on_extension c subtype cif now =
      if subtype == ext_kmreq
      then on_km_req env c cif now
      else if subtype == ext_kmrsp
      then on_km_rsp c cif
      else c

  abbrev pub on_raw : Connection → ControlType → ℕ → List ℕ → Instant → Connection
  on_raw c user_defined subtype cif now = on_extension c subtype cif now
  on_raw c _ subtype cif now = c

  unfoldable pub on_control : Connection → ControlBody → Instant → Connection
  unfolding on_ack on_ackack on_nak on_shutdown on_dropreq on_extension on_late_handshake
  on_control c (ack_body ack) now = on_ack env c ack now
  on_control c (ack_ack_body ack_number) now = on_ackack c ack_number now
  on_control c (nak_body loss) now = on_nak c loss now
  on_control c shutdown_body now = on_shutdown c
  on_control c (drop_req_body message_number first last) now = on_dropreq c first last now
  on_control c (raw_body control_type subtype type_specific cif) now =
      on_raw c control_type subtype cif now
  on_control c (handshake_body hs) now = on_late_handshake c hs
  on_control c keepalive_body now = c
  on_control c congestion_warning_body now = c
  on_control c (peer_error_body error_code) now = c

  unfoldable pub on_connected_packet : Connection → Packet → Instant → Connection
  unfolding on_data on_control
  on_connected_packet c (data_packet packet) now = on_data env c packet now
  on_connected_packet c (control_packet packet) now = on_control c packet.body now

  -- Before the connection is up only handshakes matter.
  unfoldable pub on_early_packet : Connection → Packet → Instant → Connection
  unfolding on_handshake
  on_early_packet c (data_packet packet) now = c
  on_early_packet c (control_packet packet) now = elim packet.body [
    | handshake_body hs ↦ on_handshake c hs now
    | _ ↦ c
  ]

  -- A decoded packet in each state.
  unfoldable pub on_packet : Connection → Packet → Instant → Connection
  unfolding on_early_packet on_connected_packet
  on_packet c packet now = elim c.state [
    | State.induction ↦ on_early_packet c packet now
    | State.conclusion ↦ on_early_packet c packet now
    | State.connected ↦ on_connected_packet (record c { last_recv_any = now }) packet now
    | State.failed ↦ c
  ]

  unfoldable pub feed_recv_buf : Connection → List ℕ → Instant → Connection
  unfolding on_packet
  feed_recv_buf c datagram now = elim (Wire.decode env.is_utf8 datagram) [
    | err e ↦ c
    | ok packet ↦ on_packet c packet now
  ]

  unfoldable pub handle_timer : Connection → TimerId → Instant → Connection
  unfolding on_handshake_timer on_ack_timer on_nak_timer on_exp_timer deliver_tsbpd pace
      on_linger_timer on_keepalive_timer on_peer_idle_timer
  handle_timer c TimerId.handshake now = on_handshake_timer c now
  handle_timer c TimerId.ack now = on_ack_timer c now
  handle_timer c TimerId.nak now = on_nak_timer c now
  handle_timer c TimerId.exp now = on_exp_timer c now
  handle_timer c TimerId.tsbpd now = deliver_tsbpd c now
  handle_timer c TimerId.snd_pacing now = pace env c now
  handle_timer c TimerId.linger now = on_linger_timer c now
  handle_timer c TimerId.keepalive now = on_keepalive_timer c now
  handle_timer c TimerId.peer_idle now = on_peer_idle_timer c now

  -- `for fragment in fragments { self.send_data(fragment, now) }`.
  unfoldable pub send_all : Connection → List Fragment → Instant → Connection
  unfolding send_data
  send_all c [] now = c
  send_all c (fragment ∷ fragments) now = send_all (send_data env c fragment now) fragments now

  -- `send` once the state allows it: unpaced at once, paced through the queue.
  unfoldable pub submit : Connection → List Fragment → Instant → Connection
  unfolding send_all pace
  submit c fragments now = elim c.live_cc [
    | none ↦ send_all c fragments now
    | some cc ↦ pace env (record c { send_queue = c.send_queue ++ fragments }) now
  ]

  unfoldable pub send :
      Connection → List ℕ → Instant → Connection × Result ConnectionError (Unit {0})
  unfolding submit fragment_message
  send c payload now =
      let fragments = fragment_message c payload c.next_message in
      if c.closing || not (is_connected c.state)
      then (c, err invalid_state)
      else (submit (record c { next_message = message_after c.next_message }) fragments now, ok tt)

unfoldable pub send_window_available : Connection → Bool
send_window_available c =
    ltb (length c.send_queue + SendBuffer.len c.send_buffer)
      (min c.config.flow_window c.peer_avail_window)

unfoldable pub snapshot : Connection → Stats
snapshot c =
    let (pps, bps) = Rate.delivery_rate c.rate in
    record c.stats {
      rtt_us = clamp_u32 (c.rtt.rtt / 1000);
      rtt_var_us = clamp_u32 (c.rtt.var / 1000);
      flight_size = clamp_u32 (SendBuffer.len c.send_buffer);
      recv_buffer_packets = clamp_u32 c.recv_buffer.received;
      recv_rate_pps = pps;
      recv_rate_bps = bps;
      link_capacity_pps = Rate.peak_rate c.rate;
      send_buffer_packets = clamp_u32 (SendBuffer.len c.send_buffer + length c.send_queue);
      latency_ms = clamp_u32 (c.latency / 1_000_000);
    }

-- `pop_front` on each of the two queues.
unfoldable pub poll_event : Connection → Connection × Option Event
poll_event c = elim c.events [
  | [] ↦ (c, none)
  | event ∷ events ↦ (record c { events = events }, some event)
]

unfoldable pub poll_output : Connection → Connection × Option Output
poll_output c = elim c.outputs [
  | [] ↦ (c, none)
  | output ∷ outputs ↦ (record c { outputs = outputs }, some output)
]
