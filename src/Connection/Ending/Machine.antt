-- ===== src/Connection/Ending/Machine.antt =====
-- Every input of the state machine leaves an ending connection ending.
use srtrust.Prelude.{
  ℕ, ◌≡◌, inl, inr, refl, Bool, true, false, not, ◌||◌, List, [], ◌∷◌, ◌++◌, if◌then◌else◌,
}
use srtrust.Prelude.Result.{Result, ok, err}
use srtrust.External.{External}
use srtrust.SendBuffer.{Instant}
use srtrust.Control.{
  ControlBody, keepalive_body, shutdown_body, congestion_warning_body, ack_ack_body, drop_req_body,
  peer_error_body, ack_body, nak_body, handshake_body, raw_body, ControlType, keepalive, shutdown,
  congestion_warning, ack_ack, drop_req, peer_error, ack, nak, handshake, user_defined,
}
use srtrust.Wire
use srtrust.Wire.{Packet, data_packet, control_packet}
use srtrust.Event.{TimerId, ConnectionError, invalid_state}
use srtrust.Connection.{Connection, Fragment, State}
use srtrust.Connection.Close.{is_connected}
use srtrust.Connection.Messages.{fragment_message}
use srtrust.Connection.Machine.{
  on_handshake, on_extension, on_raw, on_control, on_connected_packet, on_early_packet, on_packet,
  feed_recv_buf, handle_timer, send_all, submit, send, message_after,
}
use srtrust.Connection.Send.{send_data}
use srtrust.Connection.Ending.{
  IsEnding, keep, while_closing, IsEnding-cases, if-IsEnding, option-IsEnding, result-IsEnding,
}
use srtrust.Connection.Ending.Keys.{on_km_req-IsEnding, on_km_rsp-IsEnding}
use srtrust.Connection.Ending.Send.{
  on_linger_timer-IsEnding, on_keepalive_timer-IsEnding, send_data-IsEnding, pace-IsEnding,
}
use srtrust.Connection.Ending.Retransmit.{on_ack-IsEnding, on_nak-IsEnding, on_exp_timer-IsEnding}
use srtrust.Connection.Ending.Feedback.{
  on_ackack-IsEnding, on_ack_timer-IsEnding, on_nak_timer-IsEnding,
}
use srtrust.Connection.Ending.Receive.{
  on_data-IsEnding, on_dropreq-IsEnding, deliver_tsbpd-IsEnding,
}
use srtrust.Connection.Ending.Phases.{
  on_handshake-IsEnding, on_shutdown-IsEnding, late_handshake-IsEnding, peer_idle-IsEnding,
  handshake_timer-IsEnding,
}

module _ (env : External) where
  extension-IsEnding :
      (c : Connection) (subtype : ℕ) (cif : List ℕ) (now : Instant)
      → IsEnding c
      → IsEnding (on_extension env c subtype cif now)
  unfolding on_extension
  extension-IsEnding c subtype cif now v =
      if-IsEnding _ _ _ (on_km_req-IsEnding env c cif now v)
        (if-IsEnding _ _ _ (on_km_rsp-IsEnding c cif v) v)

  raw-IsEnding :
      (c : Connection) (t : ControlType) (subtype : ℕ) (cif : List ℕ) (now : Instant)
      → IsEnding c
      → IsEnding (on_raw env c t subtype cif now)
  raw-IsEnding c user_defined subtype cif now v = extension-IsEnding c subtype cif now v
  raw-IsEnding c handshake subtype cif now v = v
  raw-IsEnding c keepalive subtype cif now v = v
  raw-IsEnding c ack subtype cif now v = v
  raw-IsEnding c nak subtype cif now v = v
  raw-IsEnding c congestion_warning subtype cif now v = v
  raw-IsEnding c shutdown subtype cif now v = v
  raw-IsEnding c ack_ack subtype cif now v = v
  raw-IsEnding c drop_req subtype cif now v = v
  raw-IsEnding c peer_error subtype cif now v = v

  control-IsEnding :
      (c : Connection) (body : ControlBody) (now : Instant)
      → IsEnding c
      → IsEnding (on_control env c body now)
  unfolding on_control
  control-IsEnding c (ack_body a) now v = on_ack-IsEnding env c a now v
  control-IsEnding c (ack_ack_body n) now v = on_ackack-IsEnding c n now v
  control-IsEnding c (nak_body loss) now v = on_nak-IsEnding c loss now v
  control-IsEnding c shutdown_body now v = on_shutdown-IsEnding c v
  control-IsEnding c (drop_req_body m first last) now v = on_dropreq-IsEnding c first last now v
  control-IsEnding c (raw_body t subtype w cif) now v = raw-IsEnding c t subtype cif now v
  control-IsEnding c (handshake_body hs) now v = late_handshake-IsEnding c hs v
  control-IsEnding c keepalive_body now v = v
  control-IsEnding c congestion_warning_body now v = v
  control-IsEnding c (peer_error_body e) now v = v

  connected_packet-IsEnding :
      (c : Connection) (p : Packet) (now : Instant)
      → IsEnding c
      → IsEnding (on_connected_packet env c p now)
  unfolding on_connected_packet
  connected_packet-IsEnding c (data_packet p) now v = on_data-IsEnding env c p now v
  connected_packet-IsEnding c (control_packet p) now v = control-IsEnding c p.body now v

  early_body-IsEnding :
      (c : Connection) (body : ControlBody) (now : Instant)
      → c.closing ≡ true
      → IsEnding (elim body as (λ (t : ControlBody). Connection) [
        | handshake_body hs ↦ on_handshake c hs now
        | _ ↦ c
      ])
  early_body-IsEnding c (handshake_body hs) now h = on_handshake-IsEnding c hs now h
  early_body-IsEnding c (ack_body a) now h = while_closing c h
  early_body-IsEnding c (ack_ack_body n) now h = while_closing c h
  early_body-IsEnding c (nak_body loss) now h = while_closing c h
  early_body-IsEnding c shutdown_body now h = while_closing c h
  early_body-IsEnding c (drop_req_body m first last) now h = while_closing c h
  early_body-IsEnding c (raw_body t subtype w cif) now h = while_closing c h
  early_body-IsEnding c keepalive_body now h = while_closing c h
  early_body-IsEnding c congestion_warning_body now h = while_closing c h
  early_body-IsEnding c (peer_error_body e) now h = while_closing c h

  early_packet-IsEnding :
      (c : Connection) (p : Packet) (now : Instant)
      → c.closing ≡ true
      → IsEnding (on_early_packet env c p now)
  unfolding on_early_packet
  early_packet-IsEnding c (data_packet p) now h = while_closing c h
  early_packet-IsEnding c (control_packet p) now h = early_body-IsEnding c p.body now h

  on_packet-failed :
      (c : Connection) (packet : Packet) (now : Instant)
      → c.state ≡ State.failed
      → on_packet env c packet now ≡ c
  unfolding on_packet
  on_packet-failed c packet now h = simp (h, on_packet)

  by_phase :
      (s : State) (x y z w : Connection)
      → IsEnding x
      → IsEnding y
      → IsEnding z
      → IsEnding w
      → IsEnding (elim s as (λ (t : State). Connection) [
        | State.induction ↦ x
        | State.conclusion ↦ y
        | State.connected ↦ z
        | State.failed ↦ w
      ])
  by_phase State.induction x y z w a b c d = a
  by_phase State.conclusion x y z w a b c d = b
  by_phase State.connected x y z w a b c d = c
  by_phase State.failed x y z w a b c d = d

  packet-IsEnding :
      (c : Connection) (p : Packet) (now : Instant) → IsEnding c → IsEnding (on_packet env c p now)
  unfolding on_packet
  packet-IsEnding c p now v =
      let d = record c { last_recv_any = now } in
      elim (IsEnding-cases c v) [
        | inl h ↦
            by_phase c.state _ _ _ _ (early_packet-IsEnding c p now h)
              (early_packet-IsEnding c p now h)
              (connected_packet-IsEnding d p now (keep c d refl v)) v
        | inr f ↦ rw (on_packet-failed c p now f) v
      ]

  pub feed-IsEnding :
      (c : Connection) (datagram : List ℕ) (now : Instant)
      → IsEnding c
      → IsEnding (feed_recv_buf env c datagram now)
  unfolding feed_recv_buf
  feed-IsEnding c datagram now v =
      result-IsEnding (Wire.decode env.is_utf8 datagram) _ _ (λ p. packet-IsEnding c p now v)
        (λ e. v)

  pub handle_timer-IsEnding :
      (c : Connection) (id : TimerId) (now : Instant)
      → IsEnding c
      → IsEnding (handle_timer env c id now)
  unfolding handle_timer
  handle_timer-IsEnding c TimerId.handshake now v = handshake_timer-IsEnding c now v
  handle_timer-IsEnding c TimerId.ack now v = on_ack_timer-IsEnding c now v
  handle_timer-IsEnding c TimerId.nak now v = on_nak_timer-IsEnding c now v
  handle_timer-IsEnding c TimerId.exp now v = on_exp_timer-IsEnding c now v
  handle_timer-IsEnding c TimerId.tsbpd now v = deliver_tsbpd-IsEnding c now v
  handle_timer-IsEnding c TimerId.snd_pacing now v = pace-IsEnding env c now v
  handle_timer-IsEnding c TimerId.linger now v = on_linger_timer-IsEnding c now v
  handle_timer-IsEnding c TimerId.keepalive now v = on_keepalive_timer-IsEnding c now v
  handle_timer-IsEnding c TimerId.peer_idle now v = peer_idle-IsEnding c now v

  send_all-IsEnding :
      (fs : List Fragment) (c : Connection) (now : Instant)
      → IsEnding c
      → IsEnding (send_all env c fs now)
  unfolding send_all
  send_all-IsEnding [] c now v = v
  send_all-IsEnding (f ∷ fs) c now v =
      send_all-IsEnding fs (send_data env c f now) now (send_data-IsEnding env c f now v)

  submit-IsEnding :
      (c : Connection) (fs : List Fragment) (now : Instant)
      → IsEnding c
      → IsEnding (submit env c fs now)
  unfolding submit
  submit-IsEnding c fs now v =
      let d = record c { send_queue = c.send_queue ++ fs } in
      option-IsEnding c.live_cc _ _ (send_all-IsEnding fs c now v)
        (λ cc. pace-IsEnding env d now (keep c d refl v))

  sent-IsEnding :
      (b : Bool) (x y : Connection × Result ConnectionError (Unit {0}))
      → IsEnding x.0
      → IsEnding y.0
      → IsEnding (if b then x else y).0
  sent-IsEnding true x y u v = u
  sent-IsEnding false x y u v = v

  pub send-IsEnding :
      (c : Connection) (payload : List ℕ) (now : Instant)
      → IsEnding c
      → IsEnding (send env c payload now).0
  unfolding send
  send-IsEnding c payload now v =
      let d = record c { next_message = message_after c.next_message } in
      sent-IsEnding (c.closing || not (is_connected c.state)) (c, err invalid_state)
        (submit env d (fragment_message c payload c.next_message) now, ok tt) v
        (submit-IsEnding d (fragment_message c payload c.next_message) now (keep c d refl v))
