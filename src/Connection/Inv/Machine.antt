-- ===== src/Connection/Inv/Machine.antt =====
-- Every input of the state machine keeps the invariant.
use srtrust.Prelude.{ℕ, refl, Bool, true, false, not, ◌||◌, List, [], ◌∷◌, ◌++◌, if◌then◌else◌}
use srtrust.Prelude.Result.{Result, ok, err}
use srtrust.External.{External}
use srtrust.SendBuffer.{Instant}
use srtrust.Control.{
  ControlBody, keepalive_body, shutdown_body, congestion_warning_body, ack_ack_body, drop_req_body,
  peer_error_body, ack_body, nak_body, handshake_body, raw_body, ControlType, keepalive, shutdown,
  congestion_warning, ack_ack, drop_req, peer_error, ack, nak, handshake, user_defined,
}
use srtrust.Wire
use srtrust.Wire.{Packet, data_packet, control_packet}
use srtrust.Event.{TimerId, ConnectionError, invalid_state}
use srtrust.Connection.{Connection, Fragment, State}
use srtrust.Connection.Close.{is_connected}
use srtrust.Connection.Messages.{fragment_message}
use srtrust.Connection.Machine.{
  on_handshake, on_extension, on_raw, on_control, on_connected_packet, on_early_packet, on_packet,
  feed_recv_buf, handle_timer, send_all, submit, send, message_after,
}
use srtrust.Connection.Send.{send_data}
use srtrust.Connection.Inv.{IsValid, keep, if-IsValid, option-IsValid, result-IsValid}
use srtrust.Connection.Inv.Keys.{on_km_req-IsValid, on_km_rsp-IsValid}
use srtrust.Connection.Inv.Send.{
  on_linger_timer-IsValid, on_keepalive_timer-IsValid, send_data-IsValid, pace-IsValid,
}
use srtrust.Connection.Inv.Retransmit.{on_ack-IsValid, on_nak-IsValid, on_exp_timer-IsValid}
use srtrust.Connection.Inv.Feedback.{on_ackack-IsValid, on_ack_timer-IsValid, on_nak_timer-IsValid}
use srtrust.Connection.Inv.Receive.{on_data-IsValid, on_dropreq-IsValid, deliver_tsbpd-IsValid}
use srtrust.Connection.Inv.Phases.{
  on_handshake-IsValid, on_shutdown-IsValid, late_handshake-IsValid, peer_idle-IsValid,
  handshake_timer-IsValid,
}

module _ (env : External) where
  extension-IsValid :
      (c : Connection) (subtype : ℕ) (cif : List ℕ) (now : Instant)
      → IsValid c
      → IsValid (on_extension env c subtype cif now)
  unfolding on_extension
  extension-IsValid c subtype cif now v =
      if-IsValid _ _ _ (on_km_req-IsValid env c cif now v)
        (if-IsValid _ _ _ (on_km_rsp-IsValid c cif v) v)

  raw-IsValid :
      (c : Connection) (t : ControlType) (subtype : ℕ) (cif : List ℕ) (now : Instant)
      → IsValid c
      → IsValid (on_raw env c t subtype cif now)
  raw-IsValid c user_defined subtype cif now v = extension-IsValid c subtype cif now v
  raw-IsValid c handshake subtype cif now v = v
  raw-IsValid c keepalive subtype cif now v = v
  raw-IsValid c ack subtype cif now v = v
  raw-IsValid c nak subtype cif now v = v
  raw-IsValid c congestion_warning subtype cif now v = v
  raw-IsValid c shutdown subtype cif now v = v
  raw-IsValid c ack_ack subtype cif now v = v
  raw-IsValid c drop_req subtype cif now v = v
  raw-IsValid c peer_error subtype cif now v = v

  control-IsValid :
      (c : Connection) (body : ControlBody) (now : Instant)
      → IsValid c
      → IsValid (on_control env c body now)
  unfolding on_control
  control-IsValid c (ack_body a) now v = on_ack-IsValid env c a now v
  control-IsValid c (ack_ack_body n) now v = on_ackack-IsValid c n now v
  control-IsValid c (nak_body loss) now v = on_nak-IsValid c loss now v
  control-IsValid c shutdown_body now v = on_shutdown-IsValid c v
  control-IsValid c (drop_req_body m first last) now v = on_dropreq-IsValid c first last now v
  control-IsValid c (raw_body t subtype w cif) now v = raw-IsValid c t subtype cif now v
  control-IsValid c (handshake_body hs) now v = late_handshake-IsValid c hs v
  control-IsValid c keepalive_body now v = v
  control-IsValid c congestion_warning_body now v = v
  control-IsValid c (peer_error_body e) now v = v

  connected_packet-IsValid :
      (c : Connection) (p : Packet) (now : Instant)
      → IsValid c
      → IsValid (on_connected_packet env c p now)
  unfolding on_connected_packet
  connected_packet-IsValid c (data_packet p) now v = on_data-IsValid env c p now v
  connected_packet-IsValid c (control_packet p) now v = control-IsValid c p.body now v

  early_body-IsValid :
      (c : Connection) (body : ControlBody) (now : Instant)
      → IsValid c
      → IsValid (elim body as (λ (t : ControlBody). Connection) [
        | handshake_body hs ↦ on_handshake c hs now
        | _ ↦ c
      ])
  early_body-IsValid c (handshake_body hs) now v = on_handshake-IsValid c hs now v
  early_body-IsValid c (ack_body a) now v = v
  early_body-IsValid c (ack_ack_body n) now v = v
  early_body-IsValid c (nak_body loss) now v = v
  early_body-IsValid c shutdown_body now v = v
  early_body-IsValid c (drop_req_body m first last) now v = v
  early_body-IsValid c (raw_body t subtype w cif) now v = v
  early_body-IsValid c keepalive_body now v = v
  early_body-IsValid c congestion_warning_body now v = v
  early_body-IsValid c (peer_error_body e) now v = v

  early_packet-IsValid :
      (c : Connection) (p : Packet) (now : Instant)
      → IsValid c
      → IsValid (on_early_packet env c p now)
  unfolding on_early_packet
  early_packet-IsValid c (data_packet p) now v = v
  early_packet-IsValid c (control_packet p) now v = early_body-IsValid c p.body now v

  by_phase :
      (s : State) (x y z w : Connection)
      → IsValid x
      → IsValid y
      → IsValid z
      → IsValid w
      → IsValid (elim s as (λ (t : State). Connection) [
        | State.induction ↦ x
        | State.conclusion ↦ y
        | State.connected ↦ z
        | State.failed ↦ w
      ])
  by_phase State.induction x y z w a b c d = a
  by_phase State.conclusion x y z w a b c d = b
  by_phase State.connected x y z w a b c d = c
  by_phase State.failed x y z w a b c d = d

  packet-IsValid :
      (c : Connection) (p : Packet) (now : Instant) → IsValid c → IsValid (on_packet env c p now)
  unfolding on_packet
  packet-IsValid c p now v =
      let d = record c { last_recv_any = now } in
      by_phase c.state _ _ _ _ (early_packet-IsValid c p now v) (early_packet-IsValid c p now v)
        (connected_packet-IsValid d p now (keep c d refl v)) v

  pub feed-IsValid :
      (c : Connection) (datagram : List ℕ) (now : Instant)
      → IsValid c
      → IsValid (feed_recv_buf env c datagram now)
  unfolding feed_recv_buf
  feed-IsValid c datagram now v =
      result-IsValid (Wire.decode env.is_utf8 datagram) _ _ (λ p. packet-IsValid c p now v) (λ e. v)

  pub handle_timer-IsValid :
      (c : Connection) (id : TimerId) (now : Instant)
      → IsValid c
      → IsValid (handle_timer env c id now)
  unfolding handle_timer
  handle_timer-IsValid c TimerId.handshake now v = handshake_timer-IsValid c now v
  handle_timer-IsValid c TimerId.ack now v = on_ack_timer-IsValid c now v
  handle_timer-IsValid c TimerId.nak now v = on_nak_timer-IsValid c now v
  handle_timer-IsValid c TimerId.exp now v = on_exp_timer-IsValid c now v
  handle_timer-IsValid c TimerId.tsbpd now v = deliver_tsbpd-IsValid c now v
  handle_timer-IsValid c TimerId.snd_pacing now v = pace-IsValid env c now v
  handle_timer-IsValid c TimerId.linger now v = on_linger_timer-IsValid c now v
  handle_timer-IsValid c TimerId.keepalive now v = on_keepalive_timer-IsValid c now v
  handle_timer-IsValid c TimerId.peer_idle now v = peer_idle-IsValid c now v

  send_all-IsValid :
      (fs : List Fragment) (c : Connection) (now : Instant)
      → IsValid c
      → IsValid (send_all env c fs now)
  unfolding send_all
  send_all-IsValid [] c now v = v
  send_all-IsValid (f ∷ fs) c now v =
      send_all-IsValid fs (send_data env c f now) now (send_data-IsValid env c f now v)

  submit-IsValid :
      (c : Connection) (fs : List Fragment) (now : Instant)
      → IsValid c
      → IsValid (submit env c fs now)
  unfolding submit
  submit-IsValid c fs now v =
      let d = record c { send_queue = c.send_queue ++ fs } in
      option-IsValid c.live_cc _ _ (send_all-IsValid fs c now v)
        (λ cc. pace-IsValid env d now (keep c d refl v))

  sent-IsValid :
      (b : Bool) (x y : Connection × Result ConnectionError (Unit {0}))
      → IsValid x.0
      → IsValid y.0
      → IsValid (if b then x else y).0
  sent-IsValid true x y u v = u
  sent-IsValid false x y u v = v

  pub send-IsValid :
      (c : Connection) (payload : List ℕ) (now : Instant)
      → IsValid c
      → IsValid (send env c payload now).0
  unfolding send
  send-IsValid c payload now v =
      let d = record c { next_message = message_after c.next_message } in
      sent-IsValid (c.closing || not (is_connected c.state)) (c, err invalid_state)
        (submit env d (fragment_message c payload c.next_message) now, ok tt) v
        (submit-IsValid d (fragment_message c payload c.next_message) now (keep c d refl v))
