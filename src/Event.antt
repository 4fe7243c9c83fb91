-- ===== src/Event.antt =====
-- crates/srt-protocol/src/connection/event.rs, and `ConnectionError` of error.rs: what a connection
-- reports to the application, and what it asks of the wire and of the timers.
use srtrust.Prelude.{ℕ, List}
use srtrust.Rtt.{Duration}
use srtrust.Handshake.Types.{RejectReason}
use srtrust.Wire.{PacketError}
use srtrust.Crypto.{CryptoError}
use srtrust.Config.{Negotiated}

pub data ConnectionError : Type 0 where
  handshake_timeout idle_timeout invalid_state : ConnectionError
  rejected : RejectReason → ConnectionError
  bad_packet : PacketError → ConnectionError
  bad_crypto : CryptoError → ConnectionError

pub data TimerId : Type 0 where
  handshake ack nak exp tsbpd snd_pacing linger keepalive peer_idle : TimerId

pub data Event : Type 0 where
  connected : Negotiated → Event
  data_received : List ℕ → Event
  failed : ConnectionError → Event
  closed : Event
  -- key_size
  key_refresh_needed : ℕ → Event

pub data Output : Type 0 where
  send_datagram : List ℕ → Output
  -- id, after
  set_timer : TimerId → Duration → Output
  clear_timer : TimerId → Output
