-- ===== src/Connection/Setup.antt =====
-- crates/srt-protocol/src/connection/setup.rs: the handshake of the caller, and what both ends agree
-- on; `connect` and `accept` of connection.rs. What `rng` writes is a parameter: the salt and key.
pub mod Agree
use srtrust.Prelude.{ℕ, ◌+◌, ◌-◌, ◌*◌, ◌/◌, ◌^◌, max, Bool, true, not, Option, none, some}
use srtrust.Prelude.{List, [], ◌∷◌, ◌++◌, ltb, ◌==◌, ◌||◌, if◌then◌else◌, replicate}
use srtrust.Prelude.Result.{Result, ok, err}
use srtrust.External.{External}
use srtrust.Seq.{SeqNumber}
use srtrust.Packet.{SocketId}
use srtrust.RecvBuffer
use srtrust.SendBuffer.{Instant}
use srtrust.Rtt.{Duration}
use srtrust.Control.{handshake_body}
use srtrust.Handshake.Types.{
  EncryptionField, HandshakeType, SrtHandshake, HandshakeExtension, hs_req, hs_rsp, stream_id, raw,
  Handshake,
}
use srtrust.Crypto.{CryptoError, missing_key_material, unexpected_key_material}
use srtrust.Crypto.KeyMaterial
use srtrust.Crypto.KeyMaterial.{KeyMaterial}
use srtrust.Crypto.Session.{
  SessionCrypto, UnwrappedKm, with_even, from_initial, generate, from_key_material,
}
use srtrust.Config.{Config, EncryptionSettings, Negotiated, from_millis, to_field}
use srtrust.Event.{
  ConnectionError, bad_crypto, send_datagram, set_timer, clear_timer, TimerId, Event,
}
use srtrust.Connection.{
  Connection, Side, State, hs_version_udt, hs_version_srt, srt_magic, induction_ext_field,
  ext_flag_hsreq, ext_flag_config, ext_flag_kmreq, srt_library_version, ext_kmreq, ext_kmrsp,
  syn_interval, push_event, push_output, wire_ts, encode_control, new_base, option_map,
}
use srtrust.Connection.Send.{keepalive_period}
use srtrust.Connection.Retransmit.{ack_interval}
use srtrust.Connection.Feedback.{nak_interval}

abbrev pub induction_type : HandshakeType
induction_type = 1

abbrev pub conclusion_type : HandshakeType
conclusion_type = 0xffff_ffff

-- A Duration in milliseconds, clamped to u16.
abbrev pub millis_u16 : Duration → ℕ
millis_u16 d = if ltb (d / 1_000_000) (2 ^ 16) then d / 1_000_000 else 2 ^ 16 - 1

-- TSBPD_SND | TSBPD_RCV | TLPKTDROP | PERIODIC_NAK | REXMIT.
abbrev pub live_flags : ℕ
live_flags = 0x01 + 0x02 + 0x08 + 0x10 + 0x20

abbrev pub srt_handshake_ext : ℕ → SrtHandshake
srt_handshake_ext latency_ms = record {
  srt_version = srt_library_version;
  flags = live_flags;
  recv_tsbpd_delay = latency_ms;
  send_tsbpd_delay = latency_ms;
}

-- The first HSREQ or HSRSP extension: its receiver delay.
unfoldable pub peer_delay : List HandshakeExtension → Option ℕ
peer_delay [] = none
peer_delay (hs_req s ∷ es) = some s.recv_tsbpd_delay
peer_delay (hs_rsp s ∷ es) = some s.recv_tsbpd_delay
peer_delay (stream_id s ∷ es) = peer_delay es
peer_delay (raw t content ∷ es) = peer_delay es

abbrev pub or_zero : Option ℕ → ℕ
or_zero none = 0
or_zero (some n) = n

unfoldable pub negotiate : Duration → Handshake → Negotiated
unfolding peer_delay
negotiate local_latency peer_hs = record {
  peer_socket_id = peer_hs.srt_socket_id;
  peer_initial_seq = peer_hs.initial_seq;
  latency = max local_latency (from_millis (or_zero (peer_delay peer_hs.extensions)));
  encryption = peer_hs.encryption;
}

-- The content of the first KMREQ extension.
unfoldable pub find_kmreq : List HandshakeExtension → Option (List ℕ)
find_kmreq [] = none
find_kmreq (hs_req s ∷ es) = find_kmreq es
find_kmreq (hs_rsp s ∷ es) = find_kmreq es
find_kmreq (stream_id s ∷ es) = find_kmreq es
find_kmreq (raw t content ∷ es) = if t == ext_kmreq then some content else find_kmreq es

abbrev pub Accepted : Type 0
Accepted = Option UnwrappedKm × Option (List ℕ)

-- `accept_crypto` with a passphrase and Key Material at hand.
unfoldable pub unwrap_offer :
    External → EncryptionSettings → List ℕ → Result ConnectionError Accepted
unwrap_offer env enc km_bytes = elim (KeyMaterial.decode km_bytes) [
  | err e ↦ err (bad_crypto e)
  | ok km ↦ elim (from_key_material env km enc.passphrase) [
    | err e ↦ err (bad_crypto e)
    | ok keys ↦ ok (some keys, some km_bytes)
  ]
]

-- `accept_crypto` on the KMREQ that was found.
unfoldable pub accept_offer :
    External → Option EncryptionSettings → Option (List ℕ) → Result ConnectionError Accepted
unfolding unwrap_offer
accept_offer env none none = ok (none, none)
accept_offer env none (some km_bytes) = err (bad_crypto unexpected_key_material)
accept_offer env (some enc) none = err (bad_crypto missing_key_material)
accept_offer env (some enc) (some km_bytes) = unwrap_offer env enc km_bytes

unfoldable pub accept_crypto :
    External → Option EncryptionSettings → Handshake → Result ConnectionError Accepted
unfolding accept_offer find_kmreq
accept_crypto env encryption caller_hs =
    accept_offer env encryption (find_kmreq caller_hs.extensions)

unfoldable pub enter_connected : Connection → Negotiated → Instant → Connection
unfolding push_output push_event nak_interval
enter_connected c negotiated now =
    let c = record c {
      state = State.connected;
      peer_socket_id = negotiated.peer_socket_id;
      latency = negotiated.latency;
      recv_buffer = RecvBuffer.new negotiated.peer_initial_seq;
    } in
    let c = push_output c (set_timer TimerId.ack ack_interval) in
    let c = push_output c (set_timer TimerId.nak (nak_interval c)) in
    let c = push_output c (set_timer TimerId.keepalive keepalive_period) in
    let c = push_output c (set_timer TimerId.peer_idle c.config.peer_idle_timeout) in
    push_event (record c { last_sent = now; last_recv_any = now }) (Event.connected negotiated)

unfoldable pub emit_handshake : Connection → SocketId → Handshake → Instant → Connection
unfolding push_output
emit_handshake c dest hs now =
    let bytes = encode_control dest (wire_ts c now) (handshake_body hs) in
    push_output (push_output (record c { last_handshake = some bytes }) (send_datagram bytes))
      (set_timer TimerId.handshake syn_interval)

abbrev pub no_ip : List ℕ
no_ip = replicate 16 0

abbrev pub induction_handshake : Connection → Handshake
induction_handshake c = record {
  version = hs_version_udt;
  encryption = EncryptionField.none;
  extension_field = induction_ext_field;
  initial_seq = c.initial_seq;
  mtu = c.config.mtu;
  max_flow_window = c.config.flow_window;
  handshake_type = induction_type;
  srt_socket_id = c.local_socket_id;
  syn_cookie = 0;
  peer_ip = no_ip;
  extensions = [];
}

unfoldable pub send_induction : Connection → Instant → Connection
unfolding emit_handshake
send_induction c now = emit_handshake c 0 (induction_handshake c) now

-- The Stream ID and KMREQ extensions of a conclusion, with their flags.
abbrev pub sid_part : Option (List ℕ) → List HandshakeExtension × ℕ
sid_part none = ([], 0)
sid_part (some sid) = (stream_id sid ∷ [], ext_flag_config)

abbrev pub km_part :
    Option (List ℕ) → Option EncryptionSettings → List HandshakeExtension × ℕ × EncryptionField
km_part (some km) (some enc) = (raw ext_kmreq km ∷ [], ext_flag_kmreq, to_field enc.key_size)
km_part (some km) none = ([], 0, EncryptionField.none)
km_part none enc = ([], 0, EncryptionField.none)

abbrev pub conclusion_handshake : Connection → Handshake
conclusion_handshake c =
    let (sid, sid_flag) = sid_part c.config.stream_id in
    let (km, km_flag, encryption) = km_part c.key_material c.config.encryption in
    record {
      version = hs_version_srt;
      encryption = encryption;
      extension_field = ext_flag_hsreq + sid_flag + km_flag;
      initial_seq = c.initial_seq;
      mtu = c.config.mtu;
      max_flow_window = c.config.flow_window;
      handshake_type = conclusion_type;
      srt_socket_id = c.local_socket_id;
      syn_cookie = c.syn_cookie;
      peer_ip = no_ip;
      extensions = hs_req (srt_handshake_ext (millis_u16 c.config.latency)) ∷ (sid ++ km);
    }

unfoldable pub send_conclusion : Connection → Instant → Connection
unfolding emit_handshake
send_conclusion c now = emit_handshake c 0 (conclusion_handshake c) now

unfoldable pub on_induction_response : Connection → Handshake → Instant → Connection
unfolding send_conclusion
on_induction_response c hs now =
    if not (hs.version == hs_version_srt)
      || (not (hs.extension_field == srt_magic) || not (hs.handshake_type == induction_type))
    then c
    else send_conclusion
        (record c {
          peer_socket_id = hs.srt_socket_id;
          syn_cookie = hs.syn_cookie;
          state = State.conclusion;
        })
        now

unfoldable pub on_conclusion_response : Connection → Handshake → Instant → Connection
unfolding push_output enter_connected
on_conclusion_response c hs now =
    if not (hs.handshake_type == conclusion_type) || not (hs.version == hs_version_srt)
    then c
    else enter_connected (push_output c (clear_timer TimerId.handshake))
        (negotiate c.config.latency hs) now

module _ (env : External) where
  -- The keys that `connect` generates, from the salt and key that `rng` writes.
  unfoldable pub with_session :
      Connection → Option EncryptionSettings → List ℕ → List ℕ → Connection
  with_session c none salt sek = c
  with_session c (some enc) salt sek =
      let (keys, km) = generate env enc.passphrase enc.cipher salt sek in
      record c { crypto = some (with_even keys); key_material = some (KeyMaterial.encode km) }

  unfoldable pub connect : Config → SocketId → SeqNumber → Instant → List ℕ → List ℕ → Connection
  unfolding new_base with_session send_induction
  connect config local_socket_id initial_seq now salt sek =
      let c = new_base env config local_socket_id initial_seq now Side.caller State.induction in
      send_induction (with_session c config.encryption salt sek) now

  unfoldable pub validate_accept : Config → Handshake → Result ConnectionError (Unit {0})
  unfolding accept_crypto
  validate_accept config caller_hs = elim (accept_crypto env config.encryption caller_hs) [
    | err e ↦ err e
    | ok keys ↦ ok tt
  ]

  -- The echoed Key Material of a conclusion response, with its flag.
  abbrev pub kmrsp_part : Option (List ℕ) → List HandshakeExtension × ℕ
  kmrsp_part none = ([], 0)
  kmrsp_part (some km) = (raw ext_kmrsp km ∷ [], ext_flag_kmreq)

  abbrev pub conclusion_response :
      Config → SocketId → Handshake → Duration → Option (List ℕ) → Handshake
  conclusion_response config local_socket_id caller_hs latency key_material =
      let (km, km_flag) = kmrsp_part key_material in
      record {
        version = hs_version_srt;
        encryption = caller_hs.encryption;
        extension_field = ext_flag_hsreq + km_flag;
        initial_seq = caller_hs.initial_seq;
        mtu = config.mtu;
        max_flow_window = config.flow_window;
        handshake_type = conclusion_type;
        srt_socket_id = local_socket_id;
        syn_cookie = 0;
        peer_ip = no_ip;
        extensions = hs_rsp (srt_handshake_ext (millis_u16 latency)) ∷ km;
      }

  -- `accept` with the session keys, if there are any.
  unfoldable pub accept_with :
      Config → SocketId → Handshake → Instant → Option UnwrappedKm → Option (List ℕ) → Connection
  unfolding new_base push_output enter_connected negotiate
  accept_with config local_socket_id caller_hs now crypto key_material =
      let negotiated = negotiate config.latency caller_hs in
      let response =
        conclusion_response config local_socket_id caller_hs negotiated.latency key_material in
      let c =
        new_base env config local_socket_id caller_hs.initial_seq now Side.acceptor
          State.conclusion in
      let c = record c { crypto = option_map from_initial crypto; key_material = key_material } in
      let bytes =
        encode_control caller_hs.srt_socket_id (wire_ts c now) (handshake_body response) in
      let c = push_output (record c { last_handshake = some bytes }) (send_datagram bytes) in
      enter_connected c negotiated now

  unfoldable pub accept :
      Config → SocketId → SeqNumber → Handshake → Instant → Result ConnectionError Connection
  unfolding accept_crypto accept_with
  accept config local_socket_id local_initial_seq caller_hs now =
      elim (accept_crypto env config.encryption caller_hs) [
        | err e ↦ err e
        | ok (crypto, key_material) ↦
            ok (accept_with config local_socket_id caller_hs now crypto key_material)
      ]
