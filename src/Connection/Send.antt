-- ===== src/Connection/Send.antt =====
-- crates/srt-protocol/src/connection/arq.rs: sending, with encryption, FEC and pacing; keepalives.
use srtrust.Prelude.{
  ℕ, zero, suc, ◌+◌, ◌-◌, ◌*◌, ◌^◌, max, Bool, true, false, not, Option, none, some,
}
use srtrust.Prelude.{List, [], ◌∷◌, length, ltb, leb, ◌&&◌, if◌then◌else◌}
use srtrust.External.{External}
use srtrust.Seq
use srtrust.Seq.{SeqNumber, offset_from}
use srtrust.Packet.{DataPacket, single, Encryption, key_to_bits, msg_number, header_aad}
use srtrust.Control.{keepalive_body}
use srtrust.Rtt.{Duration, rto}
use srtrust.LiveCc
use srtrust.LiveCc.{LiveCc}
use srtrust.Fec.{FecEncoder, FecData, FecParity, feed, row_index}
use srtrust.Fec
use srtrust.SendBuffer
use srtrust.SendBuffer.{Instant, Sent, SendBuffer}
use srtrust.Crypto.Session.{SessionCrypto, encrypt}
use srtrust.Config.{from_millis, from_secs}
use srtrust.Event.{set_timer, clear_timer, exp, snd_pacing, keepalive}
use srtrust.Connection.{
  Connection, Fragment, option_map, push_output, emit, wire_ts, encode_control, encode_data,
}
use srtrust.Connection.Close.{is_connected, is_nil, finish_close_if_drained}
use srtrust.Connection.Rekey.{account_key_and_maybe_rotate, resend_pending_km}

abbrev pub min_exp_interval : Duration
min_exp_interval = from_millis 300

abbrev pub max_pace_burst : ℕ
max_pace_burst = 256

abbrev pub keepalive_period : Duration
keepalive_period = from_secs 1

abbrev pub clamp_u16 : ℕ → ℕ
clamp_u16 n = if ltb n (2 ^ 16) then n else 2 ^ 16 - 1

unfoldable pub arm_exp : Connection → Connection
unfolding push_output
arm_exp c = push_output c (set_timer exp (max (rto c.rtt * c.exp_count) min_exp_interval))

unfoldable pub on_keepalive_timer : Connection → Instant → Connection
unfolding push_output emit resend_pending_km
on_keepalive_timer c now =
    if not (is_connected c.state)
    then c
    else (let c = resend_pending_km c now in
        let c =
          if leb keepalive_period (now - c.last_sent)
          then emit c (encode_control c.peer_socket_id (wire_ts c now) keepalive_body) now
          else c in
        push_output c (set_timer keepalive keepalive_period))

-- The slot that `active_encryption` names.
abbrev pub active_encryption : Option SessionCrypto → Encryption
active_encryption none = Encryption.none
active_encryption (some crypto) = crypto.active

-- `Option::expect`, with no bytes where the source would panic.
abbrev pub expect : Option (List ℕ × Encryption) → List ℕ
expect none = []
expect (some (bytes, flag)) = bytes

abbrev pub feed_fec : Option FecEncoder → FecData → Option FecEncoder × Option FecParity
feed_fec none d = (none, none)
feed_fec (some fec) d = let (fec', parity) = feed fec d in (some fec', parity)

unfoldable pub emit_fec_parity : Connection → SeqNumber → FecParity → Instant → Connection
unfolding emit
emit_fec_parity c group_last_seq parity now =
    emit c
      (encode_data (record {
        seq = group_last_seq;
        position = single;
        in_order = true;
        encryption = Encryption.none;
        retransmitted = false;
        message_number = msg_number 0;
        timestamp = parity.timestamp_clip;
        dest_socket_id = c.peer_socket_id;
        payload = Fec.encode parity row_index;
      }))
      now

-- The packet of a fragment before encryption.
abbrev pub plain_packet : Connection → Fragment → Instant → DataPacket
plain_packet c fragment now = record {
  seq = c.next_send_seq;
  position = fragment.position;
  in_order = true;
  encryption = active_encryption c.crypto;
  retransmitted = false;
  message_number = msg_number fragment.message;
  timestamp = wire_ts c now;
  dest_socket_id = c.peer_socket_id;
  payload = fragment.payload;
}

abbrev pub count_sent : Connection → ℕ → Connection
count_sent c len = record c {
  stats = record c.stats {
    packets_sent = c.stats.packets_sent + 1;
    bytes_sent = c.stats.bytes_sent + len;
  };
}

-- What `send_data` does with a FEC parity, if the packet completed a group.
abbrev pub emit_parity : Connection → SeqNumber → Option FecParity → Instant → Connection
emit_parity c seq none now = c
emit_parity c seq (some parity) now = emit_fec_parity c seq parity now

-- The packet goes into the retransmission buffer.
unfoldable pub buffered : Connection → Option FecEncoder → DataPacket → Connection
buffered c fec stored = record c {
  fec_send = fec;
  send_buffer = SendBuffer.push c.send_buffer stored;
}

-- The next number, and the sent size folded into the average payload.
unfoldable pub advance : External → Connection → ℕ → Connection
advance env c payload_size = record c {
  next_send_seq = Seq.next c.next_send_seq;
  live_cc = option_map (λ (cc : LiveCc). LiveCc.on_packet_sent env cc payload_size) c.live_cc;
}

-- The end of `send_data`, with the packet that is stored and sent.
unfoldable pub send_stored : External → Connection → DataPacket → Instant → Connection
unfolding emit emit_fec_parity arm_exp buffered advance
send_stored env c stored now =
    let was_empty = SendBuffer.is_empty c.send_buffer in
    let fed = feed_fec c.fec_send (record {
      length = clamp_u16 (length stored.payload);
      flags = key_to_bits stored.encryption;
      timestamp = stored.timestamp;
      payload = stored.payload;
    }) in
    let c = emit (buffered c fed.0 stored) (encode_data stored) now in
    let c = advance env (emit_parity c stored.seq fed.1 now) (length stored.payload) in
    if was_empty then arm_exp c else c

-- The payload on the wire: the ciphertext on an encrypted connection.
unfoldable pub seal : External → Option SessionCrypto → DataPacket → DataPacket
seal env none packet = packet
seal env (some crypto) packet = record packet {
  payload = expect (encrypt env crypto packet.seq (header_aad packet) packet.payload);
}

unfoldable pub send_data : External → Connection → Fragment → Instant → Connection
unfolding send_stored seal account_key_and_maybe_rotate
send_data env c fragment now =
    let c = count_sent (account_key_and_maybe_rotate c) (length fragment.payload) in
    send_stored env c (seal env c.crypto (plain_packet c fragment now)) now

-- `next_send.is_some_and(|at| now < at)` and `next_send.unwrap_or(now)`.
abbrev pub is_later : Option Instant → Instant → Bool
is_later none now = false
is_later (some at) now = ltb now at

abbrev pub is_earlier : Option Instant → Instant → Bool
is_earlier none now = false
is_earlier (some at) now = ltb at now

abbrev pub or_now : Option Instant → Instant → Instant
or_now none now = now
or_now (some at) now = at

module _ (env : External) where
  -- One released packet and its slot.
  unfoldable pub release : Connection → Duration → Fragment → List Fragment → Instant → Connection
  unfolding send_data
  release c period fragment queue now =
      let c = send_data env (record c { send_queue = queue }) fragment now in
      record c { next_send = some (or_now c.next_send now + period) }

  -- The loop of `pace`, with the number of packets that it may still release, and whether the burst
  -- was used up.
  unfoldable pub pace_loop : ℕ → Connection → Duration → Instant → Connection × Bool
  unfolding release
  pace_loop zero c period now = (c, true)
  pace_loop (suc n) c period now = elim (is_later c.next_send now) [
    | true ↦ (c, false)
    | false ↦ elim c.send_queue [
      | [] ↦ (record c { next_send = none }, false)
      | fragment ∷ queue ↦ pace_loop n (release c period fragment queue now) period now
    ]
  ]

  -- A burst that was used up while still behind schedule starts a new schedule.
  unfoldable pub resync : Connection → Bool → Duration → Instant → Connection
  resync c capped period now =
      if capped && is_earlier c.next_send now
      then record c { next_send = some (now + period) }
      else c

  -- The end of `pace`.
  unfoldable pub rearm_pacing : Connection → Instant → Connection
  unfolding push_output finish_close_if_drained
  rearm_pacing c now =
      if is_nil c.send_queue
      then finish_close_if_drained (push_output c (clear_timer snd_pacing)) now
      else push_output c (set_timer snd_pacing (or_now c.next_send now - now))

  unfoldable pub pace : Connection → Instant → Connection
  unfolding pace_loop resync rearm_pacing
  pace c now = elim c.live_cc [
    | none ↦ c
    | some cc ↦
        let (c', capped) = pace_loop max_pace_burst c cc.snd_period now in
        rearm_pacing (resync c' capped cc.snd_period now) now
  ]
