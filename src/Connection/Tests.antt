-- ===== src/Connection/Tests.antt =====
-- Concrete inputs for the theorems of a connection.
use srtrust.Prelude.{◌⊎◌, ◌≡◌, ◌≢◌, max, refl, arith, false, none, some, [], ◌∷◌, replicate}
use srtrust.External.Example.{plain}
use srtrust.Packet.{DataPacket, single, Encryption}
use srtrust.Crypto.KeyMaterial.{ctr}
use srtrust.Crypto.Session.{SessionCrypto, with_even, encrypt, generate}
use srtrust.Config.{Config, default, with_latency, from_millis, aes128}
use srtrust.Connection.{Connection, State}
use srtrust.Connection.Messages.{reset, fragment_message}
use srtrust.Connection.Messages.Whole.{packets, push_all, push_all-fragment_message}
use srtrust.Connection.Machine.{send, feed_recv_buf, handle_timer}
use srtrust.Connection.Setup.{conclusion_handshake, connect, with_session}
use srtrust.Connection.Setup.Agree.{acceptor_side, caller_side, caller_side-acceptor_side}
use srtrust.Connection.Inv.{IsValid}
use srtrust.Connection.Inv.Reach.{
  feeds, fires, connects, steps, sends, Reachable-IsValid, Reachable-encrypt,
}
use srtrust.Prelude.Result.{err}
use srtrust.Event.{TimerId, invalid_state}
use srtrust.Connection.Close.{close}
use srtrust.Connection.End.{HasClosed, HasArmed, HasEnded, starts, steps, close-linger}
use srtrust.Connection.Receive.{deliver_tsbpd}
use srtrust.Connection.Delivery.{IsSettled, deliver_tsbpd-IsSettled}

abbrev encrypted : Config
encrypted = record default {
  encryption = some (record { passphrase = replicate 12 65; key_size = aes128; cipher = ctr });
}

abbrev caller : Connection
caller = connect plain encrypted 10 100 0 (replicate 16 3) (replicate 16 5)

abbrev after_send : Connection
after_send = (send plain caller (1 ∷ 2 ∷ []) 5).0

Reachable-IsValid_example : IsValid after_send
Reachable-IsValid_example = Reachable-IsValid plain after_send (
    steps caller after_send (connects encrypted 10 100 0 (replicate 16 3) (replicate 16 5))
      (sends caller (1 ∷ 2 ∷ []) 5))

abbrev caller_crypto : SessionCrypto
caller_crypto = with_even (record { salt = replicate 16 3; sek = replicate 16 5; mode = ctr })

Reachable-encrypt_example : encrypt plain caller_crypto 7 [] (1 ∷ 2 ∷ []) ≢ none
unfolding connect with_session generate
Reachable-encrypt_example =
    Reachable-encrypt plain caller caller_crypto 7 [] (1 ∷ 2 ∷ [])
      (connects encrypted 10 100 0 (replicate 16 3) (replicate 16 5)) refl

abbrev acceptor_config : Config
acceptor_config = with_latency default (from_millis 200)

caller_side-acceptor_side_example :
    ((acceptor_side caller acceptor_config.latency).latency ≡ from_millis (max 120 200))
    × ((caller_side plain caller acceptor_config 44 none).latency ≡ from_millis (max 120 200))
    × ((acceptor_side caller acceptor_config.latency).peer_socket_id ≡ caller.local_socket_id)
    × ((caller_side plain caller acceptor_config 44 none).peer_socket_id ≡ 44)
    × ((acceptor_side caller acceptor_config.latency).peer_initial_seq ≡ caller.initial_seq)
    × ((caller_side plain caller acceptor_config 44 none).peer_initial_seq ≡ caller.initial_seq)
    × ((acceptor_side caller acceptor_config.latency).encryption
        ≡ (conclusion_handshake caller).encryption)
    × ((caller_side plain caller acceptor_config 44 none).encryption
        ≡ (conclusion_handshake caller).encryption)
unfolding connect with_session
caller_side-acceptor_side_example =
    caller_side-acceptor_side plain caller acceptor_config 44 none 120 200 refl refl (omega arith)
      (omega arith)

abbrev packet : DataPacket
packet = record {
  seq = 0;
  position = single;
  in_order = false;
  encryption = Encryption.none;
  retransmitted = false;
  message_number = 1;
  timestamp = 0;
  dest_socket_id = 0;
  payload = [];
}

push_all-fragment_message_example :
    push_all reset (packets packet 100 (fragment_message caller (replicate 3000 1) 1))
    ≡ (reset, replicate 3000 1 ∷ [])
push_all-fragment_message_example =
    push_all-fragment_message caller (replicate 3000 1) 1 reset packet 100

-- The caller once it is connected with a message to send, and two later inputs after its close: a
-- malformed datagram and the keepalive timer.
abbrev established : Connection
established = record caller {
  state = State.connected;
  closing = false;
  send_queue = record { payload = 1 ∷ 2 ∷ []; position = single; message = 1 } ∷ [];
}

abbrev lingering : Connection
lingering = close established 9

abbrev fed : Connection
fed = feed_recv_buf plain lingering (1 ∷ 2 ∷ []) 10

abbrev kept : Connection
kept = handle_timer plain fed TimerId.keepalive 11

close-linger_example :
    (HasClosed established (close established 9) ⊎ HasArmed established (close established 9))
    × (send plain kept (3 ∷ []) 12 ≡ (kept, err invalid_state))
    × (close kept 12 ≡ kept)
    × HasEnded kept (handle_timer plain kept TimerId.linger 12)
close-linger_example = close-linger plain established kept (3 ∷ []) 9 12 refl refl (
    steps fed kept (steps lingering fed starts (feeds lingering (1 ∷ 2 ∷ []) 10))
      (fires fed TimerId.keepalive 11))

deliver_tsbpd-IsSettled_example : IsSettled (deliver_tsbpd established 9) 9
deliver_tsbpd-IsSettled_example = deliver_tsbpd-IsSettled established 9
