-- ===== src/Wire/Tests.antt =====
-- Concrete inputs for the round trips of packets.
use srtrust.Prelude.{ℕ, ◌-◌, ◌^◌, ◌≡◌, arith, Bool, true, false, List, [], ◌∷◌, take}
use srtrust.Prelude.Result.{ok}
use srtrust.Packet.{DataPacket, first, odd, header_aad}
use srtrust.Control.{ack_body, full}
use srtrust.Wire.{ControlPacket, data_packet, control_packet, encode, decode}
use srtrust.Wire.Laws.{decode-encode_data, decode-encode_control, header_aad-encode}

abbrev resent : DataPacket
resent = record {
  seq = 2 ^ 30;
  position = first;
  in_order = true;
  encryption = odd;
  retransmitted = true;
  message_number = 12345;
  timestamp = 4000000000;
  dest_socket_id = 77;
  payload = 1 ∷ 2 ∷ 255 ∷ [];
}

abbrev any_text : List ℕ → Bool
any_text bs = true

decode-encode_data_example : decode any_text (encode (data_packet resent)) ≡ ok (data_packet resent)
decode-encode_data_example =
    decode-encode_data any_text resent (omega arith, omega arith, omega arith, omega arith)

header_aad-encode_example :
    header_aad resent ≡ take 16 (encode (data_packet (record resent { retransmitted = false })))
header_aad-encode_example = header_aad-encode resent

abbrev acked : ControlPacket
acked = record {
  timestamp = 500;
  dest_socket_id = 77;
  body = ack_body (record {
    ack_number = 9;
    last_ack_seq = 2 ^ 31 - 1;
    cif = full 100000 50000 8192 300 1000 400000;
  });
}

decode-encode_control_example :
    decode any_text (encode (control_packet acked)) ≡ ok (control_packet acked)
decode-encode_control_example =
    decode-encode_control any_text acked
      (
        omega arith,
        omega arith,
        (omega arith, omega arith, omega arith, omega arith, omega arith, omega arith),
      )
      (omega arith) (omega arith)
