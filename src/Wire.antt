-- ===== src/Wire.antt =====
-- crates/srt-protocol/src/packet.rs: the enum `Packet` and its codec. A read at a cursor is a read
-- at its offset, and a masked field of a word is a quotient's remainder.
pub mod Laws
mod Tests
use srtrust.Prelude.{ℕ, ◌*◌, ◌/◌, ◌%◌, ◌^◌, bit_or, Bool, Option, none, some}
use srtrust.Prelude.{List, ◌++◌, ltb, leb, ◌==◌, if◌then◌else◌, length, drop, u32_bytes, u32_at}
use srtrust.Prelude.Result.{Result, ok, err, map_ok, map_err}
use srtrust.Seq
use srtrust.Timestamp.{Timestamp}
use srtrust.Packet.{
  SocketId, msg_number, position_to_bits, position_from_bits, Encryption, key_to_bits,
  key_from_bits, DataPacket, flag_bit,
}
use srtrust.Control
use srtrust.Control.{ControlBody, ControlError, to_wire, encode_cif}

pub data PacketError : Type 0 where
  -- need, got
  too_short : ℕ → ℕ → PacketError
  invalid_key_flag : ℕ → PacketError
  bad_control : ControlError → PacketError

pub record ControlPacket : Type 0 where
  pub timestamp : Timestamp
  pub dest_socket_id : SocketId
  pub body : ControlBody

pub data Packet : Type 0 where
  data_packet : DataPacket → Packet
  control_packet : ControlPacket → Packet

abbrev pub header_len : ℕ
header_len = 16

abbrev pub flag_control : ℕ
flag_control = 0x8000_0000

-- The second header word of a data packet.
unfoldable pub data_word : DataPacket → ℕ
data_word d =
    bit_or
      (bit_or
        (bit_or (bit_or (position_to_bits d.position * 2 ^ 30) (flag_bit d.in_order * 2 ^ 29))
          (key_to_bits d.encryption * 2 ^ 27))
        (flag_bit d.retransmitted * 2 ^ 26))
      d.message_number

-- The first header word of a control packet.
unfoldable pub control_word : ℕ → ℕ → ℕ
control_word control_type subtype = bit_or (bit_or flag_control (control_type * 2 ^ 16)) subtype

unfoldable pub encode : Packet → List ℕ
unfolding data_word control_word
encode (data_packet d) =
    u32_bytes d.seq
    ++ (u32_bytes (data_word d)
        ++ (u32_bytes d.timestamp ++ (u32_bytes d.dest_socket_id ++ d.payload)))
encode (control_packet c) =
    u32_bytes (control_word (to_wire c.body).control_type (to_wire c.body).subtype)
    ++ (u32_bytes (to_wire c.body).type_specific
        ++ (u32_bytes c.timestamp ++ (u32_bytes c.dest_socket_id ++ encode_cif c.body)))

-- The data packet of the header words w0 and w1.
unfoldable pub decode_data : ℕ → ℕ → Timestamp → SocketId → List ℕ → Result PacketError Packet
decode_data w0 w1 timestamp dest_socket_id payload = elim (key_from_bits (w1 / 2 ^ 27 % 4)) [
  | none ↦ err (invalid_key_flag (w1 / 2 ^ 27 % 4))
  | some encryption ↦ ok (
      data_packet (record {
        seq = Seq.new w0;
        position = position_from_bits (w1 / 2 ^ 30);
        in_order = w1 / 2 ^ 29 % 2 == 1;
        encryption = encryption;
        retransmitted = w1 / 2 ^ 26 % 2 == 1;
        message_number = msg_number w1;
        timestamp = timestamp;
        dest_socket_id = dest_socket_id;
        payload = payload;
      }))
]

module _ (is_utf8 : List ℕ → Bool) where
  -- The control packet of the header words w0 and w1.
  unfoldable pub decode_control : ℕ → ℕ → Timestamp → SocketId → List ℕ → Result PacketError Packet
  decode_control w0 w1 timestamp dest_socket_id cif =
      map_ok
        (λ body.
          control_packet
            (record { timestamp = timestamp; dest_socket_id = dest_socket_id; body = body }))
        (map_err (λ e. bad_control e)
          (Control.decode is_utf8 (w0 / 2 ^ 16 % 2 ^ 15) (w0 % 2 ^ 16) w1 cif))

  unfoldable pub decode : List ℕ → Result PacketError Packet
  unfolding decode_data decode_control
  decode buf =
      if ltb (length buf) header_len
      then err (too_short header_len (length buf))
      else if leb flag_control (u32_at buf 0)
      then decode_control (u32_at buf 0) (u32_at buf 4) (u32_at buf 8) (u32_at buf 12)
          (drop header_len buf)
      else decode_data (u32_at buf 0) (u32_at buf 4) (u32_at buf 8) (u32_at buf 12)
          (drop header_len buf)
