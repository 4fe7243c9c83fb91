-- ===== src/Packet.antt =====
-- crates/srt-protocol/src/packet.rs: the parts of a data packet and its authenticated header.
-- Bytes are numbers below 256; the enum `Packet` and its codec stand in Wire.
use srtrust.Prelude.{ℕ, ◌*◌, ◌%◌, ◌^◌, bit_or, Bool, true, false}
use srtrust.Prelude.{Option, some, List, ◌++◌, ◌==◌, if◌then◌else◌, u32_bytes}
use srtrust.Seq.{SeqNumber}
use srtrust.Timestamp.{Timestamp}

abbrev pub SocketId : Type 0
SocketId = ℕ

abbrev pub MsgNumber : Type 0
MsgNumber = ℕ

abbrev pub msg_number : ℕ → MsgNumber
msg_number value = value % 2 ^ 26

pub data PacketPosition : Type 0 where
  first middle last single : PacketPosition

abbrev pub position_to_bits : PacketPosition → ℕ
position_to_bits first = 2
position_to_bits middle = 0
position_to_bits last = 1
position_to_bits single = 3

-- `bits & 0b11` is the remainder by 4.
abbrev pub position_from_bits : ℕ → PacketPosition
position_from_bits bits =
    if bits % 4 == 2
    then first
    else if bits % 4 == 1
    then last
    else if bits % 4 == 3
    then single
    else middle

pub data Encryption : Type 0 where
  none even odd : Encryption

abbrev pub key_to_bits : Encryption → ℕ
key_to_bits Encryption.none = 0
key_to_bits even = 1
key_to_bits odd = 2

-- `none` stands for `PacketError::InvalidKeyFlag`, which only the pattern 0b11 gives.
abbrev pub key_from_bits : ℕ → Option Encryption
key_from_bits bits =
    if bits % 4 == 0
    then some Encryption.none
    else if bits % 4 == 1
    then some even
    else if bits % 4 == 2
    then some odd
    else Option.none

pub record DataPacket : Type 0 where
  pub seq : SeqNumber
  pub position : PacketPosition
  pub in_order : Bool
  pub encryption : Encryption
  pub retransmitted : Bool
  pub message_number : MsgNumber
  pub timestamp : Timestamp
  pub dest_socket_id : SocketId
  pub payload : List ℕ

abbrev pub flag_bit : Bool → ℕ
flag_bit true = 1
flag_bit false = 0

-- The second header word without the retransmission flag.
unfoldable pub aad_word : DataPacket → ℕ
aad_word d =
    bit_or
      (bit_or (bit_or (position_to_bits d.position * 2 ^ 30) (flag_bit d.in_order * 2 ^ 29))
        (key_to_bits d.encryption * 2 ^ 27))
      d.message_number

unfoldable pub header_aad : DataPacket → List ℕ
unfolding aad_word
header_aad d =
    u32_bytes d.seq
    ++ (u32_bytes (aad_word d) ++ (u32_bytes d.timestamp ++ u32_bytes d.dest_socket_id))
