-- ===== src/Control.antt =====
-- crates/srt-protocol/src/control.rs: the typed bodies of control packets. A read at a cursor is
-- a read at its offset.
pub mod Laws
use srtrust.Prelude.{
  ℕ, Bool, List, [], ◌++◌, ◌==◌, not, if◌then◌else◌, length, u32_bytes, u32_at, Option, some,
}
use srtrust.Prelude.Result.{Result, ok, err, map_ok, map_err, ◌>>=◌}
use srtrust.Seq
use srtrust.Seq.{SeqNumber}
use srtrust.LossList
use srtrust.LossList.{LossRange, LossListError}
use srtrust.Handshake
use srtrust.Handshake.Types.{Handshake, HandshakeError}

pub data ControlType : Type 0 where
  handshake keepalive ack nak congestion_warning shutdown ack_ack drop_req peer_error user_defined :
      ControlType

-- The text that `InvalidCifLength` names the packet by: "drop request" or "ACK".
pub data CifKind : Type 0 where
  drop_request_cif ack_cif : CifKind

pub data ControlError : Type 0 where
  unknown_type : ℕ → ControlError
  -- kind, len
  invalid_cif_length : CifKind → ℕ → ControlError
  bad_loss_list : LossListError → ControlError
  bad_handshake : HandshakeError → ControlError

unfoldable pub to_raw : ControlType → ℕ
to_raw handshake = 0x0000
to_raw keepalive = 0x0001
to_raw ack = 0x0002
to_raw nak = 0x0003
to_raw congestion_warning = 0x0004
to_raw shutdown = 0x0005
to_raw ack_ack = 0x0006
to_raw drop_req = 0x0007
to_raw peer_error = 0x0008
to_raw user_defined = 0x7FFF

unfoldable pub from_raw : ℕ → Result ControlError ControlType
from_raw value =
    if value == 0x0000
    then ok handshake
    else if value == 0x0001
    then ok keepalive
    else if value == 0x0002
    then ok ack
    else if value == 0x0003
    then ok nak
    else if value == 0x0004
    then ok congestion_warning
    else if value == 0x0005
    then ok shutdown
    else if value == 0x0006
    then ok ack_ack
    else if value == 0x0007
    then ok drop_req
    else if value == 0x0008
    then ok peer_error
    else if value == 0x7FFF
    then ok user_defined
    else err (unknown_type value)

pub data AckCif : Type 0 where
  light : AckCif
  -- rtt, rtt_variance, avail_buffer_size
  small : ℕ → ℕ → ℕ → AckCif
  -- rtt, rtt_variance, avail_buffer_size, packets_recv_rate, estimated_link_capacity,
  -- receiving_rate
  full : ℕ → ℕ → ℕ → ℕ → ℕ → ℕ → AckCif

pub record Ack : Type 0 where
  pub ack_number : ℕ
  pub last_ack_seq : SeqNumber
  pub cif : AckCif

pub data ControlBody : Type 0 where
  keepalive_body shutdown_body congestion_warning_body : ControlBody
  -- ack_number
  ack_ack_body : ℕ → ControlBody
  -- message_number, first, last
  drop_req_body : ℕ → SeqNumber → SeqNumber → ControlBody
  -- error_code
  peer_error_body : ℕ → ControlBody
  ack_body : Ack → ControlBody
  nak_body : List LossRange → ControlBody
  handshake_body : Handshake → ControlBody
  -- control_type, subtype, type_specific, cif
  raw_body : ControlType → ℕ → ℕ → List ℕ → ControlBody

-- The three header words of a body.
pub record WireHeader : Type 0 where
  pub control_type : ℕ
  pub subtype : ℕ
  pub type_specific : ℕ

abbrev wire_header : ControlType → ℕ → WireHeader
wire_header t v = record { control_type = to_raw t; subtype = 0; type_specific = v }

unfoldable pub to_wire : ControlBody → WireHeader
to_wire keepalive_body = wire_header keepalive 0
to_wire shutdown_body = wire_header shutdown 0
to_wire congestion_warning_body = wire_header congestion_warning 0
to_wire (ack_ack_body ack_number) = wire_header ack_ack ack_number
to_wire (drop_req_body message_number first last) = wire_header drop_req message_number
to_wire (peer_error_body error_code) = wire_header peer_error error_code
to_wire (ack_body a) = wire_header ack a.ack_number
to_wire (nak_body loss) = wire_header nak 0
to_wire (handshake_body hs) = wire_header handshake 0
to_wire (raw_body t s v cif) = record { control_type = to_raw t; subtype = s; type_specific = v }

abbrev pub encode_ack_cif : AckCif → List ℕ
encode_ack_cif light = []
encode_ack_cif (small rtt var buffer) = u32_bytes rtt ++ (u32_bytes var ++ u32_bytes buffer)
encode_ack_cif (full rtt var buffer packets capacity rate) =
    u32_bytes rtt
    ++ (u32_bytes var
        ++ (u32_bytes buffer ++ (u32_bytes packets ++ (u32_bytes capacity ++ u32_bytes rate))))

unfoldable pub encode_cif : ControlBody → List ℕ
encode_cif keepalive_body = []
encode_cif shutdown_body = []
encode_cif congestion_warning_body = []
encode_cif (ack_ack_body ack_number) = []
encode_cif (peer_error_body error_code) = []
encode_cif (drop_req_body message_number first last) = u32_bytes first ++ u32_bytes last
encode_cif (ack_body a) = u32_bytes a.last_ack_seq ++ encode_ack_cif a.cif
encode_cif (nak_body loss) = LossList.encode loss
encode_cif (handshake_body hs) = Handshake.encode hs
encode_cif (raw_body t s v cif) = cif

abbrev pub make_ack : ℕ → SeqNumber → AckCif → ControlBody
make_ack n s c = ack_body (record { ack_number = n; last_ack_seq = s; cif = c })

unfoldable pub decode_ack : ℕ → List ℕ → Result ControlError ControlBody
decode_ack n cif =
    if length cif == 4
    then ok (make_ack n (Seq.new (u32_at cif 0)) light)
    else if length cif == 16
    then ok
        (make_ack n (Seq.new (u32_at cif 0)) (small (u32_at cif 4) (u32_at cif 8) (u32_at cif 12)))
    else if length cif == 28
    then ok (
        make_ack n (Seq.new (u32_at cif 0)) (
          full (u32_at cif 4) (u32_at cif 8) (u32_at cif 12) (u32_at cif 16) (u32_at cif 20)
            (u32_at cif 24)))
    else err (invalid_cif_length ack_cif (length cif))

module _ (is_utf8 : List ℕ → Bool) where
  unfoldable pub decode_body : ControlType → ℕ → ℕ → List ℕ → Result ControlError ControlBody
  decode_body keepalive s v cif = ok keepalive_body
  decode_body shutdown s v cif = ok shutdown_body
  decode_body congestion_warning s v cif = ok congestion_warning_body
  decode_body ack_ack s v cif = ok (ack_ack_body v)
  decode_body peer_error s v cif = ok (peer_error_body v)
  decode_body drop_req s v cif =
      if not (length cif == 8)
      then err (invalid_cif_length drop_request_cif (length cif))
      else ok (drop_req_body v (Seq.new (u32_at cif 0)) (Seq.new (u32_at cif 4)))
  decode_body ack s v cif = decode_ack v cif
  decode_body nak s v cif =
      map_ok (λ loss. nak_body loss) (map_err (λ e. bad_loss_list e) (LossList.decode cif))
  decode_body handshake s v cif =
      map_ok (λ hs. handshake_body hs)
        (map_err (λ e. bad_handshake e) (Handshake.decode is_utf8 cif))
  decode_body user_defined s v cif = ok (raw_body user_defined s v cif)

  unfoldable pub decode : ℕ → ℕ → ℕ → List ℕ → Result ControlError ControlBody
  unfolding decode_body
  decode t s v cif = from_raw t >>= λ control_type. decode_body control_type s v cif
