-- ===== src/Control/Laws.antt =====
-- Round trips of control bodies.
use srtrust.Prelude.{ℕ, ◌++◌, ◌^◌, ◌<◌, ◌≡◌, refl, ap, List, Bool, u32_bytes, be_u32-bytes, All}
use srtrust.Prelude.{arith}
use srtrust.Prelude.Result.{ok, map_ok, map_err}
use srtrust.Seq.{IsSeq}
use srtrust.Seq.Laws.{new-word}
use srtrust.LossList.Laws.{IsRange, decode-encode_loss_list}
use srtrust.Handshake.Codec.{IsHandshake, decode-encode_handshake}
use srtrust.Control.{
  ControlType, handshake, keepalive, ack, nak, congestion_warning, shutdown, ack_ack, drop_req,
  peer_error, user_defined, to_raw, from_raw, AckCif, light, small, full, ControlBody, to_wire,
  encode_cif, decode_ack, make_ack, encode_ack_cif, keepalive_body, shutdown_body,
  congestion_warning_body, ack_ack_body, drop_req_body, peer_error_body, ack_body, nak_body,
  handshake_body, raw_body, bad_loss_list, bad_handshake, decode,
}

from_raw-to_raw : (t : ControlType) → from_raw (to_raw t) ≡ ok t
unfolding from_raw to_raw
from_raw-to_raw handshake = refl
from_raw-to_raw keepalive = refl
from_raw-to_raw ack = refl
from_raw-to_raw nak = refl
from_raw-to_raw congestion_warning = refl
from_raw-to_raw shutdown = refl
from_raw-to_raw ack_ack = refl
from_raw-to_raw drop_req = refl
from_raw-to_raw peer_error = refl
from_raw-to_raw user_defined = refl

abbrev pub IsAckCif : AckCif → Type 0
IsAckCif light = Unit
IsAckCif (small a b c) = (a < 2 ^ 32) × (b < 2 ^ 32) × (c < 2 ^ 32)
IsAckCif (full a b c d e f) =
    (a < 2 ^ 32) × (b < 2 ^ 32) × (c < 2 ^ 32) × (d < 2 ^ 32) × (e < 2 ^ 32) × (f < 2 ^ 32)

decode_ack-encode :
    (n s : ℕ) (c : AckCif)
    → IsSeq s
    → IsAckCif c
    → decode_ack n (u32_bytes s ++ encode_ack_cif c) ≡ ok (make_ack n s c)
unfolding decode_ack
decode_ack-encode n s light hs h = rw (new-word s hs) refl
decode_ack-encode n s (small a b c) hs h =
    rw (new-word s hs, be_u32-bytes a h.0, be_u32-bytes b h.1, be_u32-bytes c h.2) refl
decode_ack-encode n s (full a b c d e f) hs h =
    rw
      (
        new-word s hs,
        be_u32-bytes a h.0,
        be_u32-bytes b h.1,
        be_u32-bytes c h.2,
        be_u32-bytes d h.3,
        be_u32-bytes e h.4,
        be_u32-bytes f h.5,
      )
      refl

-- A body whose fields fit the wire. A raw body is of the one type that `decode` leaves raw.
abbrev pub IsBody : (List ℕ → Bool) → ControlBody → Type 0
IsBody is_utf8 keepalive_body = Unit
IsBody is_utf8 shutdown_body = Unit
IsBody is_utf8 congestion_warning_body = Unit
IsBody is_utf8 (ack_ack_body n) = n < 2 ^ 32
IsBody is_utf8 (drop_req_body n s e) = (n < 2 ^ 32) × IsSeq s × IsSeq e
IsBody is_utf8 (peer_error_body n) = n < 2 ^ 32
IsBody is_utf8 (ack_body a) = (a.ack_number < 2 ^ 32) × IsSeq a.last_ack_seq × IsAckCif a.cif
IsBody is_utf8 (nak_body loss) = All IsRange loss
IsBody is_utf8 (handshake_body hs) = IsHandshake is_utf8 hs
IsBody is_utf8 (raw_body t s v cif) = (t ≡ user_defined) × (s < 2 ^ 16) × (v < 2 ^ 32)

-- A control body whose fields fit the wire decodes from its header words and its information
-- field to itself.
pub decode-encode_cif :
    (is_utf8 : List ℕ → Bool) (b : ControlBody)
    → IsBody is_utf8 b
    → decode is_utf8
        (to_wire b).control_type
        (to_wire b).subtype
        (to_wire b).type_specific
        (encode_cif b)
      ≡ ok b
unfolding decode to_wire encode_cif from_raw to_raw
decode-encode_cif is_utf8 keepalive_body h = refl
decode-encode_cif is_utf8 shutdown_body h = refl
decode-encode_cif is_utf8 congestion_warning_body h = refl
decode-encode_cif is_utf8 (ack_ack_body n) h = refl
decode-encode_cif is_utf8 (drop_req_body n s e) h = rw (new-word s h.1, new-word e h.2) refl
decode-encode_cif is_utf8 (peer_error_body n) h = refl
decode-encode_cif is_utf8 (ack_body a) h =
    decode_ack-encode a.ack_number a.last_ack_seq a.cif h.1 h.2
decode-encode_cif is_utf8 (nak_body loss) h =
    ap (λ r. map_ok (λ rs. nak_body rs) (map_err (λ e. bad_loss_list e) r))
      (decode-encode_loss_list loss h)
decode-encode_cif is_utf8 (handshake_body hs) h =
    ap (λ r. map_ok (λ v. handshake_body v) (map_err (λ e. bad_handshake e) r))
      (decode-encode_handshake is_utf8 hs h)
decode-encode_cif is_utf8 (raw_body t s v cif) h = rw h.0 refl

-- The header words of such a body fit their fields.
pub to_wire-fits :
    (is_utf8 : List ℕ → Bool) (b : ControlBody)
    → IsBody is_utf8 b
    → ((to_wire b).control_type < 2 ^ 15)
      × ((to_wire b).subtype < 2 ^ 16)
      × ((to_wire b).type_specific < 2 ^ 32)
unfolding to_wire to_raw
to_wire-fits is_utf8 keepalive_body h = (omega arith, omega arith, omega arith)
to_wire-fits is_utf8 shutdown_body h = (omega arith, omega arith, omega arith)
to_wire-fits is_utf8 congestion_warning_body h = (omega arith, omega arith, omega arith)
to_wire-fits is_utf8 (ack_ack_body n) h = (omega arith, omega arith, h)
to_wire-fits is_utf8 (drop_req_body n s e) h = (omega arith, omega arith, h.0)
to_wire-fits is_utf8 (peer_error_body n) h = (omega arith, omega arith, h)
to_wire-fits is_utf8 (ack_body a) h = (omega arith, omega arith, h.0)
to_wire-fits is_utf8 (nak_body loss) h = (omega arith, omega arith, omega arith)
to_wire-fits is_utf8 (handshake_body hs) h = (omega arith, omega arith, omega arith)
to_wire-fits is_utf8 (raw_body t s v cif) h = (rw h.0 (omega arith), h.1, h.2)
