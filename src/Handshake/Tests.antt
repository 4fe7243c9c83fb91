-- ===== src/Handshake/Tests.antt =====
-- Concrete inputs for the round trips of the handshake.
use srtrust.Prelude.{
  ℕ, ◌-◌, ◌+◌, ◌*◌, ◌/◌, ◌^◌, ◌≡◌, refl, arith, Bool, true, List, [], ◌∷◌, length, replicate, leb,
}
use srtrust.Prelude.Result.{ok}
use srtrust.Handshake.Types.{aes256, Handshake, hs_req, stream_id, raw, timeout, from_code, code}
use srtrust.Handshake.StreamId.{encode_stream_id, decode_stream_id}
use srtrust.Handshake.Laws.{IsReason, decode_stream_id-encode_stream_id}
use srtrust.Handshake.Codec.{IsHandshake, decode-encode_handshake}
use srtrust.Handshake.{encode, decode, decode_exts}
use srtrust.Handshake.Extensions.{decode_exts-fuel}

-- Text of ASCII bytes is UTF-8.
abbrev ascii : List ℕ → Bool
ascii [] = true
ascii (b ∷ bs) = elim (leb b 127) [ true ↦ ascii bs | Bool.false ↦ Bool.false ]

abbrev name : List ℕ
name = 108 ∷ 105 ∷ 118 ∷ 101 ∷ 49 ∷ []

decode_stream_id-encode_stream_id_example :
    (decode_stream_id ascii (encode_stream_id name) ≡ ok name)
    × (length (encode_stream_id name) ≡ (length name + 3) / 4 * 4)
decode_stream_id-encode_stream_id_example =
    decode_stream_id-encode_stream_id ascii name (ground arith) refl

timeout-IsReason : IsReason timeout
unfolding from_code code
timeout-IsReason = (refl, omega arith)

abbrev hello : Handshake
hello = record {
  version = 5;
  encryption = aes256;
  extension_field = 5;
  initial_seq = 2 ^ 31 - 1;
  mtu = 1500;
  max_flow_window = 8192;
  handshake_type = 0xffff_ffff;
  srt_socket_id = 77;
  syn_cookie = 0xdead_beef;
  peer_ip = replicate 16 127;
  extensions =
      hs_req (record {
        srt_version = 0x010500;
        flags = 0xbf;
        recv_tsbpd_delay = 120;
        send_tsbpd_delay = 120;
      })
      ∷ stream_id name
      ∷ raw 3 (1 ∷ 2 ∷ 3 ∷ 4 ∷ [])
      ∷ [];
}

hello-IsHandshake : IsHandshake ascii hello
hello-IsHandshake = (
  omega arith,
  omega arith,
  omega arith,
  omega arith,
  omega arith,
  omega arith,
  omega arith,
  omega arith,
  refl,
  (
    (omega arith, omega arith, omega arith, omega arith),
    (
      (ground arith, refl, omega arith),
      ((omega arith, omega arith, omega arith, omega arith, refl, omega arith), tt),
    ),
  ),
)

decode-encode_handshake_example : decode ascii (encode hello) ≡ ok hello
decode-encode_handshake_example = decode-encode_handshake ascii hello hello-IsHandshake

-- The bytes of a raw extension of type 3 with one word.
abbrev extension : List ℕ
extension = 0 ∷ 3 ∷ 0 ∷ 1 ∷ 9 ∷ 8 ∷ 7 ∷ 6 ∷ []

decode_exts-fuel_example : decode_exts ascii 8 extension ≡ decode_exts ascii 20 extension
decode_exts-fuel_example = decode_exts-fuel ascii 8 20 extension (omega arith) (omega arith)
