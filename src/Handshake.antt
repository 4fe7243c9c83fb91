-- ===== src/Handshake.antt =====
-- crates/srt-protocol/src/handshake.rs: the handshake packet's control information field.
-- A read at a cursor is a read at its offset; the length checks stand before it as in the source.
-- The text of a Stream ID is its bytes, and `String::from_utf8` is the parameter `is_utf8`.
pub mod Types
pub mod StreamId
pub mod Laws
pub mod Extensions
pub mod Codec
mod Tests
use srtrust.Prelude.{ℕ, zero, suc, ◌+◌, ◌-◌, ◌*◌, ◌/◌, ◌%◌, ◌^◌, Bool, Option, none, some, not}
use srtrust.Prelude.{
  List, [], ◌∷◌, ◌++◌, ltb, leb, ◌==◌, ◌||◌, ◌&&◌, if◌then◌else◌, length, take, drop, replicate,
}
use srtrust.Prelude.{u16_bytes, u32_bytes, u32_at, u16_at}
use srtrust.Prelude.Result.{Result, ok, err, map_ok, ◌>>=◌}
use srtrust.Seq
use srtrust.Handshake.Types.{
  HandshakeError, too_short, extension_length, extension_content, EncryptionField,
  encryption_to_raw, encryption_from_raw, SrtHandshake, HandshakeExtension, hs_req, hs_rsp,
  stream_id, raw, Handshake,
}
use srtrust.Handshake.StreamId.{encode_stream_id, decode_stream_id}

abbrev pub base_len : ℕ
base_len = 48

abbrev pub ext_hsreq : ℕ
ext_hsreq = 1

abbrev pub ext_hsrsp : ℕ
ext_hsrsp = 2

abbrev pub ext_sid : ℕ
ext_sid = 5

abbrev pub srt_hs_len : ℕ
srt_hs_len = 12

abbrev pub encode_srt : SrtHandshake → List ℕ
encode_srt hs =
    u32_bytes hs.srt_version
    ++ (u32_bytes hs.flags ++ (u16_bytes hs.recv_tsbpd_delay ++ u16_bytes hs.send_tsbpd_delay))

abbrev pub decode_srt : List ℕ → SrtHandshake
decode_srt content = record {
  srt_version = u32_at content 0;
  flags = u32_at content 4;
  recv_tsbpd_delay = u16_at content 8;
  send_tsbpd_delay = u16_at content 10;
}

-- The word count is a u16; the source panics where it does not fit.
abbrev pub put_ext_header : ℕ → ℕ → List ℕ
put_ext_header ext_type content_len = u16_bytes ext_type ++ u16_bytes (content_len / 4)

unfoldable pub encode_ext : HandshakeExtension → List ℕ
encode_ext (hs_req hs) = put_ext_header ext_hsreq srt_hs_len ++ encode_srt hs
encode_ext (hs_rsp hs) = put_ext_header ext_hsrsp srt_hs_len ++ encode_srt hs
encode_ext (stream_id s) =
    put_ext_header ext_sid (length (encode_stream_id s)) ++ encode_stream_id s
encode_ext (raw ext_type content) = put_ext_header ext_type (length content) ++ content

module _ (is_utf8 : List ℕ → Bool) where
  unfoldable pub decode_ext : ℕ → List ℕ → Result HandshakeError HandshakeExtension
  decode_ext ext_type content =
      if (ext_type == ext_hsreq || ext_type == ext_hsrsp) && not (length content == srt_hs_len)
      then err (extension_content ext_type (length content))
      else if ext_type == ext_hsreq
      then ok (hs_req (decode_srt content))
      else if ext_type == ext_hsrsp
      then ok (hs_rsp (decode_srt content))
      else if ext_type == ext_sid
      then map_ok (λ s. stream_id s) (decode_stream_id is_utf8 content)
      else ok (raw ext_type content)

  -- The loop over the extensions, on fuel: each round takes at least four bytes, so the number of
  -- bytes is enough (Handshake.Extensions).
  unfoldable pub decode_exts : ℕ → List ℕ → Result HandshakeError (List HandshakeExtension)
  unfolding decode_ext
  decode_exts zero cur = ok []
  decode_exts (suc fuel) cur =
      let ext_type = u16_at cur 0 in
      let content_len = u16_at cur 2 * 4 in
      let rest = drop 4 cur in
      let later = decode_exts fuel (drop content_len rest) in
      if ltb (length cur) 4
      then ok []
      else if ltb (length rest) content_len
      then err (extension_length ext_type content_len (length rest))
      else (decode_ext ext_type (take content_len rest) >>= λ e. map_ok (λ es. e ∷ es) later)

  unfoldable pub decode : List ℕ → Result HandshakeError Handshake
  unfolding decode_exts
  decode cif =
      if ltb (length cif) base_len
      then err (too_short base_len (length cif))
      else (encryption_from_raw (u16_at cif 4) >>= λ encryption.
          map_ok
            (λ extensions. record {
              version = u32_at cif 0;
              encryption = encryption;
              extension_field = u16_at cif 6;
              initial_seq = Seq.new (u32_at cif 8);
              mtu = u32_at cif 12;
              max_flow_window = u32_at cif 16;
              handshake_type = u32_at cif 20;
              srt_socket_id = u32_at cif 24;
              syn_cookie = u32_at cif 28;
              peer_ip = take 16 (drop 32 cif);
              extensions = extensions;
            })
            (decode_exts (length cif) (drop base_len cif)))

unfoldable pub encode_exts : List HandshakeExtension → List ℕ
unfolding encode_ext
encode_exts [] = []
encode_exts (e ∷ es) = encode_ext e ++ encode_exts es

unfoldable pub encode : Handshake → List ℕ
unfolding encode_exts
encode hs =
    u32_bytes hs.version
    ++ (u16_bytes (encryption_to_raw hs.encryption)
        ++ (u16_bytes hs.extension_field
            ++ (u32_bytes hs.initial_seq
                ++ (u32_bytes hs.mtu
                    ++ (u32_bytes hs.max_flow_window
                        ++ (u32_bytes hs.handshake_type
                            ++ (u32_bytes hs.srt_socket_id
                                ++ (u32_bytes hs.syn_cookie
                                    ++ (hs.peer_ip ++ encode_exts hs.extensions)))))))))
