-- ===== src/Handshake/Codec.antt =====
-- The round trip of the whole handshake.
use srtrust.Prelude.{ℕ, ◌^◌, ◌<◌, ◌≡◌, refl, ap, ◌∙◌, sym, arith, Bool, false, ltb, All}
use srtrust.Prelude.{
  List, ◌++◌, length, length-append, take, drop, take_append_left, drop_append_left, u16_at, u32_at,
  be_u32-bytes, be_u16-bytes,
}
use srtrust.Prelude.Result.{Result, ok, map_ok, ◌>>=◌}
use srtrust.Seq
use srtrust.Seq.{IsSeq}
use srtrust.Seq.Laws.{new-word}
use srtrust.Handshake.Types.{
  EncryptionField, aes128, aes192, aes256, encryption_to_raw, encryption_from_raw, HandshakeError,
  HandshakeExtension, Handshake,
}
use srtrust.Handshake.{decode_exts, decode, encode, encode_exts}
use srtrust.Handshake.Extensions.{IsExtension, decode_exts-encode, length-encode_exts}

encryption_from_raw-to_raw :
    (e : EncryptionField) → encryption_from_raw (encryption_to_raw e) ≡ ok e
encryption_from_raw-to_raw EncryptionField.none = refl
encryption_from_raw-to_raw aes128 = refl
encryption_from_raw-to_raw aes192 = refl
encryption_from_raw-to_raw aes256 = refl

-- A handshake whose fields fit the wire.
abbrev pub IsHandshake : (List ℕ → Bool) → Handshake → Type 0
IsHandshake is_utf8 hs =
    (hs.version < 2 ^ 32)
    × (hs.extension_field < 2 ^ 16)
    × IsSeq hs.initial_seq
    × (hs.mtu < 2 ^ 32)
    × (hs.max_flow_window < 2 ^ 32)
    × (hs.handshake_type < 2 ^ 32)
    × (hs.srt_socket_id < 2 ^ 32)
    × (hs.syn_cookie < 2 ^ 32)
    × (length hs.peer_ip ≡ 16)
    × All (IsExtension is_utf8) hs.extensions

encryption-range : (e : EncryptionField) → encryption_to_raw e < 2 ^ 16
encryption-range EncryptionField.none = omega arith
encryption-range aes128 = omega arith
encryption-range aes192 = omega arith
encryption-range aes256 = omega arith

-- What `decode` makes of the words it reads.
assemble :
    ℕ
    → ℕ
    → ℕ
    → ℕ
    → ℕ
    → ℕ
    → ℕ
    → ℕ
    → ℕ
    → List ℕ
    → Result HandshakeError (List HandshakeExtension)
    → Result HandshakeError Handshake
assemble v e f s m w t id ck ip out = encryption_from_raw e >>= λ encryption.
    map_ok
      (λ extensions. record {
        version = v;
        encryption = encryption;
        extension_field = f;
        initial_seq = s;
        mtu = m;
        max_flow_window = w;
        handshake_type = t;
        srt_socket_id = id;
        syn_cookie = ck;
        peer_ip = ip;
        extensions = extensions;
      })
      out

decode-assemble :
    (is_utf8 : List ℕ → Bool) (cif : List ℕ)
    → ltb (length cif) 48 ≡ false
    → decode is_utf8 cif
      ≡ assemble
          (u32_at cif 0)
          (u16_at cif 4)
          (u16_at cif 6)
          (Seq.new (u32_at cif 8))
          (u32_at cif 12)
          (u32_at cif 16)
          (u32_at cif 20)
          (u32_at cif 24)
          (u32_at cif 28)
          (take 16 (drop 32 cif))
          (decode_exts is_utf8 (length cif) (drop 48 cif))
unfolding decode assemble
decode-assemble is_utf8 cif long = rw long refl

assemble-fields :
    (hs : Handshake)
    → assemble hs.version
        (encryption_to_raw hs.encryption)
        hs.extension_field
        hs.initial_seq
        hs.mtu
        hs.max_flow_window
        hs.handshake_type
        hs.srt_socket_id
        hs.syn_cookie
        hs.peer_ip
        (ok hs.extensions)
      ≡ ok hs
unfolding assemble
assemble-fields hs = rw (encryption_from_raw-to_raw hs.encryption) refl

-- A handshake whose fields fit the wire, with extensions whose contents are at most 65535 whole
-- words, Stream IDs that are text without a final NUL, and raw extensions of types the codec does
-- not read itself, decodes to itself; the loop over the extensions ends within its fuel.
pub decode-encode_handshake :
    (is_utf8 : List ℕ → Bool) (hs : Handshake)
    → IsHandshake is_utf8 hs
    → decode is_utf8 (encode hs) ≡ ok hs
unfolding encode
decode-encode_handshake is_utf8 hs h =
    let es = encode_exts hs.extensions in
    let ip : take 16 (hs.peer_ip ++ es) ≡ hs.peer_ip =
      ap (λ n. take n (hs.peer_ip ++ es)) (sym h.8) ∙ take_append_left hs.peer_ip es in
    let rest : drop 16 (hs.peer_ip ++ es) ≡ es =
      ap (λ n. drop n (hs.peer_ip ++ es)) (sym h.8) ∙ drop_append_left hs.peer_ip es in
    let long : ltb (length (encode hs)) 48 ≡ false =
      ground (arith, length-append hs.peer_ip es, h.8) in
    let out : decode_exts is_utf8 (length (encode hs)) es ≡ ok hs.extensions =
      decode_exts-encode is_utf8 _ hs.extensions h.9
        (omega (arith, length-append hs.peer_ip es, length-encode_exts hs.extensions)) in
    decode-assemble is_utf8 (encode hs) long
    ∙ rw
        (
          be_u16-bytes (encryption_to_raw hs.encryption) (encryption-range hs.encryption),
          rest,
          ip,
          out,
          be_u32-bytes hs.version h.0,
          be_u16-bytes hs.extension_field h.1,
          new-word hs.initial_seq h.2,
          be_u32-bytes hs.mtu h.3,
          be_u32-bytes hs.max_flow_window h.4,
          be_u32-bytes hs.handshake_type h.5,
          be_u32-bytes hs.srt_socket_id h.6,
          be_u32-bytes hs.syn_cookie h.7,
        )
        (assemble-fields hs)
