-- ===== src/Handshake/Extensions.antt =====
-- The round trip of handshake extensions, and the fuel of the loop over them.
use srtrust.Prelude.{
  length-drop, ℕ, zero, suc, ◌+◌, ◌*◌, ◌/◌, ◌%◌, ◌^◌, ◌≤◌, ◌<◌, ◌≡◌, ◌≢◌, refl, ap, ap₂, ◌∙◌, arith,
  Bool, true, false, ◌==◌, if◌then◌else◌, ltb, All,
}
use srtrust.Prelude.{
  List, [], ◌∷◌, ◌++◌, length, length-append, take, drop, take_append_left, drop_append_left,
  u16_at, be_u16, be_u32-bytes, be_u16-bytes,
}
use srtrust.Prelude.Result.{Result, ok, err, map_ok, ◌>>=◌}
use srtrust.Handshake.Types.{
  HandshakeError, extension_length, SrtHandshake, HandshakeExtension, hs_req, hs_rsp, stream_id,
  raw,
}
use srtrust.Handshake.StreamId.{encode_stream_id}
use srtrust.Handshake.Laws.{IsTrimmed, decode_stream_id-encode_stream_id}
use srtrust.Handshake.{
  ext_hsreq, ext_hsrsp, ext_sid, encode_srt, decode_srt, put_ext_header, encode_ext, decode_ext,
  decode_exts, encode_exts,
}

abbrev pub IsSrt : SrtHandshake → Type 0
IsSrt hs =
    (hs.srt_version < 2 ^ 32)
    × (hs.flags < 2 ^ 32)
    × (hs.recv_tsbpd_delay < 2 ^ 16)
    × (hs.send_tsbpd_delay < 2 ^ 16)

-- An extension that the wire can hold: its content is whole words, at most 65535 of them.
abbrev pub IsExtension : (List ℕ → Bool) → HandshakeExtension → Type 0
IsExtension is_utf8 (hs_req hs) = IsSrt hs
IsExtension is_utf8 (hs_rsp hs) = IsSrt hs
IsExtension is_utf8 (stream_id text) =
    IsTrimmed text × (is_utf8 text ≡ true) × (length text ≤ 4 * 65535)
IsExtension is_utf8 (raw t content) =
    (t < 2 ^ 16)
    × (t ≢ ext_hsreq)
    × (t ≢ ext_hsrsp)
    × (t ≢ ext_sid)
    × (length content % 4 ≡ 0)
    × (length content ≤ 4 * 65535)

type_of : HandshakeExtension → ℕ
type_of (hs_req hs) = ext_hsreq
type_of (hs_rsp hs) = ext_hsrsp
type_of (stream_id text) = ext_sid
type_of (raw t content) = t

content_of : HandshakeExtension → List ℕ
content_of (hs_req hs) = encode_srt hs
content_of (hs_rsp hs) = encode_srt hs
content_of (stream_id text) = encode_stream_id text
content_of (raw t content) = content

encode_ext_lem :
    (e : HandshakeExtension)
    → encode_ext e ≡ put_ext_header (type_of e) (length (content_of e)) ++ content_of e
unfolding encode_ext type_of content_of
encode_ext_lem (hs_req hs) = refl
encode_ext_lem (hs_rsp hs) = refl
encode_ext_lem (stream_id text) = refl
encode_ext_lem (raw t content) = refl

decode_srt-encode_srt : (hs : SrtHandshake) → IsSrt hs → decode_srt (encode_srt hs) ≡ hs
decode_srt-encode_srt hs h =
    rw
      (
        be_u32-bytes hs.srt_version h.0,
        be_u32-bytes hs.flags h.1,
        be_u16-bytes hs.recv_tsbpd_delay h.2,
        be_u16-bytes hs.send_tsbpd_delay h.3,
      )
      refl

module _ (is_utf8 : List ℕ → Bool) where
  decode_ext-content :
      (e : HandshakeExtension)
      → IsExtension is_utf8 e
      → decode_ext is_utf8 (type_of e) (content_of e) ≡ ok e
  unfolding decode_ext type_of content_of
  decode_ext-content (hs_req hs) h = ap (λ v. ok (hs_req v)) (decode_srt-encode_srt hs h)
  decode_ext-content (hs_rsp hs) h = ap (λ v. ok (hs_rsp v)) (decode_srt-encode_srt hs h)
  decode_ext-content (stream_id text) h =
      ap (map_ok (λ s. stream_id s)) (decode_stream_id-encode_stream_id is_utf8 text h.0 h.1).0
  decode_ext-content (raw t content) h =
      let a : (t == ext_hsreq) ≡ false = ground arith in
      let b : (t == ext_hsrsp) ≡ false = ground arith in
      let c : (t == ext_sid) ≡ false = ground arith in rw (a, b, c) refl

  fits :
      (e : HandshakeExtension)
      → IsExtension is_utf8 e
      → (type_of e < 2 ^ 16)
        × (length (content_of e) % 4 ≡ 0)
        × (length (content_of e) / 4 < 2 ^ 16)
  unfolding type_of content_of
  fits (hs_req hs) h = (omega arith, refl, omega arith)
  fits (hs_rsp hs) h = (omega arith, refl, omega arith)
  fits (stream_id text) h =
      let n = (decode_stream_id-encode_stream_id is_utf8 text h.0 h.1).1 in
      (omega arith, omega (arith, n), omega (arith, n))
  fits (raw t content) h = (h.0, h.4, omega arith)

  -- One round of the loop, at the words it reads.
  round : ℕ → List ℕ → ℕ → ℕ → Result HandshakeError (List HandshakeExtension)
  unfolding decode_exts
  round fuel rest t n =
      if ltb (length rest) n
      then err (extension_length t n (length rest))
      else (decode_ext is_utf8 t (take n rest) >>= λ e.
          map_ok (λ es. e ∷ es) (decode_exts is_utf8 fuel (drop n rest)))

  decode_exts-header :
      (fuel a b c d : ℕ) (rest : List ℕ)
      → decode_exts is_utf8 (suc fuel) (a ∷ b ∷ c ∷ d ∷ rest)
        ≡ round fuel rest (a * 2 ^ 8 + b) ((c * 2 ^ 8 + d) * 4)
  unfolding decode_exts round
  decode_exts-header fuel a b c d rest =
      let long : ltb (length (a ∷ b ∷ c ∷ d ∷ rest)) 4 ≡ false = ground arith in rw long refl

  round-ext :
      (fuel : ℕ) (e : HandshakeExtension) (later : List ℕ)
      → IsExtension is_utf8 e
      → round fuel (content_of e ++ later) (type_of e) (length (content_of e))
        ≡ map_ok (λ es. e ∷ es) (decode_exts is_utf8 fuel later)
  unfolding round
  round-ext fuel e later h =
      let enough : ltb (length (content_of e ++ later)) (length (content_of e)) ≡ false =
        ground (arith, length-append (content_of e) later) in
      rw
        (
          enough,
          take_append_left (content_of e) later,
          drop_append_left (content_of e) later,
          decode_ext-content e h,
        )
        refl

  decode_exts-ext :
      (fuel : ℕ) (e : HandshakeExtension) (later : List ℕ)
      → IsExtension is_utf8 e
      → decode_exts is_utf8 (suc fuel) (encode_ext e ++ later)
        ≡ map_ok (λ es. e ∷ es) (decode_exts is_utf8 fuel later)
  decode_exts-ext fuel e later h =
      let f = fits e h in
      let n = length (content_of e) in
      let words : be_u16 (n / 4 / 2 ^ 8 % 256) (n / 4 % 256) * 4 ≡ n =
        rw (be_u16-bytes (n / 4) f.2) (omega (arith, f.1)) in
      ap (λ bytes. decode_exts is_utf8 (suc fuel) (bytes ++ later)) (encode_ext_lem e)
      ∙ decode_exts-header fuel _ _ _ _ (content_of e ++ later)
      ∙ ap₂ (round fuel (content_of e ++ later)) (be_u16-bytes (type_of e) f.0) words
      ∙ round-ext fuel e later h

  -- Every extension takes at least four bytes, so a fuel of the number of bytes is enough.
  pub decode_exts-encode :
      (fuel : ℕ) (es : List HandshakeExtension)
      → All (IsExtension is_utf8) es
      → length es ≤ fuel
      → decode_exts is_utf8 fuel (encode_exts es) ≡ ok es
  unfolding encode_exts
  decode_exts-encode zero [] h le = unfold decode_exts in refl
  decode_exts-encode (suc fuel) [] h le = unfold decode_exts in refl
  decode_exts-encode zero (e ∷ es) h le = ground arith
  decode_exts-encode (suc fuel) (e ∷ es) h le =
      decode_exts-ext fuel e (encode_exts es) h.0
      ∙ ap (map_ok (λ rest. e ∷ rest)) (decode_exts-encode fuel es h.1 (omega arith))

nonempty-encode_ext : (e : HandshakeExtension) → 1 ≤ length (encode_ext e)
nonempty-encode_ext e = rw (encode_ext_lem e) (omega arith)

pub length-encode_exts : (es : List HandshakeExtension) → length es ≤ length (encode_exts es)
unfolding encode_exts
length-encode_exts [] = omega arith
length-encode_exts (e ∷ es) = omega (
  arith,
  nonempty-encode_ext e,
  length-encode_exts es,
  length-append (encode_ext e) (encode_exts es),
)

-- The loop over the extensions ends by itself: any fuel of at least the number of bytes gives the
-- same result.
pub decode_exts-fuel :
    (is_utf8 : List ℕ → Bool) (f g : ℕ) (cur : List ℕ)
    → length cur ≤ f
    → length cur ≤ g
    → decode_exts is_utf8 f cur ≡ decode_exts is_utf8 g cur
unfolding decode_exts
decode_exts-fuel is_utf8 zero zero cur hf hg = refl
decode_exts-fuel is_utf8 zero (suc g) cur hf hg =
    let short : ltb (length cur) 4 ≡ true = ground arith in rw short refl
decode_exts-fuel is_utf8 (suc f) zero cur hf hg =
    let short : ltb (length cur) 4 ≡ true = ground arith in rw short refl
decode_exts-fuel is_utf8 (suc f) (suc g) cur hf hg =
    let n = u16_at cur 2 * 4 in
    let later =
      decode_exts-fuel is_utf8 f g (drop n (drop 4 cur))
        (omega (arith, length-drop n (drop 4 cur), length-drop 4 cur))
        (omega (arith, length-drop n (drop 4 cur), length-drop 4 cur)) in
    ap
      (λ (out : Result HandshakeError (List HandshakeExtension)).
        if ltb (length cur) 4
        then ok []
        else if ltb (length (drop 4 cur)) n
        then err (extension_length (u16_at cur 0) n (length (drop 4 cur)))
        else (decode_ext is_utf8 (u16_at cur 0) (take n (drop 4 cur)) >>= λ e.
            map_ok (λ es. e ∷ es) out))
      later
