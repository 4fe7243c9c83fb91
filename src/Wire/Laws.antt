-- ===== src/Wire/Laws.antt =====
-- Round trips of packets, and the authenticated header of a data packet.
use srtrust.Prelude.{
  ℕ, ◌+◌, ◌*◌, ◌/◌, ◌%◌, ◌^◌, ◌<◌, ◌≡◌, refl, ap, ◌∙◌, sym, arith, bit_or, Bool, true, false, some,
}
use srtrust.Prelude.{
  List, ◌++◌, ltb, leb, ◌==◌, if◌then◌else◌, length, take, u32_bytes, be_u32-bytes,
}
use srtrust.Prelude.Bits.{or_fields, or-zero}
use srtrust.Prelude.Result.{ok}
use srtrust.Seq.{IsSeq}
use srtrust.Seq.Laws.{new-seq}
use srtrust.Packet.{
  PacketPosition, first, middle, last, single, Encryption, even, odd, position_to_bits,
  position_from_bits, key_to_bits, key_from_bits, DataPacket, flag_bit, aad_word, header_aad,
}
use srtrust.Control.{to_wire, encode_cif}
use srtrust.Control.Laws.{IsBody, decode-encode_cif, to_wire-fits}
use srtrust.Wire.{
  ControlPacket, data_packet, control_packet, data_word, control_word, flag_control, encode, decode,
  decode_data, decode_control,
}

-- A data packet whose fields fit the wire.
abbrev pub IsDataPacket : DataPacket → Type 0
IsDataPacket d =
    IsSeq d.seq × (d.message_number < 2 ^ 26) × (d.timestamp < 2 ^ 32) × (d.dest_socket_id < 2 ^ 32)

flag-range : (b : Bool) → flag_bit b < 2
flag-range true = omega arith
flag-range false = omega arith

key-range : (k : Encryption) → key_to_bits k < 3
key-range Encryption.none = omega arith
key-range even = omega arith
key-range odd = omega arith

position-range : (p : PacketPosition) → position_to_bits p < 4
position-range first = omega arith
position-range middle = omega arith
position-range last = omega arith
position-range single = omega arith

-- Fields joined by `or` add up, where each lies below the next.
or_lem : (k p q r : ℕ) → r < 2 ^ k → bit_or (p * 2 ^ k) r ≡ p * 2 ^ k + r
or_lem k p q r h = or_fields k p r h

fields_lem :
    (p o k r m : ℕ)
    → o < 2
    → k < 4
    → r < 2
    → m < 2 ^ 26
    → bit_or (bit_or (bit_or (bit_or (p * 2 ^ 30) (o * 2 ^ 29)) (k * 2 ^ 27)) (r * 2 ^ 26)) m
      ≡ p * 2 ^ 30 + o * 2 ^ 29 + k * 2 ^ 27 + r * 2 ^ 26 + m
fields_lem p o k r m ho hk hr hm =
    let a : bit_or (p * 2 ^ 30) (o * 2 ^ 29) ≡ (p * 2 + o) * 2 ^ 29 =
      or_fields 30 p (o * 2 ^ 29) (omega arith) ∙ omega arith in
    let b : bit_or ((p * 2 + o) * 2 ^ 29) (k * 2 ^ 27) ≡ ((p * 2 + o) * 4 + k) * 2 ^ 27 =
      or_fields 29 (p * 2 + o) (k * 2 ^ 27) (omega arith) ∙ omega arith in
    let c : bit_or (((p * 2 + o) * 4 + k) * 2 ^ 27) (r * 2 ^ 26)
        ≡ (((p * 2 + o) * 4 + k) * 2 + r) * 2 ^ 26 =
      or_fields 27 ((p * 2 + o) * 4 + k) (r * 2 ^ 26) (omega arith) ∙ omega arith in
    let d = or_fields 26 (((p * 2 + o) * 4 + k) * 2 + r) m hm in rw (a, b, c, d) (omega arith)

data_word_lem :
    (d : DataPacket)
    → d.message_number < 2 ^ 26
    → data_word d
      ≡ position_to_bits d.position * 2 ^ 30
        + flag_bit d.in_order * 2 ^ 29
        + key_to_bits d.encryption * 2 ^ 27
        + flag_bit d.retransmitted * 2 ^ 26
        + d.message_number
unfolding data_word
data_word_lem d h =
    fields_lem (position_to_bits d.position) (flag_bit d.in_order) (key_to_bits d.encryption)
      (flag_bit d.retransmitted) d.message_number (flag-range d.in_order)
      (omega (arith, key-range d.encryption)) (flag-range d.retransmitted) h

position-back : (p : PacketPosition) → position_from_bits (position_to_bits p) ≡ p
position-back first = refl
position-back middle = refl
position-back last = refl
position-back single = refl

key-back : (k : Encryption) → key_from_bits (key_to_bits k) ≡ some k
key-back Encryption.none = refl
key-back even = refl
key-back odd = refl

flag-back : (b : Bool) → (flag_bit b == 1) ≡ b
flag-back true = refl
flag-back false = refl

-- The fields of a header word, by the numbers they are made of.
fields-back :
    (w p o k r m : ℕ)
    → w ≡ p * 2 ^ 30 + o * 2 ^ 29 + k * 2 ^ 27 + r * 2 ^ 26 + m
    → p < 4
    → o < 2
    → k < 3
    → r < 2
    → m < 2 ^ 26
    → (w / 2 ^ 30 ≡ p)
      × (w / 2 ^ 29 % 2 ≡ o)
      × (w / 2 ^ 27 % 4 ≡ k)
      × (w / 2 ^ 26 % 2 ≡ r)
      × (w % 2 ^ 26 ≡ m)
      × (w < 2 ^ 32)
fields-back w p o k r m e hp ho hk hr hm =
    (omega arith, omega arith, omega arith, omega arith, omega arith, omega arith)

decode_data-word :
    (d : DataPacket)
    → IsDataPacket d
    → (decode_data d.seq (data_word d) d.timestamp d.dest_socket_id d.payload ≡ ok (data_packet d))
      × (data_word d < 2 ^ 32)
unfolding decode_data
decode_data-word d h =
    let f =
      fields-back (data_word d) (position_to_bits d.position) (flag_bit d.in_order)
        (key_to_bits d.encryption) (flag_bit d.retransmitted) d.message_number (data_word_lem d h.1)
        (position-range d.position) (flag-range d.in_order) (key-range d.encryption)
        (flag-range d.retransmitted) h.1 in
    (
      rw
          (
            decode_data,
            f.2,
            key-back d.encryption,
            f.0,
            f.1,
            f.3,
            f.4,
            position-back d.position,
            flag-back d.in_order,
            flag-back d.retransmitted,
            new-seq d.seq h.0,
          )
          refl,
      f.5,
    )

header-words :
    (is_utf8 : List ℕ → Bool) (a b c e : ℕ) (rest : List ℕ)
    → a < 2 ^ 32
    → b < 2 ^ 32
    → c < 2 ^ 32
    → e < 2 ^ 32
    → decode is_utf8 (u32_bytes a ++ (u32_bytes b ++ (u32_bytes c ++ (u32_bytes e ++ rest)))) ≡ (
        if leb flag_control a
        then decode_control is_utf8 a b c e rest
        else decode_data a b c e rest)
unfolding decode
header-words is_utf8 a b c e rest ha hb hc he =
    let bytes = u32_bytes a ++ (u32_bytes b ++ (u32_bytes c ++ (u32_bytes e ++ rest))) in
    let long : ltb (length bytes) 16 ≡ false = ground arith in
    rw (long, be_u32-bytes a ha, be_u32-bytes b hb, be_u32-bytes c hc, be_u32-bytes e he) refl

-- A data packet whose fields fit the wire decodes from its encoding to itself.
pub decode-encode_data :
    (is_utf8 : List ℕ → Bool) (d : DataPacket)
    → IsDataPacket d
    → decode is_utf8 (encode (data_packet d)) ≡ ok (data_packet d)
unfolding encode
decode-encode_data is_utf8 d h =
    let low : leb flag_control d.seq ≡ false = ground arith in
    let word = decode_data-word d h in
    header-words is_utf8 d.seq (data_word d) d.timestamp d.dest_socket_id d.payload (omega arith)
      word.1 h.2 h.3
    ∙ rw low word.0

control_word_lem : (t s : ℕ) → t < 2 ^ 15 → s < 2 ^ 16 → control_word t s ≡ 2 ^ 31 + t * 2 ^ 16 + s
unfolding control_word
control_word_lem t s ht hs =
    let a : bit_or (1 * 2 ^ 31) (t * 2 ^ 16) ≡ (2 ^ 15 + t) * 2 ^ 16 =
      or_fields 31 1 (t * 2 ^ 16) (omega arith) ∙ omega arith in
    rw (a, or_fields 16 (2 ^ 15 + t) s hs) (omega arith)

-- A control packet whose fields fit the wire, of any body, decodes from its encoding to itself.
pub decode-encode_control :
    (is_utf8 : List ℕ → Bool) (c : ControlPacket)
    → IsBody is_utf8 c.body
    → c.timestamp < 2 ^ 32
    → c.dest_socket_id < 2 ^ 32
    → decode is_utf8 (encode (control_packet c)) ≡ ok (control_packet c)
unfolding encode decode_control
decode-encode_control is_utf8 c h ht hd =
    let f = to_wire-fits is_utf8 c.body h in
    let w = control_word (to_wire c.body).control_type (to_wire c.body).subtype in
    let value : w ≡ 2 ^ 31 + (to_wire c.body).control_type * 2 ^ 16 + (to_wire c.body).subtype =
      control_word_lem _ _ f.0 f.1 in
    let high : leb flag_control w ≡ true = ground arith in
    let t : w / 2 ^ 16 % 2 ^ 15 ≡ (to_wire c.body).control_type = omega arith in
    let s : w % 2 ^ 16 ≡ (to_wire c.body).subtype = omega arith in
    header-words is_utf8 w (to_wire c.body).type_specific c.timestamp c.dest_socket_id
      (encode_cif c.body) (omega arith) f.2 ht hd
    ∙ rw (high, t, s, decode-encode_cif is_utf8 c.body h) refl

aad_word_lem : (d : DataPacket) → aad_word d ≡ data_word (record d { retransmitted = false })
unfolding aad_word data_word
aad_word_lem d = ap (λ w. bit_or w d.message_number) (sym (or-zero _))

-- The authenticated header is the first 16 bytes of the encoding of the packet as it was first
-- sent, whether the packet is a retransmission or not.
pub header_aad-encode :
    (d : DataPacket)
    → header_aad d ≡ take 16 (encode (data_packet (record d { retransmitted = false })))
unfolding encode header_aad
header_aad-encode d = rw (aad_word_lem d) refl
