-- ===== src/Crypto/KeyMaterial.antt =====
-- crates/srt-protocol/src/crypto/key_material.rs: the Key Material message. A read at a cursor is a
-- read at its offset.
pub mod Laws
use srtrust.Prelude.{
  ℕ, ◌+◌, ◌*◌, ◌/◌, ◌%◌, ◌^◌, Bool, not, List, [], ◌∷◌, ◌++◌, ltb, ◌==◌, ◌||◌, if◌then◌else◌,
}
use srtrust.Prelude.{length, take, drop, get_or, u16_at, u16_bytes, u32_bytes}
use srtrust.Prelude.Result.{Result, ok, err, ◌>>=◌}
use srtrust.Crypto.{
  CryptoError, too_short, unsupported_version, invalid_packet_type, invalid_signature,
  invalid_key_flags, unsupported_cipher, invalid_salt_length, invalid_key_length,
}

abbrev pub header_len : ℕ
header_len = 16

abbrev pub salt_words : ℕ
salt_words = 4

abbrev pub salt_len : ℕ
salt_len = salt_words * 4

abbrev pub icv_len : ℕ
icv_len = 8

abbrev pub km_version : ℕ
km_version = 1

abbrev pub pt_keying_material : ℕ
pt_keying_material = 2

abbrev pub sign : ℕ
sign = 0x2029

abbrev pub se_mpegts_srt : ℕ
se_mpegts_srt = 2

pub data CipherMode : Type 0 where
  ctr gcm : CipherMode

abbrev pub cipher_to_wire : CipherMode → ℕ
cipher_to_wire ctr = 2
cipher_to_wire gcm = 4

abbrev pub cipher_from_wire : ℕ → Result CryptoError CipherMode
cipher_from_wire cipher =
    if cipher == 2 then ok ctr else if cipher == 4 then ok gcm else err (unsupported_cipher cipher)

abbrev pub is_gcm : CipherMode → Bool
is_gcm ctr = Bool.false
is_gcm gcm = Bool.true

pub data KeyFlags : Type 0 where
  even odd both : KeyFlags

abbrev pub to_kk : KeyFlags → ℕ
to_kk even = 1
to_kk odd = 2
to_kk both = 3

abbrev pub from_kk : ℕ → Result CryptoError KeyFlags
from_kk kk =
    if kk == 1
    then ok even
    else if kk == 2
    then ok odd
    else if kk == 3
    then ok both
    else err (invalid_key_flags kk)

abbrev pub key_count : KeyFlags → ℕ
key_count both = 2
key_count even = 1
key_count odd = 1

pub record KeyMaterial : Type 0 where
  pub key_flags : KeyFlags
  pub cipher : CipherMode
  pub key_length : ℕ
  pub salt : List ℕ
  pub wrapped : List ℕ

abbrev pub auth_byte : CipherMode → ℕ
auth_byte ctr = 0
auth_byte gcm = 1

unfoldable pub encode : KeyMaterial → List ℕ
encode km =
    ((km_version * 16 + pt_keying_material) ∷ u16_bytes sign)
    ++ ((to_kk km.key_flags ∷ u32_bytes 0)
        ++ ((cipher_to_wire km.cipher ∷ auth_byte km.cipher ∷ se_mpegts_srt ∷ 0 ∷ u16_bytes 0)
            ++ ((salt_words ∷ km.key_length / 4 ∷ km.salt) ++ km.wrapped)))

abbrev pub wrapped_len : KeyFlags → ℕ → ℕ
wrapped_len flags key_length = key_count flags * key_length + icv_len

abbrev pub is_key_length : ℕ → Bool
is_key_length n = n == 16 || n == 24 || n == 32

-- The end of `decode`, once the flags and the cipher are known.
unfoldable pub decode_keys : List ℕ → KeyFlags → CipherMode → Result CryptoError KeyMaterial
decode_keys buf flags cipher =
    let key_length = get_or buf 15 0 * 4 in
    if not (get_or buf 14 0 * 4 == salt_len)
    then err (invalid_salt_length (get_or buf 14 0 * 4))
    else if not (is_key_length key_length)
    then err (invalid_key_length key_length)
    else if ltb (length (drop header_len buf)) (salt_len + wrapped_len flags key_length)
    then err (too_short (header_len + salt_len + wrapped_len flags key_length) (length buf))
    else ok (record {
      key_flags = flags;
      cipher = cipher;
      key_length = key_length;
      salt = take salt_len (drop header_len buf);
      wrapped = take (wrapped_len flags key_length) (drop salt_len (drop header_len buf));
    })

unfoldable pub decode : List ℕ → Result CryptoError KeyMaterial
unfolding decode_keys
decode buf =
    let b0 = get_or buf 0 0 in
    if ltb (length buf) header_len
    then err (too_short header_len (length buf))
    else if not (b0 / 16 % 8 == km_version)
    then err (unsupported_version (b0 / 16 % 8))
    else if not (b0 % 16 == pt_keying_material)
    then err (invalid_packet_type (b0 % 16))
    else if not (u16_at buf 1 == sign)
    then err (invalid_signature (u16_at buf 1))
    else (from_kk (get_or buf 3 0 % 4) >>= λ flags.
        cipher_from_wire (get_or buf 8 0) >>= λ cipher. decode_keys buf flags cipher)
