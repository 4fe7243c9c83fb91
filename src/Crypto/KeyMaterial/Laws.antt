-- ===== src/Crypto/KeyMaterial/Laws.antt =====
-- The round trip of Key Material.
use srtrust.Prelude.{
  ◌%◌, ◌/◌, ◌+◌, ◌*◌, ◌≡◌, ◌⊎◌, refl, ap, ◌∙◌, sym, arith, true, false, ◌++◌, length, length-append,
  take, drop, take-all, take_append_left, drop_append_left, ltb,
}
use srtrust.Prelude.Result.{Result, ok, ◌>>=◌}
use srtrust.Crypto.{CryptoError}
use srtrust.Crypto.KeyMaterial.{
  CipherMode, ctr, gcm, KeyFlags, even, odd, both, cipher_to_wire, cipher_from_wire, to_kk, from_kk,
  is_key_length, KeyMaterial, encode, decode, decode_keys, wrapped_len, salt_len,
}

-- A message with one of the three key lengths, a full salt and the keys of its flags.
pub record IsKeyMaterial (km : KeyMaterial) : Type 0 where
  pub key_size : (km.key_length ≡ 16) ⊎ (km.key_length ≡ 24) ⊎ (km.key_length ≡ 32)
  pub salt_size : length km.salt ≡ 16
  pub wrapped_size : length km.wrapped ≡ wrapped_len km.key_flags km.key_length

cipher-back : (c : CipherMode) → cipher_from_wire (cipher_to_wire c) ≡ ok c
cipher-back ctr = refl
cipher-back gcm = refl

flags-back : (f : KeyFlags) → from_kk (to_kk f % 4) ≡ ok f
flags-back even = refl
flags-back odd = refl
flags-back both = refl

decode-decode_keys :
    (km : KeyMaterial) → decode (encode km) ≡ decode_keys (encode km) km.key_flags km.cipher
unfolding decode encode
decode-decode_keys km =
    let long : ltb (length (encode km)) 16 ≡ false =
      ground (arith, length-append km.salt km.wrapped) in
    rw long (
      ap
        (λ (r : Result CryptoError KeyFlags). r >>= λ flags.
          cipher_from_wire (cipher_to_wire km.cipher) >>= λ c. decode_keys (encode km) flags c)
        (flags-back km.key_flags)
      ∙ ap
          (λ (r : Result CryptoError CipherMode). r >>= λ c. decode_keys (encode km) km.key_flags c)
          (cipher-back km.cipher))

decode_keys-encode :
    (km : KeyMaterial) → IsKeyMaterial km → decode_keys (encode km) km.key_flags km.cipher ≡ ok km
unfolding decode_keys encode
decode_keys-encode km v =
    let n : km.key_length / 4 * 4 ≡ km.key_length = omega (arith, v.key_size) in
    let size : is_key_length km.key_length ≡ true = ground (arith, v.key_size) in
    let salt : take 16 (km.salt ++ km.wrapped) ≡ km.salt =
      ap (λ k. take k (km.salt ++ km.wrapped)) (sym v.salt_size)
      ∙ take_append_left km.salt km.wrapped in
    let rest : drop 16 (km.salt ++ km.wrapped) ≡ km.wrapped =
      ap (λ k. drop k (km.salt ++ km.wrapped)) (sym v.salt_size)
      ∙ drop_append_left km.salt km.wrapped in
    let keys : take (wrapped_len km.key_flags km.key_length) km.wrapped ≡ km.wrapped =
      take-all km.wrapped _ (omega (arith, v.wrapped_size)) in
    let enough : ltb (length (km.salt ++ km.wrapped))
          (salt_len + wrapped_len km.key_flags km.key_length)
        ≡ false =
      ground (arith, length-append km.salt km.wrapped, v.salt_size, v.wrapped_size) in
    rw (n, size, enough, salt, rest, keys) refl

-- A Key Material message with a key of 16, 24 or 32 bytes, a salt of 16 and the wrapped keys of its
-- flags decodes from its encoding to itself.
pub decode-encode_key_material : (km : KeyMaterial) → IsKeyMaterial km → decode (encode km) ≡ ok km
decode-encode_key_material km v = decode-decode_keys km ∙ decode_keys-encode km v
