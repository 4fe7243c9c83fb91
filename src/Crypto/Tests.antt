-- ===== src/Crypto/Tests.antt =====
-- Concrete inputs for the theorems of Key Material and of the key slots.
use srtrust.Prelude.{◌≡◌, refl, sym, some, none, inl, [], ◌∷◌, replicate}
use srtrust.Prelude.Result.{ok}
use srtrust.External.Example.{plain}
use srtrust.Packet.{Encryption}
use srtrust.Crypto.KeyMaterial.{KeyMaterial, KeyFlags, gcm, encode, decode}
use srtrust.Crypto.KeyMaterial.Laws.{decode-encode_key_material}
use srtrust.Crypto.Session.{SessionKeys, SessionCrypto, encrypt, decrypt}
use srtrust.Crypto.Session.Slots.{AreCiphers, decrypt-encrypt}

abbrev material : KeyMaterial
material = record {
  key_flags = KeyFlags.even;
  cipher = gcm;
  key_length = 16;
  salt = replicate 16 3;
  wrapped = replicate 24 9;
}

decode-encode_key_material_example : decode (encode material) ≡ ok material
decode-encode_key_material_example =
    decode-encode_key_material material
      (record { key_size = inl refl; salt_size = refl; wrapped_size = refl })

plain-AreCiphers : AreCiphers plain
plain-AreCiphers = record {
  ctr_inverse = λ key iv bytes. refl;
  gcm_total = λ key nonce aad bytes. (bytes, refl);
  gcm_inverse = λ key nonce aad bytes sealed e. sym e;
}

abbrev session_keys : SessionKeys
session_keys = record { salt = replicate 16 3; sek = replicate 16 5; mode = gcm }

-- A sender that has switched to the odd key, and a receiver that has just installed it.
abbrev sender : SessionCrypto
sender = record { even = none; odd = some session_keys; active = Encryption.odd }

abbrev receiver : SessionCrypto
receiver = record { even = none; odd = some session_keys; active = Encryption.even }

decrypt-encrypt_example :
    decrypt plain receiver 9 Encryption.odd [] (1 ∷ 2 ∷ []) ≡ some (1 ∷ 2 ∷ [])
unfolding encrypt srtrust.Crypto.Cipher.gcm_encrypt
decrypt-encrypt_example =
    decrypt-encrypt plain plain-AreCiphers sender receiver session_keys 9 [] (1 ∷ 2 ∷ [])
      (1 ∷ 2 ∷ []) Encryption.odd refl refl refl refl
