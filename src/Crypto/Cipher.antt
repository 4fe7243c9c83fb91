-- ===== src/Crypto/Cipher.antt =====
-- crates/srt-protocol/src/crypto: cipher.rs (nonces, counters and the two ciphers), kek.rs and
-- wrap.rs. The `expect` of the callers is on an `InvalidKeyLength`, which no valid key gives.
use srtrust.Prelude.{ℕ, bit_xor, Option, none, some, List, [], ◌∷◌, ◌++◌, ltb, if◌then◌else◌}
use srtrust.Prelude.{length, take, drop, replicate, u32_bytes}
use srtrust.Prelude.Result.{Result, ok, err}
use srtrust.External.{External}
use srtrust.Crypto.{CryptoError, integrity_check_failed, invalid_key_length, auth_failed}
use srtrust.Crypto.KeyMaterial.{is_key_length}

-- `for (slot, b) in slots.iter_mut().zip(bytes) { *slot ^= b }`.
abbrev pub xor_zip : List ℕ → List ℕ → List ℕ
xor_zip [] bytes = []
xor_zip (slot ∷ slots) [] = slot ∷ slots
xor_zip (slot ∷ slots) (b ∷ bytes) = bit_xor slot b ∷ xor_zip slots bytes

unfoldable pub gcm_nonce : List ℕ → ℕ → List ℕ
gcm_nonce salt seq = xor_zip (replicate 8 0 ++ u32_bytes seq) (take 12 salt)

unfoldable pub counter_block : List ℕ → ℕ → List ℕ
counter_block salt seq =
    take 10 salt ++ (xor_zip (take 4 (drop 10 salt)) (u32_bytes seq) ++ (0 ∷ 0 ∷ []))

abbrev pub wrap_overhead : ℕ
wrap_overhead = 8

abbrev pub ok_or : {A : Type 0} → Option A → CryptoError → Result CryptoError A
ok_or none e = err e
ok_or (some a) e = ok a

module _ (env : External) where
  unfoldable pub derive_kek : List ℕ → List ℕ → ℕ → List ℕ
  derive_kek passphrase salt key_length =
      env.pbkdf2_hmac_sha1 passphrase (drop 8 salt) 2048 key_length

  unfoldable pub wrap_key : List ℕ → List ℕ → Result CryptoError (List ℕ)
  wrap_key kek sek =
      if is_key_length (length kek)
      then ok_or (env.kek_wrap kek sek) (invalid_key_length (length kek))
      else err (invalid_key_length (length kek))

  unfoldable pub unwrap_key : List ℕ → List ℕ → Result CryptoError (List ℕ)
  unwrap_key kek wrapped =
      if ltb (length wrapped) wrap_overhead
      then err integrity_check_failed
      else if is_key_length (length kek)
      then ok_or (env.kek_unwrap kek wrapped) integrity_check_failed
      else err integrity_check_failed

  unfoldable pub apply_ctr : List ℕ → List ℕ → ℕ → List ℕ → Result CryptoError (List ℕ)
  unfolding counter_block
  apply_ctr sek salt seq bytes =
      if is_key_length (length sek)
      then ok (env.ctr_apply_keystream sek (counter_block salt seq) bytes)
      else err (invalid_key_length (length sek))

  unfoldable pub gcm_encrypt : List ℕ → List ℕ → ℕ → List ℕ → List ℕ → Result CryptoError (List ℕ)
  unfolding gcm_nonce
  gcm_encrypt sek salt seq aad plaintext =
      if is_key_length (length sek)
      then ok_or (env.gcm_encrypt sek (gcm_nonce salt seq) aad plaintext) auth_failed
      else err (invalid_key_length (length sek))

  unfoldable pub gcm_decrypt : List ℕ → List ℕ → ℕ → List ℕ → List ℕ → Result CryptoError (List ℕ)
  unfolding gcm_nonce
  gcm_decrypt sek salt seq aad bytes =
      if is_key_length (length sek)
      then ok_or (env.gcm_decrypt sek (gcm_nonce salt seq) aad bytes) auth_failed
      else err (invalid_key_length (length sek))
