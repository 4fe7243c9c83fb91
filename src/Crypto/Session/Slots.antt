-- ===== src/Crypto/Session/Slots.antt =====
-- What one end encrypts, an end with the same key in the flagged slot decrypts.
use srtrust.Prelude.{ℕ, ◌≡◌, refl, sym, ap, ◌∙◌, true, Option, none, some, List, [], length}
use srtrust.Prelude.Result.{Result, ok}
use srtrust.External.{External}
use srtrust.Packet.{Encryption}
use srtrust.Crypto.{CryptoError}
use srtrust.Crypto.KeyMaterial.{CipherMode, ctr, gcm, is_key_length}
use srtrust.Crypto.Cipher.{gcm_nonce, apply_ctr, gcm_encrypt, gcm_decrypt}
use srtrust.Crypto.Session.{
  SessionKeys, SessionCrypto, active_keys, slot_keys, encrypt_with, decrypt_with, encrypt, decrypt,
  expect,
}

-- The documented behaviour of the ciphers: the counter-mode keystream is its own inverse, and GCM
-- encrypts under every key of a valid length and decrypts what it encrypted.
pub record AreCiphers (env : External) : Type 0 where
  pub ctr_inverse :
      (key iv bytes : List ℕ)
      → env.ctr_apply_keystream key iv (env.ctr_apply_keystream key iv bytes) ≡ bytes
  pub gcm_total :
      (key nonce aad bytes : List ℕ)
      → (sealed : List ℕ) × (env.gcm_encrypt key nonce aad bytes ≡ some sealed)
  pub gcm_inverse :
      (key nonce aad bytes sealed : List ℕ)
      → env.gcm_encrypt key nonce aad bytes ≡ some sealed
      → env.gcm_decrypt key nonce aad sealed ≡ some bytes

expect-ok : (r : Result CryptoError (List ℕ)) (bytes : List ℕ) → r ≡ ok bytes → expect r ≡ bytes
expect-ok r bytes e = rw e refl

-- The bytes of a sealed payload.
abbrev bytes_of : Option (List ℕ × Encryption) → List ℕ
bytes_of (some sealed) = sealed.0
bytes_of none = []

module _ (env : External) (laws : AreCiphers env) where
  decrypt_with-ctr :
      (salt sek : List ℕ) (seq : ℕ) (aad bytes : List ℕ)
      → is_key_length (length sek) ≡ true
      → decrypt_with env
          (record { salt = salt; sek = sek; mode = ctr })
          seq
          aad
          (expect (encrypt_with env (record { salt = salt; sek = sek; mode = ctr }) seq aad bytes))
        ≡ some bytes
  unfolding decrypt_with encrypt_with apply_ctr
  decrypt_with-ctr salt sek seq aad bytes h = rw h (ap some (laws.ctr_inverse sek _ bytes))

  decrypt_with-gcm :
      (salt sek : List ℕ) (seq : ℕ) (aad bytes : List ℕ)
      → is_key_length (length sek) ≡ true
      → decrypt_with env
          (record { salt = salt; sek = sek; mode = gcm })
          seq
          aad
          (expect (encrypt_with env (record { salt = salt; sek = sek; mode = gcm }) seq aad bytes))
        ≡ some bytes
  unfolding decrypt_with encrypt_with gcm_encrypt gcm_decrypt
  decrypt_with-gcm salt sek seq aad bytes h =
      let nonce = gcm_nonce salt seq in
      let s = laws.gcm_total sek nonce aad bytes in
      rw (h, s.1, laws.gcm_inverse sek nonce aad bytes s.0 s.1) refl

  decrypt_with-encrypt_with :
      (mode : CipherMode) (salt sek : List ℕ) (seq : ℕ) (aad bytes : List ℕ)
      → is_key_length (length sek) ≡ true
      → decrypt_with env
          (record { salt = salt; sek = sek; mode = mode })
          seq
          aad
          (expect (encrypt_with env (record { salt = salt; sek = sek; mode = mode }) seq aad bytes))
        ≡ some bytes
  decrypt_with-encrypt_with ctr salt sek seq aad bytes h = decrypt_with-ctr salt sek seq aad bytes h
  decrypt_with-encrypt_with gcm salt sek seq aad bytes h = decrypt_with-gcm salt sek seq aad bytes h

  encrypt-active :
      (sender : SessionCrypto) (keys : SessionKeys) (seq : ℕ) (aad payload : List ℕ)
      → active_keys sender ≡ some keys
      → bytes_of (encrypt env sender seq aad payload)
        ≡ expect (encrypt_with env keys seq aad payload)
  unfolding encrypt
  encrypt-active sender keys seq aad payload a = rw (a, encrypt) refl

  decrypt-slot :
      (receiver : SessionCrypto) (keys : SessionKeys) (seq : ℕ) (aad sealed : List ℕ)
      (flag : Encryption)
      → slot_keys receiver flag ≡ some keys
      → decrypt env receiver seq flag aad sealed ≡ decrypt_with env keys seq aad sealed
  unfolding decrypt
  decrypt-slot receiver keys seq aad sealed flag s = rw (s, decrypt) refl

-- What an end encrypts under its active key, an end that holds this key in the slot that the packet
-- names decrypts, with the same sequence number and header: it gets the payload back. The key has
-- a valid length, and the ciphers behave as documented.
pub decrypt-encrypt :
    (env : External) (laws : AreCiphers env) (sender receiver : SessionCrypto) (keys : SessionKeys)
    (seq : ℕ) (aad payload sealed : List ℕ) (flag : Encryption)
    → active_keys sender ≡ some keys
    → slot_keys receiver flag ≡ some keys
    → is_key_length (length keys.sek) ≡ true
    → encrypt env sender seq aad payload ≡ some (sealed, flag)
    → decrypt env receiver seq flag aad sealed ≡ some payload
decrypt-encrypt env laws sender receiver keys seq aad payload sealed flag a s h e =
    let sent : expect (encrypt_with env keys seq aad payload) ≡ sealed =
      sym (encrypt-active env laws sender keys seq aad payload a) ∙ ap bytes_of e in
    decrypt-slot env laws receiver keys seq aad sealed flag s
    ∙ ap (decrypt_with env keys seq aad) (sym sent)
    ∙ decrypt_with-encrypt_with env laws keys.mode keys.salt keys.sek seq aad payload h
