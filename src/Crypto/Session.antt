-- ===== src/Crypto/Session.antt =====
-- crates/srt-protocol/src/crypto/mod.rs: the keys of a session and its even and odd slots.
pub mod Slots
use srtrust.Prelude.{
  ℕ, ◌*◌, Bool, Option, none, some, List, [], ◌==◌, not, if◌then◌else◌, length, take, drop,
}
use srtrust.Prelude.Result.{Result, ok, err, map_ok, ◌>>=◌}
use srtrust.External.{External}
use srtrust.Packet.{Encryption}
use srtrust.Crypto.{CryptoError, invalid_key_length}
use srtrust.Crypto.KeyMaterial
use srtrust.Crypto.KeyMaterial.{CipherMode, ctr, gcm, is_gcm, KeyFlags, key_count, KeyMaterial}
use srtrust.Crypto.Cipher.{derive_kek, wrap_key, unwrap_key, apply_ctr, gcm_encrypt, gcm_decrypt}

pub record SessionKeys : Type 0 where
  pub salt : List ℕ
  pub sek : List ℕ
  pub mode : CipherMode

pub record UnwrappedKm : Type 0 where
  pub even : Option SessionKeys
  pub odd : Option SessionKeys

pub record SessionCrypto : Type 0 where
  pub even : Option SessionKeys
  pub odd : Option SessionKeys
  pub active : Encryption

abbrev pub with_even : SessionKeys → SessionCrypto
with_even keys = record { even = some keys; odd = none; active = Encryption.even }

abbrev pub from_initial : UnwrappedKm → SessionCrypto
from_initial km = record {
  even = km.even;
  odd = km.odd;
  active = elim km.even [ some keys ↦ Encryption.even | none ↦ Encryption.odd ];
}

abbrev pub or_else : {A : Type 0} → Option A → Option A → Option A
or_else (some a) other = some a
or_else none other = other

abbrev pub install_unwrapped : SessionCrypto → UnwrappedKm → SessionCrypto
install_unwrapped c km = record c { even = or_else km.even c.even; odd = or_else km.odd c.odd }

abbrev pub install : SessionCrypto → KeyFlags → SessionKeys → SessionCrypto
install c KeyFlags.odd keys = record c { odd = some keys }
install c KeyFlags.even keys = record c { even = some keys }
install c KeyFlags.both keys = record c { even = some keys }

abbrev pub next_flags : SessionCrypto → KeyFlags
next_flags c = elim c.active [ Encryption.odd ↦ KeyFlags.even | _ ↦ KeyFlags.odd ]

abbrev pub session_salt : SessionCrypto → Option (List ℕ)
session_salt c = elim (or_else c.even c.odd) [ some keys ↦ some keys.salt | none ↦ none ]

abbrev pub activate : SessionCrypto → KeyFlags → SessionCrypto
activate c KeyFlags.odd = record c { active = Encryption.odd }
activate c KeyFlags.even = record c { active = Encryption.even }
activate c KeyFlags.both = record c { active = Encryption.even }

-- The slot that outgoing packets use.
abbrev pub active_keys : SessionCrypto → Option SessionKeys
active_keys c = elim c.active [ Encryption.odd ↦ c.odd | _ ↦ c.even ]

abbrev pub is_aead : SessionCrypto → Bool
is_aead c = elim (active_keys c) [ some keys ↦ is_gcm keys.mode | none ↦ Bool.false ]

-- The slot that the flag of a received packet selects.
abbrev pub slot_keys : SessionCrypto → Encryption → Option SessionKeys
slot_keys c Encryption.even = c.even
slot_keys c Encryption.odd = c.odd
slot_keys c Encryption.none = none

-- `Result::expect`, with no bytes where the source would panic.
abbrev expect : Result CryptoError (List ℕ) → List ℕ
expect (ok bytes) = bytes
expect (err e) = []

abbrev as_option : Result CryptoError (List ℕ) → Option (List ℕ)
as_option (ok bytes) = some bytes
as_option (err e) = none

abbrev pub make_keys : KeyMaterial → List ℕ → SessionKeys
make_keys km bytes = record { salt = km.salt; sek = bytes; mode = km.cipher }

abbrev pub split_keys : KeyMaterial → List ℕ → UnwrappedKm
split_keys km sek = elim km.key_flags [
  | KeyFlags.even ↦ record { even = some (make_keys km sek); odd = none }
  | KeyFlags.odd ↦ record { even = none; odd = some (make_keys km sek) }
  | KeyFlags.both ↦ record {
    even = some (make_keys km (take km.key_length sek));
    odd = some (make_keys km (drop km.key_length sek));
  }
]

module _ (env : External) where
  -- The `Err` cases are those on which the source panics.
  unfoldable pub encrypt_with : SessionKeys → ℕ → List ℕ → List ℕ → Result CryptoError (List ℕ)
  encrypt_with k seq aad plaintext = elim k.mode [
    | ctr ↦ apply_ctr env k.sek k.salt seq plaintext
    | gcm ↦ gcm_encrypt env k.sek k.salt seq aad plaintext
  ]

  unfoldable pub decrypt_with : SessionKeys → ℕ → List ℕ → List ℕ → Option (List ℕ)
  decrypt_with k seq aad bytes = elim k.mode [
    | ctr ↦ some (expect (apply_ctr env k.sek k.salt seq bytes))
    | gcm ↦ as_option (gcm_decrypt env k.sek k.salt seq aad bytes)
  ]

  -- `none` is the panic of "active key slot is always populated".
  unfoldable pub encrypt : SessionCrypto → ℕ → List ℕ → List ℕ → Option (List ℕ × Encryption)
  unfolding encrypt_with
  encrypt c seq aad payload = elim (active_keys c) [
    | none ↦ none
    | some keys ↦ some (expect (encrypt_with keys seq aad payload), c.active)
  ]

  unfoldable pub decrypt : SessionCrypto → ℕ → Encryption → List ℕ → List ℕ → Option (List ℕ)
  unfolding decrypt_with
  decrypt c seq flag aad payload = elim (slot_keys c flag) [
    | none ↦ none
    | some keys ↦ decrypt_with keys seq aad payload
  ]

  unfoldable pub build_key_material_for :
      List ℕ → KeyFlags → CipherMode → List ℕ → List ℕ → KeyMaterial
  build_key_material_for passphrase flags cipher salt sek = record {
    key_flags = flags;
    cipher = cipher;
    key_length = length sek;
    salt = salt;
    wrapped = expect (wrap_key env (derive_kek env passphrase salt (length sek)) sek);
  }

  unfoldable pub from_raw :
      List ℕ → KeyFlags → CipherMode → List ℕ → List ℕ → SessionKeys × KeyMaterial
  unfolding build_key_material_for
  from_raw passphrase flags mode salt sek = (
    record { salt = salt; sek = sek; mode = mode },
    build_key_material_for passphrase flags mode salt sek,
  )

  -- `rng` fills the salt first and then the key.
  unfoldable pub generate : List ℕ → CipherMode → List ℕ → List ℕ → SessionKeys × KeyMaterial
  unfolding build_key_material_for
  generate passphrase mode salt sek = (
    record { salt = salt; sek = sek; mode = mode },
    build_key_material_for passphrase KeyFlags.even mode salt sek,
  )

  unfoldable pub from_key_material : KeyMaterial → List ℕ → Result CryptoError UnwrappedKm
  from_key_material km passphrase =
      unwrap_key env (derive_kek env passphrase km.salt km.key_length) km.wrapped >>= λ sek.
      if not (length sek == km.key_length * key_count km.key_flags)
      then err (invalid_key_length (length sek))
      else ok (split_keys km sek)
