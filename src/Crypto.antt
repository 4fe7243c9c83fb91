-- ===== src/Crypto.antt =====
-- crates/srt-protocol/src/crypto and `CryptoError` of error.rs: Key Material messages, the ciphers
-- and the key slots of a connection. The AES, PBKDF2 and key wrap primitives are parameters.
pub mod KeyMaterial
pub mod Cipher
pub mod Session
mod Tests
use srtrust.Prelude.{ℕ}

pub data CryptoError : Type 0 where
  -- need, got
  too_short : ℕ → ℕ → CryptoError
  unsupported_version : ℕ → CryptoError
  invalid_packet_type : ℕ → CryptoError
  invalid_signature : ℕ → CryptoError
  invalid_key_flags : ℕ → CryptoError
  unsupported_cipher : ℕ → CryptoError
  invalid_salt_length : ℕ → CryptoError
  invalid_key_length : ℕ → CryptoError
  integrity_check_failed auth_failed missing_key_material unexpected_key_material : CryptoError
