-- ===== src/External.antt =====
-- The code that the crates call and that is not in the repository, as operations that the
-- definitions take: UTF-8 validation of the standard library, the RustCrypto crates (pbkdf2, aes-kw,
-- ctr, aes-gcm) and f64 arithmetic. A f64 is its 64 bits, and bytes are numbers below 256.
pub mod Example
use srtrust.Prelude.{ℕ, Bool, Option, List}

pub record External : Type 0 where
  -- `String::from_utf8(bytes).is_ok()`.
  pub is_utf8 : List ℕ → Bool
  -- password, salt, iterations, length
  pub pbkdf2_hmac_sha1 : List ℕ → List ℕ → ℕ → ℕ → List ℕ
  -- `Kek::wrap` and `Kek::unwrap`: key encryption key, key
  pub kek_wrap : List ℕ → List ℕ → Option (List ℕ)
  pub kek_unwrap : List ℕ → List ℕ → Option (List ℕ)
  -- `apply_keystream` of AES in counter mode: key, initial counter block, data
  pub ctr_apply_keystream : List ℕ → List ℕ → List ℕ → List ℕ
  -- AES-GCM: key, nonce, additional data, message
  pub gcm_encrypt : List ℕ → List ℕ → List ℕ → List ℕ → Option (List ℕ)
  pub gcm_decrypt : List ℕ → List ℕ → List ℕ → List ℕ → Option (List ℕ)
  -- `n as f64`, `a * b`, `a + b`, `a / b`, `x.round() as u64`
  pub f64_from : ℕ → ℕ
  pub f64_mul : ℕ → ℕ → ℕ
  pub f64_add : ℕ → ℕ → ℕ
  pub f64_div : ℕ → ℕ → ℕ
  pub f64_round : ℕ → ℕ
