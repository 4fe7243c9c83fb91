-- ===== src/External/Example.antt =====
-- Operations that stand in for the external code in concrete runs: ciphers that change nothing.
use srtrust.Prelude.{◌+◌, ◌++◌, true, some, drop, replicate}
use srtrust.External.{External}

abbrev pub plain : External
plain = record {
  is_utf8 = λ bytes. true;
  pbkdf2_hmac_sha1 = λ password salt iterations size. replicate size 7;
  kek_wrap = λ kek key. some (replicate 8 0 ++ key);
  kek_unwrap = λ kek bytes. some (drop 8 bytes);
  ctr_apply_keystream = λ key iv bytes. bytes;
  gcm_encrypt = λ key nonce aad bytes. some bytes;
  gcm_decrypt = λ key nonce aad bytes. some bytes;
  f64_from = λ n. n;
  f64_mul = λ a b. a;
  f64_add = λ a b. a + b;
  f64_div = λ a b. a;
  f64_round = λ a. a;
}
