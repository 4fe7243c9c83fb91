-- ===== src/Config/Limits.antt =====
-- The limits that a validated configuration keeps.
use srtrust.Prelude.{◌≤◌, ◌≡◌, ◌↔◌, arith, Option, none, some, length}
use srtrust.Prelude.Result.{ok}
use srtrust.Config.{
  Config, EncryptionSettings, validate, validate_encryption, validate_timeouts, min_latency,
  min_mtu, max_mtu, min_flow_window, min_passphrase, max_passphrase, min_connect_timeout,
  min_peer_idle_timeout,
}

abbrev pub IsPassphrase : Option EncryptionSettings → Type 0
IsPassphrase none = Unit {0}
IsPassphrase (some enc) =
    (min_passphrase ≤ length enc.passphrase) × (length enc.passphrase ≤ max_passphrase)

-- Every limit at once.
pub record IsWithinLimits (c : Config) : Type 0 where
  pub latency : min_latency ≤ c.latency
  pub mtu_low : min_mtu ≤ c.mtu
  pub mtu_high : c.mtu ≤ max_mtu
  pub flow_window : min_flow_window ≤ c.flow_window
  pub passphrase : IsPassphrase c.encryption
  pub connect_timeout : min_connect_timeout ≤ c.connect_timeout
  pub peer_idle_timeout : min_peer_idle_timeout ≤ c.peer_idle_timeout

within-encryption :
    (c : Config) (o : Option EncryptionSettings)
    → validate_encryption c o ≡ ok tt
    → IsPassphrase o
      × (min_connect_timeout ≤ c.connect_timeout)
      × (min_peer_idle_timeout ≤ c.peer_idle_timeout)
unfolding validate_encryption validate_timeouts
within-encryption c none h = ground arith
within-encryption c (some enc) h = ground arith

encryption-within :
    (c : Config) (o : Option EncryptionSettings)
    → IsPassphrase o
    → min_connect_timeout ≤ c.connect_timeout
    → min_peer_idle_timeout ≤ c.peer_idle_timeout
    → validate_encryption c o ≡ ok tt
unfolding validate_encryption validate_timeouts
encryption-within c none p t u = ground arith
encryption-within c (some enc) p t u = ground arith

within-front :
    (c : Config)
    → validate c ≡ ok tt
    → (min_latency ≤ c.latency)
      × (min_mtu ≤ c.mtu)
      × (c.mtu ≤ max_mtu)
      × (min_flow_window ≤ c.flow_window)
      × (validate_encryption c c.encryption ≡ ok tt)
unfolding validate
within-front c h = ground arith

validate-within : (c : Config) → validate c ≡ ok tt → IsWithinLimits c
validate-within c h =
    let front = within-front c h in
    let rest = within-encryption c c.encryption front.4 in
    record {
      latency = front.0;
      mtu_low = front.1;
      mtu_high = front.2;
      flow_window = front.3;
      passphrase = rest.0;
      connect_timeout = rest.1;
      peer_idle_timeout = rest.2;
    }

within-validate : (c : Config) → IsWithinLimits c → validate c ≡ ok tt
unfolding validate
within-validate c l =
    ground
      (arith, encryption-within c c.encryption l.passphrase l.connect_timeout l.peer_idle_timeout)

-- `validate` accepts a configuration exactly when all its limits are kept: a latency of at least 20
-- ms, an MTU from 76 to 1500, a flow window of at least 32, a passphrase (if there is one) of 10 to
-- 79 bytes, a connect timeout of at least 100 ms and a peer idle timeout of at least 1 s.
pub validate_iff : (c : Config) → (validate c ≡ ok tt) ↔ IsWithinLimits c
validate_iff c = (validate-within c, within-validate c)
