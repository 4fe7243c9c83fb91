-- ===== src/Config.antt =====
-- crates/srt-protocol/src/connection/config.rs: the configuration of a connection, its limits, and
-- what a handshake agrees on. A Duration is its nanoseconds, and a text is its bytes.
pub mod Limits
mod Tests
use srtrust.Prelude.{
  ℕ, ◌*◌, ◌≤◌, Bool, not, Option, none, some, List, ltb, leb, ◌&&◌, if◌then◌else◌, length,
}
use srtrust.Prelude.Result.{Result, ok, err}
use srtrust.Seq.{SeqNumber}
use srtrust.Packet.{SocketId}
use srtrust.Rtt.{Duration}
use srtrust.Handshake.Types.{EncryptionField}
use srtrust.Crypto.KeyMaterial.{CipherMode, ctr}

abbrev pub from_millis : ℕ → Duration
from_millis ms = ms * 1_000_000

abbrev pub from_secs : ℕ → Duration
from_secs s = s * 1_000_000_000

pub data ConfigError : Type 0 where
  -- min_ms
  latency_too_low : ℕ → ConfigError
  -- mtu
  mtu_out_of_range : ℕ → ConfigError
  -- min
  flow_window_too_small : ℕ → ConfigError
  -- len
  passphrase_length : ℕ → ConfigError
  connect_timeout_too_low peer_idle_timeout_too_low : ConfigError

pub record FecConfig : Type 0 where
  pub group_size : ℕ

pub data KeySize : Type 0 where
  aes128 aes192 aes256 : KeySize

abbrev pub bytes : KeySize → ℕ
bytes aes128 = 16
bytes aes192 = 24
bytes aes256 = 32

abbrev pub to_field : KeySize → EncryptionField
to_field aes128 = EncryptionField.aes128
to_field aes192 = EncryptionField.aes192
to_field aes256 = EncryptionField.aes256

pub record EncryptionSettings : Type 0 where
  pub passphrase : List ℕ
  pub key_size : KeySize
  pub cipher : CipherMode

pub record Config : Type 0 where
  pub latency : Duration
  pub mtu : ℕ
  pub flow_window : ℕ
  pub stream_id : Option (List ℕ)
  pub encryption : Option EncryptionSettings
  pub max_bw : ℕ
  pub km_refresh_rate : ℕ
  pub fec : Option FecConfig
  pub connect_timeout : Duration
  pub peer_idle_timeout : Duration
  pub linger : Duration

abbrev pub default : Config
default = record {
  latency = from_millis 120;
  mtu = 1500;
  flow_window = 25600;
  stream_id = none;
  encryption = none;
  max_bw = 0;
  km_refresh_rate = 0;
  fec = none;
  connect_timeout = from_secs 3;
  peer_idle_timeout = from_secs 5;
  linger = from_secs 3;
}

abbrev pub with_latency : Config → Duration → Config
with_latency c latency = record c { latency = latency }

abbrev pub with_mtu : Config → ℕ → Config
with_mtu c mtu = record c { mtu = mtu }

abbrev pub with_flow_window : Config → ℕ → Config
with_flow_window c packets = record c { flow_window = packets }

abbrev pub with_stream_id : Config → List ℕ → Config
with_stream_id c stream_id = record c { stream_id = some stream_id }

abbrev pub with_passphrase : Config → List ℕ → Config
with_passphrase c passphrase = record c {
  encryption = some (record { passphrase = passphrase; key_size = aes128; cipher = ctr });
}

abbrev pub with_encryption : Config → EncryptionSettings → Config
with_encryption c encryption = record c { encryption = some encryption }

abbrev pub with_max_bw : Config → ℕ → Config
with_max_bw c bytes_per_second = record c { max_bw = bytes_per_second }

abbrev pub with_km_refresh_rate : Config → ℕ → Config
with_km_refresh_rate c packets = record c { km_refresh_rate = packets }

abbrev pub with_fec : Config → FecConfig → Config
with_fec c fec = record c { fec = some fec }

abbrev pub with_connect_timeout : Config → Duration → Config
with_connect_timeout c timeout = record c { connect_timeout = timeout }

abbrev pub with_peer_idle_timeout : Config → Duration → Config
with_peer_idle_timeout c timeout = record c { peer_idle_timeout = timeout }

abbrev pub with_linger : Config → Duration → Config
with_linger c linger = record c { linger = linger }

abbrev pub min_latency : Duration
min_latency = from_millis 20

abbrev pub min_mtu : ℕ
min_mtu = 76

abbrev pub max_mtu : ℕ
max_mtu = 1500

abbrev pub min_flow_window : ℕ
min_flow_window = 32

abbrev pub min_passphrase : ℕ
min_passphrase = 10

abbrev pub max_passphrase : ℕ
max_passphrase = 79

abbrev pub min_connect_timeout : Duration
min_connect_timeout = from_millis 100

abbrev pub min_peer_idle_timeout : Duration
min_peer_idle_timeout = from_secs 1

-- `(lo..=hi).contains(n)`.
abbrev pub in_range : ℕ → ℕ → ℕ → Bool
in_range lo hi n = leb lo n && leb n hi

-- The end of `validate`, after the passphrase.
unfoldable pub validate_timeouts : Config → Result ConfigError (Unit {0})
validate_timeouts c =
    if ltb c.connect_timeout min_connect_timeout
    then err connect_timeout_too_low
    else if ltb c.peer_idle_timeout min_peer_idle_timeout
    then err peer_idle_timeout_too_low
    else ok tt

-- The middle of `validate`, for a configuration with encryption or without.
unfoldable pub validate_encryption :
    Config → Option EncryptionSettings → Result ConfigError (Unit {0})
unfolding validate_timeouts
validate_encryption c none = validate_timeouts c
validate_encryption c (some enc) =
    if not (in_range min_passphrase max_passphrase (length enc.passphrase))
    then err (passphrase_length (length enc.passphrase))
    else validate_timeouts c

unfoldable pub validate : Config → Result ConfigError (Unit {0})
unfolding validate_encryption
validate c =
    if ltb c.latency min_latency
    then err (latency_too_low 20)
    else if not (in_range min_mtu max_mtu c.mtu)
    then err (mtu_out_of_range c.mtu)
    else if ltb c.flow_window min_flow_window
    then err (flow_window_too_small min_flow_window)
    else validate_encryption c c.encryption

pub record Negotiated : Type 0 where
  pub peer_socket_id : SocketId
  pub peer_initial_seq : SeqNumber
  pub latency : Duration
  pub encryption : EncryptionField
