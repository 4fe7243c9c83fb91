-- ===== src/Stats.antt =====
-- crates/srt-protocol/src/stats.rs: the counters of a connection. A u64 counter takes the
-- wrap-around of a release build, which no connection reaches.
use srtrust.Prelude.{ℕ}

pub record Stats : Type 0 where
  pub packets_sent : ℕ
  pub bytes_sent : ℕ
  pub packets_retransmitted : ℕ
  pub bytes_retransmitted : ℕ
  pub packets_received : ℕ
  pub bytes_received : ℕ
  pub packets_dropped : ℕ
  pub packets_dropped_sent : ℕ
  pub packets_duplicate : ℕ
  pub packets_undecryptable : ℕ
  pub packets_recovered : ℕ
  pub rtt_us : ℕ
  pub rtt_var_us : ℕ
  pub flight_size : ℕ
  pub recv_buffer_packets : ℕ
  pub recv_rate_pps : ℕ
  pub recv_rate_bps : ℕ
  pub link_capacity_pps : ℕ
  pub acks_sent : ℕ
  pub acks_received : ℕ
  pub naks_sent : ℕ
  pub naks_received : ℕ
  pub send_buffer_packets : ℕ
  pub latency_ms : ℕ
  pub packets_dropped_full : ℕ

-- `#[derive(Default)]`.
abbrev pub new : Stats
new = record {
  packets_sent = 0;
  bytes_sent = 0;
  packets_retransmitted = 0;
  bytes_retransmitted = 0;
  packets_received = 0;
  bytes_received = 0;
  packets_dropped = 0;
  packets_dropped_sent = 0;
  packets_duplicate = 0;
  packets_undecryptable = 0;
  packets_recovered = 0;
  rtt_us = 0;
  rtt_var_us = 0;
  flight_size = 0;
  recv_buffer_packets = 0;
  recv_rate_pps = 0;
  recv_rate_bps = 0;
  link_capacity_pps = 0;
  acks_sent = 0;
  acks_received = 0;
  naks_sent = 0;
  naks_received = 0;
  send_buffer_packets = 0;
  latency_ms = 0;
  packets_dropped_full = 0;
}
