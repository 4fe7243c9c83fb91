-- ===== src/LiveCc.antt =====
-- crates/srt-protocol/src/live_cc.rs: the sender's pacing period. The f64 operations are parameters
-- of External, and a Duration is its nanoseconds.
use srtrust.Prelude.{ℕ, ◌+◌, ◌-◌, ◌*◌, ◌/◌, ◌%◌, ◌^◌, ltb, if◌then◌else◌}
use srtrust.External.{External}
use srtrust.Rtt.{Duration, from_micros}

abbrev pub max_payload : ℕ
max_payload = 1456

abbrev pub wire_overhead : ℕ
wire_overhead = 44

pub record LiveCc : Type 0 where
  pub max_bw : ℕ
  pub avg_payload : ℕ
  pub snd_period : Duration

abbrev pub saturating_mul : ℕ → ℕ → ℕ
saturating_mul a b = if ltb (a * b) (2 ^ 64) then a * b else 2 ^ 64 - 1

module _ (env : External) where
  -- `max_bw` is not zero.
  unfoldable pub compute_period : LiveCc → Duration
  compute_period cc =
      let pkt_size = (env.f64_round cc.avg_payload + wire_overhead) % 2 ^ 64 in
      from_micros (saturating_mul pkt_size 1_000_000 / cc.max_bw)

  unfoldable pub new : ℕ → LiveCc
  unfolding compute_period
  new max_bw =
      let cc : LiveCc = record {
        max_bw = max_bw;
        avg_payload = env.f64_from max_payload;
        snd_period = 0;
      } in
      record cc { snd_period = compute_period cc }

  unfoldable pub on_packet_sent : LiveCc → ℕ → LiveCc
  on_packet_sent cc payload_size =
      let eighths = λ (n : ℕ). env.f64_div (env.f64_from n) (env.f64_from 8) in
      record cc {
        avg_payload =
            env.f64_add (env.f64_mul (eighths 7) cc.avg_payload)
              (env.f64_mul (eighths 1) (env.f64_from payload_size));
      }

  unfoldable pub on_ack : LiveCc → LiveCc
  unfolding compute_period
  on_ack cc = record cc { snd_period = compute_period cc }
