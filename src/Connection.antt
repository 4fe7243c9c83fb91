-- ===== src/Connection.antt =====
-- crates/srt-protocol/src/connection.rs: the state of a connection. An `Instant` and a `Duration`
-- are nanoseconds, bytes are lists, a deque is a list with its front first, and the counters and
-- timestamps keep their widths. The handlers stand in the child modules.
mod Tests
pub mod Messages
pub mod Close
pub mod Rekey
pub mod Send
pub mod Retransmit
pub mod Feedback
pub mod Receive
pub mod Setup
pub mod Machine
pub mod Inv
pub mod Ending
pub mod End
pub mod Delivery
use srtrust.Prelude.{ℕ, ◌-◌, ◌/◌, ◌%◌, ◌^◌, max, Bool, false, Option, none, some}
use srtrust.Prelude.{List, [], ◌∷◌, ◌++◌, ltb, if◌then◌else◌}
use srtrust.External.{External}
use srtrust.Seq.{SeqNumber}
use srtrust.Timestamp.{Timestamp, TsbpdWrap}
use srtrust.Packet.{SocketId, PacketPosition, DataPacket}
use srtrust.Control.{ControlBody}
use srtrust.Wire
use srtrust.Wire.{data_packet, control_packet}
use srtrust.Rtt
use srtrust.Rtt.{Duration, RttEstimator}
use srtrust.Rate
use srtrust.Rate.{RateEstimator}
use srtrust.Drift
use srtrust.Drift.{DriftTracer}
use srtrust.LiveCc
use srtrust.LiveCc.{LiveCc}
use srtrust.Fec
use srtrust.Fec.{FecEncoder}
use srtrust.Fec.Receiver
use srtrust.Fec.Receiver.{FecReceiver}
use srtrust.RecvBuffer
use srtrust.RecvBuffer.{RecvBuffer}
use srtrust.SendBuffer
use srtrust.SendBuffer.{Instant, SendBuffer}
use srtrust.Stats
use srtrust.Stats.{Stats}
use srtrust.Crypto.Session.{SessionCrypto}
use srtrust.Config.{Config, FecConfig, from_millis}
use srtrust.Event.{Event, Output, send_datagram}

pub record Fragment : Type 0 where
  pub payload : List ℕ
  pub position : PacketPosition
  pub message : ℕ

pub record Reassembler : Type 0 where
  pub fragments : List (List ℕ)
  pub next_seq : Option SeqNumber

pub data Side : Type 0 where
  caller acceptor : Side

pub data State : Type 0 where
  induction conclusion connected failed : State

pub record Connection : Type 0 where
  pub config : Config
  pub local_socket_id : SocketId
  pub initial_seq : SeqNumber
  pub start : Instant
  pub side : Side
  pub state : State
  pub peer_socket_id : SocketId
  pub syn_cookie : ℕ
  pub last_handshake : Option (List ℕ)
  pub crypto : Option SessionCrypto
  pub key_material : Option (List ℕ)
  pub packets_on_key : ℕ
  pub rekey_pending : Bool
  pub next_key_ready : Bool
  pub pending_km : Option (List ℕ)
  pub km_retries : ℕ
  pub send_buffer : SendBuffer
  pub recv_buffer : RecvBuffer
  pub latency : Duration
  pub tsbpd_base : Option (Timestamp × Instant)
  pub ts_wrap : Option TsbpdWrap
  pub drift : DriftTracer
  pub rtt : RttEstimator
  pub next_send_seq : SeqNumber
  pub next_message : ℕ
  pub next_ack_number : ℕ
  pub pending_acks : List (ℕ × Instant)
  pub last_acked_point : Option SeqNumber
  pub last_acked_avail : Option ℕ
  pub peer_avail_window : ℕ
  pub reported_loss : List (SeqNumber × SeqNumber)
  pub reorder_tolerance : ℕ
  pub highest_recv_seq : Option SeqNumber
  pub orderly_streak : ℕ
  pub last_nak : Option Instant
  pub packets_since_ack : ℕ
  pub exp_count : ℕ
  pub live_cc : Option LiveCc
  pub send_queue : List Fragment
  pub next_send : Option Instant
  pub closing : Bool
  pub last_sent : Instant
  pub last_recv_any : Instant
  pub reassembler : Reassembler
  pub fec_send : Option FecEncoder
  pub fec_recv : Option FecReceiver
  pub stats : Stats
  pub rate : RateEstimator
  pub events : List Event
  pub outputs : List Output

abbrev pub hs_version_udt : ℕ
hs_version_udt = 4

abbrev pub hs_version_srt : ℕ
hs_version_srt = 5

abbrev pub srt_magic : ℕ
srt_magic = 0x4A17

abbrev pub induction_ext_field : ℕ
induction_ext_field = 2

abbrev pub ext_flag_hsreq : ℕ
ext_flag_hsreq = 1

abbrev pub ext_flag_config : ℕ
ext_flag_config = 4

abbrev pub srt_library_version : ℕ
srt_library_version = 0x0001_0504

abbrev pub ext_flag_kmreq : ℕ
ext_flag_kmreq = 2

abbrev pub ext_kmreq : ℕ
ext_kmreq = 3

abbrev pub ext_kmrsp : ℕ
ext_kmrsp = 4

abbrev pub syn_interval : Duration
syn_interval = from_millis 250

abbrev pub km_refresh_default : ℕ
km_refresh_default = 2 ^ 24

-- `events.push_back` and `outputs.push_back`.
unfoldable pub push_event : Connection → Event → Connection
push_event c e = record c { events = c.events ++ (e ∷ []) }

unfoldable pub push_output : Connection → Output → Connection
push_output c o = record c { outputs = c.outputs ++ (o ∷ []) }

unfoldable pub emit : Connection → List ℕ → Instant → Connection
emit c datagram now = record c {
  last_sent = now;
  outputs = c.outputs ++ (send_datagram datagram ∷ []);
}

-- `micros as u32`, of the microseconds since `start`.
unfoldable pub wire_ts : Connection → Instant → Timestamp
wire_ts c now = (now - c.start) / 1000 % 2 ^ 32

unfoldable pub encode_control : SocketId → Timestamp → ControlBody → List ℕ
encode_control dest timestamp body =
    Wire.encode
      (control_packet (record { timestamp = timestamp; dest_socket_id = dest; body = body }))

unfoldable pub encode_data : DataPacket → List ℕ
encode_data packet = Wire.encode (data_packet packet)

abbrev pub option_map {ℓ κ} : {A : Type ℓ} {B : Type κ} → (A → B) → Option A → Option B
option_map f none = none
option_map f (some a) = some (f a)

-- What FEC clips: the MTU less the headers, and at least one byte.
abbrev pub fec_clip : Config → ℕ
fec_clip config = max (config.mtu - 44) 1

unfoldable pub new_base :
    External → Config → SocketId → SeqNumber → Instant → Side → State → Connection
new_base env config local_socket_id initial_seq start side state = record {
  config = config;
  local_socket_id = local_socket_id;
  initial_seq = initial_seq;
  start = start;
  side = side;
  state = state;
  peer_socket_id = 0;
  syn_cookie = 0;
  last_handshake = none;
  crypto = none;
  key_material = none;
  packets_on_key = 0;
  rekey_pending = false;
  next_key_ready = false;
  pending_km = none;
  km_retries = 0;
  send_buffer = SendBuffer.new;
  recv_buffer = RecvBuffer.new initial_seq;
  latency = config.latency;
  tsbpd_base = none;
  ts_wrap = none;
  drift = Drift.new;
  rtt = Rtt.new;
  next_send_seq = initial_seq;
  next_message = 1;
  next_ack_number = 1;
  pending_acks = [];
  last_acked_point = none;
  last_acked_avail = none;
  peer_avail_window = config.flow_window;
  reported_loss = [];
  reorder_tolerance = 0;
  highest_recv_seq = none;
  orderly_streak = 0;
  last_nak = none;
  packets_since_ack = 0;
  exp_count = 1;
  live_cc = if ltb 0 config.max_bw then some (LiveCc.new env config.max_bw) else none;
  send_queue = [];
  next_send = none;
  closing = false;
  last_sent = start;
  last_recv_any = start;
  reassembler = record { fragments = []; next_seq = none };
  fec_send =
      option_map (λ (f : FecConfig). Fec.new_encoder f.group_size (fec_clip config)) config.fec;
  fec_recv = option_map (λ (f : FecConfig). Receiver.new f.group_size (fec_clip config)) config.fec;
  stats = Stats.new;
  rate = Rate.new;
  events = [];
  outputs = [];
}
