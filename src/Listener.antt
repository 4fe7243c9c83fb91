-- ===== src/Listener.antt =====
-- crates/srt-protocol/src/listener.rs: the listener, its SYN cookies, and the deferred mode in which
-- the application decides. A deque is a list with its front first; times are nanoseconds.
pub mod Cookie
pub mod Count
pub mod Park
pub mod Pending
pub mod Mint
mod Tests
use srtrust.Prelude.{
  ℕ, zero, suc, ◌+◌, ◌-◌, ◌*◌, ◌/◌, ◌%◌, ◌^◌, bit_xor, Bool, true, false, not, Option, none, some,
}
use srtrust.Prelude.{List, [], ◌∷◌, ◌++◌, set, replicate, ltb, ◌==◌, ◌&&◌, ◌||◌, if◌then◌else◌}
use srtrust.Prelude.{u16_bytes, u32_bytes}
use srtrust.Prelude.Result.{Result, ok, err}
use srtrust.External.{External}
use srtrust.Seq.{SeqNumber}
use srtrust.Timestamp.{Timestamp}
use srtrust.Packet.{SocketId}
use srtrust.SendBuffer.{Instant}
use srtrust.Rtt.{Duration}
use srtrust.Handshake.Types.{
  EncryptionField, HandshakeType, HandshakeExtension, hs_req, hs_rsp, stream_id, raw, Handshake,
  RejectReason, rejection,
}
use srtrust.Handshake.Types
use srtrust.Control.{ControlBody, handshake_body}
use srtrust.Wire
use srtrust.Wire.{data_packet, control_packet}
use srtrust.Crypto.{CryptoError, missing_key_material, unexpected_key_material}
use srtrust.Config.{Config, from_secs}
use srtrust.Event.{ConnectionError, bad_crypto, invalid_state}
use srtrust.Connection.{Connection, srt_magic, hs_version_srt, encode_control}
use srtrust.Connection.Setup.{induction_type, conclusion_type, no_ip, validate_accept, accept}

abbrev pub cookie_quantum : Duration
cookie_quantum = from_secs 60

abbrev pub pending_ttl : Duration
pending_ttl = from_secs 30

-- `SocketAddr` of the standard library: octets and port, and flow info and scope of version 6.
pub data SocketAddr : Type 0 where
  v4 : List ℕ → ℕ → SocketAddr
  v6 : List ℕ → ℕ → ℕ → ℕ → SocketAddr

abbrev pub same_octets : List ℕ → List ℕ → Bool
same_octets [] [] = true
same_octets [] (b ∷ bs) = false
same_octets (a ∷ xs) [] = false
same_octets (a ∷ xs) (b ∷ bs) = (a == b) && same_octets xs bs

abbrev pub same_addr : SocketAddr → SocketAddr → Bool
same_addr (v4 xs p) (v4 ys q) = same_octets xs ys && (p == q)
same_addr (v4 xs p) (v6 ys q f s) = false
same_addr (v6 xs p f s) (v4 ys q) = false
same_addr (v6 xs p f s) (v6 ys q g t) = same_octets xs ys && ((p == q) && ((f == g) && (s == t)))

abbrev pub octets : SocketAddr → List ℕ
octets (v4 xs p) = xs
octets (v6 xs p f s) = xs

abbrev pub port : SocketAddr → ℕ
port (v4 xs p) = p
port (v6 xs p f s) = p

abbrev pub peer_ip : SocketAddr → List ℕ
peer_ip (v4 xs p) = xs ++ replicate 12 0
peer_ip (v6 xs p f s) = xs

pub record PendingConn : Type 0 where
  pub from : SocketAddr
  pub conclusion : Handshake
  pub since : Instant

pub record ConnRequest : Type 0 where
  pub remote_addr : SocketAddr
  pub stream_id : Option (List ℕ)

pub record Listener : Type 0 where
  pub config : Config
  pub local_socket_id : SocketId
  pub local_initial_seq : SeqNumber
  pub cookie_secret : ℕ
  pub start : Instant
  pub responses : List (SocketAddr × List ℕ)
  pub accepted : List Connection
  pub deferred : Bool
  pub pending : List PendingConn
  pub requests : List ConnRequest
  pub accept_counter : ℕ

abbrev pub new : Config → SocketId → SeqNumber → ℕ → Instant → Listener
new config local_socket_id local_initial_seq cookie_secret now = record {
  config = config;
  local_socket_id = local_socket_id;
  local_initial_seq = local_initial_seq;
  cookie_secret = cookie_secret;
  start = now;
  responses = [];
  accepted = [];
  deferred = false;
  pending = [];
  requests = [];
  accept_counter = 0;
}

abbrev pub defer_accepts : Listener → Listener
defer_accepts l = record l { deferred = true }

-- The loop of `mint_socket_id`, on fuel: at most two numbers in a row are refused.
unfoldable pub mint_from : ℕ → SocketId → ℕ → ℕ × SocketId
mint_from zero local counter = (counter, 0)
mint_from (suc fuel) local counter =
    let next = (counter + 1) % 2 ^ 32 in
    let id = bit_xor local next in
    let later = mint_from fuel local next in
    if not (id == 0) && not (id == local) then (next, id) else later

unfoldable pub mint_socket_id : Listener → Listener × SocketId
unfolding mint_from
mint_socket_id l =
    let (counter, id) = mint_from 3 l.local_socket_id l.accept_counter in
    (record l { accept_counter = counter }, id)

abbrev pub fnv_offset : ℕ
fnv_offset = 0xcbf2_9ce4_8422_2325

abbrev pub fnv_prime : ℕ
fnv_prime = 0x0000_0100_0000_01b3

unfoldable pub mix_all : ℕ → List ℕ → ℕ
mix_all h [] = h
mix_all h (byte ∷ bytes) = mix_all (bit_xor h byte * fnv_prime % 2 ^ 64) bytes

abbrev pub u64_bytes : ℕ → List ℕ
u64_bytes n = u32_bytes (n / 2 ^ 32) ++ u32_bytes n

unfoldable pub syn_cookie : ℕ → SocketAddr → ℕ → ℕ
unfolding mix_all
syn_cookie secret from quantum =
    let h =
      mix_all (bit_xor fnv_offset secret)
        (octets from ++ (u16_bytes (port from) ++ u64_bytes quantum)) in
    bit_xor h (h / 2 ^ 32) % 2 ^ 32

unfoldable pub quantum_at : Listener → Instant → ℕ
quantum_at l now = (now - l.start) / 1_000_000_000 / 60

abbrev pub cookie_for : Listener → SocketAddr → ℕ → ℕ
cookie_for l from q = syn_cookie l.cookie_secret from q

unfoldable pub cookie_valid : Listener → ℕ → SocketAddr → Instant → Bool
unfolding quantum_at
cookie_valid l cookie from now =
    let q = quantum_at l now in
    (cookie == cookie_for l from q) || (ltb 0 q && (cookie == cookie_for l from (q - 1)))

abbrev pub wire_ts : Listener → Instant → Timestamp
wire_ts l now = (now - l.start) / 1000 % 2 ^ 32

-- The handshake that answers: an induction response or a rejection.
abbrev pub answer : Listener → ℕ → HandshakeType → ℕ → SocketAddr → Handshake
answer l extension_field handshake_type syn_cookie from = record {
  version = hs_version_srt;
  encryption = EncryptionField.none;
  extension_field = extension_field;
  initial_seq = l.local_initial_seq;
  mtu = l.config.mtu;
  max_flow_window = l.config.flow_window;
  handshake_type = handshake_type;
  srt_socket_id = l.local_socket_id;
  syn_cookie = syn_cookie;
  peer_ip = peer_ip from;
  extensions = [];
}

unfoldable pub respond : Listener → Handshake → SocketAddr → Handshake → Instant → Listener
respond l request from response now =
    let bytes = encode_control request.srt_socket_id (wire_ts l now) (handshake_body response) in
    record l { responses = l.responses ++ ((from, bytes) ∷ []) }

unfoldable pub on_induction : Listener → Handshake → SocketAddr → Instant → Listener
unfolding respond
on_induction l request from now =
    respond l request from
      (answer l srt_magic induction_type (cookie_for l from (quantum_at l now)) from) now

abbrev pub reject_reason : ConnectionError → RejectReason
reject_reason (bad_crypto missing_key_material) = RejectReason.unsecure
reject_reason (bad_crypto unexpected_key_material) = RejectReason.unsecure
reject_reason (bad_crypto _) = RejectReason.bad_secret
reject_reason _ = RejectReason.unknown

unfoldable pub reject : Listener → Handshake → SocketAddr → RejectReason → Instant → Listener
unfolding respond
reject l conclusion from reason now =
    respond l conclusion from (answer l 0 (rejection reason) 0 from) now

-- The first Stream ID extension.
abbrev pub find_stream_id : List HandshakeExtension → Option (List ℕ)
find_stream_id [] = none
find_stream_id (hs_req s ∷ es) = find_stream_id es
find_stream_id (hs_rsp s ∷ es) = find_stream_id es
find_stream_id (stream_id s ∷ es) = some s
find_stream_id (raw t content ∷ es) = find_stream_id es

-- `iter_mut().find(|p| p.from == from)` with the writes of a refresh; `none` with no such entry.
unfoldable pub refresh :
    List PendingConn → Handshake → SocketAddr → Instant → Option (List PendingConn)
refresh [] conclusion from now = none
refresh (p ∷ ps) conclusion from now =
    let rest = refresh ps conclusion from now in
    if same_addr p.from from
    then some (record p { conclusion = conclusion; since = now } ∷ ps)
    else elim rest [ none ↦ none | some qs ↦ some (p ∷ qs) ]

-- `retain` of `feed_recv_buf`.
unfoldable pub expire : List PendingConn → Instant → List PendingConn
expire [] now = []
expire (p ∷ ps) now =
    let rest = expire ps now in if ltb (now - p.since) pending_ttl then p ∷ rest else rest

-- `position(|p| p.from == remote)`, with the entry.
unfoldable pub find_pending : List PendingConn → SocketAddr → Option (ℕ × PendingConn)
find_pending [] remote = none
find_pending (p ∷ ps) remote =
    let rest = find_pending ps remote in
    if same_addr p.from remote
    then some (0, p)
    else elim rest [ none ↦ none | some (i, q) ↦ some (suc i, q) ]

abbrev pub split_last : {A : Type 0} → A → List A → List A × A
split_last x [] = ([], x)
split_last x (y ∷ ys) = let (init, last) = split_last y ys in (x ∷ init, last)

-- `swap_remove` at an index of the list: the last element takes its place.
unfoldable pub swap_remove : {A : Type 0} → List A → ℕ → List A
swap_remove [] i = []
swap_remove (x ∷ xs) i = let (init, last) = split_last x xs in set init i last

module _ (env : External) where
  unfoldable pub park_conclusion : Listener → Handshake → SocketAddr → Instant → Listener
  unfolding reject refresh
  park_conclusion l conclusion from now = elim (validate_accept env l.config conclusion) [
    | err e ↦ reject l conclusion from (reject_reason e) now
    | ok u ↦ elim (refresh l.pending conclusion from now) [
      | some pending ↦ record l { pending = pending }
      | none ↦ record l {
        pending = l.pending ++ (record { from = from; conclusion = conclusion; since = now } ∷ []);
        requests =
            l.requests
            ++ (record { remote_addr = from; stream_id = find_stream_id conclusion.extensions }
                ∷ []);
      }
    ]
  ]

  -- `Connection::accept` with a fresh id, on a listener whose counter has advanced.
  abbrev pub accept_as :
      Listener → SocketId → Handshake → Instant → Result ConnectionError Connection
  accept_as l conn_id conclusion now =
      accept env l.config conn_id l.local_initial_seq conclusion now

  unfoldable pub accept_now : Listener → Handshake → SocketAddr → Instant → Listener
  unfolding mint_socket_id reject
  accept_now l0 conclusion from now =
      let (l, conn_id) = mint_socket_id l0 in
      elim (accept_as l conn_id conclusion now) [
        | ok conn ↦ record l { accepted = l.accepted ++ (conn ∷ []) }
        | err e ↦ reject l conclusion from (reject_reason e) now
      ]

  unfoldable pub on_conclusion : Listener → Handshake → SocketAddr → Instant → Listener
  unfolding park_conclusion accept_now cookie_valid
  on_conclusion l conclusion from now =
      if not (cookie_valid l conclusion.syn_cookie from now)
      then l
      else if l.deferred
      then park_conclusion l conclusion from now
      else accept_now l conclusion from now

  abbrev pub on_handshake : Listener → Handshake → SocketAddr → Instant → Listener
  on_handshake l hs from now =
      if hs.handshake_type == induction_type
      then on_induction l hs from now
      else if hs.handshake_type == conclusion_type
      then on_conclusion l hs from now
      else l

  abbrev pub on_body : Listener → ControlBody → SocketAddr → Instant → Listener
  on_body l (handshake_body hs) from now = on_handshake l hs from now
  on_body l _ from now = l

  unfoldable pub feed_recv_buf : Listener → List ℕ → SocketAddr → Instant → Listener
  unfolding expire on_conclusion on_induction
  feed_recv_buf l0 datagram from now =
      let l = record l0 { pending = expire l0.pending now } in
      elim (Wire.decode env.is_utf8 datagram) [
        | ok (control_packet packet) ↦ on_body l packet.body from now
        | _ ↦ l
      ]

  -- `accept_pending` with the parked conclusion.
  unfoldable pub accept_parked :
      Listener → ℕ → PendingConn → Instant → Listener × Result ConnectionError Connection
  unfolding mint_socket_id reject swap_remove
  accept_parked l0 index parked now =
      let (l, conn_id) = mint_socket_id (record l0 { pending = swap_remove l0.pending index }) in
      elim (accept_as l conn_id parked.conclusion now) [
        | ok conn ↦ (l, ok conn)
        | err e ↦ (reject l parked.conclusion parked.from (reject_reason e) now, err e)
      ]

  unfoldable pub accept_pending :
      Listener → SocketAddr → Instant → Listener × Result ConnectionError Connection
  unfolding accept_parked find_pending
  accept_pending l remote now = elim (find_pending l.pending remote) [
    | none ↦ (l, err invalid_state)
    | some (index, parked) ↦ accept_parked l index parked now
  ]

unfoldable pub reject_pending : Listener → SocketAddr → RejectReason → Instant → Listener × Bool
unfolding find_pending swap_remove reject
reject_pending l remote reason now = elim (find_pending l.pending remote) [
  | none ↦ (l, false)
  | some (index, parked) ↦ (
    reject (record l { pending = swap_remove l.pending index }) parked.conclusion parked.from reason
        now,
    true,
  )
]

-- `pop_front` on each of the three queues.
unfoldable pub poll_request : Listener → Listener × Option ConnRequest
poll_request l = elim l.requests [
  | [] ↦ (l, none)
  | request ∷ requests ↦ (record l { requests = requests }, some request)
]

unfoldable pub poll_response : Listener → Listener × Option (SocketAddr × List ℕ)
poll_response l = elim l.responses [
  | [] ↦ (l, none)
  | response ∷ responses ↦ (record l { responses = responses }, some response)
]

unfoldable pub poll_accept : Listener → Listener × Option Connection
poll_accept l = elim l.accepted [
  | [] ↦ (l, none)
  | conn ∷ accepted ↦ (record l { accepted = accepted }, some conn)
]
