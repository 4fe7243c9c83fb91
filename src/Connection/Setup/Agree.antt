-- ===== src/Connection/Setup/Agree.antt =====
-- What the two ends of a handshake agree on.
use srtrust.Prelude.{ℕ, ◌^◌, ◌<◌, ◌≡◌, refl, ap, ◌∙◌, arith, max, Option, List}
use srtrust.External.{External}
use srtrust.Packet.{SocketId}
use srtrust.Rtt.{Duration}
use srtrust.Config.{Config, Negotiated, from_millis}
use srtrust.Connection.{Connection}
use srtrust.Connection.Setup.{
  millis_u16, negotiate, peer_delay, conclusion_handshake, conclusion_response,
}

millis-whole : (ms : ℕ) → ms < 2 ^ 16 → millis_u16 (from_millis ms) ≡ ms
millis-whole ms h = ground arith

-- What the acceptor computes from the caller's conclusion, and the caller from the answer to it.
abbrev pub acceptor_side : Connection → Duration → Negotiated
acceptor_side c latency = negotiate latency (conclusion_handshake c)

abbrev pub caller_side : External → Connection → Config → SocketId → Option (List ℕ) → Negotiated
caller_side env c config id km = negotiate c.config.latency (
    conclusion_response env config id (conclusion_handshake c)
      (acceptor_side c config.latency).latency km)

abbrev millis_of : ℕ → ℕ
millis_of d = millis_u16 d

max-millis : (a b : ℕ) → max (from_millis b) (from_millis a) ≡ from_millis (max a b)
max-millis a b = omega arith

larger : (a b : ℕ) → max (from_millis a) (from_millis (max a b)) ≡ from_millis (max a b)
larger a b = omega arith

latency-acceptor :
    (c : Connection) (a b : ℕ)
    → c.config.latency ≡ from_millis a
    → a < 2 ^ 16
    → (acceptor_side c (from_millis b)).latency ≡ max (from_millis b) (from_millis a)
unfolding negotiate peer_delay
latency-acceptor c a b e h =
    ap (λ (n : ℕ). max (from_millis b) (from_millis n)) (ap millis_of e ∙ millis-whole a h)

-- A caller and an acceptor with latencies of whole milliseconds (below 65536) agree: both take the
-- larger latency, each knows the other's socket id, both use the caller's initial sequence number
-- and the encryption that the caller's conclusion advertises.
pub caller_side-acceptor_side :
    (env : External) (c : Connection) (config : Config) (id : SocketId) (km : Option (List ℕ))
    (a b : ℕ)
    → c.config.latency ≡ from_millis a
    → config.latency ≡ from_millis b
    → a < 2 ^ 16
    → b < 2 ^ 16
    → ((acceptor_side c config.latency).latency ≡ from_millis (max a b))
      × ((caller_side env c config id km).latency ≡ from_millis (max a b))
      × ((acceptor_side c config.latency).peer_socket_id ≡ c.local_socket_id)
      × ((caller_side env c config id km).peer_socket_id ≡ id)
      × ((acceptor_side c config.latency).peer_initial_seq ≡ c.initial_seq)
      × ((caller_side env c config id km).peer_initial_seq ≡ c.initial_seq)
      × ((acceptor_side c config.latency).encryption ≡ (conclusion_handshake c).encryption)
      × ((caller_side env c config id km).encryption ≡ (conclusion_handshake c).encryption)
unfolding negotiate peer_delay
caller_side-acceptor_side env c config id km a b e f h k =
    let acceptor : (acceptor_side c config.latency).latency ≡ from_millis (max a b) =
      ap (λ (n : ℕ). max n (from_millis (millis_u16 c.config.latency))) f
      ∙ latency-acceptor c a b e h
      ∙ max-millis a b in
    let caller : (caller_side env c config id km).latency ≡ from_millis (max a b) =
      ap (λ (n : ℕ). max c.config.latency (from_millis (millis_of n))) acceptor
      ∙ ap (λ (n : ℕ). max c.config.latency (from_millis n)) (millis-whole (max a b) (omega arith))
      ∙ ap (λ (n : ℕ). max n (from_millis (max a b))) e
      ∙ larger a b in
    (acceptor, caller, refl, refl, refl, refl, refl, refl)
