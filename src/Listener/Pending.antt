-- ===== src/Listener/Pending.antt =====
-- The parked conclusions of the deferred mode: at most one for each address.
use srtrust.Prelude.{
  ℕ, ◌≤◌, ◌≡◌, refl, sym, ap, ◌∙◌, arith, Bool, true, false, not, inl, inr, Bool-cases,
  Option-cases,
}
use srtrust.Prelude.{List, [], ◌∷◌, ◌++◌, ◌==◌, if◌then◌else◌}
use srtrust.Prelude.Result.{Result, ok, err, Result-cases}
use srtrust.External.{External}
use srtrust.Seq.{SeqNumber}
use srtrust.Packet.{SocketId}
use srtrust.SendBuffer.{Instant}
use srtrust.Handshake.Types.{Handshake, RejectReason}
use srtrust.Config.{Config}
use srtrust.Control.{
  ControlBody, keepalive_body, shutdown_body, congestion_warning_body, ack_ack_body, drop_req_body,
  peer_error_body, ack_body, nak_body, handshake_body, raw_body,
}
use srtrust.Wire
use srtrust.Wire.{Packet, data_packet, control_packet, PacketError}
use srtrust.Connection.Setup.{validate_accept, induction_type, conclusion_type}
use srtrust.Listener
use srtrust.Listener.{
  PendingConn, SocketAddr, v4, v6, Listener, same_octets, same_addr, refresh, expire, split_last,
  swap_remove, find_pending, respond, reject, on_induction, park_conclusion, accept_now, accept_as,
  mint_socket_id, on_conclusion, on_handshake, on_body, cookie_valid, feed_recv_buf, accept_parked,
  accept_pending, reject_pending, reject_reason, defer_accepts,
}
use srtrust.Listener.Count.{
  count, IsUnique, same_addr-eq, count-snoc, refresh-Refreshed, count-expire, count-swap_remove,
}

-- What the handlers do to the parked conclusions.
reject-pending :
    (l : Listener) (hs : Handshake) (from : SocketAddr) (reason : RejectReason) (now : Instant)
    → (reject l hs from reason now).pending ≡ l.pending
unfolding reject respond
reject-pending l hs from reason now = refl

on_induction-pending :
    (l : Listener) (hs : Handshake) (from : SocketAddr) (now : Instant)
    → (on_induction l hs from now).pending ≡ l.pending
unfolding on_induction respond
on_induction-pending l hs from now = refl

mint-pending : (l : Listener) → (mint_socket_id l).0.pending ≡ l.pending
unfolding mint_socket_id
mint-pending l = refl

push-IsUnique :
    (ps : List PendingConn) (p : PendingConn)
    → IsUnique ps
    → count ps p.from ≡ 0
    → IsUnique (ps ++ (p ∷ []))
push-IsUnique ps p u z a = elim (Bool-cases (same_addr p.from a)) [
  | inl e ↦
      let none_there : count ps a ≡ 0 = ap (λ b. count ps b) (sym (same_addr-eq p.from a e)) ∙ z in
      let one : count (p ∷ []) a ≤ 1 = rw e (omega arith) in
      omega (arith, count-snoc ps p a, none_there, one)
  | inr e ↦
      let zero_more : count (p ∷ []) a ≡ 0 = rw e refl in
      omega (arith, count-snoc ps p a, zero_more, u a)
]

if-IsUnique :
    (b : Bool) (x y : Listener)
    → IsUnique x.pending
    → IsUnique y.pending
    → IsUnique (if b then x else y).pending
if-IsUnique true x y u v = u
if-IsUnique false x y u v = v

module _ (env : External) where
  park-IsUnique :
      (l : Listener) (hs : Handshake) (from : SocketAddr) (now : Instant)
      → IsUnique l.pending
      → IsUnique (park_conclusion env l hs from now).pending
  unfolding park_conclusion
  park-IsUnique l hs from now u = elim (Result-cases (validate_accept env l.config hs)) [
    | inr (e, v) ↦ rw (v, park_conclusion) (rw (reject-pending l hs from (reject_reason e) now) u)
    | inl (o, v) ↦ elim (Option-cases (refresh l.pending hs from now)) [
      | inl n ↦
          let fresh : count l.pending from ≡ 0 =
            rw n at (refresh-Refreshed l.pending hs from now) in
          rw (v, n, park_conclusion)
            (push-IsUnique l.pending (record { from = from; conclusion = hs; since = now }) u fresh)
      | inr (qs, n) ↦
          let same : (a : SocketAddr) → count qs a ≡ count l.pending a =
            rw n at (refresh-Refreshed l.pending hs from now) in
          rw (v, n, park_conclusion) (λ a. omega (arith, same a, u a))
    ]
  ]

  accept_now-pending :
      (l : Listener) (hs : Handshake) (from : SocketAddr) (now : Instant)
      → (accept_now env l hs from now).pending ≡ l.pending
  unfolding accept_now
  accept_now-pending l hs from now =
      elim (Result-cases (accept_as env (mint_socket_id l).0 (mint_socket_id l).1 hs now)) [
        | inl (conn, v) ↦ rw (v, accept_now) (mint-pending l)
        | inr (e, v) ↦
            rw (v, accept_now)
              (reject-pending (mint_socket_id l).0 hs from (reject_reason e) now ∙ mint-pending l)
      ]

  on_conclusion-IsUnique :
      (l : Listener) (hs : Handshake) (from : SocketAddr) (now : Instant)
      → IsUnique l.pending
      → IsUnique (on_conclusion env l hs from now).pending
  unfolding on_conclusion
  on_conclusion-IsUnique l hs from now u =
      if-IsUnique (not (cookie_valid l hs.syn_cookie from now)) _ _ u (
        if-IsUnique l.deferred _ _ (park-IsUnique l hs from now u)
          (rw (accept_now-pending l hs from now) u))

  on_handshake-IsUnique :
      (l : Listener) (hs : Handshake) (from : SocketAddr) (now : Instant)
      → IsUnique l.pending
      → IsUnique (on_handshake env l hs from now).pending
  on_handshake-IsUnique l hs from now u =
      if-IsUnique (hs.handshake_type == induction_type) _ _
        (rw (on_induction-pending l hs from now) u)
        (if-IsUnique (hs.handshake_type == conclusion_type) _ _
          (on_conclusion-IsUnique l hs from now u) u)

  on_body-IsUnique :
      (l : Listener) (body : ControlBody) (from : SocketAddr) (now : Instant)
      → IsUnique l.pending
      → IsUnique (on_body env l body from now).pending
  on_body-IsUnique l (handshake_body hs) from now u = on_handshake-IsUnique l hs from now u
  on_body-IsUnique l keepalive_body from now u = u
  on_body-IsUnique l shutdown_body from now u = u
  on_body-IsUnique l congestion_warning_body from now u = u
  on_body-IsUnique l (ack_ack_body n) from now u = u
  on_body-IsUnique l (drop_req_body m a b) from now u = u
  on_body-IsUnique l (peer_error_body e) from now u = u
  on_body-IsUnique l (ack_body a) from now u = u
  on_body-IsUnique l (nak_body loss) from now u = u
  on_body-IsUnique l (raw_body t s v cif) from now u = u

  -- What `feed_recv_buf` does with a decoded packet.
  on_decoded-IsUnique :
      (l : Listener) (r : Result PacketError Packet) (from : SocketAddr) (now : Instant)
      → IsUnique l.pending
      → IsUnique
          (elim r as (λ (q : Result PacketError Packet). Listener) [
            | ok (control_packet packet) ↦ on_body env l packet.body from now
            | _ ↦ l
          ]).pending
  on_decoded-IsUnique l (ok (control_packet packet)) from now u =
      on_body-IsUnique l packet.body from now u
  on_decoded-IsUnique l (ok (data_packet packet)) from now u = u
  on_decoded-IsUnique l (err e) from now u = u

  feed-IsUnique :
      (l : Listener) (datagram : List ℕ) (from : SocketAddr) (now : Instant)
      → IsUnique l.pending
      → IsUnique (feed_recv_buf env l datagram from now).pending
  unfolding feed_recv_buf
  feed-IsUnique l datagram from now u =
      on_decoded-IsUnique (record l { pending = expire l.pending now })
        (Wire.decode env.is_utf8 datagram) from now
        (λ a. omega (arith, count-expire l.pending now a, u a))

  accept_parked-IsUnique :
      (l : Listener) (i : ℕ) (parked : PendingConn) (now : Instant)
      → IsUnique l.pending
      → IsUnique (accept_parked env l i parked now).0.pending
  unfolding accept_parked
  accept_parked-IsUnique l i parked now u =
      let l' = record l { pending = swap_remove l.pending i } in
      let m = mint_socket_id l' in
      let less : IsUnique (swap_remove l.pending i) =
        λ a. omega (arith, count-swap_remove l.pending i a, u a) in
      elim (Result-cases (accept_as env m.0 m.1 parked.conclusion now)) [
        | inl (conn, v) ↦ rw (v, accept_parked) (rw (mint-pending l') less)
        | inr (e, v) ↦
            rw (v, accept_parked)
              (rw
                (
                  reject-pending m.0 parked.conclusion parked.from (reject_reason e) now,
                  mint-pending l',
                )
                less)
      ]

  accept_pending-IsUnique :
      (l : Listener) (remote : SocketAddr) (now : Instant)
      → IsUnique l.pending
      → IsUnique (accept_pending env l remote now).0.pending
  unfolding accept_pending
  accept_pending-IsUnique l remote now u = elim (Option-cases (find_pending l.pending remote)) [
    | inl e ↦ rw (e, accept_pending) u
    | inr ((i, parked), e) ↦ rw (e, accept_pending) (accept_parked-IsUnique l i parked now u)
  ]

reject_pending-IsUnique :
    (l : Listener) (remote : SocketAddr) (reason : RejectReason) (now : Instant)
    → IsUnique l.pending
    → IsUnique (reject_pending l remote reason now).0.pending
unfolding reject_pending
reject_pending-IsUnique l remote reason now u =
    elim (Option-cases (find_pending l.pending remote)) [
      | inl e ↦ rw (e, reject_pending) u
      | inr ((i, parked), e) ↦
          rw (e, reject_pending)
            (rw
              (reject-pending (record l { pending = swap_remove l.pending i }) parked.conclusion
                parked.from reason now)
              (λ a. omega (arith, count-swap_remove l.pending i a, u a)))
    ]

-- One input of the listener: a datagram, the switch to the deferred mode, or a decision.
pub data Step (env : External) : Listener → Listener → Type 0 where
  feeds :
      (l : Listener) (datagram : List ℕ) (from : SocketAddr) (now : Instant)
      → Step env l (feed_recv_buf env l datagram from now)
  defers : (l : Listener) → Step env l (defer_accepts l)
  accepts :
      (l : Listener) (remote : SocketAddr) (now : Instant)
      → Step env l (accept_pending env l remote now).0
  rejects :
      (l : Listener) (remote : SocketAddr) (reason : RejectReason) (now : Instant)
      → Step env l (reject_pending l remote reason now).0

pub data Reaches (env : External) (l : Listener) : Listener → Type 0 where
  starts : Reaches env l l
  steps : (a b : Listener) → Reaches env l a → Step env a b → Reaches env l b

Step-IsUnique :
    (env : External) (a b : Listener) → Step env a b → IsUnique a.pending → IsUnique b.pending
Step-IsUnique env _ _ (feeds l datagram from now) u = feed-IsUnique env l datagram from now u
Step-IsUnique env _ _ (defers l) u = u
Step-IsUnique env _ _ (accepts l remote now) u = accept_pending-IsUnique env l remote now u
Step-IsUnique env _ _ (rejects l remote reason now) u =
    reject_pending-IsUnique l remote reason now u

-- Whatever datagrams and decisions a fresh listener gets, at most one conclusion is parked for each
-- address.
pub Reaches-IsUnique :
    (env : External) (config : Config) (id : SocketId) (seq : SeqNumber) (secret : ℕ)
    (start : Instant) (l : Listener)
    → Reaches env (Listener.new config id seq secret start) l
    → IsUnique l.pending
Reaches-IsUnique env config id seq secret start _ starts = λ a. omega arith
Reaches-IsUnique env config id seq secret start _ (steps a b r t) =
    Step-IsUnique env a b t (Reaches-IsUnique env config id seq secret start a r)
