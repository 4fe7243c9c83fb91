-- ===== src/Listener/Park.antt =====
-- Parking a conclusion in the deferred mode: what is parked for each address afterwards.
use mathlib.Core.Path.{subst}
use srtrust.Prelude.{
  ◌≤◌, ◌≡◌, refl, sym, ap, ◌∙◌, arith, true, false, Option, none, some, inl, inr, Bool-cases,
  Option-cases, List, [], ◌∷◌, ◌++◌, if◌then◌else◌, append-nil,
}
use srtrust.Prelude.Result.{ok}
use srtrust.External.{External}
use srtrust.SendBuffer.{Instant}
use srtrust.Handshake.Types.{Handshake}
use srtrust.Connection.Setup.{validate_accept}
use srtrust.Listener.{
  PendingConn, ConnRequest, SocketAddr, Listener, same_addr, refresh, find_stream_id,
  park_conclusion,
}
use srtrust.Listener.Count.{count, IsUnique, same_addr-eq}

-- The parked conclusions of an address, in order.
abbrev pub parked_for : List PendingConn → SocketAddr → List PendingConn
parked_for [] a = []
parked_for (p ∷ ps) a = if same_addr p.from a then p ∷ parked_for ps a else parked_for ps a

-- The entry of a conclusion, and what is parked for an address once it is.
abbrev pub entry : Handshake → SocketAddr → Instant → PendingConn
entry hs from now = record { from = from; conclusion = hs; since = now }

abbrev pub parked_after : Listener → PendingConn → SocketAddr → List PendingConn
parked_after l p a = if same_addr p.from a then p ∷ [] else parked_for l.pending a

-- A first conclusion is surfaced to the application, and a retransmission is not.
abbrev pub requests_after : Listener → Handshake → SocketAddr → List PendingConn → List ConnRequest
requests_after l hs from [] =
    l.requests ++ (record { remote_addr = from; stream_id = find_stream_id hs.extensions } ∷ [])
requests_after l hs from (p ∷ ps) = l.requests

count-zero : (ps : List PendingConn) (a : SocketAddr) → count ps a ≡ 0 → parked_for ps a ≡ []
count-zero [] a h = refl
count-zero (p ∷ ps) a h = elim (Bool-cases (same_addr p.from a)) [
  | inl e ↦ absurd (ground (arith, h, e))
  | inr e ↦
      let none_left : count ps a ≡ 0 = ground (arith, h, e) in rw e (count-zero ps a none_left)
]

parked-snoc :
    (ps : List PendingConn) (p : PendingConn) (a : SocketAddr)
    → parked_for (ps ++ (p ∷ [])) a ≡ parked_for ps a ++ parked_for (p ∷ []) a
parked-snoc [] p a = refl
parked-snoc (q ∷ ps) p a = elim (Bool-cases (same_addr q.from a)) [
  | inl e ↦ rw e (ap (λ rest. q ∷ rest) (parked-snoc ps p a))
  | inr e ↦ rw e (parked-snoc ps p a)
]

-- What a search with a refresh finds: nothing, or exactly one entry that is replaced.
abbrev Refreshed : List PendingConn → PendingConn → SocketAddr → Option (List PendingConn) → Type 0
Refreshed ps p a none = parked_for ps p.from ≡ []
Refreshed ps p a (some qs) =
    (parked_for qs a ≡ (if same_addr p.from a then p ∷ [] else parked_for ps a))
    × ((old : PendingConn) × (parked_for ps p.from ≡ old ∷ []))

refresh-here :
    (q : PendingConn) (ps : List PendingConn) (hs : Handshake) (from a : SocketAddr) (now : Instant)
    → same_addr q.from from ≡ true
    → count ps from ≡ 0
    → Refreshed
        (q ∷ ps)
        (entry hs from now)
        a
        (some (record q { conclusion = hs; since = now } ∷ ps))
refresh-here q ps hs from a now e z =
    let at : q.from ≡ from = same_addr-eq q.from from e in
    let first : parked_for (q ∷ ps) from ≡ q ∷ [] =
      rw e (ap (λ rest. q ∷ rest) (count-zero ps from z)) in
    let replaced : record q { conclusion = hs; since = now } ≡ entry hs from now =
      λ i. record { from = at i; conclusion = hs; since = now } in
    elim (Bool-cases (same_addr from a)) [
      | inl s ↦
          let there : from ≡ a = same_addr-eq from a s in
          let rest : parked_for ps a ≡ [] = ap (parked_for ps) (sym there) ∙ count-zero ps from z in
          let here : same_addr q.from a ≡ true = ap (λ b. same_addr b a) at ∙ s in
          (rw (s, here, rest) (ap (λ r. r ∷ []) replaced), (q, first))
      | inr s ↦
          let here : same_addr q.from a ≡ false = ap (λ b. same_addr b a) at ∙ s in
          (rw (s, here) refl, (q, first))
    ]

refresh-later :
    (q : PendingConn) (ps : List PendingConn) (p : PendingConn) (a : SocketAddr)
    (r : Option (List PendingConn))
    → same_addr q.from p.from ≡ false
    → Refreshed ps p a r
    → Refreshed (q ∷ ps) p a (elim r [ none ↦ none | some qs ↦ some (q ∷ qs) ])
refresh-later q ps p a none e h = rw e h
refresh-later q ps p a (some qs) e (h, (old, o)) = elim (Bool-cases (same_addr p.from a)) [
  | inl s ↦
      let there : p.from ≡ a = same_addr-eq p.from a s in
      let here : same_addr q.from a ≡ false = ap (same_addr q.from) (sym there) ∙ e in
      (rw here h, (old, rw e o))
  | inr s ↦
      let same : parked_for qs a ≡ parked_for ps a = rw s at h in
      (rw s (ap (λ rest. if same_addr q.from a then q ∷ rest else rest) same), (old, rw e o))
]

refresh-Refreshed :
    (ps : List PendingConn) (hs : Handshake) (from a : SocketAddr) (now : Instant)
    → count ps from ≤ 1
    → Refreshed ps (entry hs from now) a (refresh ps hs from now)
unfolding refresh
refresh-Refreshed [] hs from a now u = refl
refresh-Refreshed (q ∷ ps) hs from a now u = elim (Bool-cases (same_addr q.from from)) [
  | inl e ↦
      let z : count ps from ≡ 0 = ground (arith, u, e) in
      let step = refresh-here q ps hs from a now e z in rw e step
  | inr e ↦
      let fewer : count ps from ≤ 1 = ground (arith, u, e) in
      let step =
        refresh-later q ps (entry hs from now) a (refresh ps hs from now) e
          (refresh-Refreshed ps hs from a now fewer) in
      rw e step
]

park-first :
    (env : External) (l : Listener) (hs : Handshake) (from : SocketAddr) (now : Instant)
    → validate_accept env l.config hs ≡ ok tt
    → refresh l.pending hs from now ≡ none
    → park_conclusion env l hs from now ≡ record l {
      pending = l.pending ++ (entry hs from now ∷ []);
      requests = requests_after l hs from [];
    }
unfolding park_conclusion
park-first env l hs from now v n = rw (v, n, park_conclusion) refl

park-again :
    (env : External) (l : Listener) (hs : Handshake) (from : SocketAddr) (now : Instant)
    (qs : List PendingConn)
    → validate_accept env l.config hs ≡ ok tt
    → refresh l.pending hs from now ≡ some qs
    → park_conclusion env l hs from now ≡ record l { pending = qs }
unfolding park_conclusion
park-again env l hs from now qs v n = rw (v, n, park_conclusion) refl

parked-first :
    (l : Listener) (p : PendingConn) (a : SocketAddr)
    → parked_for l.pending p.from ≡ []
    → parked_for (l.pending ++ (p ∷ [])) a ≡ parked_after l p a
parked-first l p a z = parked-snoc l.pending p a ∙ elim (Bool-cases (same_addr p.from a)) [
  | inl s ↦
      let none_there : parked_for l.pending a ≡ [] =
        ap (parked_for l.pending) (sym (same_addr-eq p.from a s)) ∙ z in
      rw (s, none_there) refl
  | inr s ↦ rw s (append-nil (parked_for l.pending a))
]

abbrev IsParked : Listener → Handshake → SocketAddr → SocketAddr → Instant → Listener → Type 0
IsParked l hs from a now after =
    (parked_for after.pending a ≡ parked_after l (entry hs from now) a)
    × (after.requests ≡ requests_after l hs from (parked_for l.pending from))

-- In a listener with at most one parked conclusion for each address, parking an acceptable one makes
-- it, as of now, the only one of its address, in place of the one that was there, and changes no
-- other address. The application gets a request only where nothing was parked for the address.
pub park_conclusion_lem :
    (env : External) (l : Listener) (hs : Handshake) (from a : SocketAddr) (now : Instant)
    → IsUnique l.pending
    → validate_accept env l.config hs ≡ ok tt
    → (parked_for (park_conclusion env l hs from now).pending a
        ≡ parked_after l (entry hs from now) a)
      × ((park_conclusion env l hs from now).requests
          ≡ requests_after l hs from (parked_for l.pending from))
park_conclusion_lem env l hs from a now u v = elim (Option-cases (refresh l.pending hs from now)) [
  | inl n ↦
      let fresh : parked_for l.pending from ≡ [] =
        rw n at (refresh-Refreshed l.pending hs from a now (u from)) in
      let requests : requests_after l hs from []
          ≡ requests_after l hs from (parked_for l.pending from) =
        ap (requests_after l hs from) (sym fresh) in
      subst (IsParked l hs from a now) (sym (park-first env l hs from now v n))
        (parked-first l (entry hs from now) a fresh, requests)
  | inr (qs, n) ↦
      let found : Refreshed l.pending (entry hs from now) a (some qs) =
        rw n at (refresh-Refreshed l.pending hs from a now (u from)) in
      let requests : l.requests ≡ requests_after l hs from (parked_for l.pending from) =
        ap (requests_after l hs from) (sym found.1.1) in
      subst (IsParked l hs from a now) (sym (park-again env l hs from now qs v n))
        (found.0, requests)
]
