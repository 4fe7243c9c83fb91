-- ===== src/Listener/Count.antt =====
-- How many conclusions are parked for an address, through the operations on the list.
use srtrust.Prelude.{
  ℕ, zero, suc, ◌+◌, ◌≤◌, ◌≡◌, refl, ap, ap₂, arith, Bool, true, false, Option, none, some, inl,
  inr, Bool-cases,
}
use srtrust.Prelude.{List, [], ◌∷◌, ◌++◌, set, ◌==◌, ◌&&◌, if◌then◌else◌, ==_iff}
use srtrust.SendBuffer.{Instant}
use srtrust.Handshake.Types.{Handshake}
use srtrust.Listener.{
  PendingConn, SocketAddr, v4, v6, same_octets, same_addr, refresh, expire, split_last, swap_remove,
}

-- How many conclusions are parked for an address.
abbrev pub count : List PendingConn → SocketAddr → ℕ
count [] a = 0
count (p ∷ ps) a = if same_addr p.from a then suc (count ps a) else count ps a

abbrev pub IsUnique : List PendingConn → Type 0
IsUnique ps = (a : SocketAddr) → count ps a ≤ 1

and-split : (a b : Bool) → a && b ≡ true → (a ≡ true) × (b ≡ true)
and-split true b h = (refl, h)
and-split false b h = absurd (cc)

same_octets-eq : (xs ys : List ℕ) → same_octets xs ys ≡ true → xs ≡ ys
same_octets-eq [] [] h = refl
same_octets-eq [] (y ∷ ys) h = absurd (cc)
same_octets-eq (x ∷ xs) [] h = absurd (cc)
same_octets-eq (x ∷ xs) (y ∷ ys) h =
    let both = and-split (x == y) (same_octets xs ys) h in
    ap₂ ◌∷◌ ((==_iff x y).0 both.0) (same_octets-eq xs ys both.1)

pub same_addr-eq : (a b : SocketAddr) → same_addr a b ≡ true → a ≡ b
same_addr-eq (v4 xs p) (v4 ys q) h =
    let both = and-split (same_octets xs ys) (p == q) h in
    ap₂ v4 (same_octets-eq xs ys both.0) ((==_iff p q).0 both.1)
same_addr-eq (v4 xs p) (v6 ys q f s) h = absurd (cc)
same_addr-eq (v6 xs p f s) (v4 ys q) h = absurd (cc)
same_addr-eq (v6 xs p f s) (v6 ys q g t) h =
    let a = and-split (same_octets xs ys) ((p == q) && ((f == g) && (s == t))) h in
    let b = and-split (p == q) ((f == g) && (s == t)) a.1 in
    let c = and-split (f == g) (s == t) b.1 in
    λ i.
      v6 (same_octets-eq xs ys a.0 i) ((==_iff p q).0 b.0 i) ((==_iff f g).0 c.0 i)
        ((==_iff s t).0 c.1 i)

pub count-snoc :
    (ps : List PendingConn) (p : PendingConn) (a : SocketAddr)
    → count (ps ++ (p ∷ [])) a ≡ count ps a + count (p ∷ []) a
count-snoc [] p a = omega arith
count-snoc (q ∷ ps) p a = ground (arith, count-snoc ps p a)

-- A refresh changes no count, and none is made only where the address is not parked.
abbrev Refreshed : List PendingConn → SocketAddr → Option (List PendingConn) → Type 0
Refreshed ps from none = count ps from ≡ 0
Refreshed ps from (some qs) = (a : SocketAddr) → count qs a ≡ count ps a

refresh-cons-false :
    (p : PendingConn) (ps : List PendingConn) (from : SocketAddr) (r : Option (List PendingConn))
    → same_addr p.from from ≡ false
    → Refreshed ps from r
    → Refreshed (p ∷ ps) from (elim r [ none ↦ none | some qs ↦ some (p ∷ qs) ])
refresh-cons-false p ps from none e h = rw e h
refresh-cons-false p ps from (some qs) e h =
    λ a. ap (λ (n : ℕ). if same_addr p.from a then suc n else n) (h a)

pub refresh-Refreshed :
    (ps : List PendingConn) (hs : Handshake) (from : SocketAddr) (now : Instant)
    → Refreshed ps from (refresh ps hs from now)
unfolding refresh
refresh-Refreshed [] hs from now = refl
refresh-Refreshed (p ∷ ps) hs from now = elim (Bool-cases (same_addr p.from from)) [
  | inl e ↦ rw e (λ a. refl)
  | inr e ↦
      let step =
        refresh-cons-false p ps from (refresh ps hs from now) e
          (refresh-Refreshed ps hs from now) in
      rw e step
]

pub count-expire :
    (ps : List PendingConn) (now : Instant) (a : SocketAddr) → count (expire ps now) a ≤ count ps a
unfolding expire
count-expire [] now a = omega arith
count-expire (p ∷ ps) now a = ground (arith, count-expire ps now a)

count-set :
    (ps : List PendingConn) (i : ℕ) (p : PendingConn) (a : SocketAddr)
    → count (set ps i p) a ≤ count ps a + count (p ∷ []) a
count-set [] i p a = omega arith
count-set (q ∷ ps) zero p a = ground arith
count-set (q ∷ ps) (suc i) p a = ground (arith, count-set ps i p a)

count-split_last :
    (p : PendingConn) (ps : List PendingConn) (a : SocketAddr)
    → count (split_last p ps).0 a + count ((split_last p ps).1 ∷ []) a ≡ count (p ∷ ps) a
count-split_last p [] a = omega arith
count-split_last p (q ∷ ps) a = ground (arith, count-split_last q ps a)

pub count-swap_remove :
    (ps : List PendingConn) (i : ℕ) (a : SocketAddr) → count (swap_remove ps i) a ≤ count ps a
unfolding swap_remove
count-swap_remove [] i a = omega arith
count-swap_remove (p ∷ ps) i a =
    omega (arith, count-set (split_last p ps).0 i (split_last p ps).1 a, count-split_last p ps a)
