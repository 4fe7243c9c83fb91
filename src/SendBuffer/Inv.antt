-- ===== src/SendBuffer/Inv.antt =====
-- The send buffer's invariant: consecutive sequence numbers from the front on.
use mathlib.Core.Option
use srtrust.Prelude.{
  ℕ, zero, suc, ◌^◌, ◌≤◌, ◌<◌, ◌≡◌, refl, arith, ap, ◌∙◌, ◌⊎◌, inl, inr, none, some,
}
use srtrust.Prelude.{List, [], ◌∷◌, ◌++◌, length, length-append, length-drop, drop}
use srtrust.Seq
use srtrust.Seq.{SeqNumber, IsSeq}
use srtrust.Seq.Laws.{next-IsSeq, add-zero, add-next, add-IsSeq}
use mathlib.Core.Path.{subst}
use native.Mathlib.Numerals.{add-one}
use srtrust.Packet.{DataPacket}
use srtrust.SendBuffer.{Sent, SendBuffer, new, push, drop_front, last_seq, last_packet, tail_of}

-- The packets carry the numbers from `s` on, one after the other.
abbrev pub Runs : SeqNumber → List Sent → Type 0
Runs s [] = Unit
Runs s (x ∷ xs) = (x.packet.seq ≡ s) × Runs (Seq.next s) xs

pub record IsValid (b : SendBuffer) : Type 0 where
  pub start : SeqNumber
  pub start_seq : IsSeq start
  pub runs : Runs start b.packets
  pub span : length b.packets ≤ 2 ^ 30

pub new-IsValid : IsValid new
unfolding new
new-IsValid = record { start = 0; start_seq = omega arith; runs = tt; span = omega arith }

-- What the debug assertion of `push` demands of a packet.
abbrev pub Follows : SendBuffer → DataPacket → Type 0
Follows b p = (last_seq b ≡ none) ⊎ ((l : SeqNumber) × (last_seq b ≡ some l) × (p.seq ≡ Seq.next l))

fresh : DataPacket → List Sent
fresh p = record { packet = p; last_retransmit = none } ∷ []

Runs-snoc :
    (s : SeqNumber) (x : Sent) (xs : List Sent) (p : DataPacket)
    → Runs s (x ∷ xs)
    → (l : SeqNumber) → Option.map (λ (q : DataPacket). q.seq) (last_packet (x ∷ xs)) ≡ some l
    → p.seq ≡ Seq.next l
    → Runs s ((x ∷ xs) ++ fresh p)
unfolding fresh
Runs-snoc s x [] p r l e f = (r.0, (f ∙ ap Seq.next (last-eq ∙ r.0), tt))
  where
    last-eq : l ≡ x.packet.seq
    last-eq = cc
Runs-snoc s x (y ∷ ys) p r l e f = (r.0, Runs-snoc (Seq.next s) y ys p r.1 l e f)

push-start : List Sent → SeqNumber → DataPacket → SeqNumber
push-start [] s p = p.seq
push-start (x ∷ xs) s p = s

push-start_seq :
    (xs : List Sent) (s : SeqNumber) (p : DataPacket)
    → IsSeq s
    → IsSeq p.seq
    → IsSeq (push-start xs s p)
unfolding push-start
push-start_seq [] s p hs hp = hp
push-start_seq (x ∷ xs) s p hs hp = hs

push-Runs :
    (xs : List Sent) (s : SeqNumber) (p : DataPacket)
    → Runs s xs
    → Follows (record { packets = xs }) p
    → Runs (push-start xs s p) (xs ++ fresh p)
unfolding push-start fresh
push-Runs [] s p r f = (refl, tt)
push-Runs (x ∷ xs) s p r (inl e) = absurd (nonempty x xs e)
  where
    nonempty : (x : Sent) (xs : List Sent) → last_seq (record { packets = x ∷ xs }) ≡ none → ⊥
    nonempty x [] e = cc
    nonempty x (y ∷ ys) e = nonempty y ys e
push-Runs (x ∷ xs) s p r (inr (l, e, q)) = Runs-snoc s x xs p r l e q

-- `push` keeps a well-formed buffer well formed if the packet follows the last one and there is
-- room.
pub push-IsValid :
    (b : SendBuffer) (p : DataPacket)
    → IsSeq p.seq
    → length b.packets < 2 ^ 30
    → Follows b p
    → IsValid b
    → IsValid (push b p)
unfolding push fresh
push-IsValid b p hp room f v = record {
  start = push-start b.packets v.start p;
  start_seq = push-start_seq b.packets v.start p v.start_seq hp;
  runs = push-Runs b.packets v.start p v.runs f;
  span = omega (arith, length-append b.packets (fresh p));
}

Runs-drop :
    (n : ℕ) (s : SeqNumber) (xs : List Sent) → IsSeq s → Runs s xs → Runs (Seq.add s n) (drop n xs)
Runs-drop zero s xs hs r = rw (add-zero s hs) r
Runs-drop (suc n) s [] hs r = tt
Runs-drop (suc n) s (x ∷ xs) hs r =
    rw (← add-one n, ← add-next s n) (Runs-drop n (Seq.next s) xs (next-IsSeq s) r.1)

-- Any number of packets may leave at the front.
pub drop-IsValid :
    (b : SendBuffer) (n : ℕ) → IsValid b → IsValid (record { packets = drop n b.packets })
drop-IsValid b n v = record {
  start = Seq.add v.start n;
  start_seq = add-IsSeq v.start n;
  runs = Runs-drop n v.start b.packets v.start_seq v.runs;
  span = omega (arith, length-drop n b.packets, v.span);
}

-- `drop_front` keeps the buffer well formed.
pub drop_front-IsValid : (b : SendBuffer) → IsValid b → IsValid (drop_front b).0
unfolding drop_front
drop_front-IsValid b v =
    subst (λ (xs : List Sent). IsValid (record { packets = xs })) (tail-drop b.packets)
      (drop-IsValid b 1 v)
  where
    tail-drop : (xs : List Sent) → drop 1 xs ≡ tail_of xs
    tail-drop [] = refl
    tail-drop (x ∷ xs) = refl
