-- ===== src/RecvBuffer/Pop.antt =====
-- `pop`, `pop_in_order` and `peek`: delivery of the earliest packet held.
use srtrust.Prelude.{ℕ, zero, suc, ◌+◌, ◌-◌, ◌≤◌, ◌<◌, ◌≡◌, refl, arith, ap, sym, ◌∙◌, none, some}
use srtrust.Prelude.{Option-cases, inl, inr, ◌⊎◌, List, [], ◌∷◌, length, drop}
use mathlib.Core.Option
use native.Mathlib.Numerals.{add-one}
use srtrust.Seq
use srtrust.Seq.{SeqNumber, IsSeq}
use srtrust.Seq.Laws.{next-IsSeq, next-add, add-zero}
use srtrust.Packet.{DataPacket}
use srtrust.RecvBuffer.{Slot, RecvBuffer, slot_at, position, deliver, pop, pop_in_order, peek}
use srtrust.RecvBuffer.Inv.{IsValid, Aligned, present, top, top-tail, step}

-- The first present slot: its index and packet, and the slots after it.
pub record Leading (xs : List Slot) (i : ℕ) (p : DataPacket) (rest : List Slot) : Type 0 where
  pub found : position xs ≡ some i
  pub dropped : drop i xs ≡ some p ∷ rest
  pub held : slot_at xs i ≡ some p
  pub absent : (j : ℕ) → j < i → slot_at xs j ≡ none
  pub counts : present xs ≡ suc (present rest)
  pub shorter : length rest ≤ length xs

pub data Front (xs : List Slot) : Type 0 where
  nothing : position xs ≡ none → present xs ≡ 0 → Front xs
  leading : (i : ℕ) (p : DataPacket) (rest : List Slot) → Leading xs i p rest → Front xs

pub front : (xs : List Slot) → Front xs
unfolding position
front [] = nothing refl refl
front (some p ∷ xs) = leading 0 p xs (record {
  found = refl;
  dropped = refl;
  held = refl;
  absent = λ j h. absurd (omega arith);
  counts = refl;
  shorter = omega arith;
})
front (none ∷ xs) = shift (front xs)
  where
    shift : Front xs → Front (none ∷ xs)
    shift (nothing e z) = nothing (rw (e, Option.map)) z
    shift (leading i p rest l) = leading (suc i) p rest (record {
      found = rw (l.found, Option.map);
      dropped = l.dropped;
      held = l.held;
      absent = below;
      counts = l.counts;
      shorter = omega (arith, l.shorter);
    })
      where
        below : (j : ℕ) → j < suc i → slot_at (none ∷ xs) j ≡ none
        below zero h = refl
        below (suc j) h = l.absent j (omega arith)

pub Aligned-drop :
    (i : ℕ) (s : SeqNumber) (xs : List Slot)
    → IsSeq s
    → Aligned s xs
    → Aligned (Seq.add s i) (drop i xs)
unfolding Seq.add
Aligned-drop zero s xs hs h = rw (add-zero s hs) h
Aligned-drop (suc i) s [] hs h = tt
Aligned-drop (suc i) s (x ∷ xs) hs h =
    rw (step s i) (Aligned-drop i (Seq.next s) xs (next-IsSeq s) h.1)

pub top-drop : (i : ℕ) (xs : List Slot) → top xs ≡ length xs → top (drop i xs) ≡ length (drop i xs)
top-drop zero xs h = h
top-drop (suc i) [] h = refl
top-drop (suc i) (x ∷ xs) h = top-drop i xs (top-tail x xs h)

pub Aligned-slot :
    (i : ℕ) (s : SeqNumber) (xs : List Slot) (p : DataPacket)
    → IsSeq s
    → Aligned s xs
    → slot_at xs i ≡ some p
    → p.seq ≡ Seq.add s i
Aligned-slot i s [] p hs h e = cc
Aligned-slot zero s (none ∷ xs) p hs h e = cc
Aligned-slot zero s (some q ∷ xs) p hs h e = ground (arith, add-zero s hs)
Aligned-slot (suc i) s (x ∷ xs) p hs h e =
    Aligned-slot i (Seq.next s) xs p (next-IsSeq s) h.1 e ∙ sym (step s i)

-- What `pop` does when a packet is held: it takes the earliest one, at index `i`, and the buffer
-- goes on right after it.
pub record Popped (b b' : RecvBuffer) (p : DataPacket) : Type 0 where
  pub index : ℕ
  pub held : slot_at b.slots index ≡ some p
  pub absent : (j : ℕ) → j < index → slot_at b.slots j ≡ none
  pub seq_at : p.seq ≡ Seq.add b.base index
  pub base_after : b'.base ≡ Seq.add b.base (index + 1)
  pub slots_after : b'.slots ≡ drop (index + 1) b.slots
  pub received_after : b'.received + 1 ≡ b.received

pop-Leading :
    (b : RecvBuffer) (i : ℕ) (p : DataPacket) (rest : List Slot)
    → Leading b.slots i p rest
    → pop b ≡ (record { base = Seq.next p.seq; slots = rest; received = b.received - 1 }, some p)
unfolding pop
pop-Leading b i p rest l = rw (l.found, pop) (rw (l.dropped, deliver))

drop-suc :
    (i : ℕ) (xs : List Slot) (x : Slot) (rest : List Slot)
    → drop i xs ≡ x ∷ rest
    → drop (suc i) xs ≡ rest
drop-suc zero [] x rest e = cc
drop-suc zero (y ∷ ys) x rest e = cc
drop-suc (suc i) [] x rest e = cc
drop-suc (suc i) (y ∷ ys) x rest e = drop-suc i ys x rest e

-- `pop` on a well-formed buffer gives nothing, and changes nothing, if no packet is held, and
-- otherwise delivers the earliest packet and moves the ACK point right after it.
pub pop_lem :
    (b : RecvBuffer)
    → IsValid b
    → ((b.received ≡ 0) × (pop b ≡ (b, none)))
      ⊎ ((p : DataPacket) × ((pop b).1 ≡ some p) × Popped b (pop b).0 p × (0 < b.received))
unfolding pop
pop_lem b v = go (front b.slots)
  where
    go :
        Front b.slots
        → ((b.received ≡ 0) × (pop b ≡ (b, none)))
          ⊎ ((p : DataPacket) × ((pop b).1 ≡ some p) × Popped b (pop b).0 p × (0 < b.received))
    go (nothing e z) = inl (omega (arith, v.counted, z), rw (e, pop))
    go (leading i p rest l) =
        let at : p.seq ≡ Seq.add b.base i =
          Aligned-slot i b.base b.slots p v.base_seq v.aligned l.held in
        inr (
          p,
          rw (pop-Leading b i p rest l),
          rw (pop-Leading b i p rest l) (record {
            index = i;
            held = l.held;
            absent = l.absent;
            seq_at = at;
            base_after = ap Seq.next at ∙ next-add b.base i;
            slots_after = rw add-one (sym (drop-suc i b.slots (some p) rest l.dropped));
            received_after = omega (arith, v.counted, l.counts);
          }),
          omega (arith, v.counted, l.counts),
        )

-- `pop` keeps a well-formed buffer well formed.
pub pop-IsValid : (b : RecvBuffer) → IsValid b → IsValid (pop b).0
unfolding pop
pop-IsValid b v = go (front b.slots)
  where
    go : Front b.slots → IsValid (pop b).0
    go (nothing e z) = rw (e, pop) v
    go (leading i p rest l) =
        let at : p.seq ≡ Seq.add b.base i =
          Aligned-slot i b.base b.slots p v.base_seq v.aligned l.held in
        let tail : drop (suc i) b.slots ≡ rest = drop-suc i b.slots (some p) rest l.dropped in
        rw (pop-Leading b i p rest l) (record {
          base_seq = next-IsSeq p.seq;
          counted = omega (arith, v.counted, l.counts);
          aligned =
              rw (ap Seq.next at ∙ next-add b.base i, ← tail)
                (rw add-one (Aligned-drop (suc i) b.base b.slots v.base_seq v.aligned));
          back = rw (← tail) (top-drop (suc i) b.slots v.back);
          span = omega (arith, l.shorter, v.span);
        })

-- `peek` shows the number and the timestamp of the packet that `pop` would deliver, and nothing
-- exactly when `pop` delivers nothing.
pub peek-pop :
    (b : RecvBuffer) → peek b ≡ Option.map (λ (p : DataPacket). (p.seq, p.timestamp)) (pop b).1
unfolding peek pop
peek-pop b = go (front b.slots)
  where
    go : Front b.slots → peek b ≡ Option.map (λ (p : DataPacket). (p.seq, p.timestamp)) (pop b).1
    go (nothing e z) = rw (e, pop, peek) refl
    go (leading i p rest l) = rw (pop-Leading b i p rest l) (rw (l.found, peek) (rw l.held refl))

position-zero :
    (xs : List Slot) (p : DataPacket) → slot_at xs 0 ≡ some p → Leading xs 0 p (drop 1 xs)
unfolding position
position-zero [] p e = cc
position-zero (none ∷ xs) p e = cc
position-zero (some q ∷ xs) p e = record {
  found = refl;
  dropped = ap (λ x. x ∷ xs) e;
  held = e;
  absent = λ j h. absurd (omega arith);
  counts = refl;
  shorter = omega arith;
}

-- On a well-formed buffer `pop_in_order` delivers the packet of the ACK point itself where that is
-- held, and moves the ACK point by one; with a gap at the ACK point it does nothing.
pub pop_in_order_lem :
    (b : RecvBuffer)
    → IsValid b
    → ((slot_at b.slots 0 ≡ none) × (pop_in_order b ≡ (b, none)))
      ⊎ ((p : DataPacket) × (p.seq ≡ b.base)
          × (pop_in_order b ≡ (
            record { base = Seq.next b.base; slots = drop 1 b.slots; received = b.received - 1 },
            some p,
          )))
unfolding pop_in_order
pop_in_order_lem b v = elim (Option-cases (slot_at b.slots 0)) [
  | inl e ↦ inl (e, rw e refl)
  | inr (p, e) ↦
      let at : p.seq ≡ b.base =
        Aligned-slot 0 b.base b.slots p v.base_seq v.aligned e ∙ add-zero b.base v.base_seq in
      inr (
        p,
        at,
        rw e (
            pop-Leading b 0 p (drop 1 b.slots) (position-zero b.slots p e)
            ∙ ap
                (λ (s : SeqNumber). (
                  record { base = Seq.next s; slots = drop 1 b.slots; received = b.received - 1 },
                  some p,
                ))
                at),
      )
]
