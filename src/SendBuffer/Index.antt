-- ===== src/SendBuffer/Index.antt =====
-- Finding packets by sequence number: `index_of`, `get` and `entry`.
use mathlib.Core.Option
use srtrust.Prelude.{
  ℕ, zero, suc, ◌<◌, ◌≡◌, refl, arith, ap, sym, ◌∙◌, inl, inr, Option, none, some, Option-cases,
  ◌↔◌,
}
use srtrust.Prelude.{List, [], ◌∷◌, length, get_elem?}
use srtrust.Prelude.Int.{pos, ℤ-cases}
use srtrust.Seq
use srtrust.Seq.{SeqNumber, IsSeq, offset_from}
use srtrust.Seq.Laws.{next-IsSeq, offset-add, offset-pos_inv}
use srtrust.Packet.{DataPacket}
use srtrust.SendBuffer.{Sent, SendBuffer, index_in, index_of, entry, get}
use srtrust.SendBuffer.Inv.{Runs, IsValid}

Runs-get :
    (xs : List Sent) (s : SeqNumber) (i : ℕ) (x : Sent)
    → IsSeq s
    → Runs s xs
    → get_elem? xs i ≡ some x
    → (x.packet.seq ≡ Seq.add s i) × (i < length xs)
unfolding Seq.add Seq.next
Runs-get [] s i x hs r e = cc
Runs-get (y ∷ ys) s zero x hs r e = ground arith
Runs-get (y ∷ ys) s (suc i) x hs r e =
    omega (arith, Runs-get ys (Seq.next s) i x (next-IsSeq s) r.1 e)

-- The index that `index_of` finds is the number of steps from the first packet.
pub index_of-Runs :
    (xs : List Sent) (start s : SeqNumber)
    → Runs start xs
    → index_of (record { packets = xs }) s ≡ index_in (offset_from s start) (length xs)
unfolding index_of
index_of-Runs [] start s r = elim (ℤ-cases (offset_from s start)) [
  | inl (i, e) ↦ rw e (ground arith)
  | inr (i, e) ↦ rw e refl
]
index_of-Runs (x ∷ xs) start s r =
    ap (λ (f : SeqNumber). index_in (offset_from s f) (length (x ∷ xs))) r.0

index_of-eq :
    (b : SendBuffer) (v : IsValid b) (s : SeqNumber)
    → index_of b s ≡ index_in (offset_from s v.start) (length b.packets)
index_of-eq b v s = index_of-Runs b.packets v.start s v.runs

index_of-at :
    (b : SendBuffer) (i : ℕ) (x : Sent)
    → get_elem? b.packets i ≡ some x
    → IsValid b
    → index_of b x.packet.seq ≡ some i
index_of-at b i x e v =
    let (at, low) = Runs-get b.packets v.start i x v.start_seq v.runs e in
    index_of-eq b v x.packet.seq
    ∙ ap (λ z. index_in z (length b.packets))
        (ap (λ (s : SeqNumber). offset_from s v.start) at
          ∙ offset-add v.start i v.start_seq (omega (arith, low, v.span)))
    ∙ ground (arith, low)

pub entry-some :
    (b : SendBuffer) (s : SeqNumber) (i : ℕ)
    → index_of b s ≡ some i
    → entry b s ≡ get_elem? b.packets i
unfolding entry
entry-some b s i z = rw (z, entry) refl

pub entry-none : (b : SendBuffer) (s : SeqNumber) → index_of b s ≡ none → entry b s ≡ none
unfolding entry
entry-none b s z = rw (z, entry) refl

-- Every packet in the buffer is found under its own number.
pub entry-finds :
    (b : SendBuffer) (i : ℕ) (x : Sent)
    → get_elem? b.packets i ≡ some x
    → IsValid b
    → entry b x.packet.seq ≡ some x
entry-finds b i x e v = entry-some b x.packet.seq i (index_of-at b i x e v) ∙ e

-- A number that is found has an index, and lies as many steps from the first packet.
pub index_of-some :
    (b : SendBuffer) (s : SeqNumber) (i : ℕ) (v : IsValid b)
    → IsSeq s
    → index_of b s ≡ some i
    → (s ≡ Seq.add v.start i) × (i < length b.packets)
index_of-some b s i v hs e = elim (ℤ-cases (offset_from s v.start)) [
  | inl (j, z) ↦
      let f : index_in (pos j) (length b.packets) ≡ some i =
        ap (λ y. index_in y (length b.packets)) (sym z) ∙ sym (index_of-eq b v s) ∙ e in
      let j-eq : (j ≡ i) × (j < length b.packets) = in_range j (length b.packets) i f in
      (
        (offset-pos_inv s v.start j hs v.start_seq z).0 ∙ ap (Seq.add v.start) j-eq.0,
        omega (arith, j-eq),
      )
  | inr (j, z) ↦
      absurd (cc (ap (λ y. index_in y (length b.packets)) (sym z) ∙ sym (index_of-eq b v s) ∙ e))
]
  where
    in_range : (j n i : ℕ) → index_in (pos j) n ≡ some i → (j ≡ i) × (j < n)
    in_range j n i f = ground arith

-- What is found under a number is a packet of the buffer and carries that number.
pub entry-seq :
    (b : SendBuffer) (s : SeqNumber) (x : Sent)
    → IsSeq s
    → entry b s ≡ some x
    → IsValid b
    → (x.packet.seq ≡ s) × ((i : ℕ) × (get_elem? b.packets i ≡ some x))
entry-seq b s x hs e v = elim (Option-cases (index_of b s)) [
  | inl z ↦ absurd (cc (sym e ∙ entry-none b s z))
  | inr (i, z) ↦
      let found : get_elem? b.packets i ≡ some x = sym (entry-some b s i z) ∙ e in
      (
        (Runs-get b.packets v.start i x v.start_seq v.runs found).0
            ∙ sym (index_of-some b s i v hs z).0,
        (i, found),
      )
]

-- On a well-formed buffer what `get` gives for a number is the packet of that number, and every
-- packet of the buffer is given for its number.
pub get_iff :
    (b : SendBuffer) (s : SeqNumber) (p : DataPacket)
    → IsSeq s
    → IsValid b
    → (get b s ≡ some p)
      ↔ ((i : ℕ) × (x : Sent) × (get_elem? b.packets i ≡ some x) × (x.packet ≡ p) × (p.seq ≡ s))
unfolding get
get_iff b s p hs v = (to (entry b s) refl, from)
  where
    to :
        (o : Option Sent)
        → entry b s ≡ o
        → get b s ≡ some p
        → (i : ℕ) × (x : Sent) × (get_elem? b.packets i ≡ some x) × (x.packet ≡ p) × (p.seq ≡ s)
    to none z e = absurd (cc (sym e ∙ ap (Option.map (λ (x : Sent). x.packet)) z))
    to (some x) z e =
        let same : x.packet ≡ p = cc (ap (Option.map (λ (y : Sent). y.packet)) z) in
        let (at, found) = entry-seq b s x hs z v in
        (found.0, x, found.1, same, ap (λ (q : DataPacket). q.seq) (sym same) ∙ at)

    from :
        (i : ℕ) × (x : Sent) × (get_elem? b.packets i ≡ some x) × (x.packet ≡ p) × (p.seq ≡ s)
        → get b s ≡ some p
    from (i, x, held, same, at) =
        ap (λ (t : SeqNumber). Option.map (λ (y : Sent). y.packet) (entry b t))
          (sym at ∙ ap (λ (q : DataPacket). q.seq) (sym same))
        ∙ ap (Option.map (λ (y : Sent). y.packet)) (entry-finds b i x held v)
        ∙ ap some same
