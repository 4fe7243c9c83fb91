-- ===== src/RecvBuffer/Drop.antt =====
-- `drop_range`: the receiver's answer to a DROPREQ.
use srtrust.Prelude.{
  ℕ, zero, suc, ◌+◌, ◌-◌, ◌<◌, ◌^◌, ◌≡◌, ◌≢◌, refl, arith, ap, sym, ◌∙◌, none, some,
}
use srtrust.Prelude.{inl, inr, ◌⊎◌, List, [], ◌∷◌, length, drop, length-drop}
use srtrust.Prelude.{Ordering-discrete, less, greater}
use srtrust.Prelude.Int.{pos}
use srtrust.Seq
use srtrust.Seq.{SeqNumber, IsSeq, offset_from, circular_cmp}
use srtrust.Seq.Laws.{next-IsSeq, next-add, offset-pos_inv, not_less-offset}
use srtrust.RecvBuffer.{Slot, RecvBuffer, drop_slots, drop_range}
use srtrust.RecvBuffer.Inv.{IsValid, present}
use srtrust.RecvBuffer.Pop.{Aligned-drop, top-drop}

drop_slots-drop : (n : ℕ) (xs : List Slot) (r : ℕ) → (drop_slots n xs r).0 ≡ drop n xs
unfolding drop_slots
drop_slots-drop zero xs r = refl
drop_slots-drop (suc n) [] r = refl
drop_slots-drop (suc n) (none ∷ xs) r = drop_slots-drop n xs r
drop_slots-drop (suc n) (some p ∷ xs) r = drop_slots-drop n xs (r - 1)

drop_slots-present :
    (n : ℕ) (xs : List Slot) (r : ℕ) → r ≡ present xs → (drop_slots n xs r).1 ≡ present (drop n xs)
unfolding drop_slots
drop_slots-present zero xs r h = h
drop_slots-present (suc n) [] r h = h
drop_slots-present (suc n) (none ∷ xs) r h = drop_slots-present n xs r h
drop_slots-present (suc n) (some p ∷ xs) r h = drop_slots-present n xs (r - 1) (omega arith)

-- The slots from the front up to the one of `last` are gone, the others stay, and the ACK point
-- stands right after `last`. The bound makes `index` the one distance from the base to `last`.
pub record Dropped (b b' : RecvBuffer) (last : SeqNumber) : Type 0 where
  pub index : ℕ
  pub at : last ≡ Seq.add b.base index
  pub near : index < 2 ^ 30
  pub base_after : b'.base ≡ Seq.next last
  pub slots_after : b'.slots ≡ drop (index + 1) b.slots
  pub received_after : b'.received ≡ present (drop (index + 1) b.slots)

pub drop_range-behind :
    (b : RecvBuffer) (first last : SeqNumber)
    → circular_cmp last b.base ≡ less
    → drop_range b first last ≡ b
unfolding drop_range
drop_range-behind b first last h = rw (h, drop_range)

pub drop_range-interior :
    (b : RecvBuffer) (first last : SeqNumber)
    → circular_cmp first b.base ≡ greater
    → drop_range b first last ≡ b
unfolding drop_range
drop_range-interior b first last h = ground arith

drop_range-eq :
    (b : RecvBuffer) (first last : SeqNumber) (n : ℕ)
    → circular_cmp last b.base ≢ less
    → circular_cmp first b.base ≢ greater
    → offset_from last b.base ≡ pos n
    → drop_range b first last ≡ record {
      base = Seq.next last;
      slots = (drop_slots (n + 1) b.slots b.received).0;
      received = (drop_slots (n + 1) b.slots b.received).1;
    }
unfolding drop_range
drop_range-eq b first last n h k e = ground arith

pub drop_range-front :
    (b : RecvBuffer) (first last : SeqNumber)
    → IsValid b
    → IsSeq last
    → circular_cmp last b.base ≢ less
    → circular_cmp first b.base ≢ greater
    → Dropped b (drop_range b first last) last
drop_range-front b first last v hl h k =
    let (n, e) = not_less-offset last b.base h in
    rw (drop_range-eq b first last n h k e) (record {
      index = n;
      at = (offset-pos_inv last b.base n hl v.base_seq e).0;
      near = (offset-pos_inv last b.base n hl v.base_seq e).1;
      base_after = refl;
      slots_after = drop_slots-drop (n + 1) b.slots b.received;
      received_after = drop_slots-present (n + 1) b.slots b.received v.counted;
    })

-- On a well-formed buffer a range that ends behind the ACK point, or starts ahead of it, is
-- ignored; any other takes exactly the slots from the ACK point to `last` away, fewer than 2 ^ 30,
-- keeps all later ones and moves the ACK point right after `last`.
pub drop_range_lem :
    (b : RecvBuffer) (first last : SeqNumber)
    → IsSeq last
    → IsValid b
    → ((circular_cmp last b.base ≡ less) × (drop_range b first last ≡ b))
      ⊎ ((circular_cmp first b.base ≡ greater) × (drop_range b first last ≡ b))
      ⊎ ((circular_cmp last b.base ≢ less)
          × (circular_cmp first b.base ≢ greater)
          × Dropped b (drop_range b first last) last)
drop_range_lem b first last hl v = elim (Ordering-discrete (circular_cmp last b.base) less) [
  | yes h ↦ inl (h, drop_range-behind b first last h)
  | no h ↦ elim (Ordering-discrete (circular_cmp first b.base) greater) [
    | yes k ↦ inr (inl (k, drop_range-interior b first last k))
    | no k ↦ inr (inr (h, k, drop_range-front b first last v hl h k))
  ]
]

Dropped-IsValid :
    (b b' : RecvBuffer) (last : SeqNumber) → IsValid b → Dropped b b' last → IsValid b'
Dropped-IsValid b b' last v d =
    let base_at : b'.base ≡ Seq.add b.base (d.index + 1) =
      d.base_after ∙ ap Seq.next d.at ∙ next-add b.base d.index in
    record {
      base_seq = rw d.base_after (next-IsSeq last);
      counted = d.received_after ∙ ap present (sym d.slots_after);
      aligned =
          rw (base_at, d.slots_after)
            (Aligned-drop (d.index + 1) b.base b.slots v.base_seq v.aligned);
      back = rw d.slots_after (top-drop (d.index + 1) b.slots v.back);
      span = omega (arith, v.span, ap length d.slots_after, length-drop (d.index + 1) b.slots);
    }

-- `drop_range` keeps a well-formed buffer well formed, whatever range the peer names.
pub drop_range-IsValid :
    (b : RecvBuffer) (first last : SeqNumber)
    → IsSeq last
    → IsValid b
    → IsValid (drop_range b first last)
drop_range-IsValid b first last hl v = elim (drop_range_lem b first last hl v) [
  | inl (h, e) ↦ rw e v
  | inr (inl (k, e)) ↦ rw e v
  | inr (inr (h, k, d)) ↦ Dropped-IsValid b (drop_range b first last) last v d
]
