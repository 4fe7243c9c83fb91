-- ===== src/Connection/Messages/Whole.antt =====
-- A message that is cut and put together again.
use srtrust.Prelude.{
  ℕ, zero, suc, ◌+◌, ◌-◌, ◌≤◌, ◌<◌, ◌≡◌, inl, inr, refl, sym, ap, ◌∙◌, arith, min, true, false,
  Option, none, some,
}
use srtrust.Prelude.{
  List, [], ◌∷◌, ◌++◌, append_assoc, append-nil, length, take, drop, take-all, ltb, leb, Bool-cases,
}
use native.Mathlib.Decide.{dec_lt}
use srtrust.Seq
use srtrust.Seq.{SeqNumber}
use srtrust.Packet.{DataPacket, PacketPosition, first, middle, last, single}
use srtrust.Connection.{Fragment, Reassembler, Connection}
use srtrust.Connection.Messages.{
  reset, is_next, concat, push, push_at, max_payload, fragments_from, fragment_message, position_of,
}

abbrev pub prepend : Option (List ℕ) → List (List ℕ) → List (List ℕ)
prepend none ms = ms
prepend (some m) ms = m ∷ ms

-- The messages that a reassembler gives from a run of packets.
abbrev pub push_all : Reassembler → List DataPacket → Reassembler × List (List ℕ)
push_all r [] = (r, [])
push_all r (p ∷ ps) =
    let (r', out) = push r p in let (r'', outs) = push_all r' ps in (r'', prepend out outs)

-- The packets of a list of fragments, numbered from `seq`; the other fields do not matter.
abbrev pub packets : DataPacket → SeqNumber → List Fragment → List DataPacket
packets p seq [] = []
packets p seq (f ∷ fs) =
    record p { seq = seq; position = f.position; payload = f.payload } ∷ packets p (Seq.next seq) fs

-- What the reassembler holds after the fragments `fs`, when it waits for `seq`.
abbrev pub holding : List (List ℕ) → SeqNumber → Reassembler
holding fs seq = record { fragments = fs; next_seq = some seq }

concat-snoc : (fs : List (List ℕ)) (f : List ℕ) → concat (fs ++ (f ∷ [])) ≡ concat fs ++ f
concat-snoc [] f = append-nil f
concat-snoc (g ∷ fs) f = ap (λ xs. g ++ xs) (concat-snoc fs f) ∙ sym (append_assoc g (concat fs) f)

take_nil : (n : ℕ) → take {A = ℕ} n [] ≡ []
take_nil zero = refl
take_nil (suc n) = refl

take_at : (xs : List ℕ) {m n : ℕ} → m ≡ n → take m xs ≡ take n xs
take_at xs e = ap (λ k. take k xs) e

take-split : (xs : List ℕ) (m n : ℕ) → take m xs ++ take n (drop m xs) ≡ take (m + n) xs
take-split [] zero n = take_at [] (omega arith)
take-split [] (suc m) n = take_nil n ∙ sym (take_nil (suc m + n))
take-split (x ∷ xs) zero n = take_at (x ∷ xs) (omega arith)
take-split (x ∷ xs) (suc m) n =
    ap (λ ys. x ∷ ys) (take-split xs m n) ∙ take_at (x ∷ xs) {m = suc (m + n)} (omega arith)

is_next-same : (seq : SeqNumber) → is_next (some seq) seq ≡ true
is_next-same seq = ground arith

fragments-end :
    (fuel max_len : ℕ) (payload : List ℕ) (message : ℕ)
    → fragments_from fuel max_len payload message (length payload) ≡ []
unfolding fragments_from
fragments-end zero max_len payload message = refl
fragments-end (suc fuel) max_len payload message = ground arith

-- The fragment that starts at an offset inside the message, and those after it.
abbrev slice : List ℕ → ℕ → ℕ → List ℕ
slice payload offset end = take (end - offset) (drop offset payload)

fragments-step :
    (fuel max_len : ℕ) (payload : List ℕ) (message offset : ℕ)
    → offset < length payload
    → fragments_from (suc fuel) max_len payload message offset
      ≡ record {
        payload = slice payload offset (min (offset + max_len) (length payload));
        position = position_of offset (min (offset + max_len) (length payload)) (length payload);
        message = message;
      }
        ∷ fragments_from fuel max_len payload message (min (offset + max_len) (length payload))
unfolding fragments_from
fragments-step fuel max_len payload message offset h =
    let e : ltb offset (length payload) ≡ true = ground arith in rw e refl

-- A middle fragment is added to what is held, and the last one gives the message.
push-middle :
    (fs : List (List ℕ)) (p : DataPacket)
    → p.position ≡ middle
    → push (holding fs p.seq) p ≡ (holding (fs ++ (p.payload ∷ [])) (Seq.next p.seq), none)
unfolding push push_at
push-middle fs p h = rw (h, is_next-same p.seq) refl

push-last :
    (fs : List (List ℕ)) (p : DataPacket)
    → p.position ≡ last
    → push (holding fs p.seq) p ≡ (reset, some (concat (fs ++ (p.payload ∷ []))))
unfolding push push_at
push-last fs p h = rw (h, is_next-same p.seq) refl

push_all-none :
    (r : Reassembler) (p : DataPacket) (ps : List DataPacket) {r' : Reassembler}
    {res : Reassembler × List (List ℕ)}
    → push r p ≡ (r', none)
    → push_all r' ps ≡ res
    → push_all r (p ∷ ps) ≡ res
push_all-none r p ps h k =
    ap
      (λ (o : Reassembler × Option (List ℕ)).
        ((push_all o.0 ps).0, prepend o.1 (push_all o.0 ps).1))
      h
    ∙ k

push_all-some :
    (r : Reassembler) (p : DataPacket) {r' : Reassembler} {m : List ℕ}
    → push r p ≡ (r', some m)
    → push_all r (p ∷ []) ≡ (r', m ∷ [])
push_all-some r p h = rw h refl

held_after :
    (fs : List (List ℕ)) (payload : List ℕ) (offset end : ℕ)
    → concat fs ≡ take offset payload
    → offset ≤ end
    → concat (fs ++ (slice payload offset end ∷ [])) ≡ take end payload
held_after fs payload offset end h le =
    concat-snoc fs (slice payload offset end)
    ∙ ap (λ xs. xs ++ slice payload offset end) h
    ∙ take-split payload offset (end - offset)
    ∙ take_at payload (omega arith)

position-last : (offset end len : ℕ) → 0 < offset → end ≡ len → position_of offset end len ≡ last
position-last offset end len h e = ground arith

position-middle :
    (offset end len : ℕ) → 0 < offset → end < len → position_of offset end len ≡ middle
position-middle offset end len h e = ground arith

push_all-rest :
    (fuel max_len : ℕ) (payload : List ℕ) (message offset : ℕ) (fs : List (List ℕ)) (p : DataPacket)
    (seq : SeqNumber)
    → 1 ≤ max_len
    → 0 < offset
    → offset < length payload
    → length payload ≤ offset + fuel
    → concat fs ≡ take offset payload
    → push_all (holding fs seq) (packets p seq (fragments_from fuel max_len payload message offset))
      ≡ (reset, payload ∷ [])
push_all-rest zero max_len payload message offset fs p seq w o l f h = absurd (omega arith)
push_all-rest (suc fuel) max_len payload message offset fs p seq w o l f h =
    let end = min (offset + max_len) (length payload) in
    let f1 = λ (b : ℕ) (q : PacketPosition). record p {
      seq = seq;
      position = q;
      payload = slice payload offset b;
    } in
    ap (λ gs. push_all (holding fs seq) (packets p seq gs))
      (fragments-step fuel max_len payload message offset l)
    ∙ elim (dec_lt end (length payload)) [
      | yes inside ↦
          push_all-none (holding fs seq) (f1 end (position_of offset end (length payload))) _
            (push-middle fs (f1 end (position_of offset end (length payload)))
              (position-middle offset end (length payload) o inside))
            (push_all-rest fuel max_len payload message end (fs ++ (slice payload offset end ∷ []))
              p (Seq.next seq) w (omega arith) inside (omega arith)
              (held_after fs payload offset end h (omega arith)))
      | no outside ↦
          let e : end ≡ length payload = omega (arith, outside) in
          ap
            (λ b. push_all (holding fs seq) (
              f1 end (position_of offset end (length payload))
              ∷ packets p (Seq.next seq) (fragments_from fuel max_len payload message b)))
            e
          ∙ ap
              (λ gs.
                push_all (holding fs seq)
                  (f1 end (position_of offset end (length payload)) ∷ packets p (Seq.next seq) gs))
              (fragments-end fuel max_len payload message)
          ∙ push_all-some (holding fs seq) (f1 end (position_of offset end (length payload))) (
              push-last fs (f1 end (position_of offset end (length payload)))
                (position-last offset end (length payload) o e))
          ∙ ap (λ m. (reset, m ∷ []))
              (held_after fs payload offset end h (omega arith)
                ∙ take-all payload end (omega arith))
    ]

push-first :
    (r : Reassembler) (p : DataPacket)
    → p.position ≡ first
    → push r p ≡ (holding (p.payload ∷ []) (Seq.next p.seq), none)
unfolding push push_at
push-first r p h = rw h refl

push-single :
    (r : Reassembler) (p : DataPacket) → p.position ≡ single → push r p ≡ (reset, some p.payload)
unfolding push push_at
push-single r p h = rw h refl

push_all-long :
    (fuel max_len : ℕ) (payload : List ℕ) (message : ℕ) (r : Reassembler) (p : DataPacket)
    (seq : SeqNumber)
    → 1 ≤ max_len
    → max_len < length payload
    → length payload ≤ suc fuel
    → push_all r (packets p seq (fragments_from (suc fuel) max_len payload message 0))
      ≡ (reset, payload ∷ [])
push_all-long fuel max_len payload message r p seq w l f =
    let end = min (0 + max_len) (length payload) in
    let head = record p { seq = seq; position = first; payload = slice payload 0 end } in
    ap (λ gs. push_all r (packets p seq gs))
      (fragments-step fuel max_len payload message 0 (omega arith))
    ∙ push_all-none r head _ (push-first r head refl) (
        push_all-rest fuel max_len payload message end (slice payload 0 end ∷ []) p (Seq.next seq) w
          (omega arith) (omega arith) (omega arith)
          (append-nil (slice payload 0 end) ∙ take_at payload (omega arith)))

max_payload-positive : (c : Connection) → 1 ≤ max_payload c
unfolding max_payload
max_payload-positive c = omega arith

longer : (a b : ℕ) → leb a b ≡ false → b < a
longer a b h = ground arith

fuel_of : (payload : List ℕ) → 0 < length payload → length payload ≡ suc (length payload - 1)
fuel_of payload h = omega arith

-- The packets of a whole message, consecutively numbered from any number, give that message back,
-- once, and leave the reassembler as it was when it was made: whatever it held before, and whatever
-- the other fields of the packets are.
pub push_all-fragment_message :
    (c : Connection) (payload : List ℕ) (message : ℕ) (r : Reassembler) (p : DataPacket)
    (seq : SeqNumber)
    → push_all r (packets p seq (fragment_message c payload message)) ≡ (reset, payload ∷ [])
unfolding fragment_message
push_all-fragment_message c payload message r p seq =
    elim (Bool-cases (leb (length payload) (max_payload c))) [
      | inl e ↦ rw e (
          push_all-some r (record p { seq = seq; position = single; payload = payload })
            (push-single r (record p { seq = seq; position = single; payload = payload }) refl))
      | inr e ↦ rw e (
          ap (λ k. push_all r (packets p seq (fragments_from k (max_payload c) payload message 0)))
            (fuel_of payload (omega (arith, longer (length payload) (max_payload c) e)))
          ∙ push_all-long (length payload - 1) (max_payload c) payload message r p seq
              (max_payload-positive c) (longer _ _ e) (omega arith))
    ]
