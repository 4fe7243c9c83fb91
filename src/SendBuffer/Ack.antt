-- ===== src/SendBuffer/Ack.antt =====
-- `ack`: how many packets an acknowledgement releases.
use srtrust.Prelude.{
  ℕ, zero, suc, ◌+◌, ◌^◌, ◌≡◌, ◌≢◌, refl, arith, ap, ◌∙◌, ◌⊎◌, inl, inr, min, true, false,
}
use srtrust.Prelude.{List, [], ◌∷◌, length, drop, is_less}
use srtrust.Prelude.Int.{ℤ, pos, negsuc, ℤ-cases}
use srtrust.Seq
use srtrust.Seq.{SeqNumber, IsSeq, offset_from, circular_cmp}
use srtrust.Seq.Laws.{next-IsSeq}
use srtrust.SendBuffer.{Sent, SendBuffer, ack_from, ack}
use srtrust.SendBuffer.Inv.{Runs, IsValid, drop-IsValid}

-- How many packets an acknowledgement `d` steps from the front of `n` packets releases.
abbrev pub released : ℤ → ℕ → ℕ
released (pos d) n = min d n
released (negsuc d) n = 0

is_less-zero :
    (s n : SeqNumber)
    → IsSeq s
    → IsSeq n
    → offset_from n s ≡ pos 0
    → is_less (circular_cmp s n) ≡ false
unfolding circular_cmp offset_from
is_less-zero s n hs hn e = ground arith

is_less-suc :
    (s n : SeqNumber) (d : ℕ)
    → IsSeq s
    → IsSeq n
    → offset_from n s ≡ pos (suc d)
    → is_less (circular_cmp s n) ≡ true
unfolding circular_cmp offset_from
is_less-suc s n d hs hn e = ground arith

is_less-behind :
    (s n : SeqNumber) (d : ℕ)
    → IsSeq s
    → IsSeq n
    → n ≢ Seq.add s (2 ^ 30)
    → offset_from n s ≡ negsuc d
    → is_less (circular_cmp s n) ≡ false
unfolding circular_cmp offset_from Seq.add
is_less-behind s n d hs hn h e = ground arith

offset-next :
    (s n : SeqNumber) (d : ℕ)
    → IsSeq s
    → IsSeq n
    → offset_from n s ≡ pos (suc d)
    → offset_from n (Seq.next s) ≡ pos d
unfolding offset_from Seq.next
offset-next s n d hs hn e = ground arith

ack_from-stop :
    (x : Sent) (xs : List Sent) (n : SeqNumber) (k : ℕ)
    → is_less (circular_cmp x.packet.seq n) ≡ false
    → ack_from (x ∷ xs) n k ≡ (x ∷ xs, k)
unfolding ack_from
ack_from-stop x xs n k e = rw e refl

ack_from-go :
    (x : Sent) (xs : List Sent) (n : SeqNumber) (k : ℕ)
    → is_less (circular_cmp x.packet.seq n) ≡ true
    → ack_from (x ∷ xs) n k ≡ ack_from xs n (k + 1)
unfolding ack_from
ack_from-go x xs n k e = rw e refl

ack_from-released :
    (xs : List Sent) (s n : SeqNumber) (d k m : ℕ)
    → IsSeq s
    → IsSeq n
    → offset_from n s ≡ pos d
    → Runs s xs
    → m ≡ min d (length xs)
    → ack_from xs n k ≡ (drop m xs, k + m)
ack_from-released [] s n d k zero hs hn e r q =
    unfold ack_from in ap (λ (j : ℕ). ([], j)) {x = k} {y = k + 0} (omega arith)
ack_from-released [] s n d k (suc m) hs hn e r q = absurd (omega arith)
ack_from-released (x ∷ xs) s n zero k zero hs hn e r q =
    ack_from-stop x xs n k (rw r.0 (is_less-zero s n hs hn e))
    ∙ ap (λ (j : ℕ). (x ∷ xs, j)) {x = k} {y = k + 0} (omega arith)
ack_from-released (x ∷ xs) s n zero k (suc m) hs hn e r q = absurd (omega arith)
ack_from-released (x ∷ xs) s n (suc d) k zero hs hn e r q = absurd (omega arith)
ack_from-released (x ∷ xs) s n (suc d) k (suc m) hs hn e r q =
    ack_from-go x xs n k (rw r.0 (is_less-suc s n d hs hn e))
    ∙ ack_from-released xs (Seq.next s) n d (k + 1) m (next-IsSeq s) hn (offset-next s n d hs hn e)
        r.1 (omega arith)
    ∙ ap (λ (j : ℕ). (drop m xs, j)) {x = k + 1 + m} {y = k + suc m} (omega arith)

ack_from-behind :
    (xs : List Sent) (s n : SeqNumber) (d k : ℕ)
    → IsSeq s
    → IsSeq n
    → n ≢ Seq.add s (2 ^ 30)
    → offset_from n s ≡ negsuc d
    → Runs s xs
    → ack_from xs n k ≡ (xs, k)
ack_from-behind [] s n d k hs hn h e r = unfold ack_from in refl
ack_from-behind (x ∷ xs) s n d k hs hn h e r =
    ack_from-stop x xs n k (rw r.0 (is_less-behind s n d hs hn h e))

-- On a well-formed buffer an acknowledgement of the number `d` steps ahead of the first packet
-- releases the first `d` packets, or all if there are fewer, and counts them; one behind the first
-- packet releases none. (At exactly half the sequence space the two cannot be told apart, and the
-- case is left out.)
pub ack_lem :
    (b : SendBuffer) (v : IsValid b) (n : SeqNumber)
    → IsSeq n
    → n ≢ Seq.add v.start (2 ^ 30)
    → let d = released (offset_from n v.start) (length b.packets) in
      ack b n ≡ (record { packets = drop d b.packets }, d)
unfolding ack
ack_lem b v n hn h = go (ℤ-cases (offset_from n v.start))
  where
    result :
        (out : List Sent × ℕ)
        → ack_from b.packets n 0 ≡ out
        → ack b n ≡ (record { packets = out.0 }, out.1)
    result out e = ap (λ (o : List Sent × ℕ). (record { packets = o.0 }, o.1)) e

    go :
        ((i : ℕ) × (offset_from n v.start ≡ pos i)) ⊎ ((i : ℕ) × (offset_from n v.start ≡ negsuc i))
        → ack b n ≡ (
          record { packets = drop (released (offset_from n v.start) (length b.packets)) b.packets },
          released (offset_from n v.start) (length b.packets),
        )
    go (inl (i, e)) =
        let m : ℕ = min i (length b.packets) in
        rw e (
          result (drop m b.packets, m)
            (ack_from-released b.packets v.start n i 0 m v.start_seq hn e v.runs refl
              ∙ ap (λ (j : ℕ). (drop m b.packets, j)) {x = 0 + m} {y = m} (omega arith)))
    go (inr (i, e)) =
        rw e (
          result (b.packets, 0) (ack_from-behind b.packets v.start n i 0 v.start_seq hn h e v.runs))

-- What an acknowledgement leaves of a well-formed buffer is well formed, the number half the
-- sequence space ahead of the first packet left out.
pub ack-IsValid :
    (b : SendBuffer) (n : SeqNumber) (v : IsValid b)
    → IsSeq n
    → n ≢ Seq.add v.start (2 ^ 30)
    → IsValid (ack b n).0
ack-IsValid b n v hn h = rw (ack_lem b v n hn h) (drop-IsValid b _ v)
