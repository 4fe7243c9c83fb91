-- ===== src/SendBuffer/Mark.antt =====
-- The retransmission marks: `mark_retransmitted`.
use mathlib.Core.Option
use srtrust.Prelude.{
  ℕ, zero, suc, ◌≡◌, refl, arith, ap, sym, ◌∙◌, ◌⊎◌, inl, inr, none, some, Option-cases, ◌↔◌,
}
use srtrust.Prelude.{List, [], ◌∷◌, length, get_elem?, ◌==◌, if◌then◌else◌}
use srtrust.Seq
use srtrust.Seq.{SeqNumber, IsSeq, offset_from}
use srtrust.SendBuffer.{
  Sent, SendBuffer, Instant, index_in, index_of, entry, mark_at, mark_retransmitted,
}
use srtrust.SendBuffer.Inv.{Runs, IsValid}
use srtrust.SendBuffer.Index.{index_of-Runs, index_of-some, entry-some, entry-none}

-- A mark changes neither the length nor any packet.
mark_at-length : (xs : List Sent) (i : ℕ) (now : Instant) → length (mark_at xs i now) ≡ length xs
mark_at-length [] i now = refl
mark_at-length (x ∷ xs) zero now = refl
mark_at-length (x ∷ xs) (suc i) now = ap suc (mark_at-length xs i now)

abbrev pub marked : Instant → Sent → Sent
marked now x = record x { last_retransmit = some now }

mark_at-get :
    (xs : List Sent) (i j : ℕ) (now : Instant)
    → get_elem? (mark_at xs i now) j
      ≡ (if i == j then Option.map (marked now) (get_elem? xs j) else get_elem? xs j)
mark_at-get [] i j now = ground arith
mark_at-get (x ∷ xs) zero zero now = refl
mark_at-get (x ∷ xs) zero (suc j) now = ground arith
mark_at-get (x ∷ xs) (suc i) zero now = ground arith
mark_at-get (x ∷ xs) (suc i) (suc j) now = mark_at-get xs i j now ∙ ground arith

mark_at-Runs :
    (xs : List Sent) (s : SeqNumber) (i : ℕ) (now : Instant) → Runs s xs → Runs s (mark_at xs i now)
mark_at-Runs [] s i now r = r
mark_at-Runs (x ∷ xs) s zero now r = r
mark_at-Runs (x ∷ xs) s (suc i) now r = (r.0, mark_at-Runs xs (Seq.next s) i now r.1)

mark-some :
    (b : SendBuffer) (s : SeqNumber) (i : ℕ) (now : Instant)
    → index_of b s ≡ some i
    → mark_retransmitted b s now ≡ record { packets = mark_at b.packets i now }
unfolding mark_retransmitted
mark-some b s i now e = rw (e, mark_retransmitted) refl

mark-none :
    (b : SendBuffer) (s : SeqNumber) (now : Instant)
    → index_of b s ≡ none
    → mark_retransmitted b s now ≡ b
unfolding mark_retransmitted
mark-none b s now e = rw (e, mark_retransmitted) refl

-- `mark_retransmitted` keeps a well-formed buffer well formed.
pub mark_retransmitted-IsValid :
    (b : SendBuffer) (s : SeqNumber) (now : Instant)
    → IsValid b
    → IsValid (mark_retransmitted b s now)
mark_retransmitted-IsValid b s now v = elim (Option-cases (index_of b s)) [
  | inl e ↦ rw (mark-none b s now e) v
  | inr (i, e) ↦ rw (mark-some b s i now e) (record {
    start = v.start;
    start_seq = v.start_seq;
    runs = mark_at-Runs b.packets v.start i now v.runs;
    span = omega (arith, v.span, mark_at-length b.packets i now);
  })
]

index_of-mark_at :
    (b : SendBuffer) (i : ℕ) (t : SeqNumber) (now : Instant)
    → IsValid b
    → index_of (record { packets = mark_at b.packets i now }) t ≡ index_of b t
index_of-mark_at b i t now v =
    index_of-Runs (mark_at b.packets i now) v.start t (mark_at-Runs b.packets v.start i now v.runs)
    ∙ ap (index_in (offset_from t v.start)) (mark_at-length b.packets i now)
    ∙ sym (index_of-Runs b.packets v.start t v.runs)

-- On a well-formed buffer marking the packet of number `s` changes the time of retransmission of
-- that entry alone.
pub entry-mark_retransmitted :
    (b : SendBuffer) (s t : SeqNumber) (now : Instant)
    → IsSeq s
    → IsSeq t
    → IsValid b
    → entry (mark_retransmitted b s now) t
      ≡ (if s == t then Option.map (marked now) (entry b t) else entry b t)
entry-mark_retransmitted b s t now hs ht v =
    go (Option-cases (index_of b s)) (Option-cases (index_of b t))
  where
    indices : (i j : ℕ) → index_of b s ≡ some i → index_of b t ≡ some j → (i ≡ j) ↔ (s ≡ t)
    indices i j e f = (
      (λ q.
          (index_of-some b s i v hs e).0
          ∙ ap (Seq.add v.start) q
          ∙ sym (index_of-some b t j v ht f).0),
      (λ q. cc (ap (index_of b) q)),
    )

    go :
        (index_of b s ≡ none) ⊎ ((i : ℕ) × (index_of b s ≡ some i))
        → (index_of b t ≡ none) ⊎ ((j : ℕ) × (index_of b t ≡ some j))
        → entry (mark_retransmitted b s now) t
          ≡ (if s == t then Option.map (marked now) (entry b t) else entry b t)
    go (inl e) (inl f) = rw (mark-none b s now e) (rw (entry-none b t f) (ground arith))
    go (inl e) (inr (j, f)) = rw (mark-none b s now e) (ground (arith, ap (index_of b)))
    go (inr (i, e)) (inl f) =
        rw (mark-some b s i now e, entry-none b t f)
          (entry-none (record { packets = mark_at b.packets i now }) t
              (index_of-mark_at b i t now v ∙ f)
            ∙ ground arith)
    go (inr (i, e)) (inr (j, f)) =
        rw (mark-some b s i now e, entry-some b t j f)
          (entry-some (record { packets = mark_at b.packets i now }) t j
              (index_of-mark_at b i t now v ∙ f)
            ∙ mark_at-get b.packets i j now
            ∙ ground (arith, indices i j e f))
