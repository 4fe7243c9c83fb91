-- ===== src/LossList/Laws.antt =====
-- The loss list's round trips.
use srtrust.Prelude.{
  ℕ, ◌+◌, ◌*◌, ◌%◌, ◌^◌, ◌≤◌, ◌≡◌, refl, arith, ap, ◌∙◌, bit_or, Option, none, some, true, false,
}
use srtrust.Prelude.{
  append_assoc, List, [], ◌∷◌, ◌++◌, leb, ◌==◌, if◌then◌else◌, length, u32_bytes, be_u32,
  be_u32-bytes, All, Bool-cases, inl, inr, ==_iff,
}
use srtrust.Prelude.Bits.{or_comm, or_fields}
use srtrust.Prelude.Result.{Result, ok, err, map_ok}
use srtrust.Seq
use srtrust.Seq.{SeqNumber, IsSeq}
use srtrust.Seq.Laws.{new-seq}
use srtrust.LossList.{
  LossRange, LossListError, range_flag, single, is_single, encode_range, encode, decode_from,
  decode,
}

abbrev pub IsRange : LossRange → Type 0
IsRange r = IsSeq r.start × IsSeq r.end

flagged : (s : SeqNumber) → IsSeq s → bit_or s range_flag ≡ 2 ^ 31 + s
flagged s h = or_comm s (2 ^ 31) ∙ or_fields 31 1 s h

-- What `decode_from` does with a word that starts an entry.
abbrev on_word : List ℕ → ℕ → Result LossListError (List LossRange)
on_word rest word =
    if leb range_flag word
    then decode_from (some (Seq.new word)) rest
    else map_ok (λ rs. single (Seq.new word) ∷ rs) (decode_from none rest)

decode_from-word :
    (a b c d word : ℕ) (rest : List ℕ)
    → be_u32 a b c d ≡ word
    → decode_from none (a ∷ b ∷ c ∷ d ∷ rest) ≡ on_word rest word
unfolding decode_from
decode_from-word a b c d word rest e = ap (on_word rest) e

decode_from-end :
    (a b c d word : ℕ) (s : SeqNumber) (rest : List ℕ)
    → be_u32 a b c d ≡ word
    → decode_from (some s) (a ∷ b ∷ c ∷ d ∷ rest)
      ≡ map_ok (λ rs. record { start = s; end = Seq.new word } ∷ rs) (decode_from none rest)
unfolding decode_from
decode_from-end a b c d word s rest e =
    ap
      (λ (w : ℕ). map_ok (λ rs. record { start = s; end = Seq.new w } ∷ rs) (decode_from none rest))
      e

new-flagged : (s : SeqNumber) → IsSeq s → Seq.new (2 ^ 31 + s) ≡ s
unfolding Seq.new
new-flagged s h = omega arith

decode_from-single :
    (s : SeqNumber) (rest : List ℕ)
    → IsSeq s
    → decode_from none (u32_bytes s ++ rest) ≡ map_ok (λ rs. single s ∷ rs) (decode_from none rest)
decode_from-single s rest h =
    decode_from-word _ _ _ _ s rest (be_u32-bytes s (omega arith))
    ∙ rw (leb-false s h, new-seq s h) refl
  where
    leb-false : (s : SeqNumber) → IsSeq s → leb range_flag s ≡ false
    leb-false s h = ground arith

decode_from-range :
    (s t : SeqNumber) (rest : List ℕ)
    → IsSeq s
    → IsSeq t
    → decode_from none (u32_bytes (bit_or s range_flag) ++ (u32_bytes t ++ rest))
      ≡ map_ok (λ rs. record { start = s; end = t } ∷ rs) (decode_from none rest)
decode_from-range s t rest h k =
    ap (λ (w : ℕ). decode_from none (u32_bytes w ++ (u32_bytes t ++ rest))) (flagged s h)
    ∙ decode_from-word _ _ _ _ (2 ^ 31 + s) (u32_bytes t ++ rest)
        (be_u32-bytes (2 ^ 31 + s) (omega arith))
    ∙ rw (leb-true s, new-flagged s h)
        (decode_from-end _ _ _ _ t s rest (be_u32-bytes t (omega arith)) ∙ rw (new-seq t k) refl)
  where
    leb-true : (s : SeqNumber) → leb range_flag (2 ^ 31 + s) ≡ true
    leb-true s = ground arith

decode_from-encode_range :
    (r : LossRange) (rest : List ℕ)
    → IsRange r
    → decode_from none (encode_range r ++ rest) ≡ map_ok (λ rs. r ∷ rs) (decode_from none rest)
decode_from-encode_range r rest h = elim (Bool-cases (is_single r)) [
  | inl one ↦ rw one (
      decode_from-single r.start rest h.0
      ∙ ap
          (λ (t : SeqNumber).
            map_ok (λ rs. record { start = r.start; end = t } ∷ rs) (decode_from none rest))
          ((==_iff r.start r.end).0 one))
  | inr two ↦ rw two (
      ap (decode_from none)
        (append_assoc (u32_bytes (bit_or r.start range_flag)) (u32_bytes r.end) rest)
      ∙ decode_from-range r.start r.end rest h.0 h.1)
]

decode_from-encode : (rs : List LossRange) → All IsRange rs → decode_from none (encode rs) ≡ ok rs
unfolding encode
decode_from-encode [] h = unfold decode_from in refl
decode_from-encode (r ∷ rs) h =
    decode_from-encode_range r (encode rs) h.0
    ∙ ap (map_ok (λ qs. r ∷ qs)) (decode_from-encode rs h.1)

encode-aligned : (rs : List LossRange) → length (encode rs) % 4 ≡ 0
unfolding encode
encode-aligned [] = refl
encode-aligned (r ∷ rs) = elim (Bool-cases (is_single r)) [
  | inl one ↦ rw one (omega (arith, encode-aligned rs))
  | inr two ↦ rw two (omega (arith, encode-aligned rs))
]

-- Decoding what was encoded gives a loss list of 31-bit numbers back.
pub decode-encode_loss_list : (rs : List LossRange) → All IsRange rs → decode (encode rs) ≡ ok rs
unfolding decode
decode-encode_loss_list rs h = ground (arith, encode-aligned rs, decode_from-encode rs h)

-- What `decode_from` returns: ranges of sequence numbers, at most one for each word.
abbrev Sound : List ℕ → Result LossListError (List LossRange) → Type 0
Sound bytes (err e) = Unit
Sound bytes (ok rs) = All IsRange rs × (4 * length rs ≤ length bytes)

Sound-cons :
    (bytes : List ℕ) (a b c d : ℕ) (r : LossRange) (out : Result LossListError (List LossRange))
    → IsRange r
    → Sound bytes out
    → Sound (a ∷ b ∷ c ∷ d ∷ bytes) (map_ok (λ rs. r ∷ rs) out)
Sound-cons bytes a b c d r (err e) h s = tt
Sound-cons bytes a b c d r (ok rs) h s = ((h, s.0), omega arith)

new-IsSeq : (n : ℕ) → IsSeq (Seq.new n)
unfolding Seq.new
new-IsSeq n = omega arith

IsStart : Option SeqNumber → Type 0
IsStart none = Unit
IsStart (some s) = IsSeq s

Sound-weaken :
    (bytes : List ℕ) (a b c d : ℕ) (out : Result LossListError (List LossRange))
    → Sound bytes out
    → Sound (a ∷ b ∷ c ∷ d ∷ bytes) out
Sound-weaken bytes a b c d (err e) s = tt
Sound-weaken bytes a b c d (ok rs) s = (s.0, omega arith)

decode_from-Sound :
    (open_range : Option SeqNumber) (bytes : List ℕ)
    → IsStart open_range
    → Sound bytes (decode_from open_range bytes)
unfolding decode_from IsStart
decode_from-Sound none [] h = (tt, omega arith)
decode_from-Sound none (a ∷ []) h = tt
decode_from-Sound none (a ∷ b ∷ []) h = tt
decode_from-Sound none (a ∷ b ∷ c ∷ []) h = tt
decode_from-Sound none (a ∷ b ∷ c ∷ d ∷ rest) h =
    let later =
      decode_from-Sound (some (Seq.new (be_u32 a b c d))) rest (new-IsSeq (be_u32 a b c d)) in
    let fresh = decode_from-Sound none rest tt in
    elim (Bool-cases (leb range_flag (be_u32 a b c d))) [
      | inl flag ↦ rw flag (Sound-weaken rest a b c d _ later)
      | inr clear ↦ rw clear (
          Sound-cons rest a b c d (single (Seq.new (be_u32 a b c d))) (decode_from none rest)
            (new-IsSeq (be_u32 a b c d), new-IsSeq (be_u32 a b c d)) fresh)
    ]
decode_from-Sound (some s) [] h = tt
decode_from-Sound (some s) (a ∷ []) h = tt
decode_from-Sound (some s) (a ∷ b ∷ []) h = tt
decode_from-Sound (some s) (a ∷ b ∷ c ∷ []) h = tt
decode_from-Sound (some s) (a ∷ b ∷ c ∷ d ∷ rest) h =
    Sound-cons rest a b c d (record { start = s; end = Seq.new (be_u32 a b c d) })
      (decode_from none rest) (h, new-IsSeq (be_u32 a b c d)) (decode_from-Sound none rest tt)

decode-Sound : (bytes : List ℕ) → Sound bytes (decode bytes)
unfolding decode
decode-Sound bytes = elim (Bool-cases (length bytes % 4 == 0)) [
  | inl e ↦ rw e (decode_from-Sound none bytes (unfold IsStart in tt))
  | inr e ↦ rw e tt
]

-- Whatever bytes decode, the ranges decoded are one for each word at most, and encoding them and
-- decoding again gives the same ranges.
pub encode-decode :
    (bytes : List ℕ) (rs : List LossRange)
    → decode bytes ≡ ok rs
    → (decode (encode rs) ≡ ok rs) × (4 * length rs ≤ length bytes)
encode-decode bytes rs e =
    let sound : Sound bytes (ok rs) = rw e at (decode-Sound bytes) in
    (decode-encode_loss_list rs sound.0, sound.1)
