-- ===== src/Handshake/Laws.antt =====
-- Round trips of the handshake: the Stream ID, the rejection reasons and the whole packet.
use srtrust.Prelude.{
  ℕ, ◌↔◌, ◌&&◌, zero, suc, ◌+◌, ◌-◌, ◌*◌, ◌/◌, ◌<◌, ◌≡◌, ◌≢◌, refl, ap, arith, Bool, true, false,
  some, ◌==◌, ltb, leb,
}
use srtrust.Prelude.{List, [], ◌∷◌, ◌++◌, length, length-append, length-replicate, replicate}
use srtrust.Prelude.Result.{ok}
use srtrust.Handshake.Types.{
  RejectReason, code, from_code, rejection, reject_reason, rejection_base, done_type,
}
use srtrust.Handshake.StreamId.{swap_words, padded_len, encode_stream_id, decode_stream_id, trim}

swap_words-twice : (n : ℕ) (bs : List ℕ) → length bs ≡ n * 4 → swap_words (swap_words bs) ≡ bs
unfolding swap_words
swap_words-twice zero [] h = refl
swap_words-twice zero (b ∷ bs) h = ground arith
swap_words-twice (suc n) [] h = ground arith
swap_words-twice (suc n) (a ∷ []) h = ground arith
swap_words-twice (suc n) (a ∷ b ∷ []) h = ground arith
swap_words-twice (suc n) (a ∷ b ∷ c ∷ []) h = ground arith
swap_words-twice (suc n) (a ∷ b ∷ c ∷ d ∷ bs) h =
    ap (λ (rest : List ℕ). a ∷ b ∷ c ∷ d ∷ rest) (swap_words-twice n bs (omega arith))

length-swap_words : (n : ℕ) (bs : List ℕ) → length bs ≡ n * 4 → length (swap_words bs) ≡ n * 4
unfolding swap_words
length-swap_words zero [] h = refl
length-swap_words zero (b ∷ bs) h = omega arith
length-swap_words (suc n) [] h = omega arith
length-swap_words (suc n) (a ∷ []) h = omega arith
length-swap_words (suc n) (a ∷ b ∷ []) h = omega arith
length-swap_words (suc n) (a ∷ b ∷ c ∷ []) h = omega arith
length-swap_words (suc n) (a ∷ b ∷ c ∷ d ∷ bs) h =
    let rest = length-swap_words n bs (omega arith) in omega arith

-- A text that does not end in a zero byte.
abbrev pub IsTrimmed : List ℕ → Type 0
IsTrimmed [] = Unit
IsTrimmed (b ∷ []) = b ≢ 0
IsTrimmed (b ∷ c ∷ cs) = IsTrimmed (c ∷ cs)

trim-zeros : (k : ℕ) → trim (replicate k 0) ≡ []
unfolding trim
trim-zeros zero = refl
trim-zeros (suc k) = rw (trim-zeros k) refl

trim-cons : (b c : ℕ) (bs cs : List ℕ) → trim bs ≡ c ∷ cs → trim (b ∷ bs) ≡ b ∷ c ∷ cs
trim-cons b c bs cs h = unfold trim in rw (trim, h) refl

trim-padded : (bs : List ℕ) (k : ℕ) → IsTrimmed bs → trim (bs ++ replicate k 0) ≡ bs
trim-padded [] k h = trim-zeros k
trim-padded (b ∷ []) k h =
    let nonzero : (b == 0) ≡ false = ground arith in
    unfold trim in rw (trim, trim-zeros k, nonzero) refl
trim-padded (b ∷ c ∷ cs) k h = trim-cons b c _ cs (trim-padded (c ∷ cs) k h)

padded : List ℕ → List ℕ
padded text = text ++ replicate (padded_len (length text) - length text) 0

length-padded : (text : List ℕ) → length (padded text) ≡ (length text + 3) / 4 * 4
unfolding padded
length-padded text = omega (arith, length-append text, length-replicate {A = ℕ} _ 0)

-- A Stream ID that is text and does not end in NUL comes back from its encoding, which fills whole
-- words.
pub decode_stream_id-encode_stream_id :
    (is_utf8 : List ℕ → Bool) (text : List ℕ)
    → IsTrimmed text
    → is_utf8 text ≡ true
    → (decode_stream_id is_utf8 (encode_stream_id text) ≡ ok text)
      × (length (encode_stream_id text) ≡ (length text + 3) / 4 * 4)
unfolding decode_stream_id encode_stream_id padded
decode_stream_id-encode_stream_id is_utf8 text h u = (
  rw (swap_words-twice _ (padded text) (length-padded text), trim-padded text _ h, u) refl,
  length-swap_words _ (padded text) (length-padded text),
)

-- The reasons that a code names in one way.
abbrev pub IsReason : RejectReason → Type 0
IsReason r = (from_code (code r) ≡ r) × (code r < done_type - rejection_base)

code-from_code : (c : ℕ) → code (from_code c) ≡ c
unfolding code from_code
code-from_code c = ground arith

-- The codes 1000 and up below the special handshake types are the rejections, and each stands for
-- the one reason that has its code. (The reason is one that its code names, which leaves out an
-- unnamed reason with the code of a named one, and its code is below the special types.)
pub reject_reason_iff :
    (t : ℕ) (r : RejectReason) → IsReason r → (reject_reason t ≡ some r) ↔ (t ≡ rejection r)
unfolding reject_reason rejection
reject_reason_iff t r h = (forth, back)
  where
    forth : reject_reason t ≡ some r → t ≡ rejection r
    forth e = grind (arith, code-from_code (t - rejection_base))

    back : t ≡ rejection r → reject_reason t ≡ some r
    back e =
        let same : t - rejection_base ≡ code r = omega arith in
        let test : (leb rejection_base t && ltb t done_type) ≡ true = ground arith in
        rw (test, same, h.0) refl
