-- ===== src/Handshake/StreamId.antt =====
-- crates/srt-protocol/src/handshake.rs, `encode_stream_id` and `decode_stream_id`: the text is
-- padded with zeros to whole words, and the bytes of each word are reversed.
use srtrust.Prelude.{ℕ, ◌+◌, ◌-◌, ◌*◌, ◌/◌, Bool}
use srtrust.Prelude.{List, [], ◌∷◌, ◌++◌, ◌==◌, if◌then◌else◌, length, replicate}
use srtrust.Prelude.Result.{Result, ok, err}
use srtrust.Handshake.Types.{HandshakeError, invalid_stream_id}

-- The chunks of four, each reversed; `chunks_exact` leaves out what does not fill one.
unfoldable pub swap_words : List ℕ → List ℕ
swap_words (a ∷ b ∷ c ∷ d ∷ rest) = d ∷ c ∷ b ∷ a ∷ swap_words rest
swap_words other = []

-- `len.div_ceil(4) * 4`.
abbrev pub padded_len : ℕ → ℕ
padded_len n = (n + 3) / 4 * 4

unfoldable pub encode_stream_id : List ℕ → List ℕ
unfolding swap_words
encode_stream_id text = swap_words (text ++ replicate (padded_len (length text) - length text) 0)

-- The bytes up to the last that is not 0.
unfoldable pub trim : List ℕ → List ℕ
trim [] = []
trim (b ∷ bs) = elim (trim bs) [ [] ↦ if b == 0 then [] else b ∷ [] | c ∷ cs ↦ b ∷ c ∷ cs ]

unfoldable pub decode_stream_id : (List ℕ → Bool) → List ℕ → Result HandshakeError (List ℕ)
unfolding swap_words trim
decode_stream_id is_utf8 content =
    let text = trim (swap_words content) in if is_utf8 text then ok text else err invalid_stream_id
