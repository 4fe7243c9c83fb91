-- ===== src/LossList.antt =====
-- crates/srt-protocol/src/loss_list.rs: the loss list of a NAK, as 32-bit words.
pub mod Laws
mod Tests
use srtrust.Prelude.{ℕ, ◌+◌, ◌%◌, ◌^◌, bit_or, Bool, true, false, Option, none, some, not}
use srtrust.Prelude.{List, [], ◌∷◌, ◌++◌, leb, ◌==◌, if◌then◌else◌, length, u32_bytes, be_u32}
use srtrust.Prelude.Result.{Result, ok, err, map_ok}
use srtrust.Seq
use srtrust.Seq.{SeqNumber}

pub data LossListError : Type 0 where
  misaligned : ℕ → LossListError
  truncated_range : LossListError

abbrev pub range_flag : ℕ
range_flag = 0x8000_0000

pub record LossRange : Type 0 where
  pub start : SeqNumber
  pub end : SeqNumber

abbrev pub single : SeqNumber → LossRange
single s = record { start = s; end = s }

abbrev pub is_single : LossRange → Bool
is_single r = r.start == r.end

abbrev pub encode_range : LossRange → List ℕ
encode_range r =
    if is_single r
    then u32_bytes r.start
    else u32_bytes (bit_or r.start range_flag) ++ u32_bytes r.end

unfoldable pub encode : List LossRange → List ℕ
encode [] = []
encode (r ∷ rs) = encode_range r ++ encode rs

-- The loop of `decode`; `open_range` is the start of a range whose end word is the next one. The
-- last clause is `TruncatedRange`: after a start word fewer than four bytes are left. Without one
-- it is not reached, as the length is a multiple of four.
unfoldable pub decode_from : Option SeqNumber → List ℕ → Result LossListError (List LossRange)
decode_from none [] = ok []
decode_from none (a ∷ b ∷ c ∷ d ∷ rest) =
    let word = be_u32 a b c d in
    let range = decode_from (some (Seq.new word)) rest in
    let one = map_ok (λ rs. single (Seq.new word) ∷ rs) (decode_from none rest) in
    if leb range_flag word then range else one
decode_from (some s) (a ∷ b ∷ c ∷ d ∷ rest) =
    map_ok (λ rs. record { start = s; end = Seq.new (be_u32 a b c d) } ∷ rs) (decode_from none rest)
decode_from open_range other = err truncated_range

unfoldable pub decode : List ℕ → Result LossListError (List LossRange)
unfolding decode_from
decode buf =
    if not (length buf % 4 == 0) then err (misaligned (length buf)) else decode_from none buf
