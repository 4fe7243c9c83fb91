-- ===== src/Seq.antt =====
-- crates/srt-protocol/src/seq.rs: 31-bit sequence numbers and their circular comparison.
-- A `SeqNumber` is its 31-bit value; `& MASK` is the remainder by 2 ^ 31.
pub mod Laws
mod Tests
use srtrust.Prelude.{ℕ, ◌+◌, ◌-◌, ◌%◌, ◌^◌, ◌<◌, leb, if◌then◌else◌}
use srtrust.Prelude.{Ordering, order_of_sign, as_i32}
use srtrust.Prelude.Int.{ℤ, pos}

abbrev pub SeqNumber : Type 0
SeqNumber = ℕ

-- What the newtype guarantees of its value.
abbrev pub IsSeq : SeqNumber → Type 0
IsSeq s = s < 2 ^ 31

abbrev pub count : ℕ
count = 0x8000_0000

abbrev pub threshold : ℕ
threshold = 0x3fff_ffff

abbrev pub max_seq : SeqNumber
max_seq = 0x7fff_ffff

unfoldable pub new : ℕ → SeqNumber
new value = value % 2 ^ 31

unfoldable pub next : SeqNumber → SeqNumber
next s = (s + 1) % 2 ^ 31

-- `wrapping_sub` on u32, then the mask.
unfoldable pub prev : SeqNumber → SeqNumber
prev s = (s + 2 ^ 32 - 1) % 2 ^ 32 % 2 ^ 31

-- `impl Add<u32>`: `wrapping_add`, then the mask.
unfoldable pub add : SeqNumber → ℕ → SeqNumber
add s n = (s + n) % 2 ^ 32 % 2 ^ 31

-- The signed distance from `other` to `self`.
unfoldable pub offset_from : SeqNumber → SeqNumber → ℤ
offset_from s other =
    let forward = (s + 2 ^ 32 - other) % 2 ^ 32 % 2 ^ 31 in
    if leb forward threshold then pos forward else as_i32 ((forward + 2 ^ 32 - count) % 2 ^ 32)

unfoldable pub circular_cmp : SeqNumber → SeqNumber → Ordering
unfolding offset_from
circular_cmp s other = order_of_sign (offset_from s other)
