-- ===== src/Batch.antt =====
-- crates/srt/src/batch.rs: grouping datagrams for one send, and splitting what one receive coalesced.
-- An index into a slice is the rest of a list. Each round takes an element at least, so the length
-- is fuel enough.
pub mod Laws
mod Tests
use srtrust.Prelude.{
  ℕ, zero, suc, ◌-◌, min, max, List, [], ◌∷◌, length, take, drop, ltb, ◌==◌, ◌||◌, ◌&&◌,
  if◌then◌else◌,
}

-- The inner loop: how many of the datagrams that follow join a batch that may grow by `room`.
unfoldable pub run_length : ℕ → ℕ → List (List ℕ) → ℕ
run_length zero seg_len datagrams = 0
run_length (suc room) seg_len [] = 0
run_length (suc room) seg_len (d ∷ ds) =
    let rest = run_length room seg_len ds in if length d == seg_len then suc rest else 0

unfoldable pub batches_from : ℕ → ℕ → List (List ℕ) → List (List (List ℕ))
unfolding run_length
batches_from zero cap datagrams = []
batches_from (suc fuel) cap [] = []
batches_from (suc fuel) cap (d ∷ ds) =
    let n = run_length (cap - 1) (length d) ds in
    (d ∷ take n ds) ∷ batches_from fuel cap (drop n ds)

unfoldable pub gso_batches : List (List ℕ) → ℕ → List (List (List ℕ))
unfolding batches_from
gso_batches datagrams max_segments = batches_from (length datagrams) (max max_segments 1) datagrams

unfoldable pub split_from : ℕ → ℕ → List ℕ → List (List ℕ)
split_from zero step bytes = []
split_from (suc fuel) step [] = []
split_from (suc fuel) step (b ∷ bytes) =
    take step (b ∷ bytes) ∷ split_from fuel step (drop step (b ∷ bytes))

unfoldable pub gro_split : List ℕ → ℕ → ℕ → List (List ℕ)
unfolding split_from
gro_split buf total stride =
    let valid = min total (length buf) in
    let step = if (stride == 0) || ltb valid stride then valid else stride in
    split_from valid step (take valid buf)
