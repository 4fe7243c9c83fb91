-- ===== src/Batch/Tests.antt =====
-- Concrete datagrams for the theorems on batches.
use srtrust.Prelude.{ℕ, ◌≡◌, arith, max, List, [], ◌∷◌, take, All}
use srtrust.Batch.{gso_batches, gro_split}
use srtrust.Batch.Laws.{flatten, IsBatch, AreSegments, gso_batches-flatten, gro_split-flatten}

abbrev datagrams : List (List ℕ)
datagrams = (1 ∷ 2 ∷ []) ∷ (3 ∷ 4 ∷ []) ∷ (5 ∷ []) ∷ []

gso_batches-flatten_example :
    (flatten (gso_batches datagrams 4) ≡ datagrams)
    × All (IsBatch (max 4 1)) (gso_batches datagrams 4)
gso_batches-flatten_example = gso_batches-flatten datagrams 4

abbrev received : List ℕ
received = 1 ∷ 2 ∷ 3 ∷ 4 ∷ 5 ∷ 0 ∷ []

gro_split-flatten_example :
    (flatten (gro_split received 5 2) ≡ take 5 received) × AreSegments 2 (gro_split received 5 2)
gro_split-flatten_example = gro_split-flatten received 5 2 (omega arith)
