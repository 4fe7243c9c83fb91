-- ===== src/Fec/Tests.antt =====
-- Concrete inputs for the theorems of the FEC.
use srtrust.Prelude.{◌≡◌, refl, arith, none, some, [], ◌∷◌}
use srtrust.Seq
use srtrust.Fec.{FecData, FecParity, recover_row, new_encoder, encode, row_index}
use srtrust.Fec.Recover.{group_parity, feed_all, group_outputs, feed_all_lem, recover_row-parity}
use srtrust.Fec.Receiver.{FecReceiver, insert, observe_parity}
use srtrust.Fec.Group.{Misses, rebuilt, observe_parity-rebuilds}

abbrev a : FecData
a = record { length = 2; flags = 1; timestamp = 100; payload = 7 ∷ 9 ∷ [] }

abbrev b : FecData
b = record { length = 3; flags = 2; timestamp = 110; payload = 4 ∷ 5 ∷ 6 ∷ [] }

abbrev c : FecData
c = record { length = 1; flags = 0; timestamp = 120; payload = 255 ∷ [] }

feed_all_lem_example :
    feed_all (new_encoder 3 4) (a ∷ b ∷ c ∷ [])
    ≡ (new_encoder 3 4, group_outputs 2 (group_parity 4 (a ∷ b ∷ c ∷ [])))
feed_all_lem_example = feed_all_lem 3 4 a (b ∷ c ∷ []) refl

recover_row-parity_example : recover_row 3 4 (group_parity 4 (a ∷ b ∷ c ∷ [])) (a ∷ c ∷ []) ≡ some b
recover_row-parity_example = recover_row-parity 4 (a ∷ []) b (c ∷ []) (refl, omega arith)

abbrev parity : FecParity
parity = record { length_clip = 300; flag_clip = 3; timestamp_clip = 90; payload_clip = 1 ∷ 2 ∷ [] }

-- A receiver of groups of three that holds the packets 10 and 12.
abbrev receiver : FecReceiver
receiver = record {
  group_size = 3;
  payload_size = 4;
  stored = insert 12 c (insert 10 a (λ k. none));
  parities = λ k. none;
}

receiver-Misses : Misses receiver 10 (a ∷ []) b (c ∷ [])
unfolding Seq.add
receiver-Misses = record {
  base_seq = omega arith;
  size = refl;
  earlier = (refl, tt);
  absent = refl;
  later = (refl, tt);
  fits = (refl, omega arith);
}

observe_parity-rebuilds_example :
    (observe_parity receiver
      (Seq.add 10 2)
      (encode (group_parity 4 (a ∷ b ∷ c ∷ [])) row_index)
      (group_parity 4 (a ∷ b ∷ c ∷ [])).timestamp_clip).1
    ≡ rebuilt (Seq.add 10 1) b ∷ []
observe_parity-rebuilds_example =
    observe_parity-rebuilds receiver 10 (a ∷ []) b (c ∷ [])
      (omega arith, (omega arith, (omega arith, tt))) receiver-Misses
