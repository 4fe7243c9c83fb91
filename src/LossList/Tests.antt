-- ===== src/LossList/Tests.antt =====
-- Concrete inputs for the round trips of the loss list.
use srtrust.Prelude.{◌^◌, ◌-◌, ◌≡◌, refl, arith, List, [], ◌∷◌}
use srtrust.Prelude.Result.{ok}
use srtrust.Seq
use srtrust.LossList.{LossRange, single, encode, decode}
use srtrust.LossList.Laws.{decode-encode_loss_list}

-- A single loss, and a range across the wrap.
abbrev losses : List LossRange
losses = single 5 ∷ record { start = 2 ^ 31 - 1; end = 3 } ∷ []

decode-encode_loss_list_example : decode (encode losses) ≡ ok losses
decode-encode_loss_list_example =
    decode-encode_loss_list losses ((omega arith, omega arith), ((omega arith, omega arith), tt))

decode-encode_loss_list_run : decode (encode losses) ≡ ok losses
unfolding decode encode Seq.new
decode-encode_loss_list_run = refl
