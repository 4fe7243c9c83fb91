-- ===== src/Seq/Tests.antt =====
-- Concrete inputs for the theorems of sequence numbers.
use srtrust.Prelude.{◌^◌, ◌-◌, arith}
use srtrust.Seq.{offset_from}
use srtrust.Seq.Laws.{Steps, offset-Steps}

offset-Steps_example : Steps 4 (2 ^ 31 - 1) (offset_from 4 (2 ^ 31 - 1))
offset-Steps_example = offset-Steps 4 (2 ^ 31 - 1) (omega arith) (omega arith)
