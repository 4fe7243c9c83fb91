-- ===== src/Fec/Receiver.antt =====
-- crates/srt-protocol/src/fec.rs, `FecReceiver`: it keeps recent packets and parities by sequence
-- number and rebuilds the one packet that a group misses. A `BTreeMap` is a function on its keys.
use srtrust.Prelude.{ℕ, zero, suc, ◌-◌, ◌*◌, ◌^◌, max, Bool, Option, none, some}
use srtrust.Prelude.{List, [], ◌∷◌, ◌++◌, ltb, ◌==◌, if◌then◌else◌}
use srtrust.Prelude.Int.{ℤ, pos, negsuc, ltb_ℤ}
use srtrust.Seq
use srtrust.Seq.{SeqNumber, offset_from}
use srtrust.Fec.{FecData, FecParity, recover_row, decode_parity}

abbrev pub history_groups : ℕ
history_groups = 8

-- A `BTreeMap<u32, A>`: `get`, `insert`, `remove` and `retain`.
abbrev pub Table : Type 0 → Type 0
Table A = ℕ → Option A

abbrev pub insert : {A : Type 0} → ℕ → A → Table A → Table A
insert k v m = λ j. if j == k then some v else m j

abbrev pub remove : {A : Type 0} → ℕ → Table A → Table A
remove k m = λ j. if j == k then none else m j

abbrev pub retain : {A : Type 0} → (ℕ → Bool) → Table A → Table A
retain keep m = λ j. if keep j then m j else none

-- `StoredData` has the fields of `FecData`.
abbrev pub StoredData : Type 0
StoredData = FecData

pub record RecoveredPacket : Type 0 where
  pub seq : SeqNumber
  pub timestamp : ℕ
  pub flags : ℕ
  pub payload : List ℕ

pub record FecReceiver : Type 0 where
  pub group_size : ℕ
  pub payload_size : ℕ
  pub stored : Table StoredData
  pub parities : Table FecParity

unfoldable pub new : ℕ → ℕ → FecReceiver
new group_size payload_size = record {
  group_size = max group_size 2;
  payload_size = payload_size;
  stored = λ k. none;
  parities = λ k. none;
}

-- The loop of `try_group`: the members at hand and the missing number, `none` for the early return
-- at a second missing number.
unfoldable pub gather :
    ℕ
    → Table StoredData
    → SeqNumber
    → List FecData
    → Option SeqNumber
    → Option (List FecData × Option SeqNumber)
gather zero stored seq present missing = some (present, missing)
gather (suc n) stored seq present missing = elim (stored seq) [
  | some d ↦ gather n stored (Seq.next seq) (present ++ (d ∷ [])) missing
  | none ↦ elim missing [ some m ↦ none | none ↦ gather n stored (Seq.next seq) present (some seq) ]
]

-- The end of `try_group`, once one packet is rebuilt.
abbrev pub accept :
    FecReceiver → SeqNumber → SeqNumber → FecData → FecReceiver × List RecoveredPacket
accept r base missing rec = (
  record r { stored = insert missing rec r.stored; parities = remove base r.parities },
  record { seq = missing; timestamp = rec.timestamp; flags = rec.flags; payload = rec.payload }
      ∷ [],
)

-- The members are at hand: rebuild the missing one, if one is missing.
abbrev pub rebuild :
    FecReceiver
    → SeqNumber
    → FecParity
    → Option (List FecData × Option SeqNumber)
    → FecReceiver × List RecoveredPacket
rebuild r base p none = (r, [])
rebuild r base p (some (present, none)) = (r, [])
rebuild r base p (some (present, some missing)) =
    elim (recover_row r.group_size r.payload_size p present) [
      | none ↦ (r, [])
      | some rec ↦ accept r base missing rec
    ]

-- The new state, and what is pushed to `out`.
unfoldable pub try_group : FecReceiver → SeqNumber → FecReceiver × List RecoveredPacket
unfolding gather
try_group r base = elim (r.parities base) [
  | none ↦ (r, [])
  | some p ↦ rebuild r base p (gather r.group_size r.stored base [] none)
]

abbrev pub in_window : SeqNumber → ℕ → ℕ → Bool
in_window newest window seq = ltb_ℤ (offset_from newest (Seq.new seq)) (pos window)

-- `i32::try_from(group_size * 8).unwrap_or(i32::MAX)`.
abbrev pub window_of : ℕ → ℕ
window_of group_size =
    if ltb (group_size * history_groups) (2 ^ 31) then group_size * history_groups else 2 ^ 31 - 1

unfoldable pub evict : FecReceiver → SeqNumber → FecReceiver
evict r newest = record r {
  stored = retain (in_window newest (window_of r.group_size)) r.stored;
  parities = retain (in_window newest (window_of r.group_size)) r.parities;
}

-- The loop of `observe_data` over the groups that could contain the packet.
unfoldable pub try_groups : ℕ → FecReceiver → SeqNumber → FecReceiver × List RecoveredPacket
unfolding try_group
try_groups zero r base = (r, [])
try_groups (suc n) r base =
    let (r', out) = try_group r base in
    let (r'', outs) = try_groups n r' (Seq.prev base) in (r'', out ++ outs)

unfoldable pub observe_data :
    FecReceiver → SeqNumber → ℕ → ℕ → ℕ → List ℕ → FecReceiver × List RecoveredPacket
unfolding try_groups evict
observe_data r seq length flags timestamp payload =
    let d : StoredData = record {
      length = length;
      flags = flags;
      timestamp = timestamp;
      payload = payload;
    } in
    let (r', out) = try_groups r.group_size (record r { stored = insert seq d r.stored }) seq in
    (evict r' seq, out)

-- `n` steps of `prev`.
unfoldable pub back : ℕ → SeqNumber → SeqNumber
back zero s = s
back (suc n) s = back n (Seq.prev s)

abbrev pub is_row : ℤ → Bool
is_row (pos n) = ltb n 0
is_row (negsuc n) = n == 0

unfoldable pub observe_parity :
    FecReceiver → SeqNumber → List ℕ → ℕ → FecReceiver × List RecoveredPacket
unfolding try_group evict back decode_parity
observe_parity r fec_seq payload timestamp_clip = elim (decode_parity payload timestamp_clip) [
  | none ↦ (r, [])
  | some (index, p) ↦
      (let base = back (r.group_size - 1) fec_seq in
        let (r', out) = try_group (record r { parities = insert base p r.parities }) base in
        if is_row index then (evict r' fec_seq, out) else (r, []))
]
