-- ===== src/Fec.antt =====
-- crates/srt-protocol/src/fec.rs: row FEC. A parity is the exclusive or of the fields of a group of
-- packets; the receiving side (`FecReceiver`) stands in Receiver.
pub mod Xor
pub mod Recover
pub mod Receiver
pub mod Group
mod Tests
use srtrust.Prelude.{ℕ, zero, suc, ◌+◌, ◌-◌, ◌<◌, min, max, bit_xor, Bool, Option, none, some}
use srtrust.Prelude.{List, [], ◌∷◌, ◌++◌, length, take, replicate, ◌==◌, not, if◌then◌else◌}
use srtrust.Prelude.{u16_bytes, be_u16, as_i8, as_u8}
use srtrust.Prelude.Int.{ℤ, negsuc}

abbrev pub row_index : ℤ
row_index = negsuc 0

pub record FecData : Type 0 where
  pub length : ℕ
  pub flags : ℕ
  pub timestamp : ℕ
  pub payload : List ℕ

pub record FecParity : Type 0 where
  pub length_clip : ℕ
  pub flag_clip : ℕ
  pub timestamp_clip : ℕ
  pub payload_clip : List ℕ

-- `Recovered` has the fields of `FecData`.
abbrev pub Recovered : Type 0
Recovered = FecData

pub record Clip : Type 0 where
  pub length : ℕ
  pub flags : ℕ
  pub timestamp : ℕ
  pub payload : List ℕ

unfoldable pub new_clip : ℕ → Clip
new_clip payload_size = record {
  length = 0;
  flags = 0;
  timestamp = 0;
  payload = replicate payload_size 0;
}

-- `for (slot, byte) in payload.iter_mut().zip(data) { *slot ^= byte }`.
unfoldable pub xor_into : List ℕ → List ℕ → List ℕ
xor_into [] bytes = []
xor_into (slot ∷ slots) [] = slot ∷ slots
xor_into (slot ∷ slots) (byte ∷ bytes) = bit_xor slot byte ∷ xor_into slots bytes

unfoldable pub add : Clip → FecData → Clip
unfolding xor_into
add clip d = record {
  length = bit_xor clip.length d.length;
  flags = bit_xor clip.flags d.flags;
  timestamp = bit_xor clip.timestamp d.timestamp;
  payload = xor_into clip.payload d.payload;
}

abbrev pub parity : Clip → FecParity
parity clip = record {
  length_clip = clip.length;
  flag_clip = clip.flags;
  timestamp_clip = clip.timestamp;
  payload_clip = clip.payload;
}

abbrev pub zeroed : List ℕ → List ℕ
zeroed [] = []
zeroed (b ∷ bs) = 0 ∷ zeroed bs

unfoldable pub reset : Clip → Clip
reset clip = record { length = 0; flags = 0; timestamp = 0; payload = zeroed clip.payload }

pub record FecEncoder : Type 0 where
  pub group_size : ℕ
  pub clip : Clip
  pub collected : ℕ

unfoldable pub new_encoder : ℕ → ℕ → FecEncoder
unfolding new_clip
new_encoder group_size payload_size = record {
  group_size = max group_size 2;
  clip = new_clip payload_size;
  collected = 0;
}

unfoldable pub feed : FecEncoder → FecData → FecEncoder × Option FecParity
unfolding add reset
feed e d =
    let clip = add e.clip d in
    let collected = e.collected + 1 in
    if collected == e.group_size
    then (record e { clip = reset clip; collected = 0 }, some (parity clip))
    else (record e { clip = clip; collected = collected }, none)

-- `for data in present { clip.add(*data) }`.
unfoldable pub add_all : Clip → List FecData → Clip
unfolding add
add_all clip [] = clip
add_all clip (d ∷ ds) = add_all (add clip d) ds

-- `Vec::resize(n, 0)`.
abbrev pub resized : ℕ → List ℕ → List ℕ
resized n bytes = take n bytes ++ replicate (n - length bytes) 0

unfoldable pub recover_row : ℕ → ℕ → FecParity → List FecData → Option Recovered
unfolding add_all
recover_row group_size payload_size p present =
    if not (length present == group_size - 1)
    then none
    else (let clip =
          add_all
            (record {
              length = p.length_clip;
              flags = p.flag_clip;
              timestamp = p.timestamp_clip;
              payload = resized payload_size p.payload_clip;
            })
            present in
        some (record {
          length = clip.length;
          flags = clip.flags;
          timestamp = clip.timestamp;
          payload = take (min clip.length payload_size) clip.payload;
        }))

unfoldable pub encode : FecParity → ℤ → List ℕ
encode p group_index = as_u8 group_index ∷ p.flag_clip ∷ u16_bytes p.length_clip ++ p.payload_clip

unfoldable pub decode_parity : List ℕ → ℕ → Option (ℤ × FecParity)
decode_parity (i ∷ f ∷ a ∷ b ∷ payload) timestamp_clip = some (
  as_i8 i,
  record {
    length_clip = be_u16 a b;
    flag_clip = f;
    timestamp_clip = timestamp_clip;
    payload_clip = payload;
  },
)
decode_parity _ timestamp_clip = none
