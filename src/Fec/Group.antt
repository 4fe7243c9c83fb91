-- ===== src/Fec/Group.antt =====
-- The receiver rebuilds the one packet that a group misses when the parity arrives.
use srtrust.Prelude.{
  ℕ, zero, suc, ◌+◌, ◌-◌, ◌^◌, ◌<◌, ◌≡◌, refl, arith, ap, ap₂, sym, ◌∙◌, Option, none, some, List,
  [], ◌∷◌, ◌++◌, append-nil, append_assoc,
}
use srtrust.Prelude.{length, length-append}
use srtrust.Prelude.Int.{ℤ, pos, negsuc, ◌≤ℤ◌}
use srtrust.Seq
use srtrust.Seq.{SeqNumber, IsSeq}
use srtrust.Seq.Laws.{next-add, prev-add, add-zero}
use native.Mathlib.Numerals.{add-one}
use mathlib.Core.Path.{subst}
use srtrust.Prelude.{All, as_i8, as_u8, be_u16-bytes}
use srtrust.Prelude.Bits.{xor-lt}
use srtrust.Fec.{
  Clip, add, add_all, new_clip, FecData, FecParity, recover_row, encode, decode_parity, row_index,
}
use srtrust.Fec.Recover.{Fits, group_parity, recover_row-parity}
use srtrust.Fec.Receiver.{
  Table, StoredData, RecoveredPacket, FecReceiver, gather, rebuild, accept, try_group, back,
  observe_parity, insert,
}

-- The packets are stored under the consecutive numbers from step `i` on.
abbrev pub Stored : Table StoredData → SeqNumber → ℕ → List FecData → Type 0
Stored stored base i [] = Unit
Stored stored base i (d ∷ ds) = (stored (Seq.add base i) ≡ some d) × Stored stored base (i + 1) ds

gather-after :
    (ds : List FecData) (stored : Table StoredData) (base : SeqNumber) (i : ℕ)
    (present : List FecData) (missing : Option SeqNumber)
    → Stored stored base i ds
    → gather (length ds) stored (Seq.add base i) present missing ≡ some (present ++ ds, missing)
unfolding gather
gather-after [] stored base i present missing h =
    ap (λ ds. some (ds, missing)) (sym (append-nil present))
gather-after (d ∷ ds) stored base i present missing h = rw h.0 (
    rw (next-add base i) (
      gather-after ds stored base (i + 1) (present ++ (d ∷ [])) missing h.1
      ∙ ap (λ es. some (es, missing)) (append_assoc present (d ∷ []) ds)))

-- The number of step `j` is the one missing; `n` rounds go over the whole group.
gather-before :
    (before after : List FecData) (stored : Table StoredData) (base : SeqNumber) (i j n : ℕ)
    (present : List FecData)
    → j ≡ i + length before
    → n ≡ length before + suc (length after)
    → Stored stored base i before
    → stored (Seq.add base j) ≡ none
    → Stored stored base (j + 1) after
    → gather n stored (Seq.add base i) present none
      ≡ some (present ++ (before ++ after), some (Seq.add base j))
unfolding gather
gather-before [] after stored base i j zero present q r h e k = absurd (omega arith)
gather-before [] after stored base i j (suc n) present q r h e k =
    let here : j ≡ i = omega arith in
    let rounds : n ≡ length after = omega arith in
    rw (← here) (
      rw (e, gather)
        (rw (rounds, next-add base j)
          (gather-after after stored base (j + 1) present (some (Seq.add base j)) k)))
gather-before (d ∷ ds) after stored base i j zero present q r h e k = absurd (omega arith)
gather-before (d ∷ ds) after stored base i j (suc n) present q r h e k =
    rw (h.0, gather)
      (rw (next-add base i) (
        gather-before ds after stored base (i + 1) j n (present ++ (d ∷ [])) (omega arith)
          (omega arith) h.1 e k
        ∙ ap (λ es. some (es, some (Seq.add base j)))
            (append_assoc present (d ∷ []) (ds ++ after))))

as_i8-as_u8 : (z : ℤ) → negsuc 127 ≤ℤ z → z ≤ℤ pos 127 → as_i8 (as_u8 z) ≡ z
as_i8-as_u8 (pos n) lo hi = ground arith
as_i8-as_u8 (negsuc n) lo hi = ground arith

-- The wire form of a parity with a 16-bit length decodes to the parity and its index, for an index
-- of one signed byte.
pub decode_parity-encode :
    (p : FecParity) (index : ℤ)
    → p.length_clip < 2 ^ 16
    → negsuc 127 ≤ℤ index
    → index ≤ℤ pos 127
    → decode_parity (encode p index) p.timestamp_clip ≡ some (index, p)
unfolding encode decode_parity
decode_parity-encode p index h lo hi =
    ap₂ (λ (z : ℤ) (n : ℕ). some (z, record p { length_clip = n })) (as_i8-as_u8 index lo hi)
      (be_u16-bytes p.length_clip h)

back-add : (n : ℕ) (base : SeqNumber) → IsSeq base → back n (Seq.add base n) ≡ base
unfolding back
back-add zero base h = add-zero base h
back-add (suc n) base h = rw (← add-one n) (rw (prev-add base n) (back-add n base h))

-- The packets of a group other than `x` are stored, and `x` is not.
pub record Misses (r : FecReceiver) (base : SeqNumber) (before : List FecData) (x : FecData)
    (after : List FecData) : Type 0 where
  pub base_seq : IsSeq base
  pub size : r.group_size ≡ length (before ++ (x ∷ after))
  pub earlier : Stored r.stored base 0 before
  pub absent : r.stored (Seq.add base (length before)) ≡ none
  pub later : Stored r.stored base (length before + 1) after
  pub fits : Fits r.payload_size x

abbrev pub rebuilt : SeqNumber → FecData → RecoveredPacket
rebuilt s x = record { seq = s; timestamp = x.timestamp; flags = x.flags; payload = x.payload }

try_group-Misses :
    (r : FecReceiver) (base : SeqNumber) (before : List FecData) (x : FecData)
    (after : List FecData)
    → r.parities base ≡ some (group_parity r.payload_size (before ++ (x ∷ after)))
    → Misses r base before x after
    → try_group r base ≡ accept r base (Seq.add base (length before)) x
try_group-Misses r base before x after q m = found ∙ ap (rebuild r base p) gathered ∙ recovered
  where
    p : FecParity
    p = group_parity r.payload_size (before ++ (x ∷ after))

    found : try_group r base ≡ rebuild r base p (gather r.group_size r.stored base [] none)
    found = unfold try_group in rw (q, try_group) refl

    gathered :
        gather r.group_size r.stored base [] none
        ≡ some (before ++ after, some (Seq.add base (length before)))
    gathered =
        subst
          (λ (s : SeqNumber).
            gather r.group_size r.stored s [] none
            ≡ some (before ++ after, some (Seq.add base (length before))))
          (add-zero base m.base_seq)
          (gather-before before after r.stored base 0 (length before) r.group_size [] (omega arith)
            (m.size ∙ length-append before (x ∷ after)) m.earlier m.absent m.later)

    row : recover_row r.group_size r.payload_size p (before ++ after) ≡ some x
    row =
        ap (λ (g : ℕ). recover_row g r.payload_size p (before ++ after)) m.size
        ∙ recover_row-parity r.payload_size before x after m.fits

    recovered :
        rebuild r base p (some (before ++ after, some (Seq.add base (length before))))
        ≡ accept r base (Seq.add base (length before)) x
    recovered = rw (row, rebuild) refl

observe_parity-row :
    (r : FecReceiver) (base s : SeqNumber) (payload : List ℕ) (t : ℕ) (p : FecParity)
    → decode_parity payload t ≡ some (row_index, p)
    → back (r.group_size - 1) s ≡ base
    → (observe_parity r s payload t).1
      ≡ (try_group (record r { parities = insert base p r.parities }) base).1
unfolding observe_parity
observe_parity-row r base s payload t p e h =
    rw (e, observe_parity)
      (ap (λ (b : SeqNumber). (try_group (record r { parities = insert b p r.parities }) b).1) h)

clip-lt :
    (ds : List FecData) (c : Clip)
    → c.length < 2 ^ 16
    → All (λ (d : FecData). d.length < 2 ^ 16) ds
    → (add_all c ds).length < 2 ^ 16
unfolding add_all add
clip-lt [] c h a = h
clip-lt (d ∷ ds) c h a = clip-lt ds (add c d) (xor-lt 16 c.length d.length h a.0) a.1

new_clip-lt : (n : ℕ) → (new_clip n).length < 2 ^ 16
unfolding new_clip
new_clip-lt n = omega arith

-- Where exactly one packet of a group is not stored, the arrival of the group's parity rebuilds
-- that packet and nothing else, under its number and with its fields, if the lengths are 16-bit and
-- the payload of the missing packet has its length and fits the payload size.
pub observe_parity-rebuilds :
    (r : FecReceiver) (base : SeqNumber) (before : List FecData) (x : FecData)
    (after : List FecData)
    → All (λ (d : FecData). d.length < 2 ^ 16) (before ++ (x ∷ after))
    → Misses r base before x after
    → (let p = group_parity r.payload_size (before ++ (x ∷ after)) in
        (observe_parity r (Seq.add base (r.group_size - 1)) (encode p row_index) p.timestamp_clip).1
        ≡ rebuilt (Seq.add base (length before)) x ∷ [])
observe_parity-rebuilds r base before x after h m =
    let p : FecParity = group_parity r.payload_size (before ++ (x ∷ after)) in
    observe_parity-row r base (Seq.add base (r.group_size - 1)) (encode p row_index)
      p.timestamp_clip p
      (decode_parity-encode p row_index
        (clip-lt (before ++ (x ∷ after)) (new_clip r.payload_size) (new_clip-lt r.payload_size) h)
        (omega arith) (omega arith))
      (back-add (r.group_size - 1) base m.base_seq)
    ∙ ap (λ (o : FecReceiver × List RecoveredPacket). o.1)
        (try_group-Misses (record r { parities = insert base p r.parities }) base before x after
          (ground arith)
          (record {
            base_seq = m.base_seq;
            size = m.size;
            earlier = m.earlier;
            absent = m.absent;
            later = m.later;
            fits = m.fits;
          }))
