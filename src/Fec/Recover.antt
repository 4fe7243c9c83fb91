-- ===== src/Fec/Recover.antt =====
-- The encoder's groups, and the recovery of a lost packet from a group's parity.
use srtrust.Prelude.{
  ℕ, zero, suc, ◌+◌, ◌-◌, ◌≤◌, ◌<◌, ◌≡◌, refl, arith, ap, ap₂, sym, ◌∙◌, bit_xor, Option, none,
  some, min, max, List, [], ◌∷◌, ◌++◌, append-nil, append_assoc, ◌≢◌, append_assoc, ◌≢◌,
}
use srtrust.Prelude.{
  length, take, take-all, replicate, length-append, length-replicate, ◌==◌, true, false,
}
use srtrust.Prelude.Bits.{zero-xor}
use srtrust.Fec.{
  FecData, FecParity, FecEncoder, Clip, xor_into, add, add_all, reset, new_clip, new_encoder, feed,
  parity, resized, recover_row,
}
use srtrust.Fec.Xor.{
  add_all-middle, add_all-add, add_all_cancel, length-add_all, reset-new, xor_into-zeros,
}

-- Feeding a list of packets, with the outputs in order.
abbrev pub feed_all : FecEncoder → List FecData → FecEncoder × List (Option FecParity)
feed_all e [] = (e, [])
feed_all e (d ∷ ds) =
    let (e', out) = feed e d in let (e'', outs) = feed_all e' ds in (e'', out ∷ outs)

-- The parity of a group.
abbrev pub group_parity : ℕ → List FecData → FecParity
group_parity payload_size ds = parity (add_all (new_clip payload_size) ds)

-- The encoder inside a group of which the packets `ds` were fed.
abbrev pub encoder_at : ℕ → ℕ → List FecData → FecEncoder
encoder_at g n ds = record { group_size = g; clip = add_all (new_clip n) ds; collected = length ds }

length-clip : (n : ℕ) (ds : List FecData) → length (add_all (new_clip n) ds).payload ≡ n
unfolding new_clip
length-clip n ds = length-add_all ds (new_clip n) ∙ length-replicate n 0

add_all-snoc :
    (ds : List FecData) (d : FecData) (c : Clip) → add (add_all c ds) d ≡ add_all c (ds ++ (d ∷ []))
add_all-snoc ds d c =
    sym (add_all-middle ds d [] c ∙ ap (λ es. add (add_all c es) d) (append-nil ds))

add_all-nil : (c : Clip) → add_all c [] ≡ c
unfolding add_all
add_all-nil c = refl

feed-false :
    (e : FecEncoder) (d : FecData)
    → (e.collected + 1 == e.group_size) ≡ false
    → feed e d ≡ (record e { clip = add e.clip d; collected = e.collected + 1 }, none)
unfolding feed
feed-false e d h = rw h refl

feed-true :
    (e : FecEncoder) (d : FecData)
    → (e.collected + 1 == e.group_size) ≡ true
    → feed e d
      ≡ (record e { clip = reset (add e.clip d); collected = 0 }, some (parity (add e.clip d)))
unfolding feed
feed-true e d h = rw h refl

feed-inside :
    (g n : ℕ) (ds : List FecData) (d : FecData)
    → length ds + 1 < g
    → feed (encoder_at g n ds) d ≡ (encoder_at g n (ds ++ (d ∷ [])), none)
feed-inside g n ds d h =
    feed-false (encoder_at g n ds) d (ground arith)
    ∙ ap₂ (λ (c : Clip) (k : ℕ). (record { group_size = g; clip = c; collected = k }, none))
        (add_all-snoc ds d (new_clip n)) (sym (length-append ds (d ∷ [])))

feed-last :
    (g n : ℕ) (ds : List FecData) (d : FecData)
    → length ds + 1 ≡ g
    → feed (encoder_at g n ds) d ≡ (encoder_at g n [], some (group_parity n (ds ++ (d ∷ []))))
feed-last g n ds d h =
    feed-true (encoder_at g n ds) d (ground arith)
    ∙ ap₂ (λ (c k : Clip). (record { group_size = g; clip = c; collected = 0 }, some (parity k)))
        (reset-new (add (add_all (new_clip n) ds) d) n (
            ap (λ (c : Clip). length c.payload) (add_all-snoc ds d (new_clip n))
            ∙ length-clip n (ds ++ (d ∷ [])))
          ∙ sym (add_all-nil (new_clip n)))
        (add_all-snoc ds d (new_clip n))

-- Nothing for every packet of a group but the last, and then its parity.
abbrev pub group_outputs : ℕ → FecParity → List (Option FecParity)
group_outputs zero p = some p ∷ []
group_outputs (suc k) p = none ∷ group_outputs k p

feed_all-group :
    (rest : List FecData) (d : FecData) (g n : ℕ) (ds : List FecData)
    → length ds + length rest + 1 ≡ g
    → feed_all (encoder_at g n ds) (d ∷ rest)
      ≡ (encoder_at g n [], group_outputs (length rest) (group_parity n (ds ++ (d ∷ rest))))
feed_all-group [] d g n ds h =
    ap (λ (r : FecEncoder × Option FecParity). (r.0, r.1 ∷ [])) (feed-last g n ds d (omega arith))
feed_all-group (e ∷ rest) d g n ds h =
    ap
      (λ (r : FecEncoder × Option FecParity).
        ((feed_all r.0 (e ∷ rest)).0, r.1 ∷ (feed_all r.0 (e ∷ rest)).1))
      (feed-inside g n ds d (omega arith))
    ∙ ap (λ (r : FecEncoder × List (Option FecParity)). (r.0, none ∷ r.1))
        (feed_all-group rest e g n (ds ++ (d ∷ [])) (omega (arith, length-append ds (d ∷ []))))
    ∙ ap (λ es. (encoder_at g n [], none ∷ group_outputs (length rest) (group_parity n es)))
        (append_assoc ds (d ∷ []) (e ∷ rest))

-- A fresh encoder fed with one whole group gives nothing until the last packet, then the exclusive
-- or of the whole group, and is then as fresh as before. (The group size is at least 2.)
pub feed_all_lem :
    (group_size payload_size : ℕ) (d : FecData) (rest : List FecData)
    → length (d ∷ rest) ≡ max group_size 2
    → feed_all (new_encoder group_size payload_size) (d ∷ rest) ≡ (
      new_encoder group_size payload_size,
      group_outputs (length rest) (group_parity payload_size (d ∷ rest)),
    )
unfolding new_encoder add_all
feed_all_lem group_size payload_size d rest h =
    feed_all-group rest d (max group_size 2) payload_size [] (omega arith)

-- A packet whose length field is the length of its payload, which fits the payload size.
abbrev pub Fits : ℕ → FecData → Type 0
Fits payload_size d = (d.length ≡ length d.payload) × (d.length ≤ payload_size)

resized_id : (bs : List ℕ) (n : ℕ) → length bs ≡ n → resized n bs ≡ bs
resized_id bs n h =
    ap₂ ◌++◌ (take-all bs n (omega arith))
      (ap (λ (k : ℕ). replicate k 0) {x = n - length bs} {y = 0} (omega arith))
    ∙ append-nil bs

residual :
    (n : ℕ) (before : List FecData) (x : FecData) (after : List FecData)
    → add_all (add_all (new_clip n) (before ++ (x ∷ after))) (before ++ after) ≡ add (new_clip n) x
residual n before x after =
    ap (λ c. add_all c (before ++ after)) (add_all-middle before x after (new_clip n))
    ∙ add_all-add (before ++ after) (add_all (new_clip n) (before ++ after)) x
    ∙ ap (λ c. add c x) (add_all_cancel (before ++ after) (new_clip n))

recover_row-some :
    (g n : ℕ) (p : FecParity) (present : List FecData) (c : Clip)
    → length present ≡ g - 1
    → add_all
        (record {
          length = p.length_clip;
          flags = p.flag_clip;
          timestamp = p.timestamp_clip;
          payload = resized n p.payload_clip;
        })
        present
      ≡ c
    → recover_row g n p present
      ≡ some (record {
        length = c.length;
        flags = c.flags;
        timestamp = c.timestamp;
        payload = take (min c.length n) c.payload;
      })
unfolding recover_row
recover_row-some g n p present c h e = ground arith

unclipped :
    (n : ℕ) (ds : List FecData)
    → record {
      length = (group_parity n ds).length_clip;
      flags = (group_parity n ds).flag_clip;
      timestamp = (group_parity n ds).timestamp_clip;
      payload = resized n (group_parity n ds).payload_clip;
    }
      ≡ add_all (new_clip n) ds
unclipped n ds =
    ap (λ bs. record (add_all (new_clip n) ds) { payload = bs })
      (resized_id (add_all (new_clip n) ds).payload n (length-clip n ds))

-- The clip of one packet alone is that packet.
packet_of :
    (n : ℕ) (x : FecData)
    → Fits n x
    → record {
      length = (add (new_clip n) x).length;
      flags = (add (new_clip n) x).flags;
      timestamp = (add (new_clip n) x).timestamp;
      payload = take (min (add (new_clip n) x).length n) (add (new_clip n) x).payload;
    }
      ≡ x
unfolding add new_clip
packet_of n x fits = λ i. record {
  length = zero-xor x.length i;
  flags = zero-xor x.flags i;
  timestamp = zero-xor x.timestamp i;
  payload =
      (ap (λ (k : ℕ). take k (xor_into (replicate n 0) x.payload)) {x = min (bit_xor 0 x.length) n}
            {y = length x.payload} (omega (arith, zero-xor x.length))
          ∙ xor_into-zeros n x.payload (omega arith))
        i;
}

-- From the parity of a group and all its packets but one, wherever it stood, `recover_row` gives
-- that packet back: its length, flags, timestamp and payload, if its length is that of its payload
-- and at most the payload size.
pub recover_row-parity :
    (payload_size : ℕ) (before : List FecData) (x : FecData) (after : List FecData)
    → Fits payload_size x
    → recover_row
        (length (before ++ (x ∷ after)))
        payload_size
        (group_parity payload_size (before ++ (x ∷ after)))
        (before ++ after)
      ≡ some x
recover_row-parity n before x after fits =
    recover_row-some (length (before ++ (x ∷ after))) n (group_parity n (before ++ (x ∷ after)))
      (before ++ after) (add (new_clip n) x)
      (omega (arith, length-append before (x ∷ after), length-append before after))
      (ap (λ c. add_all c (before ++ after)) (unclipped n (before ++ (x ∷ after)))
        ∙ residual n before x after)
    ∙ ap some (packet_of n x fits)

-- With any other number of packets at hand nothing is recovered.
pub recover_row-none :
    (group_size payload_size : ℕ) (p : FecParity) (present : List FecData)
    → length present ≢ group_size - 1
    → recover_row group_size payload_size p present ≡ none
unfolding recover_row
recover_row-none group_size payload_size p present h = ground arith
