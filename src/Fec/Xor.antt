-- ===== src/Fec/Xor.antt =====
-- The algebra of clipping: adding a packet twice cancels, and the order of packets is immaterial.
use srtrust.Prelude.{
  ℕ, zero, suc, ◌≤◌, ◌≡◌, refl, arith, ap, ap₂, sym, ◌∙◌, List, [], ◌∷◌, ◌++◌, length, take,
  replicate,
}
use srtrust.Prelude.Bits.{xor_cancel, xor_right_comm, zero-xor}
use srtrust.Fec.{FecData, Clip, xor_into, add, add_all, reset, zeroed, new_clip}

pub length-xor_into : (xs ds : List ℕ) → length (xor_into xs ds) ≡ length xs
unfolding xor_into
length-xor_into [] ds = refl
length-xor_into (x ∷ xs) [] = refl
length-xor_into (x ∷ xs) (d ∷ ds) = ap suc (length-xor_into xs ds)

xor_into_cancel : (xs ds : List ℕ) → xor_into (xor_into xs ds) ds ≡ xs
unfolding xor_into
xor_into_cancel [] ds = refl
xor_into_cancel (x ∷ xs) [] = refl
xor_into_cancel (x ∷ xs) (d ∷ ds) = ap₂ ◌∷◌ (xor_cancel x d) (xor_into_cancel xs ds)

xor_into_comm : (xs ds bs : List ℕ) → xor_into (xor_into xs ds) bs ≡ xor_into (xor_into xs bs) ds
unfolding xor_into
xor_into_comm [] ds bs = refl
xor_into_comm (x ∷ xs) [] [] = refl
xor_into_comm (x ∷ xs) [] (b ∷ bs) = refl
xor_into_comm (x ∷ xs) (a ∷ ds) [] = refl
xor_into_comm (x ∷ xs) (a ∷ ds) (b ∷ bs) = ap₂ ◌∷◌ (xor_right_comm x a b) (xor_into_comm xs ds bs)

-- Exclusive or with zeros copies the bytes, as far as there is room.
pub xor_into-zeros :
    (n : ℕ) (ds : List ℕ) → length ds ≤ n → take (length ds) (xor_into (replicate n 0) ds) ≡ ds
unfolding xor_into
xor_into-zeros n [] h = refl
xor_into-zeros zero (d ∷ ds) h = absurd (omega arith)
xor_into-zeros (suc n) (d ∷ ds) h = ap₂ ◌∷◌ (zero-xor d) (xor_into-zeros n ds (omega arith))

clip_path :
    {c c' : Clip}
    → c.length ≡ c'.length
    → c.flags ≡ c'.flags
    → c.timestamp ≡ c'.timestamp
    → c.payload ≡ c'.payload
    → c ≡ c'
clip_path p q r s = λ i. record { length = p i; flags = q i; timestamp = r i; payload = s i }

pub add_cancel : (c : Clip) (d : FecData) → add (add c d) d ≡ c
unfolding add
add_cancel c d =
    clip_path (xor_cancel c.length d.length) (xor_cancel c.flags d.flags)
      (xor_cancel c.timestamp d.timestamp) (xor_into_cancel c.payload d.payload)

pub add_comm : (c : Clip) (d e : FecData) → add (add c d) e ≡ add (add c e) d
unfolding add
add_comm c d e =
    clip_path (xor_right_comm c.length d.length e.length) (xor_right_comm c.flags d.flags e.flags)
      (xor_right_comm c.timestamp d.timestamp e.timestamp)
      (xor_into_comm c.payload d.payload e.payload)

pub add_all-add :
    (ds : List FecData) (c : Clip) (d : FecData) → add_all (add c d) ds ≡ add (add_all c ds) d
unfolding add_all
add_all-add [] c d = refl
add_all-add (e ∷ es) c d = ap (λ k. add_all k es) (add_comm c d e) ∙ add_all-add es (add c e) d

-- Adding a list of packets twice cancels.
pub add_all_cancel : (ds : List FecData) (c : Clip) → add_all (add_all c ds) ds ≡ c
unfolding add_all
add_all_cancel [] c = refl
add_all_cancel (d ∷ ds) c =
    ap (λ k. add_all k ds)
      (sym (add_all-add ds (add c d) d) ∙ ap (λ k. add_all k ds) (add_cancel c d))
    ∙ add_all_cancel ds c

-- A packet may be moved to the end.
pub add_all-middle :
    (before : List FecData) (x : FecData) (after : List FecData) (c : Clip)
    → add_all c (before ++ (x ∷ after)) ≡ add (add_all c (before ++ after)) x
unfolding add_all
add_all-middle [] x after c = add_all-add after c x
add_all-middle (d ∷ ds) x after c = add_all-middle ds x after (add c d)

pub length-add_all :
    (ds : List FecData) (c : Clip) → length (add_all c ds).payload ≡ length c.payload
unfolding add_all add
length-add_all [] c = refl
length-add_all (d ∷ ds) c = length-add_all ds (add c d) ∙ length-xor_into c.payload d.payload

pub reset-new : (c : Clip) (n : ℕ) → length c.payload ≡ n → reset c ≡ new_clip n
unfolding reset new_clip
reset-new c n h =
    ap (λ bs. record { length = 0; flags = 0; timestamp = 0; payload = bs }) (zeros c.payload n h)
  where
    zeros : (bs : List ℕ) (n : ℕ) → length bs ≡ n → zeroed bs ≡ replicate n 0
    zeros [] zero h = refl
    zeros [] (suc n) h = absurd (omega arith)
    zeros (b ∷ bs) zero h = absurd (omega arith)
    zeros (b ∷ bs) (suc n) h = ap (λ ys. 0 ∷ ys) (zeros bs n (omega arith))
