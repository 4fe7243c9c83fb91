-- ===== src/Listener/Mint.antt =====
-- The socket ids that a listener gives to accepted connections.
use srtrust.Prelude.{
  ℕ, suc, ◌+◌, ◌%◌, ◌^◌, ◌≤◌, ◌<◌, ◌≡◌, ◌≢◌, ◌⊎◌, inl, inr, refl, sym, ap, ◌∙◌, arith, bit_xor,
  Bool, true, false, not, ◌==◌, ◌&&◌, Bool-cases,
}
use srtrust.Prelude.Bits.{zero-xor, xor_right_comm, xor_cancel}
use srtrust.Packet.{SocketId}
use srtrust.Listener.{Listener, mint_from, mint_socket_id}

xor_comm : (a b : ℕ) → bit_xor a b ≡ bit_xor b a
xor_comm a b =
    ap (λ (t : ℕ). bit_xor t b) (sym (zero-xor a))
    ∙ xor_right_comm 0 a b
    ∙ ap (λ (t : ℕ). bit_xor t a) (zero-xor b)

-- Exclusive or by a number is one to one.
xor_inj : (a b c : ℕ) → bit_xor a b ≡ bit_xor a c → b ≡ c
xor_inj a b c h =
    sym (xor_cancel b a)
    ∙ ap (λ (t : ℕ). bit_xor t a) (xor_comm b a ∙ h ∙ xor_comm a c)
    ∙ xor_cancel c a

xor_same : (a : ℕ) → bit_xor a a ≡ 0
xor_same a = ap (λ (t : ℕ). bit_xor t a) (sym (zero-xor a)) ∙ xor_cancel 0 a

-- The counters whose ids are refused.
xor_zero : (local next : ℕ) → bit_xor local next ≡ 0 → next ≡ local
xor_zero local next h = sym (xor_inj local local next (xor_same local ∙ sym h))

xor_self : (local next : ℕ) → bit_xor local next ≡ local → next ≡ 0
xor_self local next h = sym (xor_inj local 0 next (xor_comm local 0 ∙ zero-xor local ∙ sym h))

-- An id minted in at most `rounds` rounds from a counter.
pub record IsMinted (local counter rounds : ℕ) (r : ℕ × SocketId) : Type 0 where
  pub id : r.1 ≡ bit_xor local r.0
  pub not_zero : r.1 ≢ 0
  pub not_local : r.1 ≢ local
  pub steps : ℕ
  pub some_step : 1 ≤ steps
  pub few_steps : steps ≤ rounds
  pub counter_after : r.0 ≡ (counter + steps) % 2 ^ 32

abbrev is_fine : ℕ → ℕ → Bool
is_fine local next = not (bit_xor local next == 0) && not (bit_xor local next == local)

is_fine-true :
    (local next : ℕ)
    → is_fine local next ≡ true
    → (bit_xor local next ≢ 0) × (bit_xor local next ≢ local)
is_fine-true local next h = ((λ e. ground arith), (λ e. ground arith))

is_fine-false :
    (local next : ℕ)
    → is_fine local next ≡ false
    → (bit_xor local next ≡ 0) ⊎ (bit_xor local next ≡ local)
is_fine-false local next h = ground arith

abbrev after : ℕ → ℕ
after counter = (counter + 1) % 2 ^ 32

mint-step :
    (fuel local counter : ℕ)
    → IsMinted local counter 1 (mint_from (suc fuel) local counter)
      ⊎ (((after counter ≡ local) ⊎ (after counter ≡ 0))
          × (mint_from (suc fuel) local counter ≡ mint_from fuel local (after counter)))
unfolding mint_from
mint-step fuel local counter = elim (Bool-cases (is_fine local (after counter))) [
  | inl e ↦ inl (
      rw e (record {
        id = refl;
        not_zero = (is_fine-true local (after counter) e).0;
        not_local = (is_fine-true local (after counter) e).1;
        steps = 1;
        some_step = omega arith;
        few_steps = omega arith;
        counter_after = refl;
      }))
  | inr e ↦ inr (
    elim (is_fine-false local (after counter) e) [
      | inl z ↦ inl (xor_zero local (after counter) z)
      | inr z ↦ inr (xor_self local (after counter) z)
    ],
    rw e refl,
  )
]

IsMinted-later :
    (local counter rounds : ℕ) (r : ℕ × SocketId)
    → IsMinted local (after counter) rounds r
    → IsMinted local counter (suc rounds) r
IsMinted-later local counter rounds r m = record {
  id = m.id;
  not_zero = m.not_zero;
  not_local = m.not_local;
  steps = m.steps + 1;
  some_step = omega arith;
  few_steps = omega (arith, m.few_steps);
  counter_after = omega (arith, m.counter_after);
}

IsMinted-more :
    (local counter n m : ℕ) (r : ℕ × SocketId)
    → n ≤ m
    → IsMinted local counter n r
    → IsMinted local counter m r
IsMinted-more local counter n m r h k = record {
  id = k.id;
  not_zero = k.not_zero;
  not_local = k.not_local;
  steps = k.steps;
  some_step = k.some_step;
  few_steps = omega (arith, k.few_steps);
  counter_after = k.counter_after;
}

-- One more round: it mints, or its counter is one of the two refused ones.
mint-round :
    (fuel local counter : ℕ)
    → (((after counter ≡ local) ⊎ (after counter ≡ 0))
        → IsMinted local (after counter) (suc fuel) (mint_from (suc fuel) local (after counter)))
    → IsMinted local counter (suc (suc fuel)) (mint_from (suc (suc fuel)) local counter)
mint-round fuel local counter later = elim (mint-step (suc fuel) local counter) [
  | inl m ↦ IsMinted-more local counter 1 (suc (suc fuel)) _ (omega arith) m
  | inr e ↦ rw e.1 (IsMinted-later local counter (suc fuel) _ (later e.0))
]

-- From a counter whose next number is not refused, one round is enough.
mint-last :
    (local counter : ℕ)
    → after counter ≢ local
    → after counter ≢ 0
    → IsMinted local counter 1 (mint_from 1 local counter)
mint-last local counter a b = elim (mint-step 0 local counter) [
  | inl m ↦ m
  | inr e ↦ elim e.0 [ inl x ↦ absurd (a x) | inr x ↦ absurd (b x) ]
]

mint_from-IsMinted :
    (local counter : ℕ)
    → local < 2 ^ 32
    → counter < 2 ^ 32
    → IsMinted local counter 3 (mint_from 3 local counter)
mint_from-IsMinted local counter h k = mint-round 1 local counter (λ bad.
    mint-round 0 local (after counter)
      (λ worse. mint-last local (after (after counter)) (λ e. omega arith) (λ e. omega arith)))

-- Two ids minted in a row.
abbrev pub mint_twice : Listener → SocketId × SocketId
mint_twice l = let (l', a) = mint_socket_id l in (a, (mint_socket_id l').1)

different :
    (local counter : ℕ) (r s : ℕ × SocketId)
    → counter < 2 ^ 32
    → IsMinted local counter 3 r
    → IsMinted local r.0 3 s
    → r.1 ≢ s.1
different local counter r s h m n e =
    let same : r.0 ≡ s.0 = xor_inj local r.0 s.0 (sym m.id ∙ e ∙ n.id) in
    let at = n.counter_after in
    let low : r.0 < 2 ^ 32 = omega (arith, m.counter_after) in
    let one = n.some_step in let three = n.few_steps in absurd (omega arith)

-- A minted id is neither 0 nor the listener's own id, and the next minted id is another one.
pub mint_socket_id_lem :
    (l : Listener)
    → l.local_socket_id < 2 ^ 32
    → l.accept_counter < 2 ^ 32
    → ((mint_twice l).0 ≢ 0)
      × ((mint_twice l).0 ≢ l.local_socket_id)
      × ((mint_twice l).0 ≢ (mint_twice l).1)
unfolding mint_socket_id
mint_socket_id_lem l h k =
    let first = mint_from-IsMinted l.local_socket_id l.accept_counter h k in
    let low : (mint_from 3 l.local_socket_id l.accept_counter).0 < 2 ^ 32 =
      omega (arith, first.counter_after) in
    let second =
      mint_from-IsMinted l.local_socket_id (mint_from 3 l.local_socket_id l.accept_counter).0 h
        low in
    (
      first.not_zero,
      first.not_local,
      different l.local_socket_id l.accept_counter _ _ k first second,
    )
