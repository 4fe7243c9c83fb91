-- ===== src/Connection/Inv.antt =====
-- The invariant of a connection. It reads only some fields, so that it is unchanged where a handler
-- writes the others: the key slots, and the counters that the code keeps within bounds.
pub mod Keys
pub mod Send
pub mod Retransmit
pub mod Feedback
pub mod Receive
pub mod Phases
pub mod Machine
pub mod Start
pub mod Reach
use srtrust.Prelude.{
  ℕ, ◌≤◌, ◌≡◌, refl, arith, Bool, true, false, not, ◌||◌, Option, none, some, List, length,
  if◌then◌else◌,
}
use srtrust.Prelude.Result.{Result, ok, err}
use mathlib.Core.Path.{subst}
use srtrust.SendBuffer.{Instant}
use srtrust.Packet.{Encryption, even, odd}
use srtrust.Crypto.Session.{SessionKeys, SessionCrypto, active_keys}
use srtrust.Event.{Event, Output}
use srtrust.Connection.{Connection, push_output, push_event, emit}
use srtrust.Connection.Rekey.{is_none}
use srtrust.Connection.Retransmit.{max_exp_count}
use srtrust.Connection.Feedback.{max_pending_acks}
use srtrust.Connection.Receive.{max_reorder_tolerance}

abbrev pub is_held : Option SessionKeys → Bool
is_held none = false
is_held (some keys) = true

-- The slot that a rotation switches to.
abbrev pub next_keys : SessionCrypto → Option SessionKeys
next_keys c = elim c.active [ Encryption.odd ↦ c.even | _ ↦ c.odd ]

-- The active slot holds a key, and so does the next one while a new key waits for its confirmation
-- or for the refresh point.
abbrev pub AreSlots : Option SessionCrypto → Bool → Type 0
AreSlots none waiting = Unit {0}
AreSlots (some crypto) waiting =
    (is_held (active_keys crypto) ≡ true) × (waiting ≡ true → is_held (next_keys crypto) ≡ true)

abbrev pub is_waiting : Bool → Option (List ℕ) → Bool
is_waiting next_key_ready pending_km = next_key_ready || not (is_none pending_km)

pub record AreWithin (crypto : Option SessionCrypto) (waiting : Bool) (exp_count : ℕ)
    (pending_acks : List (ℕ × Instant)) (reorder_tolerance : ℕ) : Type 0 where
  pub slots : AreSlots crypto waiting
  pub exp_low : 1 ≤ exp_count
  pub exp_high : exp_count ≤ max_exp_count
  pub acks : length pending_acks ≤ max_pending_acks
  pub tolerance : reorder_tolerance ≤ max_reorder_tolerance

unfoldable pub IsValid : Connection → Type 0
IsValid c =
    AreWithin c.crypto (is_waiting c.next_key_ready c.pending_km) c.exp_count c.pending_acks
      c.reorder_tolerance

-- The fields that the invariant reads, and a step that leaves them as they are.
abbrev pub view :
    Connection → Option SessionCrypto × Bool × Option (List ℕ) × ℕ × List (ℕ × Instant) × ℕ
view c =
    (c.crypto, c.next_key_ready, c.pending_km, c.exp_count, c.pending_acks, c.reorder_tolerance)

pub keep : (c d : Connection) → view c ≡ view d → IsValid c → IsValid d
unfolding IsValid
keep c d e v =
    subst
      (λ (w : Option SessionCrypto × Bool × Option (List ℕ) × ℕ × List (ℕ × Instant) × ℕ).
        AreWithin w.0 (is_waiting w.1 w.2) w.3 w.4 w.5)
      e v

pub push_output-IsValid : (c : Connection) (o : Output) → IsValid c → IsValid (push_output c o)
unfolding push_output
push_output-IsValid c o v = keep c (push_output c o) refl v

pub push_event-IsValid : (c : Connection) (e : Event) → IsValid c → IsValid (push_event c e)
unfolding push_event
push_event-IsValid c e v = keep c (push_event c e) refl v

pub emit-IsValid :
    (c : Connection) (datagram : List ℕ) (now : Instant) → IsValid c → IsValid (emit c datagram now)
unfolding emit
emit-IsValid c datagram now v = keep c (emit c datagram now) refl v

-- Both sides of a test, and both cases of an option.
pub if-IsValid :
    (b : Bool) (x y : Connection) → IsValid x → IsValid y → IsValid (if b then x else y)
if-IsValid true x y u v = u
if-IsValid false x y u v = v

pub option-IsValid {ℓ} :
    {A : Type ℓ} (o : Option A) (x : Connection) (f : A → Connection)
    → IsValid x
    → ((a : A) → IsValid (f a))
    → IsValid (elim o [ none ↦ x | some a ↦ f a ])
option-IsValid none x f u v = u
option-IsValid (some a) x f u v = v a

-- The same with what the test or the option was.
pub if-IsValid_with :
    (b : Bool) (x y : Connection)
    → (b ≡ true → IsValid x)
    → (b ≡ false → IsValid y)
    → IsValid (if b then x else y)
if-IsValid_with true x y u v = u refl
if-IsValid_with false x y u v = v refl

pub option-IsValid_with {ℓ} :
    {A : Type ℓ} (o : Option A) (x : Connection) (f : A → Connection)
    → IsValid x
    → ((a : A) → o ≡ some a → IsValid (f a))
    → IsValid (elim o [ none ↦ x | some a ↦ f a ])
option-IsValid_with none x f u v = u
option-IsValid_with (some a) x f u v = v a refl

pub result-IsValid {ℓ κ} :
    {E : Type ℓ} {A : Type κ} (r : Result E A) (f : A → Connection) (g : E → Connection)
    → ((a : A) → IsValid (f a))
    → ((e : E) → IsValid (g e))
    → IsValid (elim r [ ok a ↦ f a | err e ↦ g e ])
result-IsValid (ok a) f g u v = u a
result-IsValid (err e) f g u v = v e
