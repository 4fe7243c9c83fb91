-- ===== src/Connection/Ending.antt =====
-- A connection that is closing or over stays so: the predicate, and how it goes through a handler.
pub mod Keys
pub mod Send
pub mod Retransmit
pub mod Feedback
pub mod Receive
pub mod Phases
pub mod Machine
use srtrust.Prelude.{
  ℕ, if◌then◌else◌, ◌≡◌, ◌⊎◌, inl, inr, refl, Bool, true, false, Option, none, some, List,
}
use srtrust.Prelude.Result.{Result, ok, err}
use mathlib.Core.Path.{subst}
use srtrust.SendBuffer.{Instant}
use srtrust.Event.{Event, Output}
use srtrust.Connection.{Connection, State, push_output, push_event, emit}

-- A close waits for the linger timer, or the connection is over.
abbrev pub AreEnding : Bool → State → Type 0
AreEnding closing state = (closing ≡ true) ⊎ (state ≡ State.failed)

unfoldable pub IsEnding : Connection → Type 0
IsEnding c = AreEnding c.closing c.state

-- The fields that this reads, and a step that leaves them as they are.
abbrev pub view : Connection → Bool × State
view c = (c.closing, c.state)

pub keep : (c d : Connection) → view c ≡ view d → IsEnding c → IsEnding d
unfolding IsEnding
keep c d e v = subst (λ (w : Bool × State). AreEnding w.0 w.1) e v

pub while_closing : (c : Connection) → c.closing ≡ true → IsEnding c
unfolding IsEnding
while_closing c h = inl h

pub once_failed : (c : Connection) → c.state ≡ State.failed → IsEnding c
unfolding IsEnding
once_failed c h = inr h

pub IsEnding-cases : (c : Connection) → IsEnding c → AreEnding c.closing c.state
unfolding IsEnding
IsEnding-cases c v = v

pub push_output-IsEnding : (c : Connection) (o : Output) → IsEnding c → IsEnding (push_output c o)
unfolding push_output
push_output-IsEnding c o v = keep c (push_output c o) refl v

pub push_event-IsEnding : (c : Connection) (e : Event) → IsEnding c → IsEnding (push_event c e)
unfolding push_event
push_event-IsEnding c e v = keep c (push_event c e) refl v

pub emit-IsEnding :
    (c : Connection) (datagram : List ℕ) (now : Instant)
    → IsEnding c
    → IsEnding (emit c datagram now)
unfolding emit
emit-IsEnding c datagram now v = keep c (emit c datagram now) refl v

-- Both sides of a test, and both cases of an option.
pub if-IsEnding :
    (b : Bool) (x y : Connection) → IsEnding x → IsEnding y → IsEnding (if b then x else y)
if-IsEnding true x y u v = u
if-IsEnding false x y u v = v

pub option-IsEnding {ℓ} :
    {A : Type ℓ} (o : Option A) (x : Connection) (f : A → Connection)
    → IsEnding x
    → ((a : A) → IsEnding (f a))
    → IsEnding (elim o [ none ↦ x | some a ↦ f a ])
option-IsEnding none x f u v = u
option-IsEnding (some a) x f u v = v a

pub result-IsEnding {ℓ κ} :
    {E : Type ℓ} {A : Type κ} (r : Result E A) (f : A → Connection) (g : E → Connection)
    → ((a : A) → IsEnding (f a))
    → ((e : E) → IsEnding (g e))
    → IsEnding (elim r [ ok a ↦ f a | err e ↦ g e ])
result-IsEnding (ok a) f g u v = u a
result-IsEnding (err e) f g u v = v e
