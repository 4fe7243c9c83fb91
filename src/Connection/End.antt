-- ===== src/Connection/End.antt =====
-- How a connection ends: from a close on, whatever happens, it takes no more messages, and the linger
-- timer ends it.
use srtrust.Prelude.{
  ℕ, ◌≡◌, ◌⊎◌, inl, inr, refl, ap, Bool, true, false, Bool-cases, List, [], ◌∷◌, ◌++◌, ◌||◌, not,
  if◌then◌else◌,
}
use srtrust.Prelude.Result.{err}
use srtrust.External.{External}
use srtrust.SendBuffer.{Instant}
use srtrust.Event.{invalid_state, TimerId, Event, set_timer}
use srtrust.Connection.{Connection, State, push_event, push_output}
use srtrust.Connection.Close.{
  close, is_drained, is_connected, is_failed, finalize_shutdown, clear_arq_timers, on_linger_timer,
}
use srtrust.Connection.Machine.{send, handle_timer, poll_event, poll_output}
use srtrust.Connection.Inv.Reach.{
  Step, feeds, fires, sends, rekeys, closes, polls_event, polls_output,
}
use srtrust.Connection.Ending.{
  AreEnding, IsEnding, keep, while_closing, once_failed, IsEnding-cases,
}
use srtrust.Connection.Ending.Keys.{provide_rekey-IsEnding}
use srtrust.Connection.Ending.Send.{close-IsEnding}
use srtrust.Connection.Ending.Machine.{feed-IsEnding, handle_timer-IsEnding, send-IsEnding}
use srtrust.Event.{Output}
use srtrust.Prelude.{Option, none, some}

-- The connections that any inputs lead to from one connection.
pub data After (env : External) (c : Connection) : Connection → Type 0 where
  starts : After env c c
  steps : (a b : Connection) → After env c a → Step env a b → After env c b

poll_event-IsEnding :
    (es : List Event) (c : Connection)
    → IsEnding c
    → IsEnding
        (elim es as (λ (t : List Event). Connection × Option Event) [
          | [] ↦ (c, none)
          | e ∷ events ↦ (record c { events = events }, some e)
        ]).0
poll_event-IsEnding [] c v = v
poll_event-IsEnding (e ∷ es) c v = keep c (record c { events = es }) refl v

poll_output-IsEnding :
    (os : List Output) (c : Connection)
    → IsEnding c
    → IsEnding
        (elim os as (λ (t : List Output). Connection × Option Output) [
          | [] ↦ (c, none)
          | o ∷ outputs ↦ (record c { outputs = outputs }, some o)
        ]).0
poll_output-IsEnding [] c v = v
poll_output-IsEnding (o ∷ os) c v = keep c (record c { outputs = os }) refl v

Step-IsEnding : (env : External) (c d : Connection) → Step env c d → IsEnding c → IsEnding d
unfolding poll_event poll_output
Step-IsEnding env _ _ (feeds c datagram now) v = feed-IsEnding env c datagram now v
Step-IsEnding env _ _ (fires c id now) v = handle_timer-IsEnding env c id now v
Step-IsEnding env _ _ (sends c payload now) v = send-IsEnding env c payload now v
Step-IsEnding env _ _ (rekeys c sek now) v = provide_rekey-IsEnding env c sek now v
Step-IsEnding env _ _ (closes c now) v = close-IsEnding c now v
Step-IsEnding env _ _ (polls_event c) v = poll_event-IsEnding c.events c v
Step-IsEnding env _ _ (polls_output c) v = poll_output-IsEnding c.outputs c v

After-IsEnding : (env : External) (c d : Connection) → After env c d → IsEnding c → IsEnding d
After-IsEnding env c _ starts v = v
After-IsEnding env c _ (steps a b r s) v = Step-IsEnding env a b s (After-IsEnding env c a r v)

-- A close that is over at once, with one more event, or that waits for an armed linger timer.
abbrev pub HasClosed : Connection → Connection → Type 0
HasClosed before c = (c.state ≡ State.failed) × (c.events ≡ before.events ++ (Event.closed ∷ []))

abbrev pub HasArmed : Connection → Connection → Type 0
HasArmed before c =
    (c.closing ≡ true)
    × (c.outputs ≡ before.outputs ++ (set_timer TimerId.linger before.config.linger ∷ []))

close-cases :
    (c : Connection) (now : Instant)
    → c.state ≡ State.connected
    → c.closing ≡ false
    → HasClosed c (close c now) ⊎ HasArmed c (close c now)
unfolding close finalize_shutdown push_event push_output clear_arq_timers
close-cases c now s h =
    let up : is_connected c.state ≡ true = ap is_connected s in
    let alive : is_failed c.state ≡ false = ap is_failed s in
    elim (Bool-cases (is_drained c)) [
      | inl e ↦ inl (simp (h, up, alive, e) (refl, refl))
      | inr e ↦ inr (simp (h, up, alive, e) (refl, refl))
    ]

cases-IsEnding : (before c : Connection) → HasClosed before c ⊎ HasArmed before c → IsEnding c
cases-IsEnding before c (inl h) = once_failed c h.0
cases-IsEnding before c (inr h) = while_closing c h.0

-- What the linger timer leaves: a failed connection that no longer closes, and `Closed` as the last
-- event if it was still closing.
abbrev pub HasEnded : Connection → Connection → Type 0
HasEnded before c =
    (c.state ≡ State.failed)
    × (c.closing ≡ false)
    × (c.events ≡ (if before.closing then before.events ++ (Event.closed ∷ []) else before.events))

linger-HasEnded :
    (c : Connection) (now : Instant)
    → AreEnding c.closing c.state
    → HasEnded c (on_linger_timer c now)
unfolding on_linger_timer finalize_shutdown push_event push_output clear_arq_timers
linger-HasEnded c now v = elim (Bool-cases c.closing) [
  | inl h ↦ simp h (refl, refl, refl)
  | inr h ↦
      let over : c.state ≡ State.failed = elim v [ inl t ↦ absurd (cc) | inr f ↦ f ] in
      simp h (over, refl, refl)
]

refused-cases :
    (closing : Bool) (state : State)
    → AreEnding closing state
    → closing || not (is_connected state) ≡ true
refused-cases true state v = refl
refused-cases false state (inl h) = absurd (cc)
refused-cases false state (inr f) = ap (λ s. not (is_connected s)) f

send-refused :
    (env : External) (c : Connection) (payload : List ℕ) (now : Instant)
    → AreEnding c.closing c.state
    → send env c payload now ≡ (c, err invalid_state)
unfolding send
send-refused env c payload now v =
    let refused : c.closing || not (is_connected c.state) ≡ true =
      refused-cases c.closing c.state v in
    rw refused refl

close-again : (c : Connection) (now : Instant) → AreEnding c.closing c.state → close c now ≡ c
unfolding close
close-again c now v = elim (Bool-cases c.closing) [
  | inl h ↦ rw (h, close) refl
  | inr h ↦
      let over : is_failed c.state ≡ true = elim v [
        | inl t ↦ absurd (cc)
        | inr f ↦ ap is_failed f
      ] in
      rw (h, over, close) refl
]

-- A close of a connected connection is over at once, or it arms the linger timer. From then on,
-- whatever inputs come in whatever order, a send is refused with `InvalidState` and a further close
-- ignored, both without a change. When the linger timer fires, the connection is failed and no longer
-- closing, and `Closed` is the last event if it was still closing.
pub close-linger :
    (env : External) (c d : Connection) (payload : List ℕ) (now later : Instant)
    → c.state ≡ State.connected
    → c.closing ≡ false
    → After env (close c now) d
    → (HasClosed c (close c now) ⊎ HasArmed c (close c now))
      × (send env d payload later ≡ (d, err invalid_state))
      × (close d later ≡ d)
      × HasEnded d (handle_timer env d TimerId.linger later)
unfolding handle_timer
close-linger env c d payload now later s h r =
    let closed = close-cases c now s h in
    let ending : AreEnding d.closing d.state =
      IsEnding-cases d
        (After-IsEnding env (close c now) d r (cases-IsEnding c (close c now) closed)) in
    (
      closed,
      send-refused env d payload later ending,
      close-again d later ending,
      linger-HasEnded d later ending,
    )
