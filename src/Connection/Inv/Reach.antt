-- ===== src/Connection/Inv/Reach.antt =====
-- The connections that can be reached from `connect` or `accept` by any inputs, in any order.
use mathlib.Core.Path.{subst}
use srtrust.Prelude.{[], ◌∷◌, ℕ, ◌≡◌, ◌≢◌, refl, true, Option, none, some, List}
use srtrust.Prelude.Result.{ok}
use srtrust.External.{External}
use srtrust.Seq.{SeqNumber}
use srtrust.SendBuffer.{Instant}
use srtrust.Packet.{SocketId, Encryption}
use srtrust.Handshake.Types.{Handshake}
use srtrust.Crypto.Session.{SessionKeys, SessionCrypto, active_keys, encrypt}
use srtrust.Config.{Config}
use srtrust.Event.{TimerId, Event, Output}
use srtrust.Connection.{Connection}
use srtrust.Connection.Close.{close}
use srtrust.Connection.Rekey.{provide_rekey}
use srtrust.Connection.Setup.{connect, accept}
use srtrust.Connection.Machine.{feed_recv_buf, handle_timer, send, poll_event, poll_output}
use srtrust.Connection.Inv.{IsValid, AreSlots, is_held, is_waiting, keep}
use srtrust.Connection.Inv.Keys.{provide_rekey-IsValid}
use srtrust.Connection.Inv.Send.{close-IsValid}
use srtrust.Connection.Inv.Machine.{feed-IsValid, handle_timer-IsValid, send-IsValid}
use srtrust.Connection.Inv.Start.{connect-IsValid, IsStart, accept-IsValid}

-- One input: a datagram, a timer, a message, a new key, a close, or a drained queue.
pub data Step (env : External) : Connection → Connection → Type 0 where
  feeds :
      (c : Connection) (datagram : List ℕ) (now : Instant)
      → Step env c (feed_recv_buf env c datagram now)
  fires : (c : Connection) (id : TimerId) (now : Instant) → Step env c (handle_timer env c id now)
  sends :
      (c : Connection) (payload : List ℕ) (now : Instant) → Step env c (send env c payload now).0
  rekeys :
      (c : Connection) (sek : List ℕ) (now : Instant) → Step env c (provide_rekey env c sek now)
  closes : (c : Connection) (now : Instant) → Step env c (close c now)
  polls_event : (c : Connection) → Step env c (poll_event c).0
  polls_output : (c : Connection) → Step env c (poll_output c).0

-- A caller or an acceptor, and any steps from there.
pub data Reachable (env : External) : Connection → Type 0 where
  connects :
      (config : Config) (id : SocketId) (seq : SeqNumber) (now : Instant) (salt sek : List ℕ)
      → Reachable env (connect env config id seq now salt sek)
  accepts :
      (config : Config) (id : SocketId) (seq : SeqNumber) (hs : Handshake) (now : Instant)
      (c : Connection)
      → accept env config id seq hs now ≡ ok c
      → Reachable env c
  steps : (c d : Connection) → Reachable env c → Step env c d → Reachable env d

poll_event-IsValid :
    (es : List Event) (c : Connection)
    → IsValid c
    → IsValid
        (elim es as (λ (t : List Event). Connection × Option Event) [
          | [] ↦ (c, none)
          | e ∷ events ↦ (record c { events = events }, some e)
        ]).0
poll_event-IsValid [] c v = v
poll_event-IsValid (e ∷ es) c v = keep c (record c { events = es }) refl v

poll_output-IsValid :
    (os : List Output) (c : Connection)
    → IsValid c
    → IsValid
        (elim os as (λ (t : List Output). Connection × Option Output) [
          | [] ↦ (c, none)
          | o ∷ outputs ↦ (record c { outputs = outputs }, some o)
        ]).0
poll_output-IsValid [] c v = v
poll_output-IsValid (o ∷ os) c v = keep c (record c { outputs = os }) refl v

Step-IsValid : (env : External) (c d : Connection) → Step env c d → IsValid c → IsValid d
unfolding poll_event poll_output
Step-IsValid env _ _ (feeds c datagram now) v = feed-IsValid env c datagram now v
Step-IsValid env _ _ (fires c id now) v = handle_timer-IsValid env c id now v
Step-IsValid env _ _ (sends c payload now) v = send-IsValid env c payload now v
Step-IsValid env _ _ (rekeys c sek now) v = provide_rekey-IsValid env c sek now v
Step-IsValid env _ _ (closes c now) v = close-IsValid c now v
Step-IsValid env _ _ (polls_event c) v = poll_event-IsValid c.events c v
Step-IsValid env _ _ (polls_output c) v = poll_output-IsValid c.outputs c v

-- Every connection that `connect` or `accept` and any datagrams, timers, messages, keys and closes
-- reach, in any order, keeps its bounds: the active key slot holds a key, and the next one too while
-- a new key is announced or ready; the EXP multiplier is from 1 to 8, at most 16 full ACKs are
-- outstanding, and the reorder tolerance is at most 32.
pub Reachable-IsValid : (env : External) (c : Connection) → Reachable env c → IsValid c
Reachable-IsValid env _ (connects config id seq now salt sek) =
    connect-IsValid env config id seq now salt sek
Reachable-IsValid env c (accepts config id seq hs now _ e) =
    subst (λ r. IsStart r) e (accept-IsValid env config id seq hs now)
Reachable-IsValid env _ (steps c d r s) = Step-IsValid env c d s (Reachable-IsValid env c r)

encrypt-held :
    (env : External) (keys : Option SessionKeys) (f : SessionKeys → List ℕ × Encryption)
    → is_held keys ≡ true
    → (elim keys as (λ (t : Option SessionKeys). Option (List ℕ × Encryption)) [
      | none ↦ none
      | some k ↦ some (f k)
    ])
      ≢ none
encrypt-held env none f h e = absurd (cc)
encrypt-held env (some k) f h e = absurd (cc)

slots_of :
    (c : Connection) → IsValid c → AreSlots c.crypto (is_waiting c.next_key_ready c.pending_km)
unfolding IsValid
slots_of c v = v.slots

-- No encrypted connection that can be reached fails to encrypt: the panic of the source on an empty
-- active slot does not happen, whatever rekeying took place.
pub Reachable-encrypt :
    (env : External) (c : Connection) (crypto : SessionCrypto) (seq : SeqNumber)
    (aad payload : List ℕ)
    → Reachable env c
    → c.crypto ≡ some crypto
    → encrypt env crypto seq aad payload ≢ none
unfolding encrypt
Reachable-encrypt env c crypto seq aad payload r e =
    let s : AreSlots (some crypto) (is_waiting c.next_key_ready c.pending_km) =
      subst (λ o. AreSlots o (is_waiting c.next_key_ready c.pending_km)) e
        (slots_of c (Reachable-IsValid env c r)) in
    encrypt-held env (active_keys crypto) _ s.0
