-- ===== src/Connection/Inv/Start.antt =====
-- The invariant where a connection starts: in `connect` and in `accept`.
use srtrust.Prelude.{
  ℕ, ◌≡◌, refl, sym, arith, length, Bool, true, false, ◌||◌, Option, none, some, List, ◌==◌, not,
  ◌*◌, if◌then◌else◌,
}
use srtrust.Prelude.Result.{Result, ok, err, ◌>>=◌}
use srtrust.External.{External}
use srtrust.Seq.{SeqNumber}
use srtrust.SendBuffer.{Instant}
use srtrust.Packet.{SocketId}
use srtrust.Handshake.Types.{Handshake}
use srtrust.Crypto.{CryptoError}
use srtrust.Crypto.Cipher.{unwrap_key, derive_kek}
use srtrust.Crypto.KeyMaterial
use srtrust.Crypto.KeyMaterial.{KeyMaterial, KeyFlags, key_count}
use srtrust.Crypto.Session.{
  SessionKeys, SessionCrypto, UnwrappedKm, from_initial, from_key_material, split_keys,
}
use srtrust.Config.{Config, EncryptionSettings}
use srtrust.Event.{ConnectionError, TimerId, Event, Output}
use srtrust.Connection.{Connection, Side, State, option_map, new_base, push_output, push_event}
use srtrust.Connection.Setup.{
  Accepted, unwrap_offer, accept_offer, find_kmreq, accept_crypto, emit_handshake, send_induction,
  with_session, connect, accept_with, accept, enter_connected,
}
use srtrust.Connection.Inv.{IsValid, AreSlots, is_held, keep}

-- The starting values of the counters, with key slots that hold an active key.
start-IsValid :
    (c : Connection) (crypto : Option SessionCrypto)
    → AreSlots crypto false
    → c.next_key_ready ≡ false
    → c.pending_km ≡ none
    → c.exp_count ≡ 1
    → length c.pending_acks ≡ 0
    → c.reorder_tolerance ≡ 0
    → IsValid (record c { crypto = crypto })
unfolding IsValid
start-IsValid c crypto s a b e f g = record {
  slots = rw (a, b) s;
  exp_low = omega (arith, e);
  exp_high = omega (arith, e);
  acks = omega (arith, f);
  tolerance = omega (arith, g);
}

session-IsValid :
    (env : External) (c : Connection) (o : Option EncryptionSettings) (salt sek : List ℕ)
    → c.crypto ≡ none
    → c.next_key_ready ≡ false
    → c.pending_km ≡ none
    → c.exp_count ≡ 1
    → length c.pending_acks ≡ 0
    → c.reorder_tolerance ≡ 0
    → IsValid (with_session env c o salt sek)
unfolding with_session
session-IsValid env c none salt sek z a b e f g =
    keep (record c { crypto = none }) c
      (λ i.
        (sym z i, c.next_key_ready, c.pending_km, c.exp_count, c.pending_acks, c.reorder_tolerance))
      (start-IsValid c none tt a b e f g)
session-IsValid env c (some enc) salt sek z a b e f g =
    keep (record c { crypto = (with_session env c (some enc) salt sek).crypto })
      (with_session env c (some enc) salt sek) refl
      (start-IsValid c (with_session env c (some enc) salt sek).crypto (refl, λ t. absurd (cc)) a b
        e f g)

pub connect-IsValid :
    (env : External) (config : Config) (id : SocketId) (seq : SeqNumber) (now : Instant)
    (salt sek : List ℕ)
    → IsValid (connect env config id seq now salt sek)
unfolding connect new_base send_induction emit_handshake push_output
connect-IsValid env config id seq now salt sek =
    let base = new_base env config id seq now Side.caller State.induction in
    keep (with_session env base config.encryption salt sek) (connect env config id seq now salt sek)
      refl (session-IsValid env base config.encryption salt sek refl refl refl refl refl refl)

-- Key Material gives a key for one slot at least.
abbrev HasKey : UnwrappedKm → Type 0
HasKey km = is_held km.even || is_held km.odd ≡ true

from_initial-slots :
    (even odd : Option SessionKeys)
    → is_held even || is_held odd ≡ true
    → AreSlots (some (from_initial (record { even = even; odd = odd }))) false
from_initial-slots none none h = absurd (cc)
from_initial-slots none (some k) h = (refl, λ t. absurd (cc))
from_initial-slots (some k) odd h = (refl, λ t. absurd (cc))

split-HasKey :
    (flags : KeyFlags) (km : KeyMaterial) (sek : List ℕ)
    → km.key_flags ≡ flags
    → HasKey (split_keys km sek)
split-HasKey KeyFlags.even km sek e = rw e refl
split-HasKey KeyFlags.odd km sek e = rw e refl
split-HasKey KeyFlags.both km sek e = rw e refl

-- What is accepted starts with a key for the active slot, if it is encrypted.
abbrev AreUsable : {E : Type 0} → Result E UnwrappedKm → Type 0
AreUsable (ok km) = HasKey km
AreUsable (err e) = Unit {0}

usable-if :
    {E : Type 0} (b : Bool) (e : E) (km : UnwrappedKm)
    → HasKey km
    → AreUsable (if b then err e else ok km)
usable-if true e km h = tt
usable-if false e km h = h

usable-unwrapped :
    (r : Result CryptoError (List ℕ)) (km : KeyMaterial)
    → AreUsable (
        r >>= λ sek.
        if not (length sek == km.key_length * key_count km.key_flags)
        then err (srtrust.Crypto.invalid_key_length (length sek))
        else ok (split_keys km sek))
usable-unwrapped (err e) km = tt
usable-unwrapped (ok sek) km =
    usable-if _ _ (split_keys km sek) (split-HasKey km.key_flags km sek refl)

usable-key_material :
    (env : External) (km : KeyMaterial) (passphrase : List ℕ)
    → AreUsable (from_key_material env km passphrase)
unfolding from_key_material
usable-key_material env km passphrase =
    usable-unwrapped (unwrap_key env (derive_kek env passphrase km.salt km.key_length) km.wrapped)
      km

abbrev IsAcceptable : Result ConnectionError Accepted → Type 0
IsAcceptable (ok (none, km)) = Unit {0}
IsAcceptable (ok (some keys, km)) = HasKey keys
IsAcceptable (err e) = Unit {0}

IsAcceptable-keys :
    (r : Result CryptoError UnwrappedKm) (km_bytes : List ℕ)
    → AreUsable r
    → IsAcceptable
        (elim r as (λ (t : Result CryptoError UnwrappedKm). Result ConnectionError Accepted) [
          | err e ↦ err (srtrust.Event.bad_crypto e)
          | ok keys ↦ ok (some keys, some km_bytes)
        ])
IsAcceptable-keys (ok keys) km_bytes h = h
IsAcceptable-keys (err e) km_bytes h = tt

IsAcceptable-decoded :
    (env : External) (enc : EncryptionSettings) (km_bytes : List ℕ)
    (r : Result CryptoError KeyMaterial)
    → IsAcceptable
        (elim r as (λ (t : Result CryptoError KeyMaterial). Result ConnectionError Accepted) [
          | err e ↦ err (srtrust.Event.bad_crypto e)
          | ok km ↦
              elim (from_key_material env km enc.passphrase)
                as (λ (t : Result CryptoError UnwrappedKm). Result ConnectionError Accepted) [
                  | err e ↦ err (srtrust.Event.bad_crypto e)
                  | ok keys ↦ ok (some keys, some km_bytes)
                ]
        ])
IsAcceptable-decoded env enc km_bytes (err e) = tt
IsAcceptable-decoded env enc km_bytes (ok km) =
    IsAcceptable-keys (from_key_material env km enc.passphrase) km_bytes
      (usable-key_material env km enc.passphrase)

IsAcceptable-offer :
    (env : External) (o : Option EncryptionSettings) (kmreq : Option (List ℕ))
    → IsAcceptable (accept_offer env o kmreq)
unfolding accept_offer unwrap_offer
IsAcceptable-offer env none none = tt
IsAcceptable-offer env none (some km) = tt
IsAcceptable-offer env (some enc) none = tt
IsAcceptable-offer env (some enc) (some km) =
    IsAcceptable-decoded env enc km (KeyMaterial.decode km)

abbrev pub IsStart : Result ConnectionError Connection → Type 0
IsStart (ok c) = IsValid c
IsStart (err e) = Unit {0}

accept_with-IsValid :
    (env : External) (config : Config) (id : SocketId) (hs : Handshake) (now : Instant)
    (crypto : Option UnwrappedKm) (km : Option (List ℕ))
    → AreSlots (option_map from_initial crypto) false
    → IsValid (accept_with env config id hs now crypto km)
unfolding accept_with new_base push_output push_event enter_connected
accept_with-IsValid env config id hs now crypto km s =
    let base = new_base env config id hs.initial_seq now Side.acceptor State.conclusion in
    keep (record base { crypto = option_map from_initial crypto })
      (accept_with env config id hs now crypto km) refl
      (start-IsValid base (option_map from_initial crypto) s refl refl refl refl refl)

accepted-IsValid :
    (env : External) (config : Config) (id : SocketId) (hs : Handshake) (now : Instant)
    (r : Result ConnectionError Accepted)
    → IsAcceptable r
    → IsStart
        (elim r as (λ (t : Result ConnectionError Accepted). Result ConnectionError Connection) [
          | err e ↦ err e
          | ok (crypto, km) ↦ ok (accept_with env config id hs now crypto km)
        ])
accepted-IsValid env config id hs now (err e) h = tt
accepted-IsValid env config id hs now (ok (none, km)) h =
    accept_with-IsValid env config id hs now none km tt
accepted-IsValid env config id hs now (ok (some keys, km)) h =
    accept_with-IsValid env config id hs now (some keys) km
      (from_initial-slots keys.even keys.odd h)

pub accept-IsValid :
    (env : External) (config : Config) (id : SocketId) (seq : SeqNumber) (hs : Handshake)
    (now : Instant)
    → IsStart (accept env config id seq hs now)
unfolding accept accept_crypto
accept-IsValid env config id seq hs now =
    accepted-IsValid env config id hs now (accept_crypto env config.encryption hs)
      (IsAcceptable-offer env config.encryption (find_kmreq hs.extensions))
