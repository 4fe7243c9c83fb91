-- ===== src/Connection/Inv/Keys.antt =====
-- The rekeying operations keep the invariant.
use srtrust.Prelude.{ℕ, ◌+◌, ◌≡◌, refl, Bool, true, false, ◌&&◌, Option, none, some, List, leb}
use mathlib.Core.Path.{subst}
use srtrust.External.{External}
use srtrust.SendBuffer.{Instant}
use srtrust.Packet.{Encryption}
use srtrust.Crypto.KeyMaterial.{KeyMaterial}
use srtrust.Crypto.Session.{
  SessionKeys, SessionCrypto, UnwrappedKm, next_flags, activate, install, install_unwrapped,
  or_else,
}
use srtrust.Config.{EncryptionSettings}
use srtrust.Connection.{Connection, emit}
use srtrust.Connection.Rekey.{
  saturating_suc, is_pending, km_refresh, rotate, announce, account_key_and_maybe_rotate, on_km_rsp,
  resend_pending_km, install_next, provide_rekey, install_announced, on_km_req,
}
use srtrust.Connection.Inv.{
  is_held, AreSlots, is_waiting, IsValid, keep, push_event-IsValid, emit-IsValid, if-IsValid,
  option-IsValid, if-IsValid_with, option-IsValid_with, result-IsValid,
}

-- A switch to a slot that holds a key leaves both slots with a key.
rotate-slots :
    (even odd : Option SessionKeys) (active : Encryption) (waiting : Bool)
    → AreSlots (some (record { even = even; odd = odd; active = active })) true
    → AreSlots
        (some (
          activate
            (record { even = even; odd = odd; active = active })
            (next_flags (record { even = even; odd = odd; active = active }))))
        waiting
rotate-slots even odd Encryption.none waiting s = (s.1 refl, λ e. s.0)
rotate-slots even odd Encryption.even waiting s = (s.1 refl, λ e. s.0)
rotate-slots even odd Encryption.odd waiting s = (s.1 refl, λ e. s.0)

install-slots :
    (even odd : Option SessionKeys) (active : Encryption) (keys : SessionKeys) (before after : Bool)
    → AreSlots (some (record { even = even; odd = odd; active = active })) before
    → AreSlots
        (some (
          install
            (record { even = even; odd = odd; active = active })
            (next_flags (record { even = even; odd = odd; active = active }))
            keys))
        after
install-slots even odd Encryption.none keys before after s = (s.0, λ e. refl)
install-slots even odd Encryption.even keys before after s = (s.0, λ e. refl)
install-slots even odd Encryption.odd keys before after s = (s.0, λ e. refl)

or_else-held : (a b : Option SessionKeys) → is_held b ≡ true → is_held (or_else a b) ≡ true
or_else-held none b h = h
or_else-held (some k) b h = refl

unwrapped-slots :
    (even odd : Option SessionKeys) (active : Encryption) (km : UnwrappedKm) (waiting : Bool)
    → AreSlots (some (record { even = even; odd = odd; active = active })) waiting
    → AreSlots
        (some (install_unwrapped (record { even = even; odd = odd; active = active }) km))
        waiting
unwrapped-slots even odd Encryption.none km waiting s =
    (or_else-held km.even even s.0, λ e. or_else-held km.odd odd (s.1 e))
unwrapped-slots even odd Encryption.even km waiting s =
    (or_else-held km.even even s.0, λ e. or_else-held km.odd odd (s.1 e))
unwrapped-slots even odd Encryption.odd km waiting s =
    (or_else-held km.odd odd s.0, λ e. or_else-held km.even even (s.1 e))

AreSlots-less :
    (crypto : Option SessionCrypto) (before after : Bool)
    → (after ≡ true → before ≡ true)
    → AreSlots crypto before
    → AreSlots crypto after
AreSlots-less none before after f s = tt
AreSlots-less (some k) before after f s = (s.0, λ e. s.1 (f e))

-- The invariant with other key slots.
with_slots :
    (c d : Connection)
    → IsValid c
    → AreSlots d.crypto (is_waiting d.next_key_ready d.pending_km)
    → d.exp_count ≡ c.exp_count
    → d.pending_acks ≡ c.pending_acks
    → d.reorder_tolerance ≡ c.reorder_tolerance
    → IsValid d
unfolding IsValid
with_slots c d v s e a t = record {
  slots = s;
  exp_low = rw e v.exp_low;
  exp_high = rw e v.exp_high;
  acks = rw a v.acks;
  tolerance = rw t v.tolerance;
}

slots_of :
    (c : Connection) (crypto : SessionCrypto)
    → c.crypto ≡ some crypto
    → IsValid c
    → AreSlots (some crypto) (is_waiting c.next_key_ready c.pending_km)
unfolding IsValid
slots_of c crypto e v = subst (λ o. AreSlots o (is_waiting c.next_key_ready c.pending_km)) e v.slots

ready-waiting : (b : Bool) (p : Option (List ℕ)) → b ≡ true → is_waiting b p ≡ true
ready-waiting true p h = refl
ready-waiting false p h = absurd (cc)

and-left : (a b : Bool) → a && b ≡ true → a ≡ true
and-left true b h = refl
and-left false b h = h

all_slots :
    (c : Connection) → IsValid c → AreSlots c.crypto (is_waiting c.next_key_ready c.pending_km)
unfolding IsValid
all_slots c v = v.slots

rotate-IsValid :
    (c : Connection) (crypto : SessionCrypto)
    → c.crypto ≡ some crypto
    → IsValid c
    → IsValid (rotate c crypto)
unfolding rotate
rotate-IsValid c crypto e v =
    if-IsValid_with (c.next_key_ready && leb (km_refresh c) c.packets_on_key)
      (record c {
        crypto = some (activate crypto (next_flags crypto));
        packets_on_key = 0;
        next_key_ready = false;
      })
      c
      (λ h.
        with_slots c
          (record c {
            crypto = some (activate crypto (next_flags crypto));
            packets_on_key = 0;
            next_key_ready = false;
          })
          v
          (rotate-slots crypto.even crypto.odd crypto.active (is_waiting false c.pending_km) (
            subst (λ w. AreSlots (some crypto) w)
              (ready-waiting c.next_key_ready c.pending_km
                (and-left c.next_key_ready (leb (km_refresh c) c.packets_on_key) h))
              (slots_of c crypto e v)))
          refl refl refl)
      (λ h. v)

announce-IsValid : (c : Connection) → IsValid c → IsValid (announce c)
unfolding announce
announce-IsValid c v =
    let n = saturating_suc c.packets_on_key in
    let w = keep c (record c { packets_on_key = n }) refl v in
    if-IsValid _ _ _
      (option-IsValid _ _ _ w (λ enc.
        push_event-IsValid _ _
          (keep c (record c { packets_on_key = n; rekey_pending = true }) refl v)))
      w

pub account-IsValid : (c : Connection) → IsValid c → IsValid (account_key_and_maybe_rotate c)
unfolding account_key_and_maybe_rotate
account-IsValid c v =
    option-IsValid_with c.crypto _ _ v
      (λ crypto e. announce-IsValid (rotate c crypto) (rotate-IsValid c crypto e v))

pending-waiting :
    (b : Bool) (p : Option (List ℕ)) (cif : List ℕ)
    → is_pending p cif ≡ true
    → is_waiting b p ≡ true
pending-waiting true p cif h = refl
pending-waiting false none cif h = absurd (cc)
pending-waiting false (some km) cif h = refl

pub on_km_rsp-IsValid : (c : Connection) (cif : List ℕ) → IsValid c → IsValid (on_km_rsp c cif)
unfolding on_km_rsp
on_km_rsp-IsValid c cif v =
    if-IsValid_with (is_pending c.pending_km cif)
      (record c { pending_km = none; next_key_ready = true }) c
      (λ h.
        with_slots c (record c { pending_km = none; next_key_ready = true }) v
          (AreSlots-less c.crypto (is_waiting c.next_key_ready c.pending_km) true
            (λ t. pending-waiting c.next_key_ready c.pending_km cif h) (all_slots c v))
          refl refl refl)
      (λ h. v)

ready_only : (b : Bool) (p : Option (List ℕ)) → is_waiting b none ≡ true → is_waiting b p ≡ true
ready_only true p h = refl
ready_only false p h = absurd (cc)

pub resend-IsValid :
    (c : Connection) (now : Instant) → IsValid c → IsValid (resend_pending_km c now)
unfolding resend_pending_km
resend-IsValid c now v = option-IsValid_with c.pending_km _ _ v (λ km e.
    if-IsValid _ _ _
      (with_slots c (record c { pending_km = none }) v
        (AreSlots-less c.crypto (is_waiting c.next_key_ready c.pending_km)
          (is_waiting c.next_key_ready none) (ready_only c.next_key_ready c.pending_km)
          (all_slots c v))
        refl refl refl)
      (emit-IsValid _ _ now (keep c (record c { km_retries = c.km_retries + 1 }) refl v)))

module _ (env : External) where
  install_next-IsValid :
      (c : Connection) (enc : EncryptionSettings) (crypto : SessionCrypto) (salt sek : List ℕ)
      (now : Instant)
      → c.crypto ≡ some crypto
      → IsValid c
      → IsValid (install_next env c enc crypto salt sek now)
  unfolding install_next emit
  install_next-IsValid c enc crypto salt sek now e v =
      with_slots c (install_next env c enc crypto salt sek now) v
        (install-slots crypto.even crypto.odd crypto.active _
          (is_waiting c.next_key_ready c.pending_km) _ (slots_of c crypto e v))
        refl refl refl

  pub provide_rekey-IsValid :
      (c : Connection) (sek : List ℕ) (now : Instant)
      → IsValid c
      → IsValid (provide_rekey env c sek now)
  unfolding provide_rekey
  provide_rekey-IsValid c sek now v = if-IsValid _ _ _ v (
      option-IsValid _ _ _ v (λ enc. option-IsValid_with c.crypto _ _ v (λ crypto e.
        option-IsValid _ _ _ v (λ salt. install_next-IsValid c enc crypto salt sek now e v))))

  installed-IsValid :
      (c : Connection) (crypto : SessionCrypto) (km : UnwrappedKm)
      → c.crypto ≡ some crypto
      → IsValid c
      → IsValid (record c { crypto = some (install_unwrapped crypto km) })
  installed-IsValid c crypto km e v =
      with_slots c (record c { crypto = some (install_unwrapped crypto km) }) v
        (unwrapped-slots crypto.even crypto.odd crypto.active km _ (slots_of c crypto e v)) refl
        refl refl

  install_announced-IsValid :
      (c : Connection) (enc : EncryptionSettings) (crypto : SessionCrypto) (km : KeyMaterial)
      (cif : List ℕ) (now : Instant)
      → c.crypto ≡ some crypto
      → IsValid c
      → IsValid (install_announced env c enc crypto km cif now)
  unfolding install_announced
  install_announced-IsValid c enc crypto km cif now e v =
      result-IsValid _ _ _
        (λ unwrapped. emit-IsValid _ _ now (installed-IsValid c crypto unwrapped e v)) (λ x. v)

  pub on_km_req-IsValid :
      (c : Connection) (cif : List ℕ) (now : Instant)
      → IsValid c
      → IsValid (on_km_req env c cif now)
  unfolding on_km_req
  on_km_req-IsValid c cif now v = option-IsValid c.config.encryption _ _ v (λ enc.
      result-IsValid _ _ _
        (λ km.
          option-IsValid_with c.crypto _ _ v
            (λ crypto e. install_announced-IsValid c enc crypto km cif now e v))
        (λ e. v))
