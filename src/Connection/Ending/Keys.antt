-- ===== src/Connection/Ending/Keys.antt =====
-- The rekeying operations on an ending connection.
use srtrust.Prelude.{ℕ, ◌+◌, refl, true, false, none, some, List}
use srtrust.External.{External}
use srtrust.SendBuffer.{Instant}
use srtrust.Crypto.KeyMaterial.{KeyMaterial}
use srtrust.Crypto.Session.{SessionCrypto, UnwrappedKm, next_flags, activate, install_unwrapped}
use srtrust.Config.{EncryptionSettings}
use srtrust.Connection.{Connection, emit}
use srtrust.Connection.Rekey.{
  saturating_suc, rotate, announce, account_key_and_maybe_rotate, on_km_rsp, resend_pending_km,
  install_next, provide_rekey, install_announced, on_km_req,
}
use srtrust.Connection.Ending.{
  IsEnding, keep, push_event-IsEnding, emit-IsEnding, if-IsEnding, option-IsEnding, result-IsEnding,
}

rotate-IsEnding :
    (c : Connection) (crypto : SessionCrypto) → IsEnding c → IsEnding (rotate c crypto)
unfolding rotate
rotate-IsEnding c crypto v =
    if-IsEnding _ _ _
      (keep c
        (record c {
          crypto = some (activate crypto (next_flags crypto));
          packets_on_key = 0;
          next_key_ready = false;
        })
        refl v)
      v

announce-IsEnding : (c : Connection) → IsEnding c → IsEnding (announce c)
unfolding announce
announce-IsEnding c v =
    let n = saturating_suc c.packets_on_key in
    let w = keep c (record c { packets_on_key = n }) refl v in
    if-IsEnding _ _ _
      (option-IsEnding _ _ _ w (λ enc.
        push_event-IsEnding _ _
          (keep c (record c { packets_on_key = n; rekey_pending = true }) refl v)))
      w

pub account-IsEnding : (c : Connection) → IsEnding c → IsEnding (account_key_and_maybe_rotate c)
unfolding account_key_and_maybe_rotate
account-IsEnding c v =
    option-IsEnding c.crypto _ _ v
      (λ crypto. announce-IsEnding (rotate c crypto) (rotate-IsEnding c crypto v))

pub on_km_rsp-IsEnding : (c : Connection) (cif : List ℕ) → IsEnding c → IsEnding (on_km_rsp c cif)
unfolding on_km_rsp
on_km_rsp-IsEnding c cif v =
    if-IsEnding _ _ _ (keep c (record c { pending_km = none; next_key_ready = true }) refl v) v

pub resend-IsEnding :
    (c : Connection) (now : Instant) → IsEnding c → IsEnding (resend_pending_km c now)
unfolding resend_pending_km
resend-IsEnding c now v = option-IsEnding c.pending_km _ _ v (λ km.
    if-IsEnding _ _ _ (keep c (record c { pending_km = none }) refl v)
      (emit-IsEnding _ _ now (keep c (record c { km_retries = c.km_retries + 1 }) refl v)))

module _ (env : External) where
  install_next-IsEnding :
      (c : Connection) (enc : EncryptionSettings) (crypto : SessionCrypto) (salt sek : List ℕ)
      (now : Instant)
      → IsEnding c
      → IsEnding (install_next env c enc crypto salt sek now)
  unfolding install_next emit
  install_next-IsEnding c enc crypto salt sek now v =
      keep c (install_next env c enc crypto salt sek now) refl v

  pub provide_rekey-IsEnding :
      (c : Connection) (sek : List ℕ) (now : Instant)
      → IsEnding c
      → IsEnding (provide_rekey env c sek now)
  unfolding provide_rekey
  provide_rekey-IsEnding c sek now v = if-IsEnding _ _ _ v (
      option-IsEnding _ _ _ v (λ enc. option-IsEnding c.crypto _ _ v (λ crypto.
        option-IsEnding _ _ _ v (λ salt. install_next-IsEnding c enc crypto salt sek now v))))

  installed-IsEnding :
      (c : Connection) (crypto : SessionCrypto) (km : UnwrappedKm)
      → IsEnding c
      → IsEnding (record c { crypto = some (install_unwrapped crypto km) })
  installed-IsEnding c crypto km v =
      keep c (record c { crypto = some (install_unwrapped crypto km) }) refl v

  install_announced-IsEnding :
      (c : Connection) (enc : EncryptionSettings) (crypto : SessionCrypto) (km : KeyMaterial)
      (cif : List ℕ) (now : Instant)
      → IsEnding c
      → IsEnding (install_announced env c enc crypto km cif now)
  unfolding install_announced
  install_announced-IsEnding c enc crypto km cif now v =
      result-IsEnding _ _ _
        (λ unwrapped. emit-IsEnding _ _ now (installed-IsEnding c crypto unwrapped v)) (λ x. v)

  pub on_km_req-IsEnding :
      (c : Connection) (cif : List ℕ) (now : Instant)
      → IsEnding c
      → IsEnding (on_km_req env c cif now)
  unfolding on_km_req
  on_km_req-IsEnding c cif now v = option-IsEnding c.config.encryption _ _ v (λ enc.
      result-IsEnding _ _ _
        (λ km.
          option-IsEnding c.crypto _ _ v
            (λ crypto. install_announced-IsEnding c enc crypto km cif now v))
        (λ e. v))
