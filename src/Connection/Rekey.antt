-- ===== src/Connection/Rekey.antt =====
-- crates/srt-protocol/src/connection/rekey.rs: rotation of the stream encrypting key.
use srtrust.Prelude.{ℕ, ◌+◌, ◌-◌, ◌/◌, ◌^◌, max, Bool, true, false, not, Option, none, some}
use srtrust.Prelude.{List, [], ◌∷◌, ltb, leb, ◌==◌, ◌&&◌, if◌then◌else◌}
use srtrust.Prelude.Result.{ok, err}
use srtrust.External.{External}
use srtrust.SendBuffer.{Instant}
use srtrust.Control.{raw_body, user_defined}
use srtrust.Crypto.KeyMaterial
use srtrust.Crypto.KeyMaterial.{KeyMaterial}
use srtrust.Crypto.Session.{
  SessionCrypto, install, install_unwrapped, next_flags, activate, session_salt, from_raw,
  from_key_material,
}
use srtrust.Config.{EncryptionSettings, bytes}
use srtrust.Event.{key_refresh_needed}
use srtrust.Connection.{
  Connection, km_refresh_default, ext_kmreq, ext_kmrsp, push_event, emit, wire_ts, encode_control,
}

abbrev pub max_km_retries : ℕ
max_km_retries = 60

unfoldable pub km_refresh : Connection → ℕ
km_refresh c =
    if c.config.km_refresh_rate == 0 then km_refresh_default else c.config.km_refresh_rate

unfoldable pub km_preannounce : Connection → ℕ
unfolding km_refresh
km_preannounce c = max (km_refresh c / 4) 1

abbrev pub is_none {ℓ} : {A : Type ℓ} → Option A → Bool
is_none none = true
is_none (some a) = false

-- u32 `saturating_add` of one.
abbrev pub saturating_suc : ℕ → ℕ
saturating_suc n = if ltb n (2 ^ 32 - 1) then n + 1 else 2 ^ 32 - 1

-- The first half of `account_key_and_maybe_rotate`: the switch at the refresh point.
unfoldable pub rotate : Connection → SessionCrypto → Connection
rotate c crypto =
    if c.next_key_ready && leb (km_refresh c) c.packets_on_key
    then record c {
      crypto = some (activate crypto (next_flags crypto));
      packets_on_key = 0;
      next_key_ready = false;
    }
    else c

-- Its second half: one more packet, and the request for the next key.
unfoldable pub announce : Connection → Connection
unfolding push_event
announce c0 =
    let c = record c0 { packets_on_key = saturating_suc c0.packets_on_key } in
    let due = leb (km_refresh c - km_preannounce c) c.packets_on_key in
    if not c.rekey_pending && (not c.next_key_ready && (is_none c.pending_km && due))
    then elim c.config.encryption [
      | none ↦ c
      | some enc ↦
          push_event (record c { rekey_pending = true }) (key_refresh_needed (bytes enc.key_size))
    ]
    else c

unfoldable pub account_key_and_maybe_rotate : Connection → Connection
unfolding rotate announce
account_key_and_maybe_rotate c = elim c.crypto [
  | none ↦ c
  | some crypto ↦ announce (rotate c crypto)
]

unfoldable pub km_control : Connection → ℕ → List ℕ → Instant → List ℕ
km_control c subtype cif now =
    encode_control c.peer_socket_id (wire_ts c now) (raw_body user_defined subtype 0 cif)

-- `pending_km.is_some_and(|km| km == cif)`.
abbrev pub bytes_eq : List ℕ → List ℕ → Bool
bytes_eq [] [] = true
bytes_eq [] (b ∷ bs) = false
bytes_eq (a ∷ xs) [] = false
bytes_eq (a ∷ xs) (b ∷ bs) = (a == b) && bytes_eq xs bs

abbrev pub is_pending : Option (List ℕ) → List ℕ → Bool
is_pending none cif = false
is_pending (some km) cif = bytes_eq km cif

unfoldable pub on_km_rsp : Connection → List ℕ → Connection
on_km_rsp c cif =
    if is_pending c.pending_km cif then record c { pending_km = none; next_key_ready = true } else c

unfoldable pub resend_pending_km : Connection → Instant → Connection
unfolding km_control emit
resend_pending_km c now = elim c.pending_km [
  | none ↦ c
  | some km ↦
      if leb max_km_retries c.km_retries
      then record c { pending_km = none }
      else emit (record c { km_retries = c.km_retries + 1 }) (km_control c ext_kmreq km now) now
]

module _ (env : External) where
  -- `provide_rekey` with encryption settings and session keys whose salt is at hand.
  unfoldable pub install_next :
      Connection → EncryptionSettings → SessionCrypto → List ℕ → List ℕ → Instant → Connection
  unfolding km_control emit
  install_next c enc crypto salt sek now =
      let next = next_flags crypto in
      let (keys, km) = from_raw env enc.passphrase next enc.cipher salt sek in
      let km_bytes = KeyMaterial.encode km in
      let c = record c { crypto = some (install crypto next keys) } in
      let c = emit c (km_control c ext_kmreq km_bytes now) now in
      record c { rekey_pending = false; pending_km = some km_bytes; km_retries = 0 }

  unfoldable pub provide_rekey : Connection → List ℕ → Instant → Connection
  unfolding install_next
  provide_rekey c sek now = if not c.rekey_pending then c else elim c.config.encryption [
    | none ↦ c
    | some enc ↦ elim c.crypto [
      | none ↦ c
      | some crypto ↦ elim (session_salt crypto) [
        | none ↦ c
        | some salt ↦ install_next c enc crypto salt sek now
      ]
    ]
  ]

  -- `on_km_req` once the message is decoded.
  unfoldable pub install_announced :
      Connection → EncryptionSettings → SessionCrypto → KeyMaterial → List ℕ → Instant → Connection
  unfolding km_control emit
  install_announced c enc crypto km cif now = elim (from_key_material env km enc.passphrase) [
    | err e ↦ c
    | ok unwrapped ↦
        (let c = record c { crypto = some (install_unwrapped crypto unwrapped) } in
          emit c (km_control c ext_kmrsp cif now) now)
  ]

  unfoldable pub on_km_req : Connection → List ℕ → Instant → Connection
  unfolding install_announced
  on_km_req c cif now = elim c.config.encryption [
    | none ↦ c
    | some enc ↦ elim (KeyMaterial.decode cif) [
      | err e ↦ c
      | ok km ↦ elim c.crypto [ none ↦ c | some crypto ↦ install_announced c enc crypto km cif now ]
    ]
  ]
