-- ===== src/Listener/Cookie.antt =====
-- SYN cookies in time.
use srtrust.Prelude.{◌≡◌, [], ◌∷◌, ◌++◌, if◌then◌else◌}
use srtrust.External.{External}
use srtrust.Handshake.Types.{Handshake}
use srtrust.Control.{handshake_body}
use srtrust.Connection.{encode_control}
use srtrust.SendBuffer.{Instant}
use srtrust.Listener.{Listener, SocketAddr, wire_ts, park_conclusion, accept_now}

-- The handshake in the last response, sent to an address at an instant.
abbrev pub HasAnswered : Listener → Listener → Handshake → SocketAddr → Instant → Handshake → Type 0
HasAnswered before l request from now response =
    l.responses
    ≡ before.responses
      ++ ((
        from,
        encode_control request.srt_socket_id (wire_ts before now) (handshake_body response),
      )
          ∷ [])

-- What a listener does with a conclusion whose cookie it honours.
abbrev pub honoured : External → Listener → Handshake → SocketAddr → Instant → Listener
honoured env l conclusion from now =
    if l.deferred
    then park_conclusion env l conclusion from now
    else accept_now env l conclusion from now
