-- ===== src/Listener/Tests.antt =====
-- Concrete inputs for the theorems of the listener.
use srtrust.Prelude.{ℕ, List, refl, ◌≡◌, ◌≢◌, arith, [], ◌∷◌}
use srtrust.External.Example.{plain}
use srtrust.Config.{default}
use srtrust.Listener
use srtrust.Listener.{
  Listener, SocketAddr, v4, cookie_for, feed_recv_buf, defer_accepts, park_conclusion,
}
use srtrust.Listener.Park.{parked_for, entry, parked_after, requests_after, park_conclusion_lem}
use srtrust.Handshake.Types.{Handshake, EncryptionField, hs_req}
use srtrust.Control.{handshake_body}
use srtrust.Connection.{Side, State, new_base, hs_version_srt, ext_flag_hsreq, encode_control}
use srtrust.Connection.Setup.{
  conclusion_type, no_ip, srt_handshake_ext, induction_handshake, validate_accept,
}
use srtrust.Listener.Mint.{mint_twice, mint_socket_id_lem}
use srtrust.Listener.Count.{IsUnique}
use srtrust.Listener.Pending.{feeds, defers, starts, steps, Reaches-IsUnique}

abbrev caller : SocketAddr
caller = v4 (127 ∷ 0 ∷ 0 ∷ 1 ∷ []) 9000

abbrev fresh : Listener
fresh = Listener.new default 77 5 123456 0

-- A conclusion that echoes the cookie of the first minute.
abbrev conclusion : Handshake
conclusion = record {
  version = hs_version_srt;
  encryption = EncryptionField.none;
  extension_field = ext_flag_hsreq;
  initial_seq = 100;
  mtu = 1500;
  max_flow_window = 25600;
  handshake_type = conclusion_type;
  srt_socket_id = 10;
  syn_cookie = cookie_for fresh caller 0;
  peer_ip = no_ip;
  extensions = hs_req (srt_handshake_ext 120) ∷ [];
}

abbrev induction : Handshake
induction = induction_handshake (new_base plain default 10 100 0 Side.caller State.induction)

mint_socket_id_lem_example :
    ((mint_twice fresh).0 ≢ 0)
    × ((mint_twice fresh).0 ≢ fresh.local_socket_id)
    × ((mint_twice fresh).0 ≢ (mint_twice fresh).1)
mint_socket_id_lem_example = mint_socket_id_lem fresh (omega arith) (omega arith)

abbrev deferred : Listener
deferred = defer_accepts fresh

-- The conclusion arrives twice.
abbrev datagram : List ℕ
datagram = encode_control 0 0 (handshake_body conclusion)

abbrev parked : Listener
parked = feed_recv_buf plain deferred datagram caller 7

abbrev again : Listener
again = feed_recv_buf plain parked datagram caller 9

parked-once : again.pending ≡ entry conclusion caller 9 ∷ []
unfolding feed_recv_buf Listener.Wire.decode encode_control Listener.Wire.encode
    srtrust.Control.encode_cif srtrust.Handshake.encode srtrust.Control.to_wire
    srtrust.Control.to_raw srtrust.Control.decode srtrust.Control.from_raw srtrust.Seq.new
    srtrust.Handshake.decode Listener.syn_cookie validate_accept
parked-once = refl

Reaches-IsUnique_example : IsUnique again.pending
Reaches-IsUnique_example = Reaches-IsUnique plain default 77 5 123456 0 again (
    steps parked again
      (steps deferred parked (steps fresh deferred starts (defers fresh))
        (feeds deferred datagram caller 7))
      (feeds parked datagram caller 9))

-- A retransmission, 9 nanoseconds after the start, of what was parked at 7.
abbrev waiting : Listener
waiting = record deferred { pending = entry conclusion caller 7 ∷ [] }

waiting-IsUnique : IsUnique waiting.pending
waiting-IsUnique a = ground arith

park_conclusion_lem_example :
    (parked_for (park_conclusion plain waiting conclusion caller 9).pending caller
      ≡ parked_after waiting (entry conclusion caller 9) caller)
    × ((park_conclusion plain waiting conclusion caller 9).requests
        ≡ requests_after waiting conclusion caller (parked_for waiting.pending caller))
unfolding validate_accept
park_conclusion_lem_example =
    park_conclusion_lem plain waiting conclusion caller caller 9 waiting-IsUnique refl
