-- ===== src/Handshake/Types.antt =====
-- crates/srt-protocol/src/handshake.rs, the data of a handshake, and `HandshakeError` of error.rs.
use srtrust.Prelude.{ℕ, ◌%◌, ◌^◌, ◌+◌, ◌-◌, Bool, Option, some, bit_and}
use srtrust.Prelude.{List, ltb, leb, ◌==◌, ◌&&◌, if◌then◌else◌}
use srtrust.Prelude.Result.{Result, ok, err}
use srtrust.Seq.{SeqNumber}
use srtrust.Packet.{SocketId}

pub data HandshakeError : Type 0 where
  -- need, got
  too_short : ℕ → ℕ → HandshakeError
  invalid_encryption_field : ℕ → HandshakeError
  -- ext_type, claimed, available
  extension_length : ℕ → ℕ → ℕ → HandshakeError
  -- ext_type, len
  extension_content : ℕ → ℕ → HandshakeError
  invalid_stream_id : HandshakeError

pub data EncryptionField : Type 0 where
  none aes128 aes192 aes256 : EncryptionField

abbrev pub encryption_to_raw : EncryptionField → ℕ
encryption_to_raw EncryptionField.none = 0
encryption_to_raw aes128 = 2
encryption_to_raw aes192 = 3
encryption_to_raw aes256 = 4

abbrev pub encryption_from_raw : ℕ → Result HandshakeError EncryptionField
encryption_from_raw raw =
    if raw == 0
    then ok EncryptionField.none
    else if raw == 2
    then ok aes128
    else if raw == 3
    then ok aes192
    else if raw == 4
    then ok aes256
    else err (invalid_encryption_field raw)

abbrev pub HandshakeType : Type 0
HandshakeType = ℕ

abbrev pub done_type : HandshakeType
done_type = 0xffff_fffd

abbrev pub rejection_base : ℕ
rejection_base = 1000

pub data RejectReason : Type 0 where
  unknown system peer resource rogue backlog internal_error close version : RejectReason
  rdv_cookie bad_secret unsecure message_api congestion filter group timeout : RejectReason
  other : ℕ → RejectReason

unfoldable pub code : RejectReason → ℕ
code unknown = 0
code system = 1
code peer = 2
code resource = 3
code rogue = 4
code backlog = 5
code internal_error = 6
code close = 7
code version = 8
code rdv_cookie = 9
code bad_secret = 10
code unsecure = 11
code message_api = 12
code congestion = 13
code filter = 14
code group = 15
code timeout = 16
code (other c) = c

-- The named reasons in the order of their codes, and `other` past them.
unfoldable pub from_code : ℕ → RejectReason
from_code c =
    if c == 0
    then unknown
    else if c == 1
    then system
    else if c == 2
    then peer
    else if c == 3
    then resource
    else if c == 4
    then rogue
    else if c == 5
    then backlog
    else if c == 6
    then internal_error
    else if c == 7
    then close
    else if c == 8
    then version
    else if c == 9
    then rdv_cookie
    else if c == 10
    then bad_secret
    else if c == 11
    then unsecure
    else if c == 12
    then message_api
    else if c == 13
    then congestion
    else if c == 14
    then filter
    else if c == 15
    then group
    else if c == 16
    then timeout
    else other c

-- The sum is a u32, with the wrap-around of a release build.
unfoldable pub rejection : RejectReason → HandshakeType
unfolding code
rejection reason = (rejection_base + code reason) % 2 ^ 32

unfoldable pub reject_reason : HandshakeType → Option RejectReason
unfolding from_code
reject_reason t =
    if leb rejection_base t && ltb t done_type
    then some (from_code (t - rejection_base))
    else Option.none

-- `SrtFlags::contains`.
abbrev pub contains : ℕ → ℕ → Bool
contains bits flag = bit_and bits flag == flag

pub record SrtHandshake : Type 0 where
  pub srt_version : ℕ
  pub flags : ℕ
  pub recv_tsbpd_delay : ℕ
  pub send_tsbpd_delay : ℕ

pub data HandshakeExtension : Type 0 where
  hs_req : SrtHandshake → HandshakeExtension
  hs_rsp : SrtHandshake → HandshakeExtension
  stream_id : List ℕ → HandshakeExtension
  raw : ℕ → List ℕ → HandshakeExtension

pub record Handshake : Type 0 where
  pub version : ℕ
  pub encryption : EncryptionField
  pub extension_field : ℕ
  pub initial_seq : SeqNumber
  pub mtu : ℕ
  pub max_flow_window : ℕ
  pub handshake_type : HandshakeType
  pub srt_socket_id : SocketId
  pub syn_cookie : ℕ
  pub peer_ip : List ℕ
  pub extensions : List HandshakeExtension
