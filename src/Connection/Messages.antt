-- ===== src/Connection/Messages.antt =====
-- crates/srt-protocol/src/connection.rs: messages. A long one is cut into fragments of at most the
-- largest payload, and the receiver puts the fragments together again (`Reassembler`).
pub mod Whole
use srtrust.Prelude.{ℕ, zero, suc, ◌+◌, ◌-◌, max, min, Bool, false, Option, none, some, not}
use srtrust.Prelude.{List, [], ◌∷◌, ◌++◌, length, take, drop, ltb, leb, ◌==◌, if◌then◌else◌}
use srtrust.Seq
use srtrust.Seq.{SeqNumber}
use srtrust.Packet.{PacketPosition, first, middle, last, single, DataPacket}
use srtrust.Crypto.Session.{is_aead}
use srtrust.Connection.{Fragment, Reassembler, Connection}

abbrev pub reset : Reassembler
reset = record { fragments = []; next_seq = none }

-- `next_seq == Some(seq)`.
abbrev pub is_next : Option SeqNumber → SeqNumber → Bool
is_next none seq = false
is_next (some s) seq = s == seq

abbrev pub concat : List (List ℕ) → List ℕ
concat [] = []
concat (f ∷ fs) = f ++ concat fs

-- A middle or last packet that continues the message, with the fragments up to it.
abbrev pub continue : DataPacket → List (List ℕ) → PacketPosition → Reassembler × Option (List ℕ)
continue packet fragments last = (reset, some (concat fragments))
continue packet fragments _ =
    (record { fragments = fragments; next_seq = some (Seq.next packet.seq) }, none)

-- A packet at a position; `push` passes its own.
unfoldable pub push_at : Reassembler → DataPacket → PacketPosition → Reassembler × Option (List ℕ)
push_at r packet single = (reset, some packet.payload)
push_at r packet first =
    (record { fragments = packet.payload ∷ []; next_seq = some (Seq.next packet.seq) }, none)
push_at r packet position =
    if not (is_next r.next_seq packet.seq)
    then (reset, none)
    else continue packet (r.fragments ++ (packet.payload ∷ [])) position

unfoldable pub push : Reassembler → DataPacket → Reassembler × Option (List ℕ)
unfolding push_at
push r packet = push_at r packet packet.position

-- The AES-GCM tag, on an authenticated connection.
abbrev pub tag_len : Connection → ℕ
tag_len c = elim c.crypto [ none ↦ 0 | some crypto ↦ if is_aead crypto then 16 else 0 ]

unfoldable pub max_payload : Connection → ℕ
max_payload c = max (c.config.mtu - (44 + tag_len c)) 1

abbrev pub position_of : ℕ → ℕ → ℕ → PacketPosition
position_of offset end len = if offset == 0 then first else if end == len then last else middle

-- The loop of `fragment_message`, on fuel: each round takes a byte at least, so the length of the
-- payload is enough.
unfoldable pub fragments_from : ℕ → ℕ → List ℕ → ℕ → ℕ → List Fragment
fragments_from zero max_len payload message offset = []
fragments_from (suc fuel) max_len payload message offset =
    let end = min (offset + max_len) (length payload) in
    let rest = fragments_from fuel max_len payload message end in
    if ltb offset (length payload)
    then record {
      payload = take (end - offset) (drop offset payload);
      position = position_of offset end (length payload);
      message = message;
    }
      ∷ rest
    else []

unfoldable pub fragment_message : Connection → List ℕ → ℕ → List Fragment
unfolding fragments_from max_payload
fragment_message c payload message =
    if leb (length payload) (max_payload c)
    then record { payload = payload; position = single; message = message } ∷ []
    else fragments_from (length payload) (max_payload c) payload message 0
