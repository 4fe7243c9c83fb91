-- ===== src/Lib.antt =====
-- The protocol core of the srt-protocol crate: Secure Reliable Transport without sockets or clocks,
-- and the batching of datagrams of the srt crate.
--
-- The program. A caller and a listener agree on a connection in a handshake of two rounds, in which
-- the listener keeps no state before a valid cookie comes back. A connection is then a state machine
-- that takes datagrams, timers, messages and new keys, and answers with events for the application and
-- outputs for the wire. To send, it cuts a message into packets, encrypts them, stores each in the
-- send buffer and puts it on the wire, at once or paced; acknowledgements release packets from the
-- front of that buffer and loss reports send some again. To receive, it decrypts, puts packets in the
-- receive buffer by sequence number, reports what is missing, and delivers messages at their play time,
-- which the timestamps and the drift tell. A filter may add parity packets, from which the receiver
-- rebuilds a lost packet. Keys change on the run: a new one goes to the other of two slots, and is used
-- once the peer has confirmed it. Sequence numbers and timestamps wrap around, and all comparison of
-- them is circular.
--
-- The files, with the source each is about (paths below crates/srt-protocol/src):
--   Prelude             Boolean tests, lists, integers, bit operations, machine words and Result
--   External            the code outside the repository, as a record of operations
--   Seq                 seq.rs: SeqNumber is its number below 2^31
--   Timestamp           timestamp.rs: Timestamp is its number below 2^32; TsbpdWrap is a record
--   Packet, Wire        packet.rs: the fields of packets; Packet, encode and decode
--   Control             control.rs: ControlType, ControlBody, to_wire, encode_cif, decode
--   Handshake           handshake.rs: Types has its types, StreamId the Stream ID, Handshake the codec
--   LossList            loss_list.rs: encode and decode
--   RecvBuffer          recv_buffer.rs: the deque of slots is a list, front first
--   SendBuffer          send_buffer.rs: the deque of packets is a list, front first
--   Fec                 fec.rs: the encoder and row recovery; Receiver has the receiving engine
--   Rtt                 rtt.rs: RttEstimator; a Duration is its nanoseconds
--   Rate                rate.rs: RateEstimator; record is called record_packet
--   Drift               drift.rs: DriftTracer
--   Stats               stats.rs: Stats
--   LiveCc              live_cc.rs: LiveCc; a f64 is its bits
--   Crypto              crypto/: KeyMaterial the message, Cipher the calls of the ciphers and of the key
--                       wrap, Session the keys and SessionCrypto
--   Config              connection/config.rs: Config and its limits
--   Event               connection/event.rs and the errors of a connection
--   Connection          connection.rs, the record and what all parts share. Below it: Messages cuts and
--                       reassembles messages, Close ends a connection, Rekey is connection/rekey.rs,
--                       Setup is connection/setup.rs with connect and accept, Send, Retransmit,
--                       Feedback and Receive are connection/arq.rs, Machine takes the inputs
--   Connection.Inv      the invariant of a connection through every operation, a file for each part
--   Connection.Ending   the same for what holds from a close on
--   Listener            listener.rs: the cookie handshake, accepting and parking
--   Batch               crates/srt/src/batch.rs: gso_batches and gro_split
-- A method that takes `&mut self` becomes a function that returns the new state, with its result
-- beside it. An error is a value of Result. A BTreeMap is a function on its keys. An Instant is the
-- nanoseconds of a clock; what a random generator writes is an argument. Where a block of a method
-- stands under a test or in a loop, it is a function of its own, named for what it does.
--
-- Integers. Words are natural numbers with their wrap-around written out; signed words are the
-- integers of Prelude.Int. Lengths (usize) are not bounded. Counters of 64 bits take the wrap-around
-- of a release build or are left unbounded, as no connection lives that long.
--
-- Fuel. Loops are recursion on their list where they have one. The loop over handshake extensions
-- runs on the number of bytes: each round takes at least four. Time-based delivery and the flush of a
-- SHUTDOWN run on the number of slots, as each round takes a slot. Pacing has the burst limit of the source
-- (256). A retransmission runs over the distance from the first to the last stored number. Fragments
-- and batches run on the number of bytes or datagrams, since each round takes one at least. The search
-- for a socket id tries three counters, as two at most are refused in a row.
--
-- Parameters. External has the operations of code outside the repository: UTF-8 validation, PBKDF2,
-- AES key wrap, AES in counter mode, AES-GCM and f64 arithmetic. Nothing is assumed of them but what a
-- theorem names as a hypothesis.
--
-- Panics. Where the source would panic on a key of the wrong length (`expect` in crypto/mod.rs), the
-- bytes are empty instead; an empty active slot gives `none`, the panic of `SessionCrypto::encrypt`.
--
-- Not modelled: the texts of errors, and the rest of the srt crate, which is sockets, tasks and
-- channels around this core.
pub mod Prelude
pub mod Seq
pub mod Timestamp
pub mod Packet
pub mod RecvBuffer
pub mod SendBuffer
pub mod Fec
pub mod LossList
pub mod Handshake
pub mod Control
pub mod Crypto
pub mod Drift
pub mod Stats
pub mod LiveCc
pub mod Config
pub mod Event
pub mod Connection
pub mod Listener
pub mod Batch
pub mod External
pub mod Wire
pub mod Rate
pub mod Rtt
