-- ===== src/Lib.antt =====
-- Capybara: live migration of TCP connections between servers, verified models of its core.
--
-- A server that runs this network stack can hand an established TCP connection to another server.
-- The origin asks for a migration (PREPARE_MIGRATION), the target agrees (PREPARE_MIGRATION_ACK),
-- the origin serializes the connection's control block and sends it in fragments
-- (CONNECTION_STATE), and the target restores it and acknowledges (CONNECTION_STATE_ACK). Packets
-- of the connection that arrive meanwhile are buffered. All the files named here are below
-- src/rust/inetstack/protocols.
--
-- The parts, and the files that model them:
--
-- - Seq: tcp/sequence_number.rs. A sequence number is a natural number below 2 ^ 32; `add`,
--   `sub`, `lt`, `le`, `gt`, `ge` are the operators.
-- - Net: the standard library's Ipv4Addr and SocketAddrV4, and Net/Map its HashMap, as a list
--   that only lookup, insert and remove read; Net/Ports is ip/ephemeral.rs.
-- - State: the TcpState of tcp/peer.rs with the states of tcp/established/ctrlblk.rs and
--   tcp/established/sender.rs. State/Serialize is each `serialize_into`, as a writer that fills a
--   buffer and fails where the code would index out of range; State/Size the `serialized_size`
--   functions and `TcpState::serialize`; State/Deserialize each `deserialize_from`. State/Codec
--   pairs a writer with its reader; State/Encode applies that to each structure; State/RoundTrip
--   joins the two ends.
-- - Mig/Header: tcpmig/segment/header.rs. `parse` is `parse_from_slice` and `parse` in one.
-- - Mig/Segment: tcpmig/segment/mod.rs and tcpmig/segment/defragmenter.rs. `next` is the
--   fragmenter's iterator, `collect` the loop over it, `defragment` the function of that name,
--   which Mig/Segment/Delivery joins.
-- - Mig/Active: tcpmig/active.rs. `process_packet` dispatches on the stage last sent; each
--   handler returns its result, the new state and the segments that it transmits.
--   Mig/Active/Handshake runs two of them against each other.
-- - Mig/Peer: tcpmig/peer.rs and tcpmig/constants.rs. `receive` parses a packet, looks its client
--   up in the table and hands it to the active migration.
-- - Tcp/Header: tcp/segment.rs. `serialize` gives what that function leaves in a buffer of
--   `compute_size` bytes; Header/Parse reads: `parse` takes the fixed part, then the options with
--   `parse_options`.
-- - Tcp/ControlBlock: the receiving half of tcp/established/ctrlblk.rs. `receive_data` appends
--   data in order and recovers what was stored out of order, `store_out_of_order_segment` stores,
--   `poll_recv` reads. Tcp/ControlBlock/Migrate takes a control block apart and puts it together
--   again on the other server, by way of its bytes.
-- - Tcp/Sender: the sender of tcp/established/sender.rs, with the conversions from and to its
--   state; Queues: its retransmission queue, its unsent queue and the send window.
-- - Tcp/Acceptance: the tests at the beginning of `receive` in tcp/established/ctrlblk.rs, which
--   cut a segment to the receive window.
-- - Tcp/Connection: the rest of tcp/established/ctrlblk.rs and the sending of
--   tcp/established/sender.rs. Connection/Defs has the state and `send`, `retransmit`, `close`,
--   `emit`; Connection/Receive the parts of `receive` in their order. Connection/Stages and Steps
--   follow the TCP state, Connection/Sound the sender, Connection/Stream and Delivery the peer's
--   stream.
-- - Tcp/Opening: tcp/active_open.rs, tcp/passive_open.rs and tcp/isn_generator.rs. Opening/Active
--   and Opening/Passive are the two sides; a background task is the header that it sends and the
--   answers of the ARP queries. Opening/Handshake runs one side against the other,
--   Opening/Accepting is about the queue of a listening socket.
-- - Tcp/Peer: the socket table of tcp/peer.rs, with `do_socket`, `bind` and `listen`. Peer/Calls
--   has accepting and connecting, Peer/Data sending, receiving and closing, Peer/Packets the
--   packets that arrive, Peer/Migrating the migration of sockets and the messages between
--   servers. Peer/Tables says how the tables depend on each other, over any run; Peer/HandOver
--   follows one connection from server to server. Peer/Switch is `receive` as the switch is
--   built.
-- - Tests: sample data, the theorems applied to it, and runs of the code.
--
-- A buffer is the list of its visible bytes; `adjust` and `trim` cut it at the front and at the
-- end and fail where the code panics. Machine integers are natural numbers with their wrap-around
-- written out. `none` as a result of an operation is a panic, `err` is the code's `Err`. What
-- goes to the network runtime is part of an operation's result. The serializer and the size of an
-- application's state are the application's, and enter as a record of what they give; its
-- deserializer is an argument.
--
-- Four loops run on fuel. The loop over fragments gets the number of full fragments and four more
-- steps: the fragment counter is a u16, which wraps once at most on a buffer that `send` accepts.
-- The passes over the out-of-order store get one more than there are entries, since each but the
-- last removes one. The loop over the options of a TCP header gets one for each byte, of which
-- each pass reads at least one, and would end in an error of its own, `unfinished`, if it ran
-- out; and the loop that folds the TCP checksum one for each multiple of 0xFFFF.
--
-- The retransmission timeout, which is computed in floating point, and the congestion control,
-- which is a trait, are the record `Timing` that a connection takes; so are the clock's time and
-- what the ARP cache knows, as arguments of each operation.
--
-- Not modelled: the background tasks of a connection, the queue statistics of tcp/peer.rs, the
-- scheduler and its futures, the other protocols, the device bindings, logging and profiling.
pub mod Base
pub mod Seq
pub mod Net
pub mod State
pub mod Tcp
pub mod Mig
pub mod Tests
