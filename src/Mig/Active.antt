-- ===== src/Mig/Active.antt =====
-- inetstack/protocols/tcpmig/active.rs: one migration, on the origin's side or the target's, as a
-- state machine on the stage that it last sent.
pub mod Send
pub mod Empty
pub mod Stages
pub mod Order
pub mod Transfer
pub mod Handshake
use capybara_artifact.Base.{
  ℕ, ◌+◌, ◌/◌, ◌==◌, ◌^◌, Bool, true, false, ltb, if◌then◌else◌, Option, some, none, List, [], ◌∷◌,
  ◌++◌, ◌>>=◌, length, Result, ok, err,
}
use capybara_artifact.Net.{Ipv4Addr, SocketAddrV4}
use capybara_artifact.Tcp.Header.{TcpHeader}
use capybara_artifact.State.{Buffer, TcpState, set_local}
use capybara_artifact.State.Deserialize.{deserialize}
use capybara_artifact.State.Size.{serialize}
use capybara_artifact.Mig.Header as Header
use capybara_artifact.Mig.Header.{
  TcpMigHeader, Ipv4Header, MigrationStage, none_stage, rejected, prepare_migration,
  prepare_migration_ack, connection_state, connection_state_ack, heartbeat_update,
  heartbeat_response, Fail, expected_prepare_migration, expected_prepare_migration_ack_or_rejected,
  expected_connection_state, expected_connection_state_ack, swap_src_dst_port,
}
use capybara_artifact.Mig.Segment as Segment
use capybara_artifact.Mig.Segment.{
  MacAddress, Ethernet2Header, TcpMigSegment, TcpMigDefragmenter, Defragmented, max_fragment_size,
  fragments, collect, defragment,
}

abbrev pub QDesc : Type 0
QDesc = ℕ

-- peer.rs
pub data TcpmigReceiveStatus : Type 0 where
  ok_status sent_reject migration_completed : TcpmigReceiveStatus
  rejected_status returned_by_switch : SocketAddrV4 → SocketAddrV4 → TcpmigReceiveStatus
  prepare_migration_acked : QDesc → TcpmigReceiveStatus
  state_received : TcpState → TcpmigReceiveStatus
  heartbeat_response_status : ℕ → TcpmigReceiveStatus

-- The runtime `rt` is not kept here: what `transmit` is given is part of each result.
pub record ActiveMigration : Type 0 where
  pub local_ipv4_addr : Ipv4Addr
  pub local_link_addr : MacAddress
  pub remote_ipv4_addr : Ipv4Addr
  pub remote_link_addr : MacAddress
  pub self_udp_port : ℕ
  pub dest_udp_port : ℕ
  pub origin : SocketAddrV4
  pub client : SocketAddrV4
  pub last_sent_stage : MigrationStage
  pub qd : Option QDesc
  pub recv_queue : List (TcpHeader × Buffer)
  pub defragmenter : TcpMigDefragmenter

unfoldable pub new :
    Ipv4Addr
    → MacAddress
    → Ipv4Addr
    → MacAddress
    → ℕ
    → ℕ
    → SocketAddrV4
    → SocketAddrV4
    → Option QDesc
    → ActiveMigration
new local local_link remote remote_link self_port dest_port origin client qd = record {
  local_ipv4_addr = local;
  local_link_addr = local_link;
  remote_ipv4_addr = remote;
  remote_link_addr = remote_link;
  self_udp_port = self_port;
  dest_udp_port = dest_port;
  origin = origin;
  client = client;
  last_sent_stage = none_stage;
  qd = qd;
  recv_queue = [];
  defragmenter = Segment.new;
}

-- The segment that `send` cuts into fragments.
abbrev pub segment_to_send : ActiveMigration → TcpMigHeader → Buffer → TcpMigSegment
segment_to_send a hdr buf = record {
  ethernet2_hdr = record { dst_addr = a.remote_link_addr; src_addr = a.local_link_addr };
  ipv4_hdr = record { src_addr = a.local_ipv4_addr; dst_addr = a.remote_ipv4_addr };
  tcpmig_hdr = hdr;
  payload = buf;
}

-- The segments given to `transmit`. The counter wraps once at most, so that the loop ends on this
-- fuel; `none` is the panic on a state that is too large.
unfoldable pub send : ActiveMigration → TcpMigHeader → Buffer → Option (List TcpMigSegment)
send a hdr buf =
    if ltb 65535 (length buf / max_fragment_size)
    then none
    else collect (length buf / max_fragment_size + 4) (fragments (segment_to_send a hdr buf))

abbrev pub next_header : TcpMigHeader → MigrationStage → TcpMigHeader
next_header hdr stage = swap_src_dst_port (record hdr { stage = stage })

abbrev pub Sent : Type 0
Sent = ActiveMigration × List TcpMigSegment

-- The result of a handler, the new state and the segments sent.
abbrev pub Processed : Type 0
Processed = Result Fail TcpmigReceiveStatus × Sent

-- The stage is set, then a segment is sent.
unfoldable pub send_stage : ActiveMigration → MigrationStage → TcpMigHeader → Buffer → Option Sent
unfolding send
send_stage a stage hdr buf = do
  out ← send a hdr buf
  some (record a { last_sent_stage = stage }, out)

abbrev refuse : ActiveMigration → Fail → Option Processed
refuse a e = some (err e, (a, []))

on_none : ActiveMigration → TcpMigHeader → MigrationStage → Option Processed
unfolding send_stage
on_none a hdr prepare_migration = do
  s ←
      send_stage a prepare_migration_ack
        (record (next_header hdr prepare_migration_ack) { flag_load = true }) []
  some (ok ok_status, s)
on_none a hdr _ = refuse a expected_prepare_migration

on_prepare : ActiveMigration → TcpMigHeader → MigrationStage → Option Processed
on_prepare a hdr prepare_migration_ack = do
  qd ← a.qd
  some (ok (prepare_migration_acked qd), (record a { dest_udp_port = hdr.source_udp_port }, []))
on_prepare a hdr rejected = some (ok (rejected_status hdr.origin hdr.client), (a, []))
on_prepare a hdr _ = refuse a expected_prepare_migration_ack_or_rejected

-- The whole state is there: it gets the target's address, and the origin an acknowledgement.
unfoldable pub accept_state : ActiveMigration → Option (TcpMigHeader × Buffer) → Option Processed
unfolding send_stage
accept_state a none = some (ok ok_status, (a, []))
accept_state a (some (hdr, buf)) = do
  state ← deserialize buf
  s ← send_stage a connection_state_ack (next_header hdr connection_state_ack) []
  some (
    ok (
        state_received
          (set_local (record { ip = a.local_ipv4_addr; port = a.self_udp_port }) state)),
    s,
  )

on_prepare_ack : ActiveMigration → TcpMigHeader → Buffer → MigrationStage → Option Processed
unfolding accept_state
on_prepare_ack a hdr buf connection_state = do
  (m, d) ← defragment a.defragmenter hdr buf
  accept_state (record a { defragmenter = d }) m
on_prepare_ack a hdr buf _ = refuse a expected_connection_state

on_connection_state : ActiveMigration → MigrationStage → Option Processed
on_connection_state a connection_state_ack = some (ok migration_completed, (a, []))
on_connection_state a _ = refuse a expected_connection_state_ack

on_stage : ActiveMigration → TcpMigHeader → Buffer → MigrationStage → Option Processed
unfolding on_none on_prepare on_prepare_ack on_connection_state
on_stage a hdr buf none_stage = on_none a hdr hdr.stage
on_stage a hdr buf prepare_migration = on_prepare a hdr hdr.stage
on_stage a hdr buf prepare_migration_ack = on_prepare_ack a hdr buf hdr.stage
on_stage a hdr buf connection_state = on_connection_state a hdr.stage
on_stage a hdr buf connection_state_ack = some (ok ok_status, (a, []))
on_stage a hdr buf rejected = none
on_stage a hdr buf heartbeat_update = none
on_stage a hdr buf heartbeat_response = none

-- `none` is a panic.
unfoldable pub process_packet : ActiveMigration → TcpMigHeader → Buffer → Option Processed
unfolding on_stage
process_packet a hdr buf = on_stage a hdr buf a.last_sent_stage

-- The other end's port, as the two servers of the experiments have it.
abbrev pub peer_port : ℕ → ℕ
peer_port port = if port == 10001 then 10000 else 10001

initiate_at : ActiveMigration → MigrationStage → Option Sent
unfolding send_stage
initiate_at a none_stage =
    send_stage a prepare_migration
      (Header.new a.origin a.client 0 prepare_migration a.self_udp_port (peer_port a.self_udp_port))
      []
initiate_at a _ = none

-- `assert_eq!(self.last_sent_stage, MigrationStage::None)`
unfoldable pub initiate_migration : ActiveMigration → Option Sent
unfolding initiate_at
initiate_migration a = initiate_at a a.last_sent_stage

send_state_at : ActiveMigration → TcpState → MigrationStage → Option Sent
unfolding send_stage
send_state_at a state prepare_migration = do
  buf ← serialize state
  send_stage a connection_state
      (Header.new a.origin a.client 0 connection_state a.self_udp_port a.dest_udp_port) buf
send_state_at a state _ = none

unfoldable pub send_connection_state : ActiveMigration → TcpState → Option Sent
unfolding send_state_at
send_connection_state a state = send_state_at a state a.last_sent_stage

unfoldable pub buffer_packet : TcpHeader → Buffer → ActiveMigration → ActiveMigration
buffer_packet hdr buf a = record a { recv_queue = a.recv_queue ++ ((hdr, buf) ∷ []) }

unfoldable pub take_buffered_packets : ActiveMigration → List (TcpHeader × Buffer) × ActiveMigration
take_buffered_packets a = (a.recv_queue, record a { recv_queue = [] })
