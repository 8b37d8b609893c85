-- ===== src/Mig/Active/Stages.antt =====
-- The stages of one migration, and how they may follow each other.
use capybara_artifact.Base.{ℕ, ◌≤◌, ◌≡◌, ◌⊎◌, some, List, Result}
use capybara_artifact.Tcp.Header.{TcpHeader}
use capybara_artifact.State.{Buffer, TcpState}
use capybara_artifact.Mig.Header.{
  TcpMigHeader, MigrationStage, none_stage, prepare_migration, prepare_migration_ack,
  connection_state, connection_state_ack, Fail,
}
use capybara_artifact.Mig.Segment.{TcpMigSegment}
use capybara_artifact.Mig.Active.{
  ActiveMigration, TcpmigReceiveStatus, process_packet, initiate_migration, send_connection_state,
  buffer_packet, take_buffered_packets,
}

-- Idle, the server that gives the connection away, or the one that takes it.
pub data Side : Type 0 where
  idle giving taking unused : Side

abbrev pub side : MigrationStage → Side
side none_stage = idle
side prepare_migration = giving
side connection_state = giving
side prepare_migration_ack = taking
side connection_state_ack = taking
side _ = unused

abbrev pub place : MigrationStage → ℕ
place none_stage = 0
place prepare_migration = 1
place prepare_migration_ack = 1
place connection_state = 2
place connection_state_ack = 2
place _ = 3

-- What a migration keeps while it goes on.
pub record Follows (a a' : ActiveMigration) : Type 0 where
  pub client : a'.client ≡ a.client
  pub origin : a'.origin ≡ a.origin
  pub qd : a'.qd ≡ a.qd
  pub self_udp_port : a'.self_udp_port ≡ a.self_udp_port
  pub forward : place a.last_sent_stage ≤ place a'.last_sent_stage
  pub same_side :
      (side a.last_sent_stage ≡ idle) ⊎ (side a'.last_sent_stage ≡ side a.last_sent_stage)

pub data Step (a : ActiveMigration) : ActiveMigration → Type 0 where
  initiated :
      (a' : ActiveMigration) (out : List TcpMigSegment)
      → initiate_migration a ≡ some (a', out)
      → Step a a'
  state_sent :
      (state : TcpState) (a' : ActiveMigration) (out : List TcpMigSegment)
      → send_connection_state a state ≡ some (a', out)
      → Step a a'
  processed :
      (hdr : TcpMigHeader) (buf : Buffer) (r : Result Fail TcpmigReceiveStatus)
      (a' : ActiveMigration) (out : List TcpMigSegment)
      → process_packet a hdr buf ≡ some (r, (a', out))
      → Step a a'
  buffered : (hdr : TcpHeader) (buf : Buffer) → Step a (buffer_packet hdr buf a)
  taken : Step a ((take_buffered_packets a).1)

pub data Steps (a : ActiveMigration) : ActiveMigration → Type 0 where
  start : Steps a a
  then : (b c : ActiveMigration) → Steps a b → Step b c → Steps a c
