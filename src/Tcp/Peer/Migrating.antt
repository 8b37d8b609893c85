-- ===== src/Tcp/Peer/Migrating.antt =====
-- Migration in inetstack/protocols/tcp/peer.rs: connections that leave and arrive, and the messages
-- between servers.
use capybara_artifact.Base.{Option, some, none, List, ◌++◌, ◌>>=◌, Result, ok, err}
use capybara_artifact.Net.Map.{addr_key, pair_key, number_key, lookup, remove}
use capybara_artifact.State.{Buffer, TcpState, ApplicationState}
use capybara_artifact.State as State
use capybara_artifact.Mig.Header.{Ipv4Header, Fail}
use capybara_artifact.Mig.Segment.{TcpMigSegment}
use capybara_artifact.Mig.Active.{
  QDesc, TcpmigReceiveStatus, ok_status, sent_reject, migration_completed, rejected_status,
  returned_by_switch, prepare_migration_acked, state_received, heartbeat_response_status,
}
use capybara_artifact.Mig.Peer as Mig
use capybara_artifact.Mig.Peer.{TcpMigPeer}
use capybara_artifact.Tcp.ControlBlock.{ControlBlock}
use capybara_artifact.Tcp.ControlBlock.Migrate.{to_state, from_state}
use capybara_artifact.Tcp.Connection.Defs.{Timing}
use capybara_artifact.Tcp.Opening.Passive.{PassiveSocket, push_migrated_in}
use capybara_artifact.Tcp.Peer.{
  Socket, inactive, listening, connecting, established, migrated_out, no_socket, no_socket_listens,
  unsupported_socket, migrating, Env, Pair, Inner, put_socket, put_passive,
}
use capybara_artifact.Tcp.Peer.Data.{Called}

-- The pair of an established socket; another socket is a panic.
unfoldable pub migrating_pair : Option Socket → Option Pair
migrating_pair (some (established local remote)) = some (local, remote)
migrating_pair (some (inactive local)) = none
migrating_pair (some (listening local)) = none
migrating_pair (some (connecting local remote)) = none
migrating_pair (some (migrated_out local remote)) = none
migrating_pair none = none

module _ {t : Timing} where
  -- The state of a connection, which leaves the tables. `none` is a panic: another socket, no entry
  -- in `qds` or `established`, or an MSS that does not fit a u32.
  unfoldable pub migrate_out_connection : QDesc → Inner t → Option (TcpState × Inner t)
  unfolding migrating_pair to_state
  migrate_out_connection qd i = do
    (local, remote) ← migrating_pair (lookup qd i.sockets)
    known ← lookup (local, remote) i.qds
    c ← lookup (local, remote) i.established
    (state, left) ← to_state c.block
    some (
      State.new state,
      record (put_socket qd (migrated_out local remote) i) {
        qds = remove (local, remote) i.qds;
        established = remove (local, remote) i.established;
      },
    )

  abbrev pub with_messages : TcpMigPeer × List TcpMigSegment → Inner t → Inner t
  with_messages (tcpmig, out) i = record i { tcpmig = tcpmig; messages = i.messages ++ out }

  -- `send_tcp_state` of what migrates out.
  unfoldable pub migrate_out_and_send : QDesc → Inner t → Option (Inner t)
  unfolding migrate_out_connection
  migrate_out_and_send qd i = do
    (state, i') ← migrate_out_connection qd i
    sent ← Mig.send_tcp_state i'.tcpmig state
    some (with_messages sent i')

  -- `none` is a panic: no descriptor for the pair, no connection, or one that migrates already.
  unfoldable pub initiate_migration_by_addr : Pair → Inner t → Option (Inner t)
  initiate_migration_by_addr conn i = do
    qd ← lookup conn i.qds
    c ← lookup conn i.established
    sent ← Mig.initiate_migration i.tcpmig conn qd
    some (with_messages sent i)

  -- The peer's address of an established socket; another socket is a panic.
  unfoldable pub register_application_state : QDesc → ApplicationState → Inner t → Option (Inner t)
  unfolding migrating_pair
  register_application_state qd a i = do
    (local, remote) ← migrating_pair (lookup qd i.sockets)
    some (record i { tcpmig = Mig.register_application_state remote a i.tcpmig })

  unfoldable pub get_migrated_application_state :
      (Buffer → ApplicationState) → QDesc → Inner t → Option (Option ApplicationState × Inner t)
  unfolding migrating_pair
  get_migrated_application_state de qd i = do
    (local, remote) ← migrating_pair (lookup qd i.sockets)
    let (a, tcpmig) = Mig.get_migrated_application_state de i.tcpmig remote in
        some (a, record i { tcpmig = tcpmig })

module _ (t : Timing) (env : Env) where
  unfoldable pub migrate_in_to : ControlBlock → Inner t → Option PassiveSocket → Called t env
  unfolding push_migrated_in
  migrate_in_to cb i none = some (some no_socket_listens, i)
  migrate_in_to cb i (some p) = do
    p' ← push_migrated_in cb p
    some (none, put_passive cb.local p' i)

  unfoldable pub migrate_in_connection : TcpState → Inner t → Called t env
  unfolding migrate_in_to from_state
  migrate_in_connection s i =
      let cb = from_state s.cb in migrate_in_to cb i (lookup cb.local i.passive)

  unfoldable pub initiate_for : QDesc → Inner t → Pair → Called t env
  initiate_for qd i conn = do
    c ← lookup conn i.established
    sent ← Mig.initiate_migration i.tcpmig conn qd
    some (none, with_messages sent i)

  unfoldable pub initiate_as : QDesc → Inner t → Option Socket → Called t env
  unfolding initiate_for
  initiate_as qd i (some (established local remote)) = initiate_for qd i (local, remote)
  initiate_as qd i (some (inactive local)) = some (some unsupported_socket, i)
  initiate_as qd i (some (listening local)) = some (some unsupported_socket, i)
  initiate_as qd i (some (connecting local remote)) = some (some unsupported_socket, i)
  initiate_as qd i (some (migrated_out local remote)) = some (some unsupported_socket, i)
  initiate_as qd i none = some (some no_socket, i)

  unfoldable pub initiate_migration_by_qd : QDesc → Inner t → Called t env
  unfolding initiate_as
  initiate_migration_by_qd qd i = initiate_as qd i (lookup qd i.sockets)

  abbrev done : Inner t → Called t env
  done i = some (none, i)

  -- The `match` of `receive_tcpmig`.
  unfoldable pub on_status : TcpmigReceiveStatus → Inner t → Called t env
  unfolding migrate_out_and_send initiate_migration_by_addr migrate_in_connection
  on_status ok_status i = done i
  on_status migration_completed i = done i
  on_status sent_reject i = done i
  on_status (rejected_status local remote) i = do c ← lookup (local, remote) i.established; done i
  on_status (returned_by_switch local remote) i = do
    i' ← initiate_migration_by_addr (local, remote) i
    done i'
  on_status (prepare_migration_acked qd) i = do i' ← migrate_out_and_send qd i; done i'
  on_status (state_received s) i = migrate_in_connection s i
  on_status (heartbeat_response_status n) i = done i

  unfoldable pub on_received : Inner t → Result Fail TcpmigReceiveStatus → Called t env
  unfolding on_status
  on_received i (err e) = some (some (migrating e), i)
  on_received i (ok status) = on_status status i

  unfoldable pub receive_tcpmig : Ipv4Header → Buffer → Inner t → Called t env
  unfolding on_received
  receive_tcpmig ip buf i = do
    (r, sent) ← Mig.receive i.tcpmig ip buf
    on_received (with_messages sent i) r
