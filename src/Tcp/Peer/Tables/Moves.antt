-- ===== src/Tcp/Peer/Tables/Moves.antt =====
-- Migration keeps the tables consistent.
use capybara_artifact.Base.{
  ◌≡◌, Option, some, none, List, Result, ok, err, Holds, Holds-bind, Holds-some,
}
use capybara_artifact.Net.{SocketAddrV4}
use capybara_artifact.Net.Map.{number_key, pair_key, addr_key, lookup}
use capybara_artifact.State.{Buffer, TcpState}
use capybara_artifact.Mig.Header.{Ipv4Header, Fail}
use capybara_artifact.Mig.Segment.{TcpMigSegment}
use capybara_artifact.Mig.Active.{
  QDesc, TcpmigReceiveStatus, ok_status, sent_reject, migration_completed, rejected_status,
  returned_by_switch, prepare_migration_acked, state_received, heartbeat_response_status,
}
use capybara_artifact.Mig.Peer as Mig
use capybara_artifact.Mig.Peer.{TcpMigPeer, Packet, try_buffer_packet}
use capybara_artifact.Tcp.ControlBlock.{ControlBlock}
use capybara_artifact.Tcp.ControlBlock.Migrate.{to_state, from_state}
use capybara_artifact.Tcp.Connection.Defs.{Timing}
use capybara_artifact.Tcp.Opening.Passive.{PassiveSocket, push_migrated_in}
use capybara_artifact.Tcp.Peer.{
  Socket, inactive, listening, connecting, established, migrated_out, Env, Pair, Inner,
}
use capybara_artifact.Tcp.Peer.Migrating.{
  migrating_pair, migrate_out_connection, with_messages, migrate_out_and_send,
  initiate_migration_by_addr, migrate_in_to, migrate_in_connection, initiate_for, initiate_as,
  initiate_migration_by_qd, on_status, on_received, receive_tcpmig,
}
use capybara_artifact.Tcp.Peer.Tables.{IsConsistent, drop-IsConsistent}
use capybara_artifact.Tcp.Peer.Tables.Sockets.{StaysConsistent}

pub migrating_pair-lookup :
    (o : Option Socket) (local remote : SocketAddrV4)
    → migrating_pair o ≡ some (local, remote)
    → o ≡ some (established local remote)
unfolding migrating_pair
migrating_pair-lookup (some (established a b)) local remote e = cc
migrating_pair-lookup (some (inactive a)) local remote e = cc
migrating_pair-lookup (some (listening a)) local remote e = cc
migrating_pair-lookup (some (connecting a b)) local remote e = cc
migrating_pair-lookup (some (migrated_out a b)) local remote e = cc
migrating_pair-lookup none local remote e = cc

module _ {t : Timing} where
  with_messages-IsConsistent :
      (x : TcpMigPeer × List TcpMigSegment) (i : Inner t)
      → IsConsistent i
      → IsConsistent (with_messages x i)
  with_messages-IsConsistent (tcpmig, out) i h = record { known = h.known; held = h.held }

  pub migrate_out-IsConsistent :
      (qd : QDesc) (i : Inner t)
      → IsConsistent i
      → Holds (λ x. IsConsistent (x.1)) (migrate_out_connection qd i)
  unfolding migrate_out_connection
  migrate_out-IsConsistent qd i h = Holds-bind _ (migrating_pair (lookup qd i.sockets)) _ (λ p e.
      Holds-bind _ (lookup p i.qds) _ (λ k e1. Holds-bind _ (lookup p i.established) _ (λ c e2.
        Holds-bind _ (to_state c.block) _ (λ s e3.
          drop-IsConsistent qd (p.0) (p.1) i
            (migrating_pair-lookup (lookup qd i.sockets) (p.0) (p.1) e) h))))

  pub migrate_out_and_send-IsConsistent :
      (qd : QDesc) (i : Inner t) → IsConsistent i → Holds IsConsistent (migrate_out_and_send qd i)
  unfolding migrate_out_and_send
  migrate_out_and_send-IsConsistent qd i h =
      Holds-bind IsConsistent (migrate_out_connection qd i) _ (λ x e.
        Holds-bind IsConsistent (Mig.send_tcp_state (x.1).tcpmig (x.0)) _ (λ y e'.
          with_messages-IsConsistent y (x.1) (
            Holds-some (λ (z : TcpState × Inner t). IsConsistent (z.1))
              (migrate_out_connection qd i) x (migrate_out-IsConsistent qd i h) e)))

  pub initiate_by_addr-IsConsistent :
      (conn : Pair) (i : Inner t)
      → IsConsistent i
      → Holds IsConsistent (initiate_migration_by_addr conn i)
  unfolding initiate_migration_by_addr
  initiate_by_addr-IsConsistent conn i h = Holds-bind IsConsistent (lookup conn i.qds) _ (λ qd e.
      Holds-bind IsConsistent (lookup conn i.established) _ (λ c e1.
        Holds-bind IsConsistent (Mig.initiate_migration i.tcpmig conn qd) _
          (λ y e'. with_messages-IsConsistent y i h)))

module _ (t : Timing) (env : Env) where
  migrate_in_to-IsConsistent :
      (cb : ControlBlock) (i : Inner t) (o : Option PassiveSocket)
      → IsConsistent i
      → StaysConsistent t env (migrate_in_to t env cb i o)
  unfolding migrate_in_to
  migrate_in_to-IsConsistent cb i none h = h
  migrate_in_to-IsConsistent cb i (some p) h =
      Holds-bind _ (push_migrated_in cb p) _ (λ p' e. record { known = h.known; held = h.held })

  initiate_for-IsConsistent :
      (qd : QDesc) (i : Inner t) (conn : Pair)
      → IsConsistent i
      → StaysConsistent t env (initiate_for t env qd i conn)
  unfolding initiate_for
  initiate_for-IsConsistent qd i conn h = Holds-bind _ (lookup conn i.established) _ (λ c e.
      Holds-bind _ (Mig.initiate_migration i.tcpmig conn qd) _
        (λ y e'. with_messages-IsConsistent y i h))

  initiate_as-IsConsistent :
      (qd : QDesc) (i : Inner t) (o : Option Socket)
      → IsConsistent i
      → StaysConsistent t env (initiate_as t env qd i o)
  unfolding initiate_as
  initiate_as-IsConsistent qd i (some (established l r)) h = initiate_for-IsConsistent qd i (l, r) h
  initiate_as-IsConsistent qd i (some (inactive l)) h = h
  initiate_as-IsConsistent qd i (some (listening l)) h = h
  initiate_as-IsConsistent qd i (some (connecting l r)) h = h
  initiate_as-IsConsistent qd i (some (migrated_out l r)) h = h
  initiate_as-IsConsistent qd i none h = h

  pub initiate_by_qd-IsConsistent :
      (qd : QDesc) (i : Inner t)
      → IsConsistent i
      → StaysConsistent t env (initiate_migration_by_qd t env qd i)
  unfolding initiate_migration_by_qd
  initiate_by_qd-IsConsistent qd i h = initiate_as-IsConsistent qd i (lookup qd i.sockets) h

  on_status-IsConsistent :
      (s : TcpmigReceiveStatus) (i : Inner t)
      → IsConsistent i
      → StaysConsistent t env (on_status t env s i)
  unfolding on_status migrate_in_connection
  on_status-IsConsistent ok_status i h = h
  on_status-IsConsistent migration_completed i h = h
  on_status-IsConsistent sent_reject i h = h
  on_status-IsConsistent (rejected_status local remote) i h =
      Holds-bind _ (lookup (local, remote) i.established) _ (λ c e. h)
  on_status-IsConsistent (returned_by_switch local remote) i h =
      Holds-bind _ (initiate_migration_by_addr (local, remote) i) _ (λ i' e.
        Holds-some IsConsistent (initiate_migration_by_addr (local, remote) i) i'
          (initiate_by_addr-IsConsistent (local, remote) i h) e)
  on_status-IsConsistent (prepare_migration_acked qd) i h =
      Holds-bind _ (migrate_out_and_send qd i) _ (λ i' e.
        Holds-some IsConsistent (migrate_out_and_send qd i) i'
          (migrate_out_and_send-IsConsistent qd i h) e)
  on_status-IsConsistent (state_received s) i h =
      let cb = from_state s.cb in migrate_in_to-IsConsistent cb i (lookup cb.local i.passive) h
  on_status-IsConsistent (heartbeat_response_status n) i h = h

  on_received-IsConsistent :
      (i : Inner t) (r : Result Fail TcpmigReceiveStatus)
      → IsConsistent i
      → StaysConsistent t env (on_received t env i r)
  unfolding on_received
  on_received-IsConsistent i (err e) h = h
  on_received-IsConsistent i (ok s) h = on_status-IsConsistent s i h

  pub receive_tcpmig-IsConsistent :
      (ip : Ipv4Header) (buf : Buffer) (i : Inner t)
      → IsConsistent i
      → StaysConsistent t env (receive_tcpmig t env ip buf i)
  unfolding receive_tcpmig
  receive_tcpmig-IsConsistent ip buf i h = Holds-bind _ (Mig.receive i.tcpmig ip buf) _ (λ x e.
      on_received-IsConsistent (with_messages (x.1) i) (x.0) (with_messages-IsConsistent (x.1) i h))
