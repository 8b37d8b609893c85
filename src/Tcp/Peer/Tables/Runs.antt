-- ===== src/Tcp/Peer/Tables/Runs.antt =====
-- Runs of a peer, and what the consistent tables are good for: any connection can migrate out.
use capybara_artifact.Base.{
  ℕ, ◌≡◌, ◌≢◌, ◌<◌, ◌^◌, refl, lt→ltb, Option, some, none, Result, err, Gives, Holds-some,
}
use capybara_artifact.Net.{SocketAddrV4}
use capybara_artifact.Net.Ports.{EphemeralPorts}
use capybara_artifact.Net.Map.{
  number_key, pair_key, lookup, remove, lookup-insert, lookup-insert_ne, lookup-remove,
  lookup-remove_ne,
}
use capybara_artifact.State.{Buffer, TcpState}
use capybara_artifact.State as State
use capybara_artifact.Mig.Header.{Ipv4Header}
use capybara_artifact.Mig.Active.{QDesc}
use capybara_artifact.Mig.Peer.{TcpMigPeer}
use capybara_artifact.Tcp.Sender.{to_sender_state}
use capybara_artifact.Tcp.ControlBlock.Migrate.{state_of, to_state}
use capybara_artifact.Tcp.Connection.Defs.{Timing, Connection}
use capybara_artifact.Tcp.Peer.{
  established, migrated_out, PeerFail, is_migrated_out, Env, Pair, Inner, new, put_socket,
  do_socket, bind, listen,
}
use capybara_artifact.Tcp.Peer.Calls.{connect, poll_accept}
use capybara_artifact.Tcp.Peer.Data.{
  poll_recv, recv_key, send, send_key, do_close, key_or, recv_fail, send_fail,
}
use capybara_artifact.Tcp.Peer.Packets.{receive}
use capybara_artifact.Tcp.Peer.Migrating.{
  migrating_pair, migrate_out_connection, migrate_out_and_send, initiate_migration_by_qd,
  receive_tcpmig,
}
use capybara_artifact.Tcp.Peer.Tables.{IsConsistent}
use capybara_artifact.Tcp.Peer.Tables.Sockets.{
  do_socket-IsConsistent, bind-IsConsistent, listen-IsConsistent, connect-IsConsistent,
  poll_accept-IsConsistent,
}
use capybara_artifact.Tcp.Peer.Tables.Traffic.{
  poll_recv-IsConsistent, send-IsConsistent, do_close-IsConsistent, receive-IsConsistent,
}
use capybara_artifact.Tcp.Peer.Tables.Moves.{
  migrate_out_and_send-IsConsistent, initiate_by_qd-IsConsistent, receive_tcpmig-IsConsistent,
}

-- A peer after any sequence of calls, packets and messages, but for `poll_connect_finished`.
pub data Run (t : Timing) (env : Env) : Inner t → Type 0 where
  starts :
      (nonce : ℕ) (ports : EphemeralPorts) (tcpmig : TcpMigPeer)
      → Run t env (new t nonce ports tcpmig)
  opens : {i : Inner t} (qd : QDesc) → Run t env i → Run t env ((do_socket qd i).1)
  binds :
      {i : Inner t} (qd : QDesc) (addr : SocketAddrV4)
      → Run t env i
      → Run t env ((bind qd addr i).1)
  listens :
      {i : Inner t} (qd : QDesc) (backlog nonce : ℕ)
      → Run t env i
      → Run t env ((listen qd backlog nonce i).1)
  connects :
      {i : Inner t} (qd : QDesc) (remote : SocketAddrV4)
      → Run t env i
      → Run t env ((connect t env qd remote i).1)
  accepts :
      {i j : Inner t} {r : Option (Result PeerFail QDesc)} (qd new_qd : QDesc)
      → Run t env i
      → poll_accept t env qd new_qd i ≡ some (r, j)
      → Run t env j
  pops :
      {i j : Inner t} {r : Option (Result PeerFail Buffer)} (qd : QDesc)
      → Run t env i
      → poll_recv t env qd i ≡ some (r, j)
      → Run t env j
  pushes :
      {i j : Inner t} {e : Option PeerFail} (qd : QDesc) (buf : Buffer)
      → Run t env i
      → send t env qd buf i ≡ some (e, j)
      → Run t env j
  closes :
      {i j : Inner t} {e : Option PeerFail} (qd : QDesc)
      → Run t env i
      → do_close t env qd i ≡ some (e, j)
      → Run t env j
  receives :
      {i j : Inner t} {e : Option PeerFail} (ip : Ipv4Header) (buf : Buffer)
      → Run t env i
      → receive t env ip buf i ≡ some (e, j)
      → Run t env j
  hears :
      {i j : Inner t} {e : Option PeerFail} (ip : Ipv4Header) (buf : Buffer)
      → Run t env i
      → receive_tcpmig t env ip buf i ≡ some (e, j)
      → Run t env j
  initiates :
      {i j : Inner t} {e : Option PeerFail} (qd : QDesc)
      → Run t env i
      → initiate_migration_by_qd t env qd i ≡ some (e, j)
      → Run t env j
  sends_away :
      {i j : Inner t} (qd : QDesc) → Run t env i → migrate_out_and_send qd i ≡ some j → Run t env j

-- `to_state` is defined for these connections.
pub record HaveMss {t : Timing} (i : Inner t) : Type 0 where
  pub small :
      (key : Pair) (c : Connection t)
      → lookup key i.established ≡ some c
      → c.block.sender.mss < 2 ^ 32

-- What `migrate_out_connection` leaves: the state of this very connection, its socket without a
-- connection, all others as they were; and the application is told.
pub record Left (t : Timing) (env : Env) (qd : QDesc) (local remote : SocketAddrV4) (i : Inner t)
    (x : TcpState × Inner t) : Type 0 where
  pub connection : Connection t
  pub was_there : lookup (local, remote) i.established ≡ some connection
  pub state : x.0 ≡ State.new (state_of connection.block)
  pub socket : lookup qd (x.1).sockets ≡ some (migrated_out local remote)
  pub no_descriptor : lookup (local, remote) (x.1).qds ≡ none
  pub no_connection : lookup (local, remote) (x.1).established ≡ none
  pub other_sockets : (qd' : QDesc) → qd ≢ qd' → lookup qd' (x.1).sockets ≡ lookup qd' i.sockets
  pub other_connections :
      (key : Pair)
      → ◌≢◌ {A = Pair} (local, remote) key
      → lookup key (x.1).established ≡ lookup key i.established
  pub sends : (buf : Buffer) → send t env qd buf (x.1) ≡ some (some is_migrated_out, x.1)
  pub receives : poll_recv t env qd (x.1) ≡ some (some (err is_migrated_out), x.1)

module _ (t : Timing) (env : Env) where
  pub Run-IsConsistent : (i : Inner t) → Run t env i → IsConsistent i
  unfolding lookup
  Run-IsConsistent i (starts nonce ports tcpmig) = record {
    known = λ qd l r e. cc;
    held = λ qd l r e. cc;
  }
  Run-IsConsistent j (opens {i = i} qd run) = do_socket-IsConsistent qd i (Run-IsConsistent i run)
  Run-IsConsistent j (binds {i = i} qd addr run) =
      bind-IsConsistent qd addr i (Run-IsConsistent i run)
  Run-IsConsistent j (listens {i = i} qd backlog nonce run) =
      listen-IsConsistent qd backlog nonce i (Run-IsConsistent i run)
  Run-IsConsistent j (connects {i = i} qd remote run) =
      connect-IsConsistent t env qd remote i (Run-IsConsistent i run)
  Run-IsConsistent j (accepts {i = i} qd new_qd run e) =
      Holds-some (λ x. IsConsistent (x.1)) (poll_accept t env qd new_qd i) _
        (poll_accept-IsConsistent t env qd new_qd i (Run-IsConsistent i run)) e
  Run-IsConsistent j (pops {i = i} qd run e) =
      Holds-some (λ x. IsConsistent (x.1)) (poll_recv t env qd i) _
        (poll_recv-IsConsistent t env qd i (Run-IsConsistent i run)) e
  Run-IsConsistent j (pushes {i = i} qd buf run e) =
      Holds-some (λ x. IsConsistent (x.1)) (send t env qd buf i) _
        (send-IsConsistent t env qd buf i (Run-IsConsistent i run)) e
  Run-IsConsistent j (closes {i = i} qd run e) =
      Holds-some (λ x. IsConsistent (x.1)) (do_close t env qd i) _
        (do_close-IsConsistent t env qd i (Run-IsConsistent i run)) e
  Run-IsConsistent j (receives {i = i} ip buf run e) =
      Holds-some (λ x. IsConsistent (x.1)) (receive t env ip buf i) _
        (receive-IsConsistent t env ip buf i (Run-IsConsistent i run)) e
  Run-IsConsistent j (hears {i = i} ip buf run e) =
      Holds-some (λ x. IsConsistent (x.1)) (receive_tcpmig t env ip buf i) _
        (receive_tcpmig-IsConsistent t env ip buf i (Run-IsConsistent i run)) e
  Run-IsConsistent j (initiates {i = i} qd run e) =
      Holds-some (λ x. IsConsistent (x.1)) (initiate_migration_by_qd t env qd i) _
        (initiate_by_qd-IsConsistent t env qd i (Run-IsConsistent i run)) e
  Run-IsConsistent j (sends_away {i = i} qd run e) =
      Holds-some IsConsistent (migrate_out_and_send qd i) j
        (migrate_out_and_send-IsConsistent qd i (Run-IsConsistent i run)) e

  -- Any connection of a server can migrate out. For a peer after any sequence of calls, packets and
  -- messages, but without a connection that it opened itself, and with every MSS below 2 ^ 32:
  -- migrating out an established socket does not panic. It yields the state of the connection that
  -- the socket's addresses have, leaves the socket marked and neither a connection nor a descriptor
  -- under the addresses, and changes no other socket or connection. After that sending and
  -- receiving on the descriptor tell that the socket has migrated.
  pub Run-Left :
      (i : Inner t) (qd : QDesc) (local remote : SocketAddrV4)
      → Run t env i
      → HaveMss i
      → lookup qd i.sockets ≡ some (established local remote)
      → Gives (Left t env qd local remote i) (migrate_out_connection qd i)
  unfolding migrate_out_connection migrating_pair to_state to_sender_state send send_key poll_recv
      recv_key key_or recv_fail send_fail
  Run-Left i qd local remote run mss e =
      let h = Run-IsConsistent i run in
      let (c, there) = h.held qd local remote e in
      let small = mss.small (local, remote) c there in
      (
        (
          State.new (state_of c.block),
          record (put_socket qd (migrated_out local remote) i) {
            qds = remove (local, remote) i.qds;
            established = remove (local, remote) i.established;
          },
        ),
        rw (e, h.known qd local remote e, there, lt→ltb c.block.sender.mss (2 ^ 32) small),
        record {
          connection = c;
          was_there = there;
          state = refl;
          socket = lookup-insert qd (migrated_out local remote) i.sockets;
          no_descriptor = lookup-remove (local, remote) i.qds;
          no_connection = lookup-remove (local, remote) i.established;
          other_sockets = λ qd' n. lookup-insert_ne qd qd' (migrated_out local remote) i.sockets n;
          other_connections = λ key n. lookup-remove_ne (local, remote) key i.established n;
          sends = λ buf. rw (lookup-insert qd (migrated_out local remote) i.sockets);
          receives = rw (lookup-insert qd (migrated_out local remote) i.sockets);
        },
      )
