-- ===== src/Tcp/Peer/Calls.antt =====
-- The calls on sockets in inetstack/protocols/tcp/peer.rs: accepting, connecting, receiving, sending
-- and closing.
use capybara_artifact.Base.{ℕ, Option, some, none, List, [], ◌∷◌, ◌>>=◌, Result, ok, err}
use capybara_artifact.Net.{SocketAddrV4}
use capybara_artifact.Net.Map.{addr_key, pair_key, number_key, lookup, insert, remove}
use capybara_artifact.Net.Ports.{EphemeralPorts, alloc_any}
use capybara_artifact.Mig.Active.{QDesc}
use capybara_artifact.Mig.Peer.{Packet, close_active_migration}
use capybara_artifact.Tcp.ControlBlock.{ControlBlock}
use capybara_artifact.Tcp.Connection.Defs.{Timing, Connection}
use capybara_artifact.Tcp.Connection.Receive as Receive
use capybara_artifact.Tcp.Opening.{OpenFail, generate}
use capybara_artifact.Tcp.Opening.Active as Active
use capybara_artifact.Tcp.Opening.Active.{ActiveOpenSocket, poll_result}
use capybara_artifact.Tcp.Opening.Passive as Passive
use capybara_artifact.Tcp.Opening.Passive.{PassiveSocket}
use capybara_artifact.Tcp.Peer.{
  Socket, inactive, listening, connecting, established, migrated_out, PeerFail, no_free_port,
  invalid_descriptor, bad_descriptor, is_connecting, is_connected, not_listening, not_connecting,
  opening, Env, Pair, Inner, put_socket, put_passive,
}

abbrev pub buffered : Option (List Packet) → List Packet
buffered none = []
buffered (some ps) = ps

-- The checks that the descriptor is free or was migrated out, and that the pair is new.
abbrev pub may_take : Option Socket → Option (Unit {0})
may_take none = some tt
may_take (some (migrated_out local remote)) = some tt
may_take (some (established local remote)) = none
may_take (some (inactive local)) = none
may_take (some (listening local)) = none
may_take (some (connecting local remote)) = none

abbrev pub absent : {A : Type 0} → Option A → Option (Unit {0})
absent none = some tt
absent (some a) = none

-- The error after the entry has been replaced.
abbrev was_connecting : Option ActiveOpenSocket → Option PeerFail
was_connecting none = none
was_connecting (some a) = some is_connecting

module _ (t : Timing) (env : Env) where
  open t use {RtoCalculator, rto, rto_start, cc_start}
  open env use {config, ack_delay_timeout, local_ipv4_addr, crc, try_query, now}

  -- `EstablishedSocket::new`, with the timers and the congestion control of a new control block.
  unfoldable pub start : ControlBlock → Connection t
  start cb = record {
    block = cb;
    ack_delay_timeout = ack_delay_timeout;
    ack_deadline = none;
    retransmit_deadline = none;
    rto_calculator = rto_start;
    cc = cc_start cb.sender.mss cb.sender.send_unacked;
    sent = [];
  }

  -- What the ARP cache has for the peer.
  abbrev pub link_of : Connection t → Option ℕ
  link_of c = try_query c.block.remote.ip

  abbrev pub put_connection : Pair → Connection t → Inner t → Inner t
  put_connection key c i = record i { established = insert key c i.established }

  -- The packets that were buffered for a connection that migrated in.
  unfoldable pub receive_all : List Packet → Connection t → Option (Connection t)
  receive_all [] c = some c
  receive_all ((header, buf) ∷ ps) c = do
    c' ← Receive.receive t (link_of c) now header buf c
    receive_all ps c'

  -- The outer `none` is a panic, the inner one `Poll::Pending`.
  abbrev pub Polled : Type 0 → Type 0
  Polled A = Option (Option (Result PeerFail A) × Inner t)

  unfoldable pub accepted : SocketAddrV4 → QDesc → ControlBlock → Inner t → Polled QDesc
  unfolding start receive_all close_active_migration
  accepted local new_qd cb i =
      let remote = cb.remote in
      let (packets, tcpmig) = close_active_migration i.tcpmig remote in
      (do
        c ← receive_all (buffered packets) (start cb)
        free ← may_take (lookup new_qd i.sockets)
        unknown ← absent (lookup (local, remote) i.qds)
        new ← absent (lookup (local, remote) i.established)
        some (
          some (ok new_qd),
          record i {
            sockets = insert new_qd (established local remote) i.sockets;
            qds = insert (local, remote) new_qd i.qds;
            established = insert (local, remote) c i.established;
            tcpmig = tcpmig;
          },
        ))

  unfoldable pub on_polled :
      SocketAddrV4 → QDesc → Inner t → Option (Result OpenFail ControlBlock) → Polled QDesc
  unfolding accepted
  on_polled local new_qd i none = some (none, i)
  on_polled local new_qd i (some (err e)) = some (some (err (opening e)), i)
  on_polled local new_qd i (some (ok cb)) = accepted local new_qd cb i

  unfoldable pub accept_on : SocketAddrV4 → QDesc → Inner t → Polled QDesc
  unfolding on_polled Passive.poll_accept
  accept_on local new_qd i = do
    p ← lookup local i.passive
    (r, p') ← Passive.poll_accept p
    on_polled local new_qd (put_passive local p' i) r

  unfoldable pub accept_as : QDesc → Inner t → Option Socket → Polled QDesc
  unfolding accept_on
  accept_as new_qd i (some (listening local)) = accept_on local new_qd i
  accept_as new_qd i (some (inactive local)) = some (some (err not_listening), i)
  accept_as new_qd i (some (connecting local remote)) = some (some (err not_listening), i)
  accept_as new_qd i (some (established local remote)) = some (some (err not_listening), i)
  accept_as new_qd i (some (migrated_out local remote)) = some (some (err not_listening), i)
  accept_as new_qd i none = some (some (err bad_descriptor), i)

  unfoldable pub poll_accept : QDesc → QDesc → Inner t → Polled QDesc
  unfolding accept_as
  poll_accept qd new_qd i = accept_as new_qd i (lookup qd i.sockets)

  abbrev pub local_any :
      Option (ℕ × EphemeralPorts) → Inner t → Result PeerFail (SocketAddrV4 × Inner t)
  local_any none i = err no_free_port
  local_any (some (port, ports)) i =
      ok (record { ip = local_ipv4_addr; port = port }, record i { ephemeral_ports = ports })

  unfoldable pub local_for : Inner t → Option Socket → Result PeerFail (SocketAddrV4 × Inner t)
  unfolding alloc_any
  local_for i (some (inactive none)) = local_any (alloc_any i.ephemeral_ports) i
  local_for i (some (inactive (some local))) = ok (local, i)
  local_for i (some (connecting local remote)) = err is_connecting
  local_for i (some (established local remote)) = err is_connected
  local_for i (some (listening local)) = err invalid_descriptor
  local_for i (some (migrated_out local remote)) = err invalid_descriptor
  local_for i none = err invalid_descriptor

  unfoldable pub connect_from :
      QDesc
      → SocketAddrV4
      → Inner t
      → Result PeerFail (SocketAddrV4 × Inner t)
      → Option PeerFail × Inner t
  unfolding generate Active.new
  connect_from qd remote old (err e) = (some e, old)
  connect_from qd remote old (ok (local, i)) =
      let (local_isn, generator) = generate crc local remote i.isn_generator in
      (
        was_connecting (lookup (local, remote) i.connecting),
        record (put_socket qd (connecting local remote) i) {
          isn_generator = generator;
          connecting = insert (local, remote) (Active.new local_isn local remote) i.connecting;
        },
      )

  unfoldable pub connect : QDesc → SocketAddrV4 → Inner t → Option PeerFail × Inner t
  unfolding local_for connect_from
  connect qd remote i = connect_from qd remote i (local_for i (lookup qd i.sockets))

  -- A new connection in place of the one that was being opened. `qds` gets no entry.
  connected : QDesc → Pair → Inner t → Option (Result OpenFail ControlBlock) → Polled (Unit {0})
  unfolding start
  connected qd key i none = some (none, i)
  connected qd key i (some (err e)) =
      some (some (err (opening e)), record i { connecting = remove key i.connecting })
  connected qd (local, remote) i (some (ok cb)) = do
    new ← absent (lookup (local, remote) i.established)
    some (
      some (ok tt),
      record i {
        connecting = remove (local, remote) i.connecting;
        established = insert (local, remote) (start cb) i.established;
        sockets = insert qd (established local remote) i.sockets;
      },
    )

  connecting_as : QDesc → Pair → Inner t → Option ActiveOpenSocket → Polled (Unit {0})
  unfolding connected poll_result
  connecting_as qd key i none = some (some (err not_connecting), i)
  connecting_as qd key i (some a) =
      let (r, a') = poll_result a in
      connected qd key (record i { connecting = insert key a' i.connecting }) r

  finish_as : QDesc → Inner t → Option Socket → Polled (Unit {0})
  unfolding connecting_as
  finish_as qd i (some (connecting local remote)) =
      connecting_as qd (local, remote) i (lookup (local, remote) i.connecting)
  finish_as qd i (some (inactive local)) = some (some (err not_connecting), i)
  finish_as qd i (some (listening local)) = some (some (err not_connecting), i)
  finish_as qd i (some (established local remote)) = some (some (err not_connecting), i)
  finish_as qd i (some (migrated_out local remote)) = some (some (err not_connecting), i)
  finish_as qd i none = some (some (err bad_descriptor), i)

  unfoldable pub poll_connect_finished : QDesc → Inner t → Polled (Unit {0})
  unfolding finish_as
  poll_connect_finished qd i = finish_as qd i (lookup qd i.sockets)
