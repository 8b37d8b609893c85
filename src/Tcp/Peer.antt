-- ===== src/Tcp/Peer.antt =====
-- inetstack/protocols/tcp/peer.rs: the tables of sockets and connections of a server, and the opening
-- of sockets. The queue statistics are not kept.
pub mod Calls
pub mod Data
pub mod Packets
pub mod Migrating
pub mod Tables
pub mod HandOver
pub mod Switch
use capybara_artifact.Base.{
  ℕ, ◌==◌, Bool, true, false, ◌||◌, if◌then◌else◌, Option, some, none, List, [], ◌∷◌, ◌++◌, Result,
  ok, err,
}
use capybara_artifact.Net.{Ipv4Addr, SocketAddrV4, addr_eq}
use capybara_artifact.Net.Map.{HashMap, addr_key, pair_key, number_key, lookup, insert}
use capybara_artifact.Net.Ports.{EphemeralPorts, is_private, alloc_any, alloc_port, free}
use capybara_artifact.State.{Instant}
use capybara_artifact.Mig.Header.{Fail}
use capybara_artifact.Mig.Segment.{MacAddress, TcpMigSegment}
use capybara_artifact.Mig.Active.{QDesc}
use capybara_artifact.Mig.Peer.{TcpMigPeer, set_port}
use capybara_artifact.Tcp.Header.{TcpFail}
use capybara_artifact.Tcp.ControlBlock.{ControlBlock}
use capybara_artifact.Tcp.Connection.Defs.{Timing, Connection, Duration, TcpSegment, SendFail}
use capybara_artifact.Tcp.Opening.{TcpConfig, IsnGenerator, OpenFail}
use capybara_artifact.Tcp.Opening.Active.{ActiveOpenSocket}
use capybara_artifact.Tcp.Opening.Passive as Passive
use capybara_artifact.Tcp.Opening.Passive.{PassiveSocket, Handshake}

pub data Socket : Type 0 where
  inactive : Option SocketAddrV4 → Socket
  listening : SocketAddrV4 → Socket
  connecting established migrated_out : SocketAddrV4 → SocketAddrV4 → Socket

-- The messages of `Fail`, and the errors that are passed on.
pub data PeerFail : Type 0 where
  descriptor_in_use address_in_use port_not_found no_free_port already_bound : PeerFail
  invalid_descriptor bad_descriptor already_listening not_bound already_listened : PeerFail
  is_connecting is_connected not_listening in_progress is_inactive is_listening : PeerFail
  is_migrated_out not_established cannot_close not_connecting not_in_arp_cache : PeerFail
  invalid_address no_socket_listens no_socket unsupported_socket : PeerFail
  opening : OpenFail → PeerFail
  sending : SendFail → PeerFail
  parsing : TcpFail → PeerFail
  migrating : Fail → PeerFail

-- What the peer has from its surroundings: the configuration, a CRC, the ARP cache, the clock.
pub record Env : Type 0 where
  pub config : TcpConfig
  pub rx_checksum_offload : Bool
  pub ack_delay_timeout : Duration
  pub local_ipv4_addr : Ipv4Addr
  pub crc : List ℕ → ℕ
  pub try_query : Ipv4Addr → Option MacAddress
  pub now : Instant

abbrev pub Pair : Type 0
Pair = SocketAddrV4 × SocketAddrV4

-- The last three are what was sent and started so far, but for what connections send.
pub record Inner (t : Timing) : Type 0 where
  pub isn_generator : IsnGenerator
  pub ephemeral_ports : EphemeralPorts
  pub sockets : HashMap QDesc Socket
  pub qds : HashMap Pair QDesc
  pub passive : HashMap SocketAddrV4 PassiveSocket
  pub connecting : HashMap Pair ActiveOpenSocket
  pub established : HashMap Pair (Connection t)
  pub tcpmig : TcpMigPeer
  pub sent : List TcpSegment
  pub tasks : List Handshake
  pub messages : List TcpMigSegment

unfoldable pub has_local : SocketAddrV4 → Socket → Bool
has_local addr (inactive none) = false
has_local addr (inactive (some local)) = addr_eq local addr
has_local addr (listening local) = addr_eq local addr
has_local addr (connecting local remote) = addr_eq local addr
has_local addr (established local remote) = addr_eq local addr
has_local addr (migrated_out local remote) = false

unfoldable pub in_use : SocketAddrV4 → HashMap QDesc Socket → Bool
unfolding has_local
in_use addr [] = false
in_use addr ((qd, s) ∷ m) = has_local addr s || in_use addr m

abbrev named :
    SocketAddrV4 → Option EphemeralPorts → Result PeerFail (SocketAddrV4 × EphemeralPorts)
named addr none = err port_not_found
named addr (some ports) = ok (addr, ports)

abbrev any :
    SocketAddrV4 → Option (ℕ × EphemeralPorts) → Result PeerFail (SocketAddrV4 × EphemeralPorts)
any addr none = err no_free_port
any addr (some (port, ports)) = ok (record addr { port = port }, ports)

-- The address with its port, which is taken from the pool if it is ephemeral or not given.
unfoldable pub reserve :
    SocketAddrV4 → EphemeralPorts → Result PeerFail (SocketAddrV4 × EphemeralPorts)
unfolding is_private alloc_port alloc_any
reserve addr ports =
    if is_private addr.port
    then named addr (alloc_port addr.port ports)
    else if addr.port == 0
    then any addr (alloc_any ports)
    else ok (addr, ports)

-- `Inner::new`, with a random nonce and a shuffled pool of ports.
abbrev pub new : (t : Timing) → ℕ → EphemeralPorts → TcpMigPeer → Inner t
new t nonce ports tcpmig = record {
  isn_generator = record { nonce = nonce; counter = 0 };
  ephemeral_ports = ports;
  sockets = [];
  qds = [];
  passive = [];
  connecting = [];
  established = [];
  tcpmig = tcpmig;
  sent = [];
  tasks = [];
  messages = [];
}

module _ {t : Timing} where
  abbrev pub put_socket : QDesc → Socket → Inner t → Inner t
  put_socket qd s i = record i { sockets = insert qd s i.sockets }

  abbrev pub put_passive : SocketAddrV4 → PassiveSocket → Inner t → Inner t
  put_passive local p i = record i { passive = insert local p i.passive }

  open_as : QDesc → Inner t → Option Socket → Option PeerFail × Inner t
  open_as qd i (some s) = (some descriptor_in_use, i)
  open_as qd i none = (none, put_socket qd (inactive none) i)

  -- The error, if any, and the tables, here and below.
  unfoldable pub do_socket : QDesc → Inner t → Option PeerFail × Inner t
  unfolding open_as
  do_socket qd i = open_as qd i (lookup qd i.sockets)

  abbrev rollback : SocketAddrV4 → Inner t → Inner t
  rollback addr i =
      if is_private addr.port
      then record i { ephemeral_ports = free addr.port i.ephemeral_ports }
      else i

  bind_to : QDesc → SocketAddrV4 → Inner t → Option Socket → Option PeerFail × Inner t
  unfolding is_private
  bind_to qd addr i (some (inactive none)) = (none, put_socket qd (inactive (some addr)) i)
  bind_to qd addr i (some (inactive (some local))) = (some already_bound, rollback addr i)
  bind_to qd addr i (some (listening local)) = (some invalid_descriptor, rollback addr i)
  bind_to qd addr i (some (connecting local remote)) = (some invalid_descriptor, rollback addr i)
  bind_to qd addr i (some (established local remote)) = (some invalid_descriptor, rollback addr i)
  bind_to qd addr i (some (migrated_out local remote)) = (some invalid_descriptor, rollback addr i)
  bind_to qd addr i none = (some invalid_descriptor, rollback addr i)

  bind_reserved :
      QDesc → Inner t → Result PeerFail (SocketAddrV4 × EphemeralPorts) → Option PeerFail × Inner t
  unfolding bind_to
  bind_reserved qd i (err e) = (some e, i)
  bind_reserved qd i (ok (addr, ports)) =
      bind_to qd addr (record i { ephemeral_ports = ports; tcpmig = set_port addr.port i.tcpmig })
        (lookup qd i.sockets)

  unfoldable pub bind : QDesc → SocketAddrV4 → Inner t → Option PeerFail × Inner t
  unfolding in_use reserve bind_reserved
  bind qd addr i =
      if in_use addr i.sockets
      then (some address_in_use, i)
      else bind_reserved qd i (reserve addr i.ephemeral_ports)

  listen_on :
      QDesc → SocketAddrV4 → ℕ → ℕ → Inner t → Option PassiveSocket → Option PeerFail × Inner t
  unfolding Passive.new
  listen_on qd local backlog nonce i (some p) = (some already_listened, i)
  listen_on qd local backlog nonce i none = (
    none,
    put_socket qd (listening local) (put_passive local (Passive.new local backlog nonce) i),
  )

  listen_as : QDesc → ℕ → ℕ → Inner t → Option Socket → Option PeerFail × Inner t
  unfolding listen_on
  listen_as qd backlog nonce i (some (inactive (some local))) =
      listen_on qd local backlog nonce i (lookup local i.passive)
  listen_as qd backlog nonce i (some (inactive none)) = (some not_bound, i)
  listen_as qd backlog nonce i (some (listening local)) = (some already_listening, i)
  listen_as qd backlog nonce i (some (connecting local remote)) = (some is_connecting, i)
  listen_as qd backlog nonce i (some (established local remote)) = (some is_connected, i)
  listen_as qd backlog nonce i (some (migrated_out local remote)) = (some invalid_descriptor, i)
  listen_as qd backlog nonce i none = (some invalid_descriptor, i)

  -- `nonce` is a random number.
  unfoldable pub listen : QDesc → ℕ → ℕ → Inner t → Option PeerFail × Inner t
  unfolding listen_as
  listen qd backlog nonce i = listen_as qd backlog nonce i (lookup qd i.sockets)
