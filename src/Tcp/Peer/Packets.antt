-- ===== src/Tcp/Peer/Packets.antt =====
-- The packets that arrive in inetstack/protocols/tcp/peer.rs: `receive`, without the switch build, and
-- `send_rst`.
use capybara_artifact.Base.{
  ℕ, ◌==◌, Bool, true, ◌&&◌, ◌||◌, leb, if◌then◌else◌, Option, some, none, [], ◌∷◌, ◌++◌, ◌>>=◌,
  Result, ok, err,
}
use capybara_artifact.Net.{Ipv4Addr, SocketAddrV4}
use capybara_artifact.Net.Map.{addr_key, pair_key, lookup, insert}
use capybara_artifact.State.{Buffer}
use capybara_artifact.Mig.Header.{Ipv4Header}
use capybara_artifact.Mig.Peer.{TcpMigPeer, Packet, try_buffer_packet}
use capybara_artifact.Tcp.Header.{TcpHeader, TcpFail}
use capybara_artifact.Tcp.Header as Header
use capybara_artifact.Tcp.Header.Parse.{parse}
use capybara_artifact.Tcp.Connection.Defs.{Timing, Connection}
use capybara_artifact.Tcp.Connection.Receive as Receive
use capybara_artifact.Tcp.Opening.{OpenFail}
use capybara_artifact.Tcp.Opening.Active as Active
use capybara_artifact.Tcp.Opening.Active.{ActiveOpenSocket}
use capybara_artifact.Tcp.Opening.Passive as Passive
use capybara_artifact.Tcp.Opening.Passive.{PassiveSocket}
use capybara_artifact.Tcp.Peer.{
  PeerFail, not_in_arp_cache, invalid_address, opening, parsing, Env, Pair, Inner, put_passive,
}
use capybara_artifact.Tcp.Peer.Calls.{link_of, put_connection}
use capybara_artifact.Tcp.Peer.Data.{Called}

-- The standard library's tests for a broadcast, a multicast and the unspecified address.
abbrev pub no_peer : Ipv4Addr → Bool
no_peer a =
    (a.o0 == 255 && a.o1 == 255 && a.o2 == 255 && a.o3 == 255)
    || (leb 224 a.o0 && leb a.o0 239)
    || (a.o0 == 0 && a.o1 == 0 && a.o2 == 0 && a.o3 == 0)

module _ (t : Timing) (env : Env) where
  open env use {config, rx_checksum_offload, crc, try_query, now}

  abbrev opening_error : Option OpenFail → Option PeerFail
  opening_error none = none
  opening_error (some e) = some (opening e)

  unfoldable pub send_rst_to :
      SocketAddrV4 → SocketAddrV4 → Inner t → Option ℕ → Option PeerFail × Inner t
  unfolding Header.new
  send_rst_to local remote i none = (some not_in_arp_cache, i)
  send_rst_to local remote i (some addr) = (
    none,
    record i {
      sent =
          i.sent
          ++ (record {
            remote_link_addr = addr;
            tcp_hdr = record (Header.new local.port remote.port) { rst = true };
            body = none;
          }
              ∷ []);
    },
  )

  unfoldable pub send_rst : SocketAddrV4 → SocketAddrV4 → Inner t → Option PeerFail × Inner t
  unfolding send_rst_to
  send_rst local remote i = send_rst_to local remote i (try_query remote.ip)

  unfoldable pub to_passive :
      Pair → Ipv4Header → TcpHeader → Inner t → Option PassiveSocket → Called t env
  unfolding Passive.receive send_rst
  to_passive (local, remote) ip h i none = some (send_rst local remote i)
  to_passive (local, remote) ip h i (some p) = do
    (e, (p', tasks)) ← Passive.receive config crc ip h p
    some (opening_error e, record (put_passive local p' i) { tasks = i.tasks ++ tasks })

  -- Packets of a connection that is about to migrate in are buffered.
  unfoldable pub to_buffer : Pair → Ipv4Header → Inner t → Result Packet TcpMigPeer → Called t env
  unfolding to_passive
  to_buffer key ip i (ok tcpmig) = some (none, record i { tcpmig = tcpmig })
  to_buffer (local, remote) ip i (err (h, buf)) =
      to_passive (local, remote) ip h i (lookup local i.passive)

  unfoldable pub to_connecting :
      Pair → Ipv4Header → TcpHeader → Buffer → Inner t → Option ActiveOpenSocket → Called t env
  unfolding to_buffer try_buffer_packet Active.receive
  to_connecting (local, remote) ip h buf i none =
      to_buffer (local, remote) ip i (try_buffer_packet i.tcpmig remote h buf)
  to_connecting (local, remote) ip h buf i (some a) = do
    (a', segments) ← Active.receive config (try_query remote.ip) h a
    some (
      none,
      record i { connecting = insert (local, remote) a' i.connecting; sent = i.sent ++ segments },
    )

  unfoldable pub to_established :
      Pair → Ipv4Header → TcpHeader → Buffer → Inner t → Option (Connection t) → Called t env
  unfolding to_connecting
  to_established key ip h buf i none = to_connecting key ip h buf i (lookup key i.connecting)
  to_established key ip h buf i (some c) = do
    c' ← Receive.receive t (link_of t env c) now h buf c
    some (none, put_connection t env key c' i)

  -- A packet between two addresses: to the connection, to the one that is being opened, into the
  -- buffer of a migration, to the listening socket, or answered with a RST.
  unfoldable pub deliver : Pair → Ipv4Header → TcpHeader → Buffer → Inner t → Called t env
  unfolding to_established
  deliver (local, remote) ip h buf i =
      if no_peer remote.ip
      then some (some invalid_address, i)
      else to_established (local, remote) ip h buf i (lookup (local, remote) i.established)

  unfoldable pub on_parsed :
      Ipv4Header → Inner t → Result TcpFail (TcpHeader × Buffer) → Called t env
  unfolding deliver
  on_parsed ip i (err e) = some (some (parsing e), i)
  on_parsed ip i (ok (h, buf)) =
      deliver
        (
          record { ip = ip.dst_addr; port = h.dst_port },
          record { ip = ip.src_addr; port = h.src_port },
        )
        ip h buf i

  unfoldable pub receive : Ipv4Header → Buffer → Inner t → Called t env
  unfolding on_parsed parse
  receive ip buf i = do parsed ← parse ip buf rx_checksum_offload; on_parsed ip i parsed
