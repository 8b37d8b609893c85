-- ===== src/Tcp/Peer/Tables/Traffic.antt =====
-- Data, packets and closing keep the tables consistent.
use capybara_artifact.Base.{ℕ, Option, some, none, Result, ok, err, Holds-bind, Holds-if}
use capybara_artifact.Net.{SocketAddrV4}
use capybara_artifact.Net.Map.{number_key, pair_key, addr_key, lookup}
use capybara_artifact.State.{Buffer}
use capybara_artifact.Mig.Header.{Ipv4Header}
use capybara_artifact.Mig.Active.{QDesc}
use capybara_artifact.Mig.Peer.{TcpMigPeer, Packet, try_buffer_packet}
use capybara_artifact.Tcp.Header.{TcpHeader, TcpFail}
use capybara_artifact.Tcp.Header.Parse.{parse}
use capybara_artifact.Tcp.ControlBlock.{ControlBlock}
use capybara_artifact.Tcp.ControlBlock as ControlBlock
use capybara_artifact.Tcp.Connection.Defs as Defs
use capybara_artifact.Tcp.Connection.Defs.{Timing, Connection}
use capybara_artifact.Tcp.Connection.Receive as Receive
use capybara_artifact.Tcp.Opening.Active as Active
use capybara_artifact.Tcp.Opening.Active.{ActiveOpenSocket}
use capybara_artifact.Tcp.Opening.Passive as Passive
use capybara_artifact.Tcp.Opening.Passive.{PassiveSocket, push_migrated_in}
use capybara_artifact.Tcp.Peer.{PeerFail, Env, Pair, Inner}
use capybara_artifact.Tcp.Peer.Calls.{link_of, put_connection}
use capybara_artifact.Tcp.Peer.Data.{
  key_or, recv_fail, send_fail, close_fail, recv_on, recv_at, recv_key, poll_recv, send_at,
  send_key, send, close_at, close_key, do_close,
}
use capybara_artifact.Tcp.Peer.Packets.{
  no_peer, send_rst_to, send_rst, to_passive, to_buffer, to_connecting, to_established, deliver,
  on_parsed, receive,
}
use capybara_artifact.Tcp.Peer.Tables.{IsConsistent, insert-Present, remove_socket-IsConsistent}
use capybara_artifact.Tcp.Peer.Tables.Sockets.{StaysConsistent}

module _ (t : Timing) (env : Env) where
  open env use {config, rx_checksum_offload, crc, try_query, now}

  put_connection-IsConsistent :
      (key : Pair) (c : Connection t) (i : Inner t)
      → IsConsistent i
      → IsConsistent (put_connection t env key c i)
  put_connection-IsConsistent key c i h = record {
    known = h.known;
    held = λ qd local remote e. insert-Present key (local, remote) c i (h.held qd local remote e);
  }

  recv_on-IsConsistent :
      (key : Pair) (i : Inner t) (c : Connection t) (o : Option (Buffer × ControlBlock))
      → IsConsistent i
      → StaysConsistent t env (recv_on t env key i c o)
  unfolding recv_on
  recv_on-IsConsistent key i c none h = h
  recv_on-IsConsistent key i c (some (buf, block)) h =
      put_connection-IsConsistent key (record c { block = block }) i h

  recv_at-IsConsistent :
      (key : Pair) (i : Inner t) (o : Option (Connection t))
      → IsConsistent i
      → StaysConsistent t env (recv_at t env key i o)
  unfolding recv_at
  recv_at-IsConsistent key i none h = h
  recv_at-IsConsistent key i (some c) h =
      recv_on-IsConsistent key i c (ControlBlock.poll_recv c.block) h

  recv_key-IsConsistent :
      (i : Inner t) (r : Result PeerFail Pair)
      → IsConsistent i
      → StaysConsistent t env (recv_key t env i r)
  unfolding recv_key
  recv_key-IsConsistent i (err e) h = h
  recv_key-IsConsistent i (ok key) h = recv_at-IsConsistent key i (lookup key i.established) h

  pub poll_recv-IsConsistent :
      (qd : QDesc) (i : Inner t) → IsConsistent i → StaysConsistent t env (poll_recv t env qd i)
  unfolding poll_recv
  poll_recv-IsConsistent qd i h = recv_key-IsConsistent i (key_or recv_fail (lookup qd i.sockets)) h

  send_at-IsConsistent :
      (buf : Buffer) (key : Pair) (i : Inner t) (o : Option (Connection t))
      → IsConsistent i
      → StaysConsistent t env (send_at t env buf key i o)
  unfolding send_at
  send_at-IsConsistent buf key i none h = h
  send_at-IsConsistent buf key i (some c) h =
      Holds-bind _ (Defs.send t (link_of t env c) now buf c) _
        (λ x e. put_connection-IsConsistent key (x.1) i h)

  send_key-IsConsistent :
      (buf : Buffer) (i : Inner t) (r : Result PeerFail Pair)
      → IsConsistent i
      → StaysConsistent t env (send_key t env buf i r)
  unfolding send_key
  send_key-IsConsistent buf i (err e) h = h
  send_key-IsConsistent buf i (ok key) h =
      send_at-IsConsistent buf key i (lookup key i.established) h

  pub send-IsConsistent :
      (qd : QDesc) (buf : Buffer) (i : Inner t)
      → IsConsistent i
      → StaysConsistent t env (send t env qd buf i)
  unfolding send
  send-IsConsistent qd buf i h =
      send_key-IsConsistent buf i (key_or send_fail (lookup qd i.sockets)) h

  close_at-IsConsistent :
      (key : Pair) (i : Inner t) (o : Option (Connection t))
      → IsConsistent i
      → StaysConsistent t env (close_at t env key i o)
  unfolding close_at
  close_at-IsConsistent key i none h = h
  close_at-IsConsistent key i (some c) h =
      Holds-bind _ (Defs.close t (link_of t env c) now c) _
        (λ c' e. put_connection-IsConsistent key c' i h)

  close_key-IsConsistent :
      (i : Inner t) (r : Result PeerFail Pair)
      → IsConsistent i
      → StaysConsistent t env (close_key t env i r)
  unfolding close_key
  close_key-IsConsistent i (err e) h = h
  close_key-IsConsistent i (ok key) h = close_at-IsConsistent key i (lookup key i.established) h

  pub do_close-IsConsistent :
      (qd : QDesc) (i : Inner t) → IsConsistent i → StaysConsistent t env (do_close t env qd i)
  unfolding do_close
  do_close-IsConsistent qd i h =
      close_key-IsConsistent _ (key_or close_fail (lookup qd i.sockets))
        (remove_socket-IsConsistent qd i h)

  send_rst_to-IsConsistent :
      (local remote : SocketAddrV4) (i : Inner t) (o : Option ℕ)
      → IsConsistent i
      → IsConsistent ((send_rst_to t env local remote i o).1)
  unfolding send_rst_to
  send_rst_to-IsConsistent local remote i none h = h
  send_rst_to-IsConsistent local remote i (some addr) h = record { known = h.known; held = h.held }

  to_passive-IsConsistent :
      (key : Pair) (ip : Ipv4Header) (hdr : TcpHeader) (i : Inner t) (o : Option PassiveSocket)
      → IsConsistent i
      → StaysConsistent t env (to_passive t env key ip hdr i o)
  unfolding to_passive send_rst
  to_passive-IsConsistent (local, remote) ip hdr i none h =
      send_rst_to-IsConsistent local remote i (try_query remote.ip) h
  to_passive-IsConsistent (local, remote) ip hdr i (some p) h =
      Holds-bind _ (Passive.receive config crc ip hdr p) _
        (λ x e. record { known = h.known; held = h.held })

  to_buffer-IsConsistent :
      (key : Pair) (ip : Ipv4Header) (i : Inner t) (r : Result Packet TcpMigPeer)
      → IsConsistent i
      → StaysConsistent t env (to_buffer t env key ip i r)
  unfolding to_buffer
  to_buffer-IsConsistent key ip i (ok tcpmig) h = record { known = h.known; held = h.held }
  to_buffer-IsConsistent (local, remote) ip i (err (hdr, buf)) h =
      to_passive-IsConsistent (local, remote) ip hdr i (lookup local i.passive) h

  to_connecting-IsConsistent :
      (key : Pair) (ip : Ipv4Header) (hdr : TcpHeader) (buf : Buffer) (i : Inner t)
      (o : Option ActiveOpenSocket)
      → IsConsistent i
      → StaysConsistent t env (to_connecting t env key ip hdr buf i o)
  unfolding to_connecting
  to_connecting-IsConsistent (local, remote) ip hdr buf i none h =
      to_buffer-IsConsistent (local, remote) ip i (try_buffer_packet i.tcpmig remote hdr buf) h
  to_connecting-IsConsistent (local, remote) ip hdr buf i (some a) h =
      Holds-bind _ (Active.receive config (try_query remote.ip) hdr a) _
        (λ x e. record { known = h.known; held = h.held })

  to_established-IsConsistent :
      (key : Pair) (ip : Ipv4Header) (hdr : TcpHeader) (buf : Buffer) (i : Inner t)
      (o : Option (Connection t))
      → IsConsistent i
      → StaysConsistent t env (to_established t env key ip hdr buf i o)
  unfolding to_established
  to_established-IsConsistent key ip hdr buf i none h =
      to_connecting-IsConsistent key ip hdr buf i (lookup key i.connecting) h
  to_established-IsConsistent key ip hdr buf i (some c) h =
      Holds-bind _ (Receive.receive t (link_of t env c) now hdr buf c) _
        (λ c' e. put_connection-IsConsistent key c' i h)

  deliver-IsConsistent :
      (key : Pair) (ip : Ipv4Header) (hdr : TcpHeader) (buf : Buffer) (i : Inner t)
      → IsConsistent i
      → StaysConsistent t env (deliver t env key ip hdr buf i)
  unfolding deliver
  deliver-IsConsistent (local, remote) ip hdr buf i h = Holds-if _ (no_peer remote.ip) _ _ h (
      to_established-IsConsistent (local, remote) ip hdr buf i
        (lookup (local, remote) i.established) h)

  on_parsed-IsConsistent :
      (ip : Ipv4Header) (i : Inner t) (r : Result TcpFail (TcpHeader × Buffer))
      → IsConsistent i
      → StaysConsistent t env (on_parsed t env ip i r)
  unfolding on_parsed
  on_parsed-IsConsistent ip i (err e) h = h
  on_parsed-IsConsistent ip i (ok (hdr, buf)) h =
      deliver-IsConsistent
        (
          record { ip = ip.dst_addr; port = hdr.dst_port },
          record { ip = ip.src_addr; port = hdr.src_port },
        )
        ip hdr buf i h

  pub receive-IsConsistent :
      (ip : Ipv4Header) (buf : Buffer) (i : Inner t)
      → IsConsistent i
      → StaysConsistent t env (receive t env ip buf i)
  unfolding receive
  receive-IsConsistent ip buf i h =
      Holds-bind _ (parse ip buf rx_checksum_offload) _ (λ r e. on_parsed-IsConsistent ip i r h)
