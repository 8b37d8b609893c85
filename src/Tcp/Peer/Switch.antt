-- ===== src/Tcp/Peer/Switch.antt =====
-- `receive` in inetstack/protocols/tcp/peer.rs as it is built for the switch, which forwards between
-- clients and the servers behind it.
use capybara_artifact.Base.{
  ℕ, ◌+◌, ◌%◌, ◌==◌, ◌≡◌, ◌≢◌, refl, sym, ap, ◌∙◌, if_true, Bool, true, false, not, ◌&&◌,
  if◌then◌else◌, Option, some, none, List, ◌>>=◌, get_elem?, Result, ok, err, Holds, Holds-bind,
  Holds-if, Holds-some,
}
use capybara_artifact.Net.{Ipv4Addr, SocketAddrV4}
use capybara_artifact.Net.Map.{HashMap, addr_key, lookup, insert, lookup-insert, lookup-insert_ne}
use capybara_artifact.State.{Buffer}
use capybara_artifact.Mig.Header.{Ipv4Header}
use capybara_artifact.Mig.Segment.{MacAddress, Ethernet2Header}
use capybara_artifact.Tcp.Header.{TcpHeader, TcpFail}
use capybara_artifact.Tcp.Header.Parse.{parse}

-- `be_idx` is a static variable of the code.
pub record Switch : Type 0 where
  pub backend_servers : List SocketAddrV4
  pub migration_directory : HashMap SocketAddrV4 SocketAddrV4
  pub be_idx : ℕ
  pub num_backends : ℕ

pub record SwitchEnv : Type 0 where
  pub local_link_addr : MacAddress
  pub local_ipv4_addr : Ipv4Addr
  pub rx_checksum_offload : Bool
  pub try_query : Ipv4Addr → Option MacAddress

pub record Frame : Type 0 where
  pub ethernet2_hdr : Ethernet2Header
  pub ipv4_hdr : Ipv4Header
  pub tcp_hdr : TcpHeader
  pub payload : Buffer

abbrev pub src_of : Frame → SocketAddrV4
src_of f = record { ip = f.ipv4_hdr.src_addr; port = f.tcp_hdr.src_port }

abbrev pub dst_of : Frame → SocketAddrV4
dst_of f = record { ip = f.ipv4_hdr.dst_addr; port = f.tcp_hdr.dst_port }

abbrev pub send_to : SocketAddrV4 → MacAddress → Frame → Frame
send_to to mac f = record f {
  ethernet2_hdr = record (f.ethernet2_hdr) { dst_addr = mac };
  ipv4_hdr = record (f.ipv4_hdr) { dst_addr = to.ip };
  tcp_hdr = record (f.tcp_hdr) { dst_port = to.port };
}

abbrev pub unassigned : Option SocketAddrV4 → Option (Unit {0})
unassigned none = some tt
unassigned (some b) = none

unassigned-none : (o : Option SocketAddrV4) (u : Unit {0}) → unassigned o ≡ some u → o ≡ none
unassigned-none none u e = refl
unassigned-none (some b) u e = cc

-- The remainder by the number of servers; `none` is the division by zero.
abbrev pub next_index : ℕ → ℕ → Option ℕ
next_index i n = if n == 0 then none else some ((i + 1) % n)

module _ (env : SwitchEnv) where
  open env use {local_link_addr, local_ipv4_addr, rx_checksum_offload, try_query}

  abbrev pub send_from_here : Frame → Frame
  send_from_here f = record f {
    ethernet2_hdr = record (f.ethernet2_hdr) { src_addr = local_link_addr };
    ipv4_hdr = record (f.ipv4_hdr) { src_addr = local_ipv4_addr };
    tcp_hdr = record (f.tcp_hdr) { src_port = 10000 };
  }

  -- A new client is assigned to the next server. `none` is a panic, here and below.
  unfoldable pub assign : Frame → Switch → Option (Switch × Frame)
  assign f s = do
    server ← get_elem? s.backend_servers s.be_idx
    mac ← try_query server.ip
    new ← unassigned (lookup (src_of f) s.migration_directory)
    next ← next_index s.be_idx s.num_backends
    some (
      record s {
        migration_directory = insert (src_of f) server s.migration_directory;
        be_idx = next;
      },
      send_to server mac f,
    )

  unfoldable pub relay : Frame → Option SocketAddrV4 → Option SocketAddrV4 → Option Frame
  relay f (some target) none = do mac ← try_query target.ip; some (send_to target mac f)
  relay f none (some client) = some (send_from_here f)
  relay f (some target) (some client) = none
  relay f none none = none

  unfoldable pub forward : Frame → Switch → Option (Switch × Frame)
  unfolding assign relay
  forward f s = if f.tcp_hdr.syn && not f.tcp_hdr.ack then assign f s else (do
    f' ← relay f (lookup (src_of f) s.migration_directory) (lookup (dst_of f) s.migration_directory)
    some (s, f'))

  abbrev pub Forwarded : Type 0
  Forwarded = Result TcpFail Frame × Switch

  forward_parsed :
      Ethernet2Header → Ipv4Header → Switch → Result TcpFail (TcpHeader × Buffer) → Option Forwarded
  unfolding forward
  forward_parsed eth ip s (err e) = some (err e, s)
  forward_parsed eth ip s (ok (h, buf)) = do
    (s', f) ← forward (record { ethernet2_hdr = eth; ipv4_hdr = ip; tcp_hdr = h; payload = buf }) s
    some (ok f, s')

  -- The error, or what is transmitted, and the switch.
  unfoldable pub receive : Ethernet2Header → Ipv4Header → Buffer → Switch → Option Forwarded
  unfolding forward_parsed
  receive eth ip buf s = do
    parsed ← parse ip buf rx_checksum_offload
    forward_parsed eth ip s parsed

  -- Any sequence of packets that arrive.
  pub data Run : Switch → Switch → Type 0 where
    stays : {s : Switch} → Run s s
    gets :
        {s s' s'' : Switch} {r : Result TcpFail Frame} (eth : Ethernet2Header) (ip : Ipv4Header)
        (buf : Buffer)
        → Run s s'
        → receive eth ip buf s' ≡ some (r, s'')
        → Run s s''

  module _ (client server : SocketAddrV4) where
    abbrev Assigned : Switch → Type 0
    Assigned s = lookup client s.migration_directory ≡ some server

    assign-Assigned :
        (f : Frame) (s : Switch) → Assigned s → Holds (λ x. Assigned (x.0)) (assign f s)
    unfolding assign
    assign-Assigned f s h = Holds-bind _ (get_elem? s.backend_servers s.be_idx) _ (λ b e.
        Holds-bind _ (try_query b.ip) _ (λ mac e1.
          Holds-bind _ (unassigned (lookup (src_of f) s.migration_directory)) _ (λ u e2.
            Holds-bind _ (next_index s.be_idx s.num_backends) _ (λ n e3.
              let free = unassigned-none (lookup (src_of f) s.migration_directory) u e2 in
              let other : src_of f ≢ client = λ (q : src_of f ≡ client).
                (let z : none ≡ some server =
                    sym free ∙ (ap (λ k. lookup k s.migration_directory) q ∙ h) in
                  cc) in
              lookup-insert_ne (src_of f) client b s.migration_directory other ∙ h))))

    forward-Assigned :
        (f : Frame) (s : Switch) → Assigned s → Holds (λ x. Assigned (x.0)) (forward f s)
    unfolding forward
    forward-Assigned f s h =
        Holds-if _ (f.tcp_hdr.syn && not f.tcp_hdr.ack) _ _ (assign-Assigned f s h) (
          Holds-bind _
            (relay f (lookup (src_of f) s.migration_directory)
              (lookup (dst_of f) s.migration_directory))
            _ (λ f' e. h))

    forward_parsed-Assigned :
        (eth : Ethernet2Header) (ip : Ipv4Header) (s : Switch)
        (r : Result TcpFail (TcpHeader × Buffer))
        → Assigned s
        → Holds (λ x. Assigned (x.1)) (forward_parsed eth ip s r)
    unfolding forward_parsed
    forward_parsed-Assigned eth ip s (err e) h = h
    forward_parsed-Assigned eth ip s (ok (hdr, buf)) h =
        let f : Frame = record {
          ethernet2_hdr = eth;
          ipv4_hdr = ip;
          tcp_hdr = hdr;
          payload = buf;
        } in
        Holds-bind _ (forward f s) _
          (λ x e. Holds-some (λ y. Assigned (y.0)) (forward f s) x (forward-Assigned f s h) e)

    Run-Assigned : (s s' : Switch) → Run s s' → Assigned s → Assigned s'
    unfolding receive
    Run-Assigned s s' stays h = h
    Run-Assigned s s'' (gets {s' = s'} eth ip buf run e) h =
        Holds-some (λ x. Assigned (x.1)) (receive eth ip buf s') _
          (Holds-bind _ (parse ip buf rx_checksum_offload) _
            (λ r e'. forward_parsed-Assigned eth ip s' r (Run-Assigned s s' run h)))
          e

  -- Where a client goes, and the hardware address there.
  abbrev GoesTo : SocketAddrV4 → Switch × Frame → Type 0
  GoesTo client (s, g) =
      (lookup client s.migration_directory ≡ some (dst_of g))
      × (try_query g.ipv4_hdr.dst_addr ≡ some g.ethernet2_hdr.dst_addr)

  assign-GoesTo : (f : Frame) (s : Switch) → Holds (GoesTo (src_of f)) (assign f s)
  unfolding assign
  assign-GoesTo f s = Holds-bind _ (get_elem? s.backend_servers s.be_idx) _ (λ b e.
      Holds-bind _ (try_query b.ip) _ (λ mac e1.
        Holds-bind _ (unassigned (lookup (src_of f) s.migration_directory)) _ (λ u e2.
          Holds-bind _ (next_index s.be_idx s.num_backends) _
            (λ n e3. (lookup-insert (src_of f) b s.migration_directory, e1)))))

  -- The switch keeps a client with its server. Where the SYN of a client was forwarded as `g`, and
  -- any packets have arrived since: another packet of the client that is no SYN, to an address that
  -- is not a client's, goes to the addresses that `g` went to; and a packet to the client, from an
  -- address that is not a client's, goes on to it from the switch's own addresses. Neither changes
  -- the switch.
  pub Run-forward :
      (before after now : Switch) (syn g to from : Frame)
      → (syn.tcp_hdr.syn && not syn.tcp_hdr.ack) ≡ true
      → forward syn before ≡ some (after, g)
      → Run after now
      → (to.tcp_hdr.syn && not to.tcp_hdr.ack) ≡ false
      → src_of to ≡ src_of syn
      → lookup (dst_of to) now.migration_directory ≡ none
      → (from.tcp_hdr.syn && not from.tcp_hdr.ack) ≡ false
      → dst_of from ≡ src_of syn
      → lookup (src_of from) now.migration_directory ≡ none
      → (forward to now ≡ some (now, send_to (dst_of g) g.ethernet2_hdr.dst_addr to))
        × (forward from now ≡ some (now, send_from_here from))
  unfolding forward relay
  Run-forward before after now syn g to from is_syn forwards run to_plain to_src to_dst from_plain
        from_dst from_src =
      let assigns : assign syn before ≡ some (after, g) =
        sym (if_true (syn.tcp_hdr.syn && not syn.tcp_hdr.ack) (assign syn before) _ is_syn)
        ∙ forwards in
      let (entry, mac) =
        Holds-some (GoesTo (src_of syn)) (assign syn before) (after, g) (assign-GoesTo syn before)
          assigns in
      let still = Run-Assigned (src_of syn) (dst_of g) after now run entry in
      (rw (to_plain, to_dst, to_src, still, mac), rw (from_plain, from_src, from_dst, still))
