-- ===== src/Tcp/Opening/Handshake.antt =====
-- The three packets of a handshake between an ActiveOpenSocket and a PassiveSocket, and the two
-- control blocks that come out of it.
use capybara_artifact.Base.{
  ℕ, ◌+◌, ◌*◌, ◌%◌, ◌^◌, ◌≤◌, ◌<◌, ◌≡◌, refl, le→leb, lt→ltb, lt→leb, lt→leb, ==_refl, Option, some,
  none, List, [], ◌∷◌, ◌++◌, ◌>>=◌, ok, length, arith, Gives,
}
use capybara_artifact.Seq.{SeqNumber, add}
use capybara_artifact.Net.Map.{addr_key, lookup, insert, remove, lookup-insert}
use capybara_artifact.Mig.Header.{Ipv4Header}
use capybara_artifact.Mig.Segment.{MacAddress}
use capybara_artifact.Tcp.Header.{TcpHeader}
use capybara_artifact.Tcp.Header as Header
use capybara_artifact.Tcp.Sender as Sender
use capybara_artifact.Tcp.ControlBlock.{ControlBlock}
use capybara_artifact.Tcp.Opening.{
  TcpConfig, generate, new_block, offers, scales, checked_shl, push_offers,
}
use capybara_artifact.Tcp.Opening.Active as Active
use capybara_artifact.Tcp.Opening.Active.{
  ActiveOpenSocket, opened_block, accept_syn, ack_header, syn_header,
}
use capybara_artifact.Tcp.Opening.Passive as Passive
use capybara_artifact.Tcp.Opening.Passive.{
  PassiveSocket, Handshake, accepted_block, on_inflight, on_new, route, unless_ready, push_new,
  push_ok, inflight_for, syn_ack_header,
}

abbrev pub first : {A : Type 0} → List A → Option A
first [] = none
first (x ∷ xs) = some x

-- The addresses of the packets of a client.
abbrev pub packet_from : ActiveOpenSocket → Ipv4Header
packet_from a = record { src_addr = a.local.ip; dst_addr = a.remote.ip }

-- The SYN arrives, the SYN+ACK of the task that it starts, and the ACK that this one is answered with.
unfoldable pub handshake :
    TcpConfig
    → TcpConfig
    → (List ℕ → ℕ)
    → MacAddress
    → ActiveOpenSocket
    → PassiveSocket
    → Option (ActiveOpenSocket × PassiveSocket)
handshake client server crc addr a p = do
  (e, (p, tasks)) ← Passive.receive server crc (packet_from a) (syn_header client a) p
  task ← first tasks
  (a, segments) ← Active.receive client (some addr) (syn_ack_header server task) a
  segment ← first segments
  (e, (p, tasks)) ← Passive.receive server crc (packet_from a) segment.tcp_hdr p
  some (a, p)

-- The scaled window fits the 16 bits that it is computed in.
pub record IsTcpConfig (c : TcpConfig) : Type 0 where
  pub mss : c.advertised_mss < 2 ^ 16
  pub scale : c.window_scale ≤ 14
  pub window : c.receive_window_size * 2 ^ c.window_scale < 2 ^ 16

-- What each side expects to receive is what the other sends, and within which bounds.
pub record Agree (client server : ControlBlock) : Type 0 where
  pub local : client.local ≡ server.remote
  pub remote : client.remote ≡ server.local
  pub to_server : client.sender.send_next ≡ server.receiver.receive_next
  pub to_client : server.sender.send_next ≡ client.receiver.receive_next
  pub server_window : client.sender.send_window ≡ server.receive_buffer_size
  pub client_window : server.sender.send_window ≡ client.receive_buffer_size
  pub server_scale : client.sender.window_scale ≡ server.window_scale
  pub client_scale : server.sender.window_scale ≡ client.window_scale

pub record Opened (client server : TcpConfig) (p : PassiveSocket)
    (r : ActiveOpenSocket × PassiveSocket) : Type 0 where
  pub at_client : ControlBlock
  pub at_server : ControlBlock
  pub result : r.0.result ≡ some (ok at_client)
  pub ready : r.1.ready.ready ≡ p.ready.ready ++ (ok at_server ∷ [])
  pub agree : Agree at_client at_server
  pub client_mss : at_server.sender.mss ≡ client.advertised_mss
  pub server_mss : at_client.sender.mss ≡ server.advertised_mss

-- Kept apart, so that the arithmetic has no product.
mod_16 : (x : ℕ) → x < 2 ^ 16 → x % 2 ^ 16 ≡ x
mod_16 x h = omega arith

mod_32 : (x : ℕ) → x < 2 ^ 16 → x % 2 ^ 32 ≡ x
mod_32 x h = omega arith

shl_16 :
    (c : TcpConfig)
    → IsTcpConfig c
    → checked_shl 16 c.receive_window_size c.window_scale
      ≡ some (c.receive_window_size * 2 ^ c.window_scale)
unfolding checked_shl
shl_16 c h =
    let scale : c.window_scale ≤ 14 = h.scale in
    rw (
      lt→ltb c.window_scale 16 (omega arith),
      mod_16 (c.receive_window_size * 2 ^ c.window_scale) h.window,
    )

shl_32 :
    (c : TcpConfig)
    → IsTcpConfig c
    → checked_shl 32 c.receive_window_size c.window_scale
      ≡ some (c.receive_window_size * 2 ^ c.window_scale)
unfolding checked_shl
shl_32 c h =
    let scale : c.window_scale ≤ 14 = h.scale in
    rw (
      lt→ltb c.window_scale 32 (omega arith),
      mod_32 (c.receive_window_size * 2 ^ c.window_scale) h.window,
    )

-- What the client makes of a SYN+ACK.
client_block : TcpConfig → TcpConfig → ActiveOpenSocket → SeqNumber → ControlBlock
client_block client server a isn =
    new_block a.local a.remote (add isn 1) (client.receive_window_size * 2 ^ client.window_scale)
      client.window_scale (add a.local_isn 1) (server.receive_window_size * 2 ^ server.window_scale)
      server.window_scale server.advertised_mss

server_block : TcpConfig → TcpConfig → ActiveOpenSocket → PassiveSocket → SeqNumber → ControlBlock
server_block client server a p isn =
    new_block p.local a.local (add a.local_isn 1)
      (server.receive_window_size * 2 ^ server.window_scale) server.window_scale (add isn 1)
      (client.receive_window_size * 2 ^ client.window_scale) client.window_scale
      client.advertised_mss

-- A listening socket that has not heard of the client and has room for it.
pub record HasRoom (a : ActiveOpenSocket) (p : PassiveSocket) : Type 0 where
  pub not_ready : lookup a.local p.ready.endpoints ≡ none
  pub not_inflight : lookup a.local p.inflight ≡ none
  pub backlog : length p.inflight + length p.ready.ready < p.max_backlog

-- The two blocks of a handshake agree.
blocks-Agree :
    (client server : TcpConfig) (a : ActiveOpenSocket) (p : PassiveSocket) (isn : SeqNumber)
    → a.remote ≡ p.local
    → Agree (client_block client server a isn) (server_block client server a p isn)
unfolding client_block server_block new_block Sender.new
blocks-Agree client server a p isn h = record {
  local = refl;
  remote = h;
  to_server = refl;
  to_client = refl;
  server_window = refl;
  client_window = refl;
  server_scale = refl;
  client_scale = refl;
}

module _ (client server : TcpConfig) (ok_client : IsTcpConfig client)
    (ok_server : IsTcpConfig server) where
  opened :
      (a : ActiveOpenSocket) (t : Handshake)
      → opened_block client (syn_ack_header server t) a
        ≡ some (client_block client server a t.local_isn)
  unfolding opened_block syn_ack_header push_offers offers scales client_block Header.new
  opened a t = rw (
    le→leb client.window_scale 14 ok_client.scale,
    le→leb server.window_scale 14 ok_server.scale,
    shl_16 client ok_client,
    shl_16 server ok_server,
    mod_16 server.advertised_mss ok_server.mss,
  )

  accepted :
      (a : ActiveOpenSocket) (p : PassiveSocket) (isn : SeqNumber)
      → accepted_block server p.local a.local (inflight_for isn (syn_header client a))
        ≡ some (server_block client server a p isn)
  unfolding accepted_block syn_header push_offers offers scales server_block Header.new
  accepted a p isn =
      rw (
        shl_16 client ok_client,
        shl_32 server ok_server,
        mod_16 client.advertised_mss ok_client.mss,
      )

  -- The first packet.
  module _ (crc : List ℕ → ℕ) (a : ActiveOpenSocket) (p : PassiveSocket) (room : HasRoom a p) where
    abbrev isn : SeqNumber
    isn = (generate crc p.local a.local p.isn_generator).0

    abbrev waiting : PassiveSocket
    waiting = record p {
      inflight = insert a.local (inflight_for isn (syn_header client a)) p.inflight;
      isn_generator = (generate crc p.local a.local p.isn_generator).1;
    }

    abbrev task : Handshake
    task = record { local_isn = isn; remote_isn = a.local_isn; local = p.local; remote = a.local }

    syn :
        Passive.receive server crc (packet_from a) (syn_header client a) p
        ≡ some (none, (waiting, task ∷ []))
    unfolding Passive.receive unless_ready route on_new syn_header push_offers Header.new
    syn = rw (
      room.not_ready,
      room.not_inflight,
      lt→leb p.max_backlog (length p.inflight + length p.ready.ready) room.backlog,
    )

    abbrev done : PassiveSocket
    done = record waiting {
      inflight = remove a.local waiting.inflight;
      ready = record {
        ready = p.ready.ready ++ (ok (server_block client server a p isn) ∷ []);
        endpoints = insert a.local tt p.ready.endpoints;
      };
    }

    -- The second packet.
    syn_ack :
        (addr : MacAddress)
        → Active.receive client (some addr) (syn_ack_header server task) a
          ≡ some (
            record a { result = some (ok (client_block client server a isn)) },
            record {
              remote_link_addr = addr;
              tcp_hdr = ack_header client (syn_ack_header server task) a;
              body = none;
            }
                ∷ [],
          )
    unfolding Active.receive accept_syn syn_ack_header push_offers Header.new
    syn_ack addr = rw (==_refl (add a.local_isn 1), opened a task)

    -- The third packet.
    ack :
        Passive.receive server crc
          (packet_from a)
          (ack_header client (syn_ack_header server task) a)
          waiting
        ≡ some (none, (done, []))
    unfolding Passive.receive unless_ready route on_inflight ack_header syn_ack_header push_ok
        push_new Header.new push_offers server_block new_block
    ack = rw (
      room.not_ready,
      lookup-insert a.local (inflight_for isn (syn_header client a)) p.inflight,
      ==_refl (add isn 1),
      accepted a p isn,
      room.not_ready,
    )

    -- An active and a passive open agree. For configurations on both sides with an MSS below 2 ^
    -- 16, a window scale of at most 14 and a window that still fits 16 bits when it is scaled, a
    -- client that opens a connection to the address of a listening socket which has not heard of it
    -- and has room: no step of the three-way handshake fails or panics; the client has a control
    -- block as its result and the server one more control block that is ready; and in these each
    -- side's next number to send is the other's next to receive, each side's send window is the
    -- other's receive buffer with the same window scale, and each side's MSS is the one that the
    -- other has advertised.
    pub handshake-Opened :
        (addr : MacAddress)
        → a.remote ≡ p.local
        → Gives (Opened client server p) (handshake client server crc addr a p)
    unfolding handshake client_block server_block new_block Sender.new
    handshake-Opened addr there = (
      (record a { result = some (ok (client_block client server a isn)) }, done),
      rw (syn, syn_ack addr, ack),
      record {
        at_client = client_block client server a isn;
        at_server = server_block client server a p isn;
        result = refl;
        ready = refl;
        agree = blocks-Agree client server a p isn there;
        client_mss = refl;
        server_mss = refl;
      },
    )
