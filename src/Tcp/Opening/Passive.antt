-- ===== src/Tcp/Opening/Passive.antt =====
-- inetstack/protocols/tcp/passive_open.rs: a listening socket, the handshakes under way on it, and
-- the connections that are ready to be accepted.
use capybara_artifact.Base.{
  ℕ, ◌+◌, true, not, ◌||◌, ◌==◌, leb, if◌then◌else◌, Option, some, none, List, [], ◌∷◌, ◌++◌, ◌>>=◌,
  Result, ok, err, length,
}
use capybara_artifact.Seq.{SeqNumber, add}
use capybara_artifact.Net.{SocketAddrV4}
use capybara_artifact.Net.Map.{addr_key, HashMap, lookup, remove, insert}
use capybara_artifact.Mig.Header.{Ipv4Header}
use capybara_artifact.Tcp.Header.{TcpHeader}
use capybara_artifact.Tcp.Header as Header
use capybara_artifact.Tcp.ControlBlock.{ControlBlock}
use capybara_artifact.Tcp.Opening.{
  TcpConfig, IsnGenerator, OpenFail, expecting_ack, invalid_seq_num, invalid_flags,
  connection_refused, fallback_mss, generate, new_block, offers, scales, checked_shl, push_offers,
}

pub record InflightAccept : Type 0 where
  pub local_isn : SeqNumber
  pub remote_isn : SeqNumber
  pub header_window_size : ℕ
  pub remote_window_scale : Option ℕ
  pub mss : ℕ

-- The waker only wakes the task that accepts.
pub record ReadySockets : Type 0 where
  pub ready : List (Result OpenFail ControlBlock)
  pub endpoints : HashMap SocketAddrV4 (Unit {0})

unfoldable pub push_new : ControlBlock → ReadySockets → Option (Unit {0}) → Option ReadySockets
push_new cb r (some u) = none
push_new cb r none =
    some (record { ready = r.ready ++ (ok cb ∷ []); endpoints = insert cb.remote tt r.endpoints })

-- `none` is the failed assertion that the endpoint is new.
unfoldable pub push_ok : ControlBlock → ReadySockets → Option ReadySockets
unfolding push_new
push_ok cb r = push_new cb r (lookup cb.remote r.endpoints)

unfoldable pub push_err : OpenFail → ReadySockets → ReadySockets
push_err e r = record r { ready = r.ready ++ (err e ∷ []) }

abbrev pub Polled : Type 0
Polled = Option (Result OpenFail ControlBlock) × ReadySockets

unfoldable pub poll_known :
    ControlBlock
    → List (Result OpenFail ControlBlock)
    → ReadySockets
    → Option (Unit {0})
    → Option Polled
poll_known cb q r none = none
poll_known cb q r (some u) =
    some (some (ok cb), record { ready = q; endpoints = remove cb.remote r.endpoints })

-- The outer `none` is the failed assertion that the endpoint was there.
unfoldable pub poll_from : List (Result OpenFail ControlBlock) → ReadySockets → Option Polled
unfolding poll_known
poll_from [] r = some (none, r)
poll_from (err e ∷ q) r = some (some (err e), record r { ready = q })
poll_from (ok cb ∷ q) r = poll_known cb q r (lookup cb.remote r.endpoints)

unfoldable pub poll : ReadySockets → Option Polled
unfolding poll_from
poll r = poll_from r.ready r

pub record PassiveSocket : Type 0 where
  pub inflight : HashMap SocketAddrV4 InflightAccept
  pub ready : ReadySockets
  pub max_backlog : ℕ
  pub isn_generator : IsnGenerator
  pub local : SocketAddrV4

unfoldable pub new : SocketAddrV4 → ℕ → ℕ → PassiveSocket
new local max_backlog nonce = record {
  inflight = [];
  ready = record { ready = []; endpoints = [] };
  max_backlog = max_backlog;
  isn_generator = record { nonce = nonce; counter = 0 };
  local = local;
}

-- What the background task of a handshake is given.
pub record Handshake : Type 0 where
  pub local_isn : SeqNumber
  pub remote_isn : SeqNumber
  pub local : SocketAddrV4
  pub remote : SocketAddrV4

-- The error, if any, the socket, and the tasks that are scheduled. `none` is a panic.
abbrev pub Received : Type 0
Received = Option (Option OpenFail × (PassiveSocket × List Handshake))

abbrev refuse : OpenFail → PassiveSocket → Received
refuse e p = some (some e, (p, []))

-- The control block for an ACK. The peer's window is u16 as it is shifted.
unfoldable pub accepted_block :
    TcpConfig → SocketAddrV4 → SocketAddrV4 → InflightAccept → Option ControlBlock
unfolding scales checked_shl new_block
accepted_block config local remote i =
    let (local_scale, remote_scale) = scales config i.remote_window_scale in
    (do
      remote_window ← checked_shl 16 i.header_window_size remote_scale
      local_window ← checked_shl 32 config.receive_window_size local_scale
      some (
          new_block local remote (add i.remote_isn 1) local_window local_scale (add i.local_isn 1)
            remote_window remote_scale i.mss))

-- A packet for a handshake under way.
unfoldable pub on_inflight :
    TcpConfig → SocketAddrV4 → TcpHeader → InflightAccept → PassiveSocket → Received
unfolding accepted_block push_ok
on_inflight config remote h i p =
    if not h.ack
    then refuse expecting_ack p
    else if not (h.ack_num == add i.local_isn 1)
    then refuse invalid_seq_num p
    else (do
      cb ← accepted_block config p.local remote i
      ready ← push_ok cb p.ready
      some (none, (record p { inflight = remove remote p.inflight; ready = ready }, [])))

abbrev pub inflight_for : SeqNumber → TcpHeader → InflightAccept
inflight_for local_isn h =
    let (scale, mss) = offers h.option_list (none, fallback_mss) in
    record {
      local_isn = local_isn;
      remote_isn = h.seq_num;
      header_window_size = h.window_size;
      remote_window_scale = scale;
      mss = mss;
    }

-- A packet from an unknown peer, which must be a SYN. The scheduler takes any number of tasks.
unfoldable pub on_new : (List ℕ → ℕ) → SocketAddrV4 → TcpHeader → PassiveSocket → Received
unfolding generate offers
on_new crc remote h p =
    if not h.syn || h.ack || h.rst
    then refuse invalid_flags p
    else if leb p.max_backlog (length p.inflight + length p.ready.ready)
    then refuse connection_refused p
    else let (local_isn, generator) = generate crc p.local remote p.isn_generator in
      some (
        none,
        (
          record p {
            inflight = insert remote (inflight_for local_isn h) p.inflight;
            isn_generator = generator;
          },
          record { local_isn = local_isn; remote_isn = h.seq_num; local = p.local; remote = remote }
              ∷ [],
        ),
      )

unfoldable pub route :
    TcpConfig
    → (List ℕ → ℕ)
    → SocketAddrV4
    → TcpHeader
    → PassiveSocket
    → Option InflightAccept
    → Received
unfolding on_inflight on_new
route config crc remote h p (some i) = on_inflight config remote h i p
route config crc remote h p none = on_new crc remote h p

-- A connection that is ready but not accepted yet gets no packets.
unfoldable pub unless_ready :
    TcpConfig
    → (List ℕ → ℕ)
    → SocketAddrV4
    → TcpHeader
    → PassiveSocket
    → Option (Unit {0})
    → Received
unfolding route
unless_ready config crc remote h p (some u) = some (none, (p, []))
unless_ready config crc remote h p none = route config crc remote h p (lookup remote p.inflight)

unfoldable pub receive :
    TcpConfig → (List ℕ → ℕ) → Ipv4Header → TcpHeader → PassiveSocket → Received
unfolding unless_ready
receive config crc ip h p =
    let remote : SocketAddrV4 = record { ip = ip.src_addr; port = h.src_port } in
    unless_ready config crc remote h p (lookup remote p.ready.endpoints)

unfoldable pub poll_accept :
    PassiveSocket → Option (Option (Result OpenFail ControlBlock) × PassiveSocket)
unfolding poll
poll_accept p = do (r, ready) ← poll p.ready; some (r, record p { ready = ready })

unfoldable pub push_migrated_in : ControlBlock → PassiveSocket → Option PassiveSocket
unfolding push_ok
push_migrated_in cb p = do ready ← push_ok cb p.ready; some (record p { ready = ready })

-- The SYN+ACK of `background`.
unfoldable pub syn_ack_header : TcpConfig → Handshake → TcpHeader
unfolding Header.new push_offers
syn_ack_header config t = push_offers config (record (Header.new t.local.port t.remote.port) {
  syn = true;
  seq_num = t.local_isn;
  ack = true;
  ack_num = add t.remote_isn 1;
  window_size = config.receive_window_size;
})
