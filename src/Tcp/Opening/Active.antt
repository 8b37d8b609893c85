-- ===== src/Tcp/Opening/Active.antt =====
-- inetstack/protocols/tcp/active_open.rs: a connection that this side opens.
use capybara_artifact.Base.{
  true, not, ◌&&◌, ◌==◌, leb, if◌then◌else◌, Option, some, none, List, [], ◌∷◌, ◌>>=◌, Result, ok,
  err,
}
use capybara_artifact.Seq.{SeqNumber, add}
use capybara_artifact.Net.{SocketAddrV4}
use capybara_artifact.Mig.Segment.{MacAddress}
use capybara_artifact.Tcp.Header.{TcpHeader}
use capybara_artifact.Tcp.Header as Header
use capybara_artifact.Tcp.ControlBlock.{ControlBlock}
use capybara_artifact.Tcp.Connection.Defs.{TcpSegment}
use capybara_artifact.Tcp.Opening.{
  TcpConfig, OpenFail, connection_refused, handshake_timeout, fallback_mss, new_block, offers,
  scales, checked_shl, push_offers,
}

-- The waker only wakes the task that waits for the result.
pub record ActiveOpenSocket : Type 0 where
  pub local_isn : SeqNumber
  pub local : SocketAddrV4
  pub remote : SocketAddrV4
  pub result : Option (Result OpenFail ControlBlock)

unfoldable pub new : SeqNumber → SocketAddrV4 → SocketAddrV4 → ActiveOpenSocket
new local_isn local remote = record {
  local_isn = local_isn;
  local = local;
  remote = remote;
  result = none;
}

-- `none` is `Poll::Pending`.
unfoldable pub poll_result :
    ActiveOpenSocket → Option (Result OpenFail ControlBlock) × ActiveOpenSocket
poll_result a = (a.result, record a { result = none })

abbrev pub set_result : Result OpenFail ControlBlock → ActiveOpenSocket → ActiveOpenSocket
set_result r a = record a { result = some r }

-- The header that acknowledges the peer's SYN.
unfoldable pub ack_header : TcpConfig → TcpHeader → ActiveOpenSocket → TcpHeader
unfolding Header.new
ack_header config h a = record (Header.new a.local.port a.remote.port) {
  ack = true;
  ack_num = add h.seq_num 1;
  window_size = config.receive_window_size;
  seq_num = add a.local_isn 1;
}

-- The control block for a SYN+ACK. Both windows are u16 as they are shifted. `none` is the failed
-- assertion on the scales.
unfoldable pub opened_block : TcpConfig → TcpHeader → ActiveOpenSocket → Option ControlBlock
unfolding offers scales checked_shl new_block
opened_block config h a =
    let (scale, mss) = offers h.option_list (none, fallback_mss) in
    let (local_scale, remote_scale) = scales config scale in
    if leb local_scale 14 && leb remote_scale 14
    then (do
      rx_window ← checked_shl 16 config.receive_window_size local_scale
      tx_window ← checked_shl 16 h.window_size remote_scale
      some (
          new_block a.local a.remote (add h.seq_num 1) rx_window local_scale (add a.local_isn 1)
            tx_window remote_scale mss))
    else none

-- A SYN+ACK with the right number. `none` is a panic, also where the ARP cache has no entry.
unfoldable pub accept_syn :
    TcpConfig
    → Option MacAddress
    → TcpHeader
    → ActiveOpenSocket
    → Option (ActiveOpenSocket × List TcpSegment)
unfolding ack_header opened_block
accept_syn config none h a = none
accept_syn config (some addr) h a = do
  cb ← opened_block config h a
  some (
    set_result (ok cb) a,
    record { remote_link_addr = addr; tcp_hdr = ack_header config h a; body = none } ∷ [],
  )

unfoldable pub receive :
    TcpConfig
    → Option MacAddress
    → TcpHeader
    → ActiveOpenSocket
    → Option (ActiveOpenSocket × List TcpSegment)
unfolding accept_syn
receive config link h a =
    if not (h.ack && h.ack_num == add a.local_isn 1)
    then some (a, [])
    else if h.rst
    then some (set_result (err connection_refused) a, [])
    else if not h.syn
    then some (a, [])
    else accept_syn config link h a

-- The SYN of `background`.
unfoldable pub syn_header : TcpConfig → ActiveOpenSocket → TcpHeader
unfolding Header.new push_offers
syn_header config a = push_offers config (record (Header.new a.local.port a.remote.port) {
  syn = true;
  seq_num = a.local_isn;
  window_size = config.receive_window_size;
})

-- After the last try the connection has failed, whatever the result was before.
unfoldable pub time_out : ActiveOpenSocket → ActiveOpenSocket
time_out a = set_result (err handshake_timeout) a
