-- ===== src/Tcp/Connection/Defs.antt =====
-- The connection's state, and sending: `emit`, `send_ack`, `send`, `retransmit` and `close`.
use capybara_artifact.Base.{
  ℕ, ◌+◌, ◌%◌, ◌^◌, Bool, true, false, ◌&&◌, ltb, leb, if◌then◌else◌, Option, some, none, List, [],
  ◌∷◌, ◌++◌, ◌>>=◌, length,
}
use capybara_artifact.Seq.{SeqNumber, add, sub}
use capybara_artifact.State.{Buffer, Instant, UnackedSegment}
use capybara_artifact.Mig.Segment.{MacAddress}
use capybara_artifact.Tcp.Header.{TcpHeader}
use capybara_artifact.Tcp.Header as Header
use capybara_artifact.Tcp.Sender.{Sender}
use capybara_artifact.Tcp.ControlBlock.{
  State, established, fin_wait1, fin_wait2, closing, time_wait, close_wait, last_ack, closed,
  ControlBlock, hdr_window_size,
}

abbrev pub Duration : Type 0
Duration = ℕ

-- The retransmission timeout, which is computed in floating point, and the congestion control, which
-- is a trait.
pub record Timing : Type 1 where
  pub RtoCalculator : Type 0
  pub rto_start : RtoCalculator
  pub add_sample : Duration → RtoCalculator → RtoCalculator
  pub rto : RtoCalculator → Duration
  pub CongestionControl : Type 0
  pub cc_start : ℕ → SeqNumber → CongestionControl
  pub on_ack_received :
      Duration → SeqNumber → SeqNumber → SeqNumber → CongestionControl → CongestionControl
  pub on_cwnd_check_before_send : CongestionControl → CongestionControl
  pub get_cwnd : CongestionControl → ℕ
  pub get_limited_transmit_cwnd_increase : CongestionControl → ℕ
  pub on_send : Duration → ℕ → CongestionControl → CongestionControl

-- What the runtime is given to transmit.
pub record TcpSegment : Type 0 where
  pub remote_link_addr : MacAddress
  pub tcp_hdr : TcpHeader
  pub body : Option Buffer

-- The errors of `send`.
pub data SendFail : Type 0 where
  connection_is_closing buffer_too_large too_many_packets : SendFail

-- The state after a FIN went out. Sending one in another state is only warned of.
unfoldable pub fin_sent : State → State
fin_sent established = fin_wait1
fin_sent close_wait = last_ack
fin_sent fin_wait1 = fin_wait1
fin_sent fin_wait2 = fin_wait2
fin_sent closing = closing
fin_sent time_wait = time_wait
fin_sent last_ack = last_ack
fin_sent closed = closed

abbrev pub unsent_queue_cutoff : ℕ
unsent_queue_cutoff = 1024

-- What a buffer takes of the sequence space: one place, for the FIN, if it is empty.
abbrev pub space_of : Buffer → ℕ
space_of [] = 1
space_of (b ∷ buf) = length (b ∷ buf)

-- An empty buffer is the end-of-send marker.
abbrev pub mark : Buffer → TcpHeader → TcpHeader
mark [] header = record header { fin = true }
mark (b ∷ buf) header = record header { psh = true }

abbrev pub may_close : State → Bool
may_close established = true
may_close close_wait = true
may_close fin_wait1 = false
may_close fin_wait2 = false
may_close closing = false
may_close time_wait = false
may_close last_ack = false
may_close closed = false

module _ (t : Timing) where
  open t use {
    RtoCalculator, rto, CongestionControl, on_cwnd_check_before_send, get_cwnd,
    get_limited_transmit_cwnd_increase, on_send,
  }

  -- `block` is the control block but for its timers; `sent` is what was transmitted so far.
  pub record Connection : Type 0 where
    pub block : ControlBlock
    pub ack_delay_timeout : Duration
    pub ack_deadline : Option Instant
    pub retransmit_deadline : Option Instant
    pub rto_calculator : RtoCalculator
    pub cc : CongestionControl
    pub sent : List TcpSegment

  abbrev pub set_state : State → Connection → Connection
  set_state s c = record c { block = record (c.block) { state = s } }

  abbrev pub set_sender : Sender → Connection → Connection
  set_sender s c = record c { block = record (c.block) { sender = s } }

  -- `tcp_header`; `none` is the panic of `hdr_window_size`.
  unfoldable pub tcp_header : Connection → Option TcpHeader
  unfolding hdr_window_size Header.new
  tcp_header c = do
    w ← hdr_window_size c.block
    some (record (Header.new c.block.local.port c.block.remote.port) {
      window_size = w;
      ack = true;
      ack_num = c.block.receiver.receive_next;
    })

  unfoldable pub after_emit : Bool → Connection → Connection
  unfolding fin_sent
  after_emit true c = set_state (fin_sent c.block.state) c
  after_emit false c = c

  -- `none` is the failed assertion that the header acknowledges.
  unfoldable pub emit : TcpHeader → Option Buffer → MacAddress → Connection → Option Connection
  unfolding after_emit
  emit header body link c =
      let segment : TcpSegment = record {
        remote_link_addr = link;
        tcp_hdr = header;
        body = body;
      } in
      if header.ack
      then some (
          after_emit header.fin (record c { sent = c.sent ++ (segment ∷ []); ack_deadline = none }))
      else none

  -- `link` is what the ARP cache has for the peer, here and below.
  unfoldable pub send_ack : Option MacAddress → Connection → Option Connection
  unfolding emit tcp_header
  send_ack link c = do
    header ← tcp_header c
    elim link [
      | none ↦ some c
      | some addr ↦ emit (record header { seq_num = c.block.sender.send_next }) none addr c
    ]

  -- The congestion control learns of the data that goes out.
  abbrev pub note_send : Connection → Connection
  note_send c =
      let in_flight = sub c.block.sender.send_next c.block.sender.send_unacked in
      record c { cc = on_send (rto c.rto_calculator) in_flight c.cc }

  -- The fast path of `send`.
  unfoldable pub send_now : Instant → MacAddress → Buffer → Connection → Option Connection
  unfolding emit tcp_header
  send_now now addr buf c =
      let s = c.block.sender in
      let c' = note_send c in
      (do
        header ← tcp_header c'
        c'' ← emit (mark buf (record header { seq_num = s.send_next })) (some buf) addr c'
        some
            (record (set_sender
              (record s {
                send_next = add s.send_next (space_of buf);
                unsent_seq_no = add s.unsent_seq_no (space_of buf);
                unacked_queue =
                    s.unacked_queue ++ (record { bytes = buf; initial_tx = some now } ∷ []);
              })
              c'') {
                retransmit_deadline = elim c.retransmit_deadline [
                  | none ↦ some (now + rto c.rto_calculator)
                  | some d ↦ some d
                ];
              }))

  -- The slow path. An empty buffer takes no sequence number here.
  unfoldable pub send_later : Buffer → Connection → Bool × Connection
  send_later buf c =
      let s = c.block.sender in
      if ltb unsent_queue_cutoff (length s.unsent_queue) then (false, c) else (
        true,
        set_sender
            (record s {
              unsent_queue = s.unsent_queue ++ (buf ∷ []);
              unsent_seq_no = add s.unsent_seq_no (length buf);
            })
            c,
      )

  -- Whether both windows leave room for the buffer. The additions of u32 wrap in a release build.
  unfoldable pub has_room : Buffer → Connection → Bool
  has_room buf c =
      let s = c.block.sender in
      let in_flight = (sub s.send_next s.send_unacked + length buf) % 2 ^ 32 in
      let cwnd = (get_cwnd c.cc + get_limited_transmit_cwnd_increase c.cc) % 2 ^ 32 in
      ltb 0 s.send_window && leb in_flight s.send_window && leb in_flight cwnd

  abbrev pub later_result : Bool × Connection → Option (Option SendFail × Connection)
  later_result (true, c) = some (none, c)
  later_result (false, c) = some (some too_many_packets, c)

  -- With room in the windows: at once, if the ARP cache knows the peer.
  unfoldable pub send_in_room :
      Option MacAddress → Instant → Buffer → Connection → Option (Option SendFail × Connection)
  unfolding send_now send_later
  send_in_room none now buf c = later_result (send_later buf c)
  send_in_room (some addr) now buf c = do c' ← send_now now addr buf c; some (none, c')

  abbrev pub note_check : Connection → Connection
  note_check c = record c { cc = on_cwnd_check_before_send c.cc }

  -- `send` once the sender is known to be open; the error, if any, and the state. `none` is a panic.
  -- Where data is queued, more is queued behind it.
  unfoldable pub send_buffer :
      List Buffer
      → Option MacAddress
      → Instant
      → Buffer
      → Connection
      → Option (Option SendFail × Connection)
  unfolding send_in_room send_later has_room
  send_buffer (x ∷ q) link now buf c = later_result (send_later buf c)
  send_buffer [] link now buf c =
      if has_room buf (note_check c)
      then send_in_room link now buf (note_check c)
      else later_result (send_later buf (note_check c))

  unfoldable pub send :
      Option MacAddress → Instant → Buffer → Connection → Option (Option SendFail × Connection)
  unfolding send_buffer
  send link now buf c =
      if c.block.user_is_done_sending
      then some (some connection_is_closing, c)
      else if leb (2 ^ 32) (length buf)
      then some (some buffer_too_large, c)
      else send_buffer c.block.sender.unsent_queue link now buf c

  -- The earliest unacknowledged segment is not timed any more.
  abbrev pub untimed : UnackedSegment → List UnackedSegment → Connection → Connection
  untimed segment q c =
      set_sender
        (record (c.block.sender) { unacked_queue = record segment { initial_tx = none } ∷ q }) c

  unfoldable pub send_again : Option MacAddress → Buffer → Connection → Option Connection
  unfolding emit tcp_header
  send_again none buf c = some c
  send_again (some addr) buf c = do
    header ← tcp_header c
    emit (mark buf (record header { seq_num = c.block.sender.send_unacked })) (some buf) addr c

  unfoldable pub retransmit_first :
      List UnackedSegment → Option MacAddress → Connection → Option Connection
  unfolding send_again
  retransmit_first [] link c = some c
  retransmit_first (segment ∷ q) link c = send_again link segment.bytes (untimed segment q c)

  unfoldable pub retransmit : Option MacAddress → Connection → Option Connection
  unfolding retransmit_first
  retransmit link c = retransmit_first c.block.sender.unacked_queue link c

  abbrev pub expect_sent : Option SendFail × Connection → Option Connection
  expect_sent (none, c) = some c
  expect_sent (some e, c) = none

  -- `close`; `none` is the failed assertion on the state or `expect("send failed")`.
  unfoldable pub close : Option MacAddress → Instant → Connection → Option Connection
  unfolding send
  close link now c =
      if c.block.user_is_done_sending
      then some c
      else if may_close c.block.state
      then (do
        r ← send link now [] c
        c' ← expect_sent r
        some (record c' { block = record (c'.block) { user_is_done_sending = true } }))
      else none
