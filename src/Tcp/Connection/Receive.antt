-- ===== src/Tcp/Connection/Receive.antt =====
-- `ControlBlock::receive` of inetstack/protocols/tcp/established/ctrlblk.rs, in the order of its parts:
-- the segment is checked, then its RST, its SYN, its ACK, its data and its FIN.
use capybara_artifact.Base.{
  ℕ, ◌+◌, ◌-◌, ◌==◌, Bool, true, false, not, ◌&&◌, ◌||◌, ltb, if◌then◌else◌, Option, some, none, [],
  ◌∷◌, ◌>>=◌,
}
use mathlib.Core.List.{foldl}
use capybara_artifact.Seq.{SeqNumber, add, sub, lt, le}
use capybara_artifact.State.{Buffer, Instant}
use capybara_artifact.Mig.Segment.{MacAddress}
use capybara_artifact.Tcp.Header.{TcpHeader}
use capybara_artifact.Tcp.Sender.Queues.{remove_acknowledged_data, update_send_window}
use capybara_artifact.Tcp.ControlBlock.{
  State, established, fin_wait1, fin_wait2, closing, time_wait, close_wait, last_ack, closed, len32,
  ControlBlock, get_receive_window_size, receive_data, store_out_of_order_fin,
  store_out_of_order_segment,
}
use capybara_artifact.Tcp.Acceptance.{Segment, segment_of, refused, accepted, check_segment}
use capybara_artifact.Tcp.Connection.Defs.{Timing, Connection, set_state, set_sender, send_ack}

-- The state after everything that was sent is acknowledged, the FIN too.
unfoldable pub all_acked : State → State
all_acked fin_wait1 = fin_wait2
all_acked closing = time_wait
all_acked last_ack = closed
all_acked established = established
all_acked fin_wait2 = fin_wait2
all_acked close_wait = close_wait
all_acked time_wait = time_wait
all_acked closed = closed

-- The state after the peer's FIN; `none` is the panic on a closed connection.
unfoldable pub fin_received : State → Option State
fin_received established = some close_wait
fin_received fin_wait1 = some closing
fin_received fin_wait2 = some time_wait
fin_received close_wait = some close_wait
fin_received closing = some closing
fin_received last_ack = some last_ack
fin_received time_wait = some time_wait
fin_received closed = none

-- The states in which data is received.
abbrev pub receives_data : State → Bool
receives_data established = true
receives_data fin_wait1 = true
receives_data fin_wait2 = true
receives_data closing = false
receives_data time_wait = false
receives_data close_wait = false
receives_data last_ack = false
receives_data closed = false

-- Data out of order; `none` is a panic of the store or a failed assertion.
unfoldable pub store_plain : SeqNumber → SeqNumber → ℕ → Buffer → ControlBlock → Option ControlBlock
store_plain start end len buf cb =
    if len == len32 buf
    then (if ltb 0 len then store_out_of_order_segment start end buf cb else some cb)
    else none

-- A FIN is stored apart.
unfoldable pub store_segment : Segment → ControlBlock → Option ControlBlock
unfolding store_plain
store_segment s cb =
    if s.header.fin
    then store_plain s.start (sub s.end 1) (s.len - 1) s.data_bytes
        (store_out_of_order_fin s.end cb)
    else store_plain s.start s.end s.len s.data_bytes cb

module _ (t : Timing) where
  open t use {RtoCalculator, add_sample, rto, on_ack_received}

  abbrev set_block : (ControlBlock → ControlBlock) → Connection t → Connection t
  set_block f c = record c { block = f c.block }

  -- What the sender knows after a segment that acknowledges new data, and the timer.
  unfoldable pub acknowledged : Instant → TcpHeader → Connection t → Option (Connection t)
  unfolding all_acked
  acknowledged now header c = do
    (s, samples) ←
        remove_acknowledged_data (sub header.ack_num c.block.sender.send_unacked) now c.block.sender
    let calculator = foldl (λ r rtt. add_sample rtt r) c.rto_calculator samples
    let c' =
        set_sender t (update_send_window header (record s { send_unacked = header.ack_num }))
          (record c { rto_calculator = calculator })
    some (
        if header.ack_num == c.block.sender.send_next
        then set_state t (all_acked c.block.state) (record c' { retransmit_deadline = none })
        else record c' { retransmit_deadline = some (now + rto calculator) })

  -- The congestion control sees every acknowledgement.
  abbrev pub note_ack : TcpHeader → Connection t → Connection t
  note_ack header c =
      let s = c.block.sender in
      record c {
        cc = on_ack_received (rto c.rto_calculator) s.send_unacked s.send_next header.ack_num c.cc;
      }

  -- Whether to go on with the segment, and the state.
  unfoldable pub process_ack :
      Option MacAddress → Instant → TcpHeader → Connection t → Option (Bool × Connection t)
  unfolding acknowledged
  process_ack link now header c =
      let s = c.block.sender in
      let c' = note_ack header c in
      if lt s.send_unacked header.ack_num
      then (if le header.ack_num s.send_next
          then (do c'' ← acknowledged now header c'; some (true, c''))
          else (do c'' ← send_ack t link c'; some (false, c'')))
      else some (true, c')

  unfoldable pub out_of_order : Option MacAddress → Segment → Connection t → Option (Connection t)
  unfolding store_segment
  out_of_order link s c =
      if ltb 0 s.len && receives_data c.block.state
      then (do cb ← store_segment s c.block; send_ack t link (record c { block = cb }))
      else some c

  -- The text of a segment in order: whether a FIN is due, whether an ACK is, and the state.
  unfoldable pub receive_text : Segment → Buffer → Connection t → Bool × (Bool × Connection t)
  receive_text s [] c = (s.header.fin, (false, c))
  receive_text s (b ∷ buf) c =
      if receives_data c.block.state
      then (
        s.header.fin || (receive_data s.start (b ∷ buf) c.block).0,
        (true, record c { block = (receive_data s.start (b ∷ buf) c.block).1 }),
      )
      else (s.header.fin, (false, c))

  unfoldable pub process_text : Segment → Connection t → Bool × (Bool × Connection t)
  unfolding receive_text
  process_text s c = receive_text s s.data_bytes c

  abbrev advance_over_fin : ControlBlock → ControlBlock
  advance_over_fin cb = record cb {
    receiver = record (cb.receiver) { receive_next = add cb.receiver.receive_next 1 };
  }

  unfoldable pub process_fin : Option MacAddress → Connection t → Option (Connection t)
  unfolding fin_received
  process_fin link c = do
    s ← fin_received c.block.state
    send_ack t link (set_state t s (record c { block = advance_over_fin c.block }))

  -- An ACK is due: the first waits for the timer, the second is sent at once.
  unfoldable pub schedule_ack : Option MacAddress → Instant → Connection t → Option (Connection t)
  schedule_ack link now c = elim c.ack_deadline [
    | none ↦ some (record c { ack_deadline = some (now + c.ack_delay_timeout) })
    | some d ↦ send_ack t link (record c { ack_deadline = none })
  ]

  -- After the text: the FIN, or the ACK that is due.
  unfoldable pub finish :
      Option MacAddress → Instant → Bool × (Bool × Connection t) → Option (Connection t)
  unfolding process_fin schedule_ack
  finish link now (true, (ack, c)) = process_fin link c
  finish link now (false, (true, c)) = schedule_ack link now c
  finish link now (false, (false, c)) = some c

  -- The segment after its ACK, where `next` is RCV.NXT as it was at the start.
  unfoldable pub process_segment :
      Option MacAddress → Instant → SeqNumber → Segment → Connection t → Option (Connection t)
  unfolding out_of_order process_text finish
  process_segment link now next s c =
      if s.start == next then finish link now (process_text s c) else out_of_order link s c

  unfoldable pub continue :
      Option MacAddress
      → Instant
      → SeqNumber
      → Segment
      → Bool × Connection t
      → Option (Connection t)
  unfolding process_segment
  continue link now next s (true, c) = process_segment link now next s c
  continue link now next s (false, c) = some c

  -- An acceptable segment.
  unfoldable pub on_segment :
      Option MacAddress → Instant → SeqNumber → Segment → Connection t → Option (Connection t)
  unfolding process_ack continue
  on_segment link now next s c =
      if s.header.rst
      then some (set_state t closed c)
      else if s.header.syn
      then some (set_state t closed c)
      else if not s.header.ack
      then some c
      else (process_ack link now s.header c >>= continue link now next s)

  abbrev after_window : ControlBlock → SeqNumber
  after_window cb = add cb.receiver.receive_next (get_receive_window_size cb)

  -- `receive`; `none` is a panic or a failed assertion.
  unfoldable pub receive :
      Option MacAddress → Instant → TcpHeader → Buffer → Connection t → Option (Connection t)
  unfolding on_segment
  receive link now header buf c =
      let next = c.block.receiver.receive_next in
      check_segment next (after_window c.block) (segment_of header buf) >>= λ r. elim r [
        | refused ↦ if header.rst then some c else send_ack t link c
        | accepted s ↦ on_segment link now next s c
      ]
