-- ===== src/Tests/Connection.antt =====
-- The theorems on a connection as a whole, on the stream 0, 1, 2, … with three bytes outstanding in
-- the other direction.
use capybara_artifact.Base.{
  ℕ, ◌≡◌, ◌≢◌, ◌^◌, ◌⊎◌, refl, inl, true, false, some, none, [], ◌∷◌, Gives, arith,
}
use capybara_artifact.Seq.{add, sub, lt, le, ge}
use capybara_artifact.Tcp.Header.{TcpHeader}
use capybara_artifact.Tcp.Sender.{Sender}
use capybara_artifact.Tcp.Sender.Queues.{remove_acknowledged_data}
use capybara_artifact.Tcp.ControlBlock.{ControlBlock, get_receive_window_size, closed, fin_wait1}
use capybara_artifact.Tcp.ControlBlock.Stream.{slice, StoredAt}
use capybara_artifact.Tcp.Acceptance.{Segment, segment_of, refused, accepted, check_segment}
use capybara_artifact.Tcp.Acceptance.Window.{
  Carries, InWindow, Outside, segment_of-Carries, check-InWindow,
}
use capybara_artifact.Tcp.Connection.Defs.{Timing, Connection, close}
use capybara_artifact.Tcp.Connection.Receive.{receive}
use capybara_artifact.Tcp.Connection.Steps.{Step, closes, Allowed, Step-Allowed}
use capybara_artifact.Tcp.Connection.Stream.{Healthy, After, receive-Healthy}
use capybara_artifact.Tcp.Connection.Delivery.{reached, receive-delivers}
use capybara_artifact.Tests.Samples.{tcp_header, origin_addr, client_addr}
use capybara_artifact.Tests.Tcp.{stream, base, control_block}
use mathlib.Core.List.{flatten}

-- A timeout of 100, and no congestion control.
abbrev pub timing : Timing
timing = record {
  RtoCalculator = ℕ;
  rto_start = 1000;
  add_sample = λ rtt r. r;
  rto = λ r. r;
  CongestionControl = Unit {0};
  cc_start = λ mss seq_no. tt;
  on_ack_received = λ rto una next ack c. c;
  on_cwnd_check_before_send = λ c. c;
  get_cwnd = λ c. 65535;
  get_limited_transmit_cwnd_increase = λ c. 0;
  on_send = λ rto n c. c;
}

abbrev sender : Sender
sender = record {
  send_unacked = 1000;
  unacked_queue = record { bytes = 1 ∷ 2 ∷ 3 ∷ []; initial_tx = some 5 } ∷ [];
  send_next = 1003;
  unsent_queue = [];
  unsent_seq_no = 1003;
  send_window = 1000;
  send_window_last_update_seq = 4294967292;
  send_window_last_update_ack = 1000;
  window_scale = 0;
  mss = 1460;
}

abbrev block : ControlBlock
block = record control_block { sender = sender; receive_buffer_size = 100 }

abbrev connection : Connection timing
connection = record {
  block = block;
  ack_delay_timeout = 10;
  ack_deadline = none;
  retransmit_deadline = some 200;
  rto_calculator = 100;
  cc = tt;
  sent = [];
}

early : StoredAt stream base 0 100 (4294967295, 5 ∷ 6 ∷ 7 ∷ [])
unfolding add
early = record { pos = 5; start = refl; bytes = refl; above = omega arith; below = omega arith }

block-Healthy : Healthy stream base 0 0 2 block
unfolding add flatten
block-Healthy = record {
  reads = record {
    receiver = record { reader = refl; next = refl; queue = refl };
    stored = (early, tt);
    low = omega arith;
    high = omega arith;
  };
  stored = (record { at = early; filled = omega arith }, tt);
  no_fin = refl;
  scaled = omega arith;
  near = omega arith;
  sound = record {
    fin_last = (inl (omega arith), tt);
    span = refl;
    bounded = omega arith;
    word = omega arith;
  };
}

-- A segment of bytes 1 to 6: byte 1 is there, 5 and 6 are in the store. It acknowledges two bytes.
abbrev header : TcpHeader
header = record tcp_header { seq_num = 4294967291; ack_num = 1002 }

at_one : header.seq_num ≡ add base 1
unfolding add
at_one = refl

not_far : 1002 ≢ add 1000 (2 ^ 31)
unfolding add
not_far e = omega arith

receive-Healthy_example :
    Gives
      (λ c'. After stream base 0 0 2 c'.block)
      (receive timing (some 7) 9 header (slice stream 1 6) connection)
receive-Healthy_example =
    receive-Healthy stream base 0 0 timing (some 7) 9 2 1 6 header connection block-Healthy at_one
      refl refl (omega arith) not_far (omega arith) (omega arith) (omega arith)

was_sent : le 1002 1003 ≡ true
unfolding le sub
was_sent = refl

-- Bytes 2 to 4 fill the hole before byte 5.
receive-delivers_example :
    Gives
      (λ c'. After stream base 0 0 (reached stream base 0 0 timing 1 6 100) c'.block)
      (receive timing (some 7) 9 header (slice stream 1 6) connection)
receive-delivers_example =
    receive-delivers stream base 0 0 timing (some 7) 9 2 1 6 header connection block-Healthy refl
      at_one refl refl refl refl (omega arith) not_far was_sent (omega arith) (omega arith)
      (omega arith) (omega arith) (omega arith)

segment-Carries : Carries stream base 1 6 (segment_of header (slice stream 1 6))
segment-Carries = segment_of-Carries stream base 1 6 header at_one refl (omega arith)

-- Of its six bytes, those from byte 2 on are in the window that ends at byte 5.
check-InWindow_example :
    ((check_segment (add base 2) (add base 5) (segment_of header (slice stream 1 6)) ≡ some refused)
      × Outside 1 ((segment_of header (slice stream 1 6)).len) 2 5)
    ⊎ ((s' : Segment) × (check_segment
            (add base 2)
            (add base 5)
            (segment_of header (slice stream 1 6))
          ≡ some (accepted s'))
        × InWindow stream base 1 2 5 (segment_of header (slice stream 1 6)) s')
unfolding segment_of
check-InWindow_example =
    check-InWindow stream base 0 100 (omega arith) 1 6 2 5 (segment_of header (slice stream 1 6))
      segment-Carries (omega arith) (omega arith) (omega arith) (omega arith) (omega arith)

-- The user closes: a FIN goes out at once, behind the three bytes.
abbrev fin_header : TcpHeader
fin_header = record {
  src_port = origin_addr.port;
  dst_port = client_addr.port;
  seq_num = 1003;
  ack_num = 4294967292;
  ns = false;
  cwr = false;
  ece = false;
  urg = false;
  ack = true;
  psh = false;
  rst = false;
  syn = false;
  fin = true;
  window_size = 98;
  urgent_pointer = 0;
  option_list = [];
}

abbrev closing_connection : Connection timing
closing_connection = record connection {
  block = record block {
    state = fin_wait1;
    user_is_done_sending = true;
    sender = record sender {
      send_next = 1004;
      unsent_seq_no = 1004;
      unacked_queue =
          record { bytes = 1 ∷ 2 ∷ 3 ∷ []; initial_tx = some 5 }
          ∷ record { bytes = []; initial_tx = some 9 }
          ∷ [];
    };
  };
  sent = record { remote_link_addr = 7; tcp_hdr = fin_header; body = some [] } ∷ [];
}

closes_now : close timing (some 7) 9 connection ≡ some closing_connection
unfolding close sub add
closes_now = refl

abbrev closes_connection : Step timing connection closing_connection
closes_connection = closes (some 7) 9 closes_now

Step-Allowed_example : Allowed timing closes_connection
Step-Allowed_example = Step-Allowed timing closes_connection

-- With nothing outstanding, an acknowledgement that is exactly 2 ^ 31 ahead counts as one of new data
-- that was sent.
abbrev idle : Connection timing
idle = record connection {
  block = record block { sender = record sender { unacked_queue = []; send_next = 1000 } };
}

panics_far_ahead :
    receive timing
      (some 7)
      9
      (record tcp_header { seq_num = 4294967292; ack_num = 2147484648 })
      []
      idle
    ≡ none
unfolding receive check_segment segment_of lt le ge sub add get_receive_window_size
    remove_acknowledged_data
panics_far_ahead = refl

-- A full receive buffer, and a segment without data in its place: the assertion on the segment's end
-- fails.
panics_full :
    receive timing
      (some 7)
      9
      (record tcp_header { seq_num = 4294967292; ack_num = 1000 })
      []
      (record connection { block = record block { receive_buffer_size = 2 } })
    ≡ none
unfolding receive check_segment segment_of lt le ge sub add get_receive_window_size
panics_full = refl

-- A FIN on a closed connection.
panics_closed :
    receive timing
      (some 7)
      9
      (record tcp_header { seq_num = 4294967292; ack_num = 1000; fin = true })
      []
      (record connection { block = record block { state = closed } })
    ≡ none
unfolding receive check_segment segment_of lt le ge sub add get_receive_window_size
panics_closed = refl

-- A FIN that is queued takes no sequence number, so that it does not count as unsent.
abbrev crowded : Connection timing
crowded = record connection {
  block = record block {
    sender = record sender { unsent_queue = (4 ∷ []) ∷ []; unsent_seq_no = 1004 };
  };
}

abbrev queued : Connection timing
queued = record connection {
  block = record block {
    user_is_done_sending = true;
    sender = record sender { unsent_queue = (4 ∷ []) ∷ [] ∷ []; unsent_seq_no = 1004 };
  };
}

closes_later : close timing (some 7) 9 crowded ≡ some queued
unfolding close sub add
closes_later = refl
