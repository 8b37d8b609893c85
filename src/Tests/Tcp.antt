-- ===== src/Tests/Tcp.antt =====
-- The theorems on receiving data, on the stream 0, 1, 2, … from sequence number 4294967290 on.
use capybara_artifact.Base.{
  ℕ, ◌+◌, ◌≡◌, ◌≢◌, err, length, refl, some, none, [], ◌∷◌, arith, true, false, ◌++◌, Result, ok,
  List,
}
use capybara_artifact.Seq.{add, sub, lt, le}
use capybara_artifact.State.{Buffer}
use capybara_artifact.Tcp.Sender.{from_sender_state}
use capybara_artifact.Tcp.ControlBlock.{
  established, ControlBlock, receive_data, poll_recv, store_out_of_order_segment,
}
use capybara_artifact.Tcp.ControlBlock.Stream.{slice, StoredAt}
use capybara_artifact.Tcp.ControlBlock.InOrder.{Moves, Reads, receive_data-Reads, poll_recv-Reads}
use capybara_artifact.State.Encode.{IsControlBlockState}
use capybara_artifact.Tcp.ControlBlock.Migrate.{state_of, migrate, resumed, migrate-resumed}
use capybara_artifact.Tcp.Header.{
  TcpHeader, no_operation, maximum_segment_size, window_scale, selective_acknowledgement, TcpFail,
  unfinished, option_size, options_size, compute_size, serialize,
}
use capybara_artifact.Tcp.Header.Parse.{parse, parse_options}
use capybara_artifact.Tcp.Header.Fuel.{parse_options-fuel}
use capybara_artifact.Tcp.Header.RoundTrip.{IsTcpHeader, parse-tcp_header}
use capybara_artifact.Tcp.Header.Total.{Accounts, parse_tcp-total}
use capybara_artifact.Tests.Samples.{
  control_block_state-valid, origin_addr, client_addr, sender_state, ip_header, tcp_header,
}
use mathlib.Core.List.{flatten}

abbrev pub stream : ℕ → ℕ
stream p = p

abbrev pub base : ℕ
base = 4294967290

-- Bytes 0 and 1 are unread, and 5 to 7 have arrived early.
abbrev pub control_block : ControlBlock
control_block = record {
  local = origin_addr;
  remote = client_addr;
  sender = from_sender_state sender_state;
  state = established;
  user_is_done_sending = false;
  receive_buffer_size = 65535;
  window_scale = 0;
  out_of_order = (4294967295, 5 ∷ 6 ∷ 7 ∷ []) ∷ [];
  out_of_order_fin = none;
  receiver = record {
    reader_next = 4294967290;
    receive_next = 4294967292;
    recv_queue = (0 ∷ 1 ∷ []) ∷ [];
  };
}

early : StoredAt stream base 0 100 (4294967295, 5 ∷ 6 ∷ 7 ∷ [])
unfolding add
early = record { pos = 5; start = refl; bytes = refl; above = omega arith; below = omega arith }

control_block-Reads : Reads stream base 0 100 0 2 control_block
unfolding add flatten
control_block-Reads = record {
  receiver = record { reader = refl; next = refl; queue = refl };
  stored = (early, tt);
  low = omega arith;
  high = omega arith;
}

-- Bytes 2 to 4 fill the hole, and the early ones follow.
receive_data-Reads_example :
    (k' : ℕ) × Moves control_block.out_of_order
      (((receive_data 4294967292 (2 ∷ 3 ∷ 4 ∷ []) control_block).1).out_of_order)
      (2 + length {A = ℕ} (2 ∷ 3 ∷ 4 ∷ []))
      k'
      ((((receive_data 4294967292 (2 ∷ 3 ∷ 4 ∷ []) control_block).1).receiver).receive_next)
    × Reads stream base 0 100 0 k' ((receive_data 4294967292 (2 ∷ 3 ∷ 4 ∷ []) control_block).1)
receive_data-Reads_example =
    receive_data-Reads stream base 0 100 0 2 4294967292 (2 ∷ 3 ∷ 4 ∷ []) control_block
      control_block-Reads refl (omega arith) (omega arith)

abbrev after_read : ControlBlock
after_read = record control_block {
  receiver = record { reader_next = 4294967292; receive_next = 4294967292; recv_queue = [] };
}

reads_first : poll_recv control_block ≡ some (0 ∷ 1 ∷ [], after_read)
unfolding poll_recv add
reads_first = refl

poll_recv-Reads_example :
    (k' : ℕ) × (2 ≡ 2 + k')
    × (◌≡◌ {A = Buffer} (0 ∷ 1 ∷ []) (slice stream 0 2))
    × Reads stream base 0 100 (0 + 2) k' after_read
poll_recv-Reads_example =
    poll_recv-Reads stream base 0 100 0 2 control_block after_read (0 ∷ 1 ∷ []) control_block-Reads
      reads_first

-- Bytes 6 to 9 overlap the end of what is stored. One byte is stored twice.
overlapping : StoredAt stream base 0 100 (0, 6 ∷ 7 ∷ 8 ∷ 9 ∷ [])
unfolding add
overlapping = record {
  pos = 6;
  start = refl;
  bytes = refl;
  above = omega arith;
  below = omega arith;
}

abbrev after_store : ControlBlock
after_store = record control_block {
  out_of_order = (4294967295, 5 ∷ 6 ∷ 7 ∷ []) ∷ (1, 7 ∷ 8 ∷ 9 ∷ []) ∷ [];
}

stores_overlap :
    store_out_of_order_segment 0 3 (6 ∷ 7 ∷ 8 ∷ 9 ∷ []) control_block ≡ some after_store
unfolding store_out_of_order_segment lt le sub add
stores_overlap = refl

-- A segment cut at its end goes to the end of the store, behind entries that come after it.
abbrev two_stored : ControlBlock
two_stored = record control_block {
  out_of_order = (4294967295, 5 ∷ 6 ∷ []) ∷ (4, 10 ∷ 11 ∷ []) ∷ [];
}

stores_unsorted :
    store_out_of_order_segment 4294967294 4294967295 (4 ∷ 5 ∷ []) two_stored
    ≡ some (record control_block {
      out_of_order = (4294967295, 5 ∷ 6 ∷ []) ∷ (4, 10 ∷ 11 ∷ []) ∷ (4294967294, 4 ∷ []) ∷ [];
    })
unfolding store_out_of_order_segment lt le sub add
stores_unsorted = refl

abbrev syn_header : TcpHeader
syn_header = record tcp_header {
  syn = true;
  ns = true;
  option_list =
      maximum_segment_size 1460
      ∷ no_operation
      ∷ window_scale 7
      ∷ selective_acknowledgement ((1, 4294967295) ∷ [])
      ∷ [];
}

syn_header-IsTcpHeader : IsTcpHeader syn_header
unfolding compute_size options_size option_size
syn_header-IsTcpHeader = record {
  src_port = omega arith;
  dst_port = omega arith;
  seq_num = omega arith;
  ack_num = omega arith;
  window_size = omega arith;
  urgent_pointer = omega arith;
  options = (
    omega arith,
    (tt, (omega arith, ((omega arith, omega arith, ((omega arith, omega arith), tt)), tt))),
  );
  few = omega arith;
  fits = omega arith;
}

-- The no-operation option is gone.
parse-tcp_header_example :
    parse ip_header
      (serialize syn_header ip_header (9 ∷ 8 ∷ 7 ∷ []) false ++ (9 ∷ 8 ∷ 7 ∷ []))
      false
    ≡ some (
        ok (
          record syn_header {
            option_list =
                maximum_segment_size 1460
                ∷ window_scale 7
                ∷ selective_acknowledgement ((1, 4294967295) ∷ [])
                ∷ [];
          },
          9 ∷ 8 ∷ 7 ∷ [],
        ))
parse-tcp_header_example =
    parse-tcp_header syn_header ip_header (9 ∷ 8 ∷ 7 ∷ []) false syn_header-IsTcpHeader

parse_tcp-total_example :
    (r : Result TcpFail (TcpHeader × Buffer)) × (parse ip_header
        (serialize syn_header ip_header [] true ++ (9 ∷ []))
        false
      ≡ some r)
    × Accounts ip_header (serialize syn_header ip_header [] true ++ (9 ∷ [])) false r
parse_tcp-total_example =
    parse_tcp-total ip_header (serialize syn_header ip_header [] true ++ (9 ∷ [])) false

parse_options-fuel_example :
    (parse_options 4 [] (3 ∷ 3 ∷ 7 ∷ 1 ∷ []) ≢ err unfinished)
    × (parse_options 4 [] (3 ∷ 3 ∷ 7 ∷ 1 ∷ []) ≡ parse_options 40 [] (3 ∷ 3 ∷ 7 ∷ 1 ∷ []))
parse_options-fuel_example =
    parse_options-fuel 4 40 [] (3 ∷ 3 ∷ 7 ∷ 1 ∷ []) (omega arith) (omega arith)

control_block-valid : IsControlBlockState (state_of control_block)
unfolding from_sender_state
control_block-valid = record {
  local = control_block_state-valid.local;
  remote = control_block_state-valid.remote;
  receive_buffer_size = omega arith;
  window_scale = omega arith;
  out_of_order_fin = tt;
  out_of_order_count = omega arith;
  out_of_order_queue = ((omega arith, omega arith), tt);
  receiver = record {
    reader_next = omega arith;
    receive_next = omega arith;
    recv_queue = record { count = omega arith; short = (omega arith, tt) };
  };
  sender = control_block_state-valid.sender;
}

migrate-resumed_example : migrate control_block ≡ some (resumed control_block)
migrate-resumed_example = migrate-resumed control_block control_block-valid
