-- ===== src/State/Deserialize.antt =====
-- The `Deserialize` implementations: each reads a value at the front of the buffer and removes
-- it with `adjust`. `none` is the panic of an index out of range.
use capybara_artifact.Base.{
  ℕ, zero, suc, ◌+◌, ◌==◌, if◌then◌else◌, ltb, Option, some, none, List, [], ◌∷◌, ◌>>=◌, length,
  get_elem?, take, read_u16, read_u32, adjust,
}
use capybara_artifact.Net.{SocketAddrV4}
use capybara_artifact.Seq.{SeqNumber}
use capybara_artifact.State.{
  Buffer, UnackedSegment, SenderState, ReceiverState, ControlBlockState, TcpState,
  MigratedApplicationState, none_state, migrated_in,
}

abbrev pub Reader : Type 0 → Type 0
Reader A = Buffer → Option (A × Buffer)

unfoldable pub deserialize_seq : Reader SeqNumber
deserialize_seq buf = do seq ← read_u32 0 buf; buf' ← adjust 4 buf; some (seq, buf')

-- `buffer.trim(buf.len() - len)` keeps the first `len` bytes. It panics if there are fewer: the
-- subtraction overflows, or wraps to a number above the length.
abbrev trim_to : ℕ → Buffer → Option Buffer
trim_to len buf = if ltb (length buf) len then none else some (take len buf)

unfoldable pub deserialize_buffer : Reader Buffer
deserialize_buffer buf = do
  len ← read_u32 0 buf
  rest ← adjust 4 buf
  buffer ← trim_to len rest
  buf' ← adjust len rest
  some (buffer, buf')

unfoldable pub deserialize_out_of_order : Reader (SeqNumber × Buffer)
deserialize_out_of_order buf = do
  seq ← read_u32 0 buf
  rest ← adjust 4 buf
  (buffer, buf') ← deserialize_buffer rest
  some ((seq, buffer), buf')

unfoldable pub deserialize_unacked : Reader UnackedSegment
deserialize_unacked buf = do
  (bytes, buf') ← deserialize_buffer buf
  some (record { bytes = bytes; initial_tx = none }, buf')

module _ {A : Type 0} (deserialize_from : Reader A) where
  -- `for _ in 0..size`
  unfoldable pub deserialize_elems : ℕ → Reader (List A)
  deserialize_elems zero buf = some ([], buf)
  deserialize_elems (suc n) buf = deserialize_from buf >>= λ (x, rest).
      deserialize_elems n rest >>= λ (xs, buf'). some (x ∷ xs, buf')

  unfoldable pub deserialize_deque : Reader (List A)
  deserialize_deque buf = do size ← read_u32 0 buf; rest ← adjust 4 buf; deserialize_elems size rest

  -- A discriminant other than 0 and 1 is a panic.
  unfoldable pub deserialize_discriminant : ℕ → Reader (Option A)
  deserialize_discriminant d rest =
      if d == 0
      then some (none, rest)
      else (if d == 1
          then (deserialize_from rest >>= λ (val, buf'). some (some val, buf'))
          else none)

  unfoldable pub deserialize_option : Reader (Option A)
  unfolding deserialize_discriminant
  deserialize_option buf = do
    discriminant ← get_elem? buf 0
    rest ← adjust 1 buf
    deserialize_discriminant discriminant rest

-- The socket address at index i.
abbrev pub read_socket_addr : ℕ → Buffer → Option SocketAddrV4
read_socket_addr i buf = do
  o0 ← get_elem? buf i
  o1 ← get_elem? buf (i + 1)
  o2 ← get_elem? buf (i + 2)
  o3 ← get_elem? buf (i + 3)
  port ← read_u16 (i + 4) buf
  some (record { ip = record { o0 = o0; o1 = o1; o2 = o2; o3 = o3 }; port = port })

unfoldable pub deserialize_receiver : Reader ReceiverState
deserialize_receiver buf = do
  reader_next ← read_u32 0 buf
  receive_next ← read_u32 4 buf
  rest ← adjust 8 buf
  (recv_queue, buf') ← deserialize_deque deserialize_buffer rest
  some (
    record { reader_next = reader_next; receive_next = receive_next; recv_queue = recv_queue },
    buf',
  )

unfoldable pub deserialize_sender : Reader SenderState
deserialize_sender buf = do
  unsent_seq_no ← read_u32 0 buf
  send_unacked ← read_u32 4 buf
  send_next ← read_u32 8 buf
  send_window ← read_u32 12 buf
  last_update_seq ← read_u32 16 buf
  last_update_ack ← read_u32 20 buf
  mss ← read_u32 24 buf
  window_scale ← get_elem? buf 28
  rest ← adjust 29 buf
  (unacked_queue, rest') ← deserialize_deque deserialize_unacked rest
  (unsent_queue, buf') ← deserialize_deque deserialize_buffer rest'
  some (
    record {
      unsent_seq_no = unsent_seq_no;
      send_unacked = send_unacked;
      send_next = send_next;
      send_window = send_window;
      send_window_last_update_seq = last_update_seq;
      send_window_last_update_ack = last_update_ack;
      mss = mss;
      window_scale = window_scale;
      unacked_queue = unacked_queue;
      unsent_queue = unsent_queue;
    },
    buf',
  )

unfoldable pub deserialize_control_block : Reader ControlBlockState
deserialize_control_block buf = do
  local ← read_socket_addr 0 buf
  remote ← read_socket_addr 6 buf
  receive_buffer_size ← read_u32 12 buf
  window_scale ← read_u32 16 buf
  rest ← adjust 20 buf
  (out_of_order_fin, rest1) ← deserialize_option deserialize_seq rest
  (out_of_order_queue, rest2) ← deserialize_deque deserialize_out_of_order rest1
  (receiver, rest3) ← deserialize_receiver rest2
  (sender, buf') ← deserialize_sender rest3
  some (
    record {
      local = local;
      remote = remote;
      receive_buffer_size = receive_buffer_size;
      window_scale = window_scale;
      out_of_order_fin = out_of_order_fin;
      out_of_order_queue = out_of_order_queue;
      receiver = receiver;
      sender = sender;
    },
    buf',
  )

abbrev pub deserialize_app : ℕ → Buffer → Option MigratedApplicationState
deserialize_app flag buf =
    if flag == 0 then some none_state else (adjust 1 buf >>= λ rest. some (migrated_in rest))

-- `TcpState::deserialize`: the control block, a byte, and the application's bytes.
unfoldable pub restore : ControlBlockState → Buffer → Option TcpState
restore cb rest = do
  flag ← get_elem? rest 0
  app_state ← deserialize_app flag rest
  some (record { cb = cb; app_state = app_state })

unfoldable pub deserialize : Buffer → Option TcpState
unfolding restore
deserialize buf = do (cb, rest) ← deserialize_control_block buf; restore cb rest
