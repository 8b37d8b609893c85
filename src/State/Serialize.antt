-- ===== src/State/Serialize.antt =====
-- The `Serialize` implementations of established/ctrlblk.rs, established/sender.rs and
-- tcp/peer.rs: each writes a value to the front of a slice and returns the rest.
use capybara_artifact.Base.{
  ℕ, ◌^◌, ltb, if◌then◌else◌, Option, some, none, List, [], ◌∷◌, ◌++◌, length, to_be2, to_be4,
}
use capybara_artifact.Net.{SocketAddrV4}
use capybara_artifact.Seq.{SeqNumber}
use capybara_artifact.State.{Buffer, UnackedSegment, SenderState, ReceiverState, ControlBlockState}
use capybara_artifact.State.Writer.{Writer, ◌then◌, put}

-- `u32::try_from(n).expect(…)`, written in network order: a panic from 2 ^ 32 on.
unfoldable pub put_len : ℕ → Writer
put_len n o = if ltb n (2 ^ 32) then put (to_be4 n) o else none

unfoldable pub serialize_seq : SeqNumber → Writer
serialize_seq s = put (to_be4 s)

unfoldable pub serialize_buffer : Buffer → Writer
serialize_buffer b = put_len (length b) then put b

unfoldable pub serialize_out_of_order : SeqNumber × Buffer → Writer
serialize_out_of_order (s, b) = put (to_be4 s) then serialize_buffer b

unfoldable pub serialize_unacked : UnackedSegment → Writer
serialize_unacked u = serialize_buffer u.bytes

-- `impl<T: Serialize> Serialize for VecDeque<T>` and `for Option<T>`
module _ {A : Type 0} (serialize : A → Writer) where
  unfoldable pub serialize_elems : List A → Writer
  serialize_elems [] = some
  serialize_elems (x ∷ xs) = serialize x then serialize_elems xs

  unfoldable pub serialize_deque : List A → Writer
  serialize_deque xs = put_len (length xs) then serialize_elems xs

  unfoldable pub serialize_option : Option A → Writer
  serialize_option none = put (0 ∷ [])
  serialize_option (some x) = put (1 ∷ []) then serialize x

-- The four octets and the port, in six bytes.
abbrev pub socket_addr_bytes : SocketAddrV4 → List ℕ
socket_addr_bytes s = s.ip.o0 ∷ s.ip.o1 ∷ s.ip.o2 ∷ s.ip.o3 ∷ to_be2 s.port

-- The fixed part of each structure, from its first byte on, then its queues.
abbrev pub sender_fixed : SenderState → List ℕ
sender_fixed s =
    to_be4 s.unsent_seq_no
    ++ to_be4 s.send_unacked
    ++ to_be4 s.send_next
    ++ to_be4 s.send_window
    ++ to_be4 s.send_window_last_update_seq
    ++ to_be4 s.send_window_last_update_ack
    ++ to_be4 s.mss
    ++ (s.window_scale ∷ [])

unfoldable pub serialize_sender : SenderState → Writer
serialize_sender s =
    put (sender_fixed s)
    then serialize_deque serialize_unacked s.unacked_queue
    then serialize_deque serialize_buffer s.unsent_queue

abbrev pub receiver_fixed : ReceiverState → List ℕ
receiver_fixed r = to_be4 r.reader_next ++ to_be4 r.receive_next

unfoldable pub serialize_receiver : ReceiverState → Writer
serialize_receiver r = put (receiver_fixed r) then serialize_deque serialize_buffer r.recv_queue

abbrev pub control_block_fixed : ControlBlockState → List ℕ
control_block_fixed c =
    socket_addr_bytes c.local
    ++ socket_addr_bytes c.remote
    ++ to_be4 c.receive_buffer_size
    ++ to_be4 c.window_scale

unfoldable pub serialize_control_block : ControlBlockState → Writer
serialize_control_block c =
    put (control_block_fixed c)
    then serialize_option serialize_seq c.out_of_order_fin
    then serialize_deque serialize_out_of_order c.out_of_order_queue
    then serialize_receiver c.receiver
    then serialize_sender c.sender
