-- ===== src/State/Encode.antt =====
-- The codecs of the structures: the receiver's, the sender's and the control block's state.
pub mod Structs
pub mod Block
pub mod Size
use capybara_artifact.Base.{
  ℕ, ◌≡◌, refl, Option, some, none, List, [], ◌∷◌, map, IsByte, IsU32, length, All,
}
use capybara_artifact.Net.{SocketAddrV4, IsSocketAddr}
use capybara_artifact.Seq.{SeqNumber}
use capybara_artifact.State.{Buffer, UnackedSegment, SenderState, ReceiverState, ControlBlockState}

-- A queue of buffers that the 32-bit length fields can describe.
abbrev pub IsShort : Buffer → Type 0
IsShort b = IsU32 (length b)

pub record IsQueue {A : Type 0} (bytes : A → Buffer) (xs : List A) : Type 0 where
  pub count : IsU32 (length xs)
  pub short : All (λ x. IsShort (bytes x)) xs

-- The ranges of the Rust types, and queues that are not beyond 2 ^ 32 in number and length.
pub record IsReceiverState (r : ReceiverState) : Type 0 where
  pub reader_next : IsU32 r.reader_next
  pub receive_next : IsU32 r.receive_next
  pub recv_queue : IsQueue (λ b. b) r.recv_queue

pub record IsSenderState (s : SenderState) : Type 0 where
  pub unsent_seq_no : IsU32 s.unsent_seq_no
  pub send_unacked : IsU32 s.send_unacked
  pub send_next : IsU32 s.send_next
  pub send_window : IsU32 s.send_window
  pub send_window_last_update_seq : IsU32 s.send_window_last_update_seq
  pub send_window_last_update_ack : IsU32 s.send_window_last_update_ack
  pub mss : IsU32 s.mss
  pub unacked_queue : IsQueue (λ u. u.bytes) s.unacked_queue
  pub unsent_queue : IsQueue (λ b. b) s.unsent_queue

abbrev pub IsFin : Option SeqNumber → Type 0
IsFin none = Unit {0}
IsFin (some s) = IsU32 s

pub record IsControlBlockState (c : ControlBlockState) : Type 0 where
  pub local : IsSocketAddr c.local
  pub remote : IsSocketAddr c.remote
  pub receive_buffer_size : IsU32 c.receive_buffer_size
  pub window_scale : IsU32 c.window_scale
  pub out_of_order_fin : IsFin c.out_of_order_fin
  pub out_of_order_count : IsU32 (length c.out_of_order_queue)
  pub out_of_order_queue : All (λ e. IsU32 (e.0) × IsShort (e.1)) c.out_of_order_queue
  pub receiver : IsReceiverState c.receiver
  pub sender : IsSenderState c.sender

-- What the other server receives: all of it but the transmission times.
abbrev pub forget_tx : UnackedSegment → UnackedSegment
forget_tx u = record u { initial_tx = none }

abbrev pub received_sender : SenderState → SenderState
received_sender s = record s { unacked_queue = map forget_tx s.unacked_queue }

abbrev pub received : ControlBlockState → ControlBlockState
received c = record c { sender = received_sender c.sender }
