-- ===== src/State.antt =====
-- The TCP state that a migration moves between servers: TcpState of
-- inetstack/protocols/tcp/peer.rs, with the parts that established/ctrlblk.rs and
-- established/sender.rs put into it. A `Buffer` is its visible bytes, an `Instant` a number.
pub mod Writer
pub mod Serialize
pub mod Deserialize
pub mod Size
pub mod Codec
pub mod Encode
pub mod RoundTrip
use capybara_artifact.Base.{ℕ, List, Option}
use capybara_artifact.Net.{SocketAddrV4}
use capybara_artifact.Seq.{SeqNumber}

abbrev pub Buffer : Type 0
Buffer = List ℕ

abbrev pub Instant : Type 0
Instant = ℕ

pub record UnackedSegment : Type 0 where
  pub bytes : Buffer
  pub initial_tx : Option Instant

pub record SenderState : Type 0 where
  pub unsent_seq_no : SeqNumber
  pub send_unacked : SeqNumber
  pub send_next : SeqNumber
  pub send_window : ℕ
  pub send_window_last_update_seq : SeqNumber
  pub send_window_last_update_ack : SeqNumber
  pub mss : ℕ
  pub window_scale : ℕ
  pub unacked_queue : List UnackedSegment
  pub unsent_queue : List Buffer

pub record ReceiverState : Type 0 where
  pub reader_next : SeqNumber
  pub receive_next : SeqNumber
  pub recv_queue : List Buffer

pub record ControlBlockState : Type 0 where
  pub local : SocketAddrV4
  pub remote : SocketAddrV4
  pub receive_buffer_size : ℕ
  pub window_scale : ℕ
  pub out_of_order_fin : Option SeqNumber
  pub out_of_order_queue : List (SeqNumber × Buffer)
  pub receiver : ReceiverState
  pub sender : SenderState

-- The trait object `Rc<RefCell<dyn ApplicationState>>`, which the application implements: the
-- size that it reports, and the bytes that its `serialize` writes at the front of a slice.
pub record ApplicationState : Type 0 where
  pub serialized_size : ℕ
  pub bytes : Buffer

pub data MigratedApplicationState : Type 0 where
  none_state : MigratedApplicationState
  registered : ApplicationState → MigratedApplicationState
  migrated_in : Buffer → MigratedApplicationState

pub record TcpState : Type 0 where
  pub cb : ControlBlockState
  pub app_state : MigratedApplicationState

-- `TcpState::new`, `connection`, `set_local`, `add_app_state` and `recv_queue_len`
abbrev pub new : ControlBlockState → TcpState
new cb = record { cb = cb; app_state = none_state }

abbrev pub remote : TcpState → SocketAddrV4
remote s = s.cb.remote

abbrev pub connection : TcpState → SocketAddrV4 × SocketAddrV4
connection s = (s.cb.local, s.cb.remote)

abbrev pub set_local : SocketAddrV4 → TcpState → TcpState
set_local a s = record s { cb = record (s.cb) { local = a } }

abbrev pub add_app_state : ApplicationState → TcpState → TcpState
add_app_state a s = record s { app_state = registered a }
