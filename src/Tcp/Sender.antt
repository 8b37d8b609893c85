-- ===== src/Tcp/Sender.antt =====
-- inetstack/protocols/tcp/established/sender.rs: the sender, and how it goes into and comes out of
-- the state that migrates.
pub mod Queues
use capybara_artifact.Base.{ℕ, ◌^◌, ltb, if◌then◌else◌, Option, some, none, List, []}
use capybara_artifact.Seq.{SeqNumber}
use capybara_artifact.State.{Buffer, UnackedSegment, SenderState}

-- The watched values are their values.
pub record Sender : Type 0 where
  pub send_unacked : SeqNumber
  pub unacked_queue : List UnackedSegment
  pub send_next : SeqNumber
  pub unsent_queue : List Buffer
  pub unsent_seq_no : SeqNumber
  pub send_window : ℕ
  pub send_window_last_update_seq : SeqNumber
  pub send_window_last_update_ack : SeqNumber
  pub window_scale : ℕ
  pub mss : ℕ

unfoldable pub new : SeqNumber → ℕ → ℕ → ℕ → Sender
new seq_no send_window window_scale mss = record {
  send_unacked = seq_no;
  unacked_queue = [];
  send_next = seq_no;
  unsent_queue = [];
  unsent_seq_no = seq_no;
  send_window = send_window;
  send_window_last_update_seq = seq_no;
  send_window_last_update_ack = seq_no;
  window_scale = window_scale;
  mss = mss;
}

abbrev pub sender_state : Sender → SenderState
sender_state s = record {
  unsent_seq_no = s.unsent_seq_no;
  send_unacked = s.send_unacked;
  send_next = s.send_next;
  send_window = s.send_window;
  send_window_last_update_seq = s.send_window_last_update_seq;
  send_window_last_update_ack = s.send_window_last_update_ack;
  mss = s.mss;
  window_scale = s.window_scale;
  unacked_queue = s.unacked_queue;
  unsent_queue = s.unsent_queue;
}

-- The queues are taken out of the sender. `none` is `expect("MSS too big")`.
unfoldable pub to_sender_state : Sender → Option (SenderState × Sender)
to_sender_state s =
    if ltb s.mss (2 ^ 32)
    then some (sender_state s, record s { unacked_queue = []; unsent_queue = [] })
    else none

unfoldable pub from_sender_state : SenderState → Sender
from_sender_state s = record {
  send_unacked = s.send_unacked;
  unacked_queue = s.unacked_queue;
  send_next = s.send_next;
  unsent_queue = s.unsent_queue;
  unsent_seq_no = s.unsent_seq_no;
  send_window = s.send_window;
  send_window_last_update_seq = s.send_window_last_update_seq;
  send_window_last_update_ack = s.send_window_last_update_ack;
  window_scale = s.window_scale;
  mss = s.mss;
}
