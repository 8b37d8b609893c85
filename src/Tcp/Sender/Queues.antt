-- ===== src/Tcp/Sender/Queues.antt =====
-- inetstack/protocols/tcp/established/sender.rs: the queues of the sender, of data that is not
-- acknowledged and of data that is not sent, and the send window.
pub mod Acknowledged
pub mod Unsent
use capybara_artifact.Base.{
  ℕ, ◌+◌, ◌-◌, ◌*◌, ◌^◌, ◌%◌, ◌==◌, ltb, Bool, true, false, ◌&&◌, ◌||◌, if◌then◌else◌, Option, some,
  none, List, [], ◌∷◌, ◌++◌, ◌>>=◌, length, adjust,
}
use capybara_artifact.Seq.{lt, le}
use capybara_artifact.State.{Buffer, Instant, UnackedSegment}
use capybara_artifact.Tcp.Header.{TcpHeader}
use capybara_artifact.Tcp.Sender.{Sender}
use capybara_artifact.Tcp.ControlBlock.{trim}

unfoldable pub push_unacked_segment : UnackedSegment → Sender → Sender
push_unacked_segment segment s = record s { unacked_queue = s.unacked_queue ++ (segment ∷ []) }

-- The sample for the retransmission timeout; the difference of two instants stops at 0.
abbrev pub rto_sample : Instant → Option Instant → List ℕ
rto_sample now none = []
rto_sample now (some initial_tx) = (now - initial_tx) ∷ []

-- The loop of `remove_acknowledged_data`: the queue that is left and the samples it takes. `none` is
-- a failed assertion: acknowledged data that the queue does not hold.
unfoldable pub acknowledge :
    Instant → ℕ → List UnackedSegment → Option (List UnackedSegment × List ℕ)
acknowledge now n [] = if n == 0 then some ([], []) else none
acknowledge now n (segment ∷ q) =
    let sample = rto_sample now segment.initial_tx in
    let rest = acknowledge now (n - length segment.bytes) q in
    if n == 0
    then some (segment ∷ q, [])
    else if ltb n (length segment.bytes)
    then (do
      bytes ← adjust n segment.bytes
      some (record { bytes = bytes; initial_tx = none } ∷ q, sample))
    else if length segment.bytes == 0
    then (if n == 1 then some (q, sample) else none)
    else (do (left, samples) ← rest; some (left, sample ++ samples))

unfoldable pub remove_acknowledged_data : ℕ → Instant → Sender → Option (Sender × List ℕ)
unfolding acknowledge
remove_acknowledged_data bytes_acknowledged now s = do
  (left, samples) ← acknowledge now bytes_acknowledged s.unacked_queue
  some (record s { unacked_queue = left }, samples)

-- What `pop_unsent` takes from a buffer at the front: the bytes to send, what stays in the queue,
-- and whether to set PSH.
unfoldable pub split_unsent : ℕ → Buffer → List Buffer → Option ((Buffer × Bool) × List Buffer)
split_unsent max_bytes buf q =
    if ltb max_bytes (length buf)
    then (do
      left ← adjust max_bytes buf
      sent ← trim (length buf - max_bytes) buf
      some ((sent, false), left ∷ q))
    else some ((buf, true), q)

-- The inner option is the code's; the outer one is `none` where it panics.
unfoldable pub pop_unsent : ℕ → Sender → Option (Option (Buffer × Bool) × Sender)
unfolding split_unsent
pop_unsent max_bytes s = elim s.unsent_queue [
  | [] ↦ some (none, s)
  | buf ∷ q ↦ do
    (out, left) ← split_unsent max_bytes buf q
    some (some out, record s { unsent_queue = left })
]

-- Panics where the buffer at the front is empty.
unfoldable pub pop_one_unsent_byte : Sender → Option (Option Buffer × Sender)
pop_one_unsent_byte s = elim s.unsent_queue [
  | [] ↦ some (none, s)
  | buf ∷ q ↦ do
    left ← adjust 1 buf
    sent ← trim (length buf - 1) buf
    some (some sent, record s { unsent_queue = left ∷ q })
]

unfoldable pub top_size_unsent : Sender → Option ℕ
top_size_unsent s = elim s.unsent_queue [ [] ↦ none | buf ∷ q ↦ some (length buf) ]

-- `update_send_window`; the window is shifted as a u32.
unfoldable pub update_send_window : TcpHeader → Sender → Sender
update_send_window header s =
    if lt s.send_window_last_update_seq header.seq_num
      || ((s.send_window_last_update_seq == header.seq_num)
          && le s.send_window_last_update_ack header.ack_num)
    then record s {
      send_window = header.window_size * 2 ^ s.window_scale % 2 ^ 32;
      send_window_last_update_seq = header.seq_num;
      send_window_last_update_ack = header.ack_num;
    }
    else s
