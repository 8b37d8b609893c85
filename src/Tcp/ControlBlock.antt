-- ===== src/Tcp/ControlBlock.antt =====
-- The receiving half of inetstack/protocols/tcp/established/ctrlblk.rs: the queue of data in order,
-- the store of data out of order, and how the one feeds the other.
pub mod Stream
pub mod InOrder
pub mod Stored
pub mod Total
pub mod Migrate
use capybara_artifact.Base.{
  ℕ, zero, suc, ◌+◌, ◌-◌, ◌/◌, ◌%◌, ◌^◌, ◌==◌, Bool, true, false, ltb, if◌then◌else◌, Option, some,
  none, List, [], ◌∷◌, ◌++◌, ◌>>=◌, length, take, drop, adjust,
}
use capybara_artifact.Seq.{SeqNumber, add, sub, lt, le}
use capybara_artifact.Net.{SocketAddrV4}
use capybara_artifact.State.{Buffer}
use capybara_artifact.Tcp.Sender.{Sender}

abbrev pub max_out_of_order : ℕ
max_out_of_order = 2048

pub record Receiver : Type 0 where
  pub reader_next : SeqNumber
  pub receive_next : SeqNumber
  pub recv_queue : List Buffer

-- `buf.len() as u32`
abbrev pub len32 : Buffer → ℕ
len32 buf = length buf % 2 ^ 32

unfoldable pub push : Buffer → Receiver → Receiver
push buf r = record r {
  recv_queue = r.recv_queue ++ (buf ∷ []);
  receive_next = add r.receive_next (len32 buf);
}

pop_from : Receiver → List Buffer → Option Buffer × Receiver
pop_from r [] = (none, r)
pop_from r (buf ∷ q) =
    (some buf, record r { recv_queue = q; reader_next = add r.reader_next (len32 buf) })

unfoldable pub pop : Receiver → Option Buffer × Receiver
unfolding pop_from
pop r = pop_from r r.recv_queue

pub data State : Type 0 where
  established fin_wait1 fin_wait2 closing time_wait close_wait last_ack closed : State

-- The runtime, the timers, the congestion control and the waker, which only wakes the reader, are
-- not kept here.
pub record ControlBlock : Type 0 where
  pub local : SocketAddrV4
  pub remote : SocketAddrV4
  pub sender : Sender
  pub state : State
  pub receive_buffer_size : ℕ
  pub window_scale : ℕ
  pub out_of_order : List (SeqNumber × Buffer)
  pub out_of_order_fin : Option SeqNumber
  pub receiver : Receiver
  pub user_is_done_sending : Bool

-- The subtraction of u32 underflows where more is unread than the buffer holds; it wraps in a
-- release build.
unfoldable pub get_receive_window_size : ControlBlock → ℕ
get_receive_window_size cb =
    (cb.receive_buffer_size + 2 ^ 32 - sub cb.receiver.receive_next cb.receiver.reader_next)
    % 2 ^ 32

-- `expect("Window size overflow")`
unfoldable pub hdr_window_size : ControlBlock → Option ℕ
unfolding get_receive_window_size
hdr_window_size cb =
    let w = get_receive_window_size cb / 2 ^ cb.window_scale in
    if ltb w (2 ^ 16) then some w else none

-- `poll_recv`; `none` is `Pending`.
unfoldable pub poll_recv : ControlBlock → Option (Buffer × ControlBlock)
unfolding pop
poll_recv cb = do
  buf ← (pop cb.receiver).0
  some (buf, record cb { receiver = (pop cb.receiver).1 })

unfoldable pub store_out_of_order_fin : SeqNumber → ControlBlock → ControlBlock
store_out_of_order_fin fin cb = record cb { out_of_order_fin = some fin }

-- The `while` loop of `receive_data`: entries at the front that are next in sequence move over.
unfoldable pub recover :
    SeqNumber
    → List (SeqNumber × Buffer)
    → Receiver
    → SeqNumber × (List (SeqNumber × Buffer) × Receiver)
unfolding push
recover next [] r = (next, ([], r))
recover next ((seq, buf) ∷ q) r =
    let rest = recover (add next (len32 buf)) q (push buf r) in
    if seq == next then rest else (next, ((seq, buf) ∷ q, r))

-- `added_out_of_order`: whether the loop moved an entry.
abbrev pub starts_at : SeqNumber → List (SeqNumber × Buffer) → Bool
starts_at next [] = false
starts_at next ((seq, buf) ∷ q) = seq == next

abbrev pub fin_reached : Bool → Option SeqNumber → SeqNumber → Bool
fin_reached false fin next = false
fin_reached true none next = false
fin_reached true (some fin) next = fin == next

-- Whether an out-of-order FIN has now been received, and the new state. The debug assertion that
-- `seg_start` is RCV.NXT is what its only caller, `process_segment`, has just tested.
unfoldable pub receive_data : SeqNumber → Buffer → ControlBlock → Bool × ControlBlock
unfolding recover push
receive_data seg_start buf cb =
    let start = add cb.receiver.receive_next (len32 buf) in
    let (next, (stored, r)) = recover start cb.out_of_order (push buf cb.receiver) in
    (
      fin_reached (starts_at start cb.out_of_order) cb.out_of_order_fin next,
      record cb { out_of_order = stored; receiver = r },
    )

-- `Buffer::trim`: drops `n` bytes at the end.
abbrev pub trim : ℕ → Buffer → Option Buffer
trim n buf = if ltb (length buf) n then none else some (take (length buf - n) buf)

-- The outcome of one pass over the store: the segment goes in at an index,
-- or is dropped, or the entry at an index goes and there is another pass.
pub data Pass : Type 0 where
  insert_at : ℕ → SeqNumber → Buffer → Pass
  dropped : Pass
  remove_at : ℕ → SeqNumber → SeqNumber → Buffer → Pass

-- `stored_start + SeqNumber::from(stored_len - 1)`, where the length is not 0 (`debug_assert_ne!`);
-- on 0 the subtraction wraps in a release build.
abbrev pub end_of : SeqNumber → Buffer → SeqNumber
end_of start buf = add start ((len32 buf + 2 ^ 32 - 1) % 2 ^ 32)

-- The `for` loop from index i on. A segment that is cut at its end leaves the loop with
-- `action_index` as it was set before, the length of the store.
unfoldable pub scan :
    ℕ → ℕ → List (SeqNumber × Buffer) → SeqNumber → SeqNumber → Buffer → Option Pass
scan len i [] start end buf = some (insert_at len start buf)
scan len i ((stored_start, stored) ∷ q) start end buf =
    let stored_end = end_of stored_start stored in
    let excess = sub end stored_start + 1 in
    let duplicate = sub stored_end start in
    let after = scan len (i + 1) q start end buf in
    let overlap =
      (adjust duplicate buf >>= λ buf'. scan len (i + 1) q (add start duplicate) end buf') in
    if lt start stored_start
    then (if lt end stored_start
        then some (insert_at i start buf)
        else (if lt stored_end end
            then some (remove_at i start end buf)
            else (trim excess buf >>= λ buf'. some (insert_at len start buf'))))
    else (if le end stored_end
        then some dropped
        else (if lt stored_end start then after else overlap))

-- `VecDeque::insert` and `remove`
abbrev pub insert_entry :
    ℕ → SeqNumber × Buffer → List (SeqNumber × Buffer) → List (SeqNumber × Buffer)
insert_entry i e q = take i q ++ (e ∷ drop i q)

abbrev pub remove_entry : ℕ → List (SeqNumber × Buffer) → List (SeqNumber × Buffer)
remove_entry i q = take i q ++ drop (i + 1) q

-- The `while` loop over passes, on fuel: each but the last removes an entry, so that one more than
-- there are entries is enough. `none` is a panic of `trim` or `adjust`, or the end of the fuel.
unfoldable pub store_passes :
    ℕ
    → List (SeqNumber × Buffer)
    → SeqNumber
    → SeqNumber
    → Buffer
    → Option (List (SeqNumber × Buffer))
unfolding scan
store_passes zero q start end buf = none
store_passes (suc fuel) q start end buf = scan (length q) 0 q start end buf >>= λ p. elim p [
  | insert_at i start' buf' ↦ some (take max_out_of_order (insert_entry i (start', buf') q))
  | dropped ↦ some q
  | remove_at i start' end' buf' ↦ store_passes fuel (remove_entry i q) start' end' buf'
]

unfoldable pub store_out_of_order_segment :
    SeqNumber → SeqNumber → Buffer → ControlBlock → Option ControlBlock
unfolding store_passes
store_out_of_order_segment start end buf cb = do
  q ← store_passes (length cb.out_of_order + 1) cb.out_of_order start end buf
  some (record cb { out_of_order = q })
