-- ===== src/Tcp/ControlBlock/Migrate.antt =====
-- A control block that migrates: taken apart into a state, sent as bytes, and put together again on
-- the other server.
use capybara_artifact.Base.{
  ◌^◌, ◌≡◌, ap, sym, ◌∙◌, false, lt→ltb, Option, some, [], ◌>>=◌, >>=_assoc, map,
}
use capybara_artifact.State.{Buffer, ReceiverState, ControlBlockState, TcpState}
use capybara_artifact.State as State
use capybara_artifact.State.Size.{serialize}
use capybara_artifact.State.Deserialize.{deserialize}
use capybara_artifact.State.Encode.{IsControlBlockState, forget_tx}
use capybara_artifact.State.RoundTrip.{deserialize-serialize}
use capybara_artifact.Tcp.Sender.{sender_state, to_sender_state, from_sender_state}
use capybara_artifact.Tcp.ControlBlock.{Receiver, ControlBlock, established}

abbrev pub receiver_state : Receiver → ReceiverState
receiver_state r = record {
  reader_next = r.reader_next;
  receive_next = r.receive_next;
  recv_queue = r.recv_queue;
}

-- The parts of the control block that migrate.
abbrev pub state_of : ControlBlock → ControlBlockState
state_of cb = record {
  local = cb.local;
  remote = cb.remote;
  receive_buffer_size = cb.receive_buffer_size;
  window_scale = cb.window_scale;
  out_of_order_fin = cb.out_of_order_fin;
  out_of_order_queue = cb.out_of_order;
  receiver = receiver_state cb.receiver;
  sender = sender_state cb.sender;
}

-- `ControlBlockState::from`, which leaves the queues behind empty.
unfoldable pub to_state : ControlBlock → Option (ControlBlockState × ControlBlock)
unfolding to_sender_state
to_state cb = do
  (state, sender) ← to_sender_state cb.sender
  some (
    record (state_of cb) { sender = state },
    record cb {
      sender = sender;
      out_of_order = [];
      receiver = record (cb.receiver) { recv_queue = [] };
    },
  )

unfoldable pub receiver_from_state : ReceiverState → Receiver
receiver_from_state r = record {
  reader_next = r.reader_next;
  receive_next = r.receive_next;
  recv_queue = r.recv_queue;
}

-- The connection is established again, whatever state it was in.
unfoldable pub from_state : ControlBlockState → ControlBlock
unfolding receiver_from_state from_sender_state
from_state s = record {
  local = s.local;
  remote = s.remote;
  sender = from_sender_state s.sender;
  state = established;
  receive_buffer_size = s.receive_buffer_size;
  window_scale = s.window_scale;
  out_of_order = s.out_of_order_queue;
  out_of_order_fin = s.out_of_order_fin;
  receiver = receiver_from_state s.receiver;
  user_is_done_sending = false;
}

-- From one control block to the other, by way of the bytes.
unfoldable pub migrate : ControlBlock → Option ControlBlock
unfolding to_state from_state
migrate cb = do
  (state, old) ← to_state cb
  bytes ← serialize (State.new state)
  arrived ← deserialize bytes
  some (from_state arrived.cb)

-- What arrives: all but the transmission times and the connection's own state.
abbrev pub resumed : ControlBlock → ControlBlock
resumed cb = record cb {
  sender = record (cb.sender) { unacked_queue = map forget_tx cb.sender.unacked_queue };
  state = established;
  user_is_done_sending = false;
}

-- A control block that can be serialized arrives with all that it held but the transmission times
-- of unacknowledged segments, as an established connection whose user has not closed it.
pub migrate-resumed :
    (cb : ControlBlock) → IsControlBlockState (state_of cb) → migrate cb ≡ some (resumed cb)
unfolding migrate to_state to_sender_state from_state from_sender_state receiver_from_state
migrate-resumed cb v =
    let e = deserialize-serialize (State.new (state_of cb)) (record { cb = v; app = tt }) in
    rw (lt→ltb cb.sender.mss (2 ^ 32) v.sender.mss) (
      sym (
        >>=_assoc (serialize (State.new (state_of cb))) deserialize
          (λ (t : TcpState). some (from_state t.cb)))
      ∙ ap (λ (o : Option TcpState). o >>= λ t. some (from_state t.cb)) e)
