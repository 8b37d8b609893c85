-- ===== src/State/Size.antt =====
-- The `serialized_size` functions, which `TcpState::serialize` allocates by, and `serialize`.
use capybara_artifact.Base.{
  ℕ, ◌+◌, ◌==◌, if◌then◌else◌, Option, some, none, [], ◌∷◌, ◌++◌, ◌>>=◌, length, replicate,
}
use mathlib.Core.List.{foldl}
use capybara_artifact.State.{
  Buffer, SenderState, ReceiverState, ControlBlockState, TcpState, MigratedApplicationState,
  none_state, registered, migrated_in,
}
use capybara_artifact.State.Writer.{Writer, ◌then◌, put}
use capybara_artifact.State.Serialize.{serialize_control_block}

unfoldable pub sender_size : SenderState → ℕ
sender_size s =
    29
    + 4
    + foldl (λ acc e. acc + 4 + length e.bytes) 0 s.unacked_queue
    + 4
    + foldl (λ acc e. acc + 4 + length e) 0 s.unsent_queue

unfoldable pub receiver_size : ReceiverState → ℕ
receiver_size r = 8 + 4 + foldl (λ acc e. acc + 4 + length e) 0 r.recv_queue

abbrev pub fin_size {ℓ} : {A : Type ℓ} → Option A → ℕ
fin_size none = 0
fin_size (some s) = 4

unfoldable pub control_block_size : ControlBlockState → ℕ
unfolding receiver_size sender_size
control_block_size c =
    20
    + 1
    + fin_size c.out_of_order_fin
    + 4
    + foldl (λ acc e. acc + 4 + 4 + length (e.1)) 0 c.out_of_order_queue
    + receiver_size c.receiver
    + sender_size c.sender

abbrev pub app_size : MigratedApplicationState → ℕ
app_size (registered a) = a.serialized_size
app_size none_state = 0
app_size (migrated_in b) = 0

unfoldable pub serialized_size : TcpState → ℕ
serialized_size s = control_block_size s.cb + 1 + app_size s.app_state

-- `remaining[0] = …`, and the application's `serialize(&mut remaining[1..])`.
unfoldable pub serialize_app : MigratedApplicationState → Writer
serialize_app (registered a) =
    if a.serialized_size == 0 then put (0 ∷ []) else (put (1 ∷ []) then put a.bytes)
serialize_app none_state = put (0 ∷ [])
serialize_app (migrated_in b) = put (0 ∷ [])

-- `TcpState::serialize`. What is not written keeps the zeros of the new buffer. The size is at
-- least 58, so that `DataBuffer::new` cannot fail.
unfoldable pub serialize : TcpState → Option Buffer
serialize s = do
  o ← serialize_control_block s.cb (record { done = []; left = replicate (serialized_size s) 0 })
  o' ← serialize_app s.app_state o
  some (o'.done ++ o'.left)
