-- ===== src/State/Encode/Structs.antt =====
-- The byte strings of the three structures, and that they are written and read as they stand.
use capybara_artifact.Base.{
  ℕ, ◌≡◌, refl, ap, ◌∙◌, Option, some, none, List, [], ◌∷◌, ◌++◌, map, append_assoc, of_be4-to_be4,
}
use mathlib.Core.Option
use capybara_artifact.State.{Buffer, UnackedSegment, SenderState, ReceiverState}
use capybara_artifact.State.Writer.{Out, ◌then◌, put}
use capybara_artifact.State.Serialize.{
  serialize_buffer, serialize_unacked, serialize_deque, serialize_sender, serialize_receiver,
  sender_fixed, receiver_fixed,
}
use capybara_artifact.State.Deserialize.{
  deserialize_buffer, deserialize_unacked, deserialize_deque, deserialize_sender,
  deserialize_receiver,
}
use capybara_artifact.State.Codec.{Codec, then-put}
use capybara_artifact.State.Codec.Basic.{buffer_codec, unacked_codec}
use capybara_artifact.State.Codec.Containers.{deque_codec}
use capybara_artifact.State.Encode.{
  IsQueue, IsReceiverState, IsSenderState, forget_tx, received_sender,
}

pub map_id {ℓ} : {A : Type ℓ} (xs : List A) → map (λ x. x) xs ≡ xs
map_id [] = refl
map_id (x ∷ xs) = ap (◌∷◌ x) (map_id xs)

pub Option-map_id {ℓ} : {A : Type ℓ} (x : Option A) → Option.map (λ x. x) x ≡ x
Option-map_id none = refl
Option-map_id (some x) = refl

abbrev pub buffers : Codec (serialize_deque serialize_buffer) (deserialize_deque deserialize_buffer)
buffers = deque_codec buffer_codec

abbrev pub unackeds :
    Codec (serialize_deque serialize_unacked) (deserialize_deque deserialize_unacked)
unackeds = deque_codec unacked_codec

buffers-writes :
    (xs : List Buffer)
    → IsQueue (λ b. b) xs
    → (o : Out) → serialize_deque serialize_buffer xs o ≡ put (buffers.encode xs) o
unfolding deque_codec buffer_codec
buffers-writes xs v = buffers.writes xs (v.count, v.short)

buffers-reads :
    (xs : List Buffer)
    → IsQueue (λ b. b) xs
    → (rest : Buffer)
    → deserialize_deque deserialize_buffer (buffers.encode xs ++ rest) ≡ some (xs, rest)
unfolding deque_codec buffer_codec
buffers-reads xs v rest =
    buffers.reads xs (v.count, v.short) rest ∙ ap (λ ys. some (ys, rest)) (map_id xs)

unackeds-writes :
    (us : List UnackedSegment)
    → IsQueue (λ u. u.bytes) us
    → (o : Out) → serialize_deque serialize_unacked us o ≡ put (unackeds.encode us) o
unfolding deque_codec unacked_codec
unackeds-writes us v = unackeds.writes us (v.count, v.short)

unackeds-reads :
    (us : List UnackedSegment)
    → IsQueue (λ u. u.bytes) us
    → (rest : Buffer)
    → deserialize_deque deserialize_unacked (unackeds.encode us ++ rest)
      ≡ some (map forget_tx us, rest)
unfolding deque_codec unacked_codec
unackeds-reads us v rest = unackeds.reads us (v.count, v.short) rest

unfoldable pub encode_receiver : ReceiverState → List ℕ
encode_receiver r = receiver_fixed r ++ buffers.encode r.recv_queue

pub receiver-writes :
    (r : ReceiverState)
    → IsReceiverState r
    → (o : Out) → serialize_receiver r o ≡ put (encode_receiver r) o
unfolding serialize_receiver encode_receiver
receiver-writes r v =
    then-put (put (receiver_fixed r)) (serialize_deque serialize_buffer r.recv_queue)
      (receiver_fixed r) (buffers.encode r.recv_queue) (λ o. refl)
      (buffers-writes r.recv_queue v.recv_queue)

-- The receiver's state arrives as it was.
pub receiver-reads :
    (r : ReceiverState)
    → IsReceiverState r
    → (rest : Buffer) → deserialize_receiver (encode_receiver r ++ rest) ≡ some (r, rest)
unfolding deserialize_receiver encode_receiver
receiver-reads r v rest = rw (
  of_be4-to_be4 r.reader_next v.reader_next,
  of_be4-to_be4 r.receive_next v.receive_next,
  buffers-reads r.recv_queue v.recv_queue rest,
)

unfoldable pub encode_sender : SenderState → List ℕ
encode_sender s =
    (sender_fixed s ++ unackeds.encode s.unacked_queue) ++ buffers.encode s.unsent_queue

pub sender-writes :
    (s : SenderState) → IsSenderState s → (o : Out) → serialize_sender s o ≡ put (encode_sender s) o
unfolding serialize_sender encode_sender
sender-writes s v =
    then-put (put (sender_fixed s) then serialize_deque serialize_unacked s.unacked_queue)
      (serialize_deque serialize_buffer s.unsent_queue)
      (sender_fixed s ++ unackeds.encode s.unacked_queue) (buffers.encode s.unsent_queue)
      (then-put (put (sender_fixed s)) (serialize_deque serialize_unacked s.unacked_queue)
        (sender_fixed s) (unackeds.encode s.unacked_queue) (λ o. refl)
        (unackeds-writes s.unacked_queue v.unacked_queue))
      (buffers-writes s.unsent_queue v.unsent_queue)

-- The sender's state arrives without the transmission times.
pub sender-reads :
    (s : SenderState)
    → IsSenderState s
    → (rest : Buffer)
    → deserialize_sender (encode_sender s ++ rest) ≡ some (received_sender s, rest)
unfolding deserialize_sender encode_sender
sender-reads s v rest = rw (
  append_assoc (unackeds.encode s.unacked_queue) (buffers.encode s.unsent_queue) rest,
  of_be4-to_be4 s.unsent_seq_no v.unsent_seq_no,
  of_be4-to_be4 s.send_unacked v.send_unacked,
  of_be4-to_be4 s.send_next v.send_next,
  of_be4-to_be4 s.send_window v.send_window,
  of_be4-to_be4 s.send_window_last_update_seq v.send_window_last_update_seq,
  of_be4-to_be4 s.send_window_last_update_ack v.send_window_last_update_ack,
  of_be4-to_be4 s.mss v.mss,
  unackeds-reads s.unacked_queue v.unacked_queue (buffers.encode s.unsent_queue ++ rest),
  buffers-reads s.unsent_queue v.unsent_queue rest,
)
