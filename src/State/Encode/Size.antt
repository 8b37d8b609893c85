-- ===== src/State/Encode/Size.antt =====
-- The `serialized_size` functions give the lengths of the byte strings.
use capybara_artifact.Base.{
  ◌+◌, ◌≡◌, refl, Option, some, none, List, ◌++◌, length, length-append, arith,
}
use mathlib.Core.List.{foldl}
use capybara_artifact.Seq.{SeqNumber}
use capybara_artifact.State.{Buffer, ControlBlockState, SenderState, ReceiverState, UnackedSegment}
use capybara_artifact.State.Serialize.{control_block_fixed, sender_fixed, receiver_fixed}
use capybara_artifact.State.Size.{sender_size, receiver_size, control_block_size, fin_size}
use capybara_artifact.State.Codec.Basic.{seq_codec, buffer_codec, out_of_order_codec, unacked_codec}
use capybara_artifact.State.Codec.Containers.{option_codec, length-encode_deque}
use capybara_artifact.State.Encode.Structs.{buffers, unackeds, encode_receiver, encode_sender}
use capybara_artifact.State.Encode.Block.{entries, fins, encode}

length-buffers :
    (xs : List Buffer) → length (buffers.encode xs) ≡ 4 + foldl (λ acc e. acc + 4 + length e) 0 xs
unfolding buffer_codec
length-buffers =
    length-encode_deque buffer_codec (λ b. 4 + length b) (λ acc e. acc + 4 + length e)
      (λ x. omega arith) (λ k x. omega arith)

length-unackeds :
    (xs : List UnackedSegment)
    → length (unackeds.encode xs) ≡ 4 + foldl (λ acc e. acc + 4 + length e.bytes) 0 xs
unfolding unacked_codec
length-unackeds =
    length-encode_deque unacked_codec (λ u. 4 + length u.bytes) (λ acc e. acc + 4 + length e.bytes)
      (λ x. omega arith) (λ k x. omega arith)

length-entries :
    (xs : List (SeqNumber × Buffer))
    → length (entries.encode xs) ≡ 4 + foldl (λ acc e. acc + 4 + 4 + length (e.1)) 0 xs
unfolding out_of_order_codec
length-entries =
    length-encode_deque out_of_order_codec (λ e. 8 + length (e.1))
      (λ acc e. acc + 4 + 4 + length (e.1)) (λ x. omega arith) (λ k x. omega arith)

length-fins : (f : Option SeqNumber) → length (fins.encode f) ≡ 1 + fin_size f
unfolding option_codec seq_codec
length-fins none = refl
length-fins (some s) = refl

length-encode_receiver : (r : ReceiverState) → length (encode_receiver r) ≡ receiver_size r
unfolding encode_receiver receiver_size
length-encode_receiver r = omega (
  arith,
  length-append (receiver_fixed r) (buffers.encode r.recv_queue),
  length-buffers r.recv_queue,
)

length-encode_sender : (s : SenderState) → length (encode_sender s) ≡ sender_size s
unfolding encode_sender sender_size
length-encode_sender s = omega (
  arith,
  length-append (sender_fixed s ++ unackeds.encode s.unacked_queue) (buffers.encode s.unsent_queue),
  length-append (sender_fixed s) (unackeds.encode s.unacked_queue),
  length-unackeds s.unacked_queue,
  length-buffers s.unsent_queue,
)

pub length-encode : (c : ControlBlockState) → length (encode c) ≡ control_block_size c
unfolding encode control_block_size
length-encode c = omega (
  arith,
  length-append
      (((control_block_fixed c ++ fins.encode c.out_of_order_fin)
          ++ entries.encode c.out_of_order_queue)
        ++ encode_receiver c.receiver)
      (encode_sender c.sender),
  length-append
      ((control_block_fixed c ++ fins.encode c.out_of_order_fin)
        ++ entries.encode c.out_of_order_queue)
      (encode_receiver c.receiver),
  length-append (control_block_fixed c ++ fins.encode c.out_of_order_fin)
      (entries.encode c.out_of_order_queue),
  length-append (control_block_fixed c) (fins.encode c.out_of_order_fin),
  length-fins c.out_of_order_fin,
  length-entries c.out_of_order_queue,
  length-encode_receiver c.receiver,
  length-encode_sender c.sender,
)
