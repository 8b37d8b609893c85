-- ===== src/State/Encode/Block.antt =====
-- The byte string of the control block's state, and that it is written and read as it stands.
use capybara_artifact.Base.{
  ℕ, ◌≡◌, refl, ap, ◌∙◌, Option, some, none, List, ◌++◌, append_assoc, of_be4-to_be4, of_be2-to_be2,
}
use capybara_artifact.Seq.{SeqNumber}
use capybara_artifact.State.{Buffer, ControlBlockState}
use capybara_artifact.State.Writer.{Out, put}
use capybara_artifact.State.Serialize.{
  serialize_seq, serialize_out_of_order, serialize_deque, serialize_option, control_block_fixed,
  serialize_sender, serialize_receiver, serialize_control_block,
}
use capybara_artifact.State.Deserialize.{
  deserialize_seq, deserialize_out_of_order, deserialize_deque, deserialize_option,
  deserialize_control_block,
}
use capybara_artifact.State.Codec.{Codec, then-put}
use capybara_artifact.State.Codec.Basic.{seq_codec, out_of_order_codec}
use capybara_artifact.State.Codec.Containers.{deque_codec, option_codec}
use capybara_artifact.State.Encode.{IsControlBlockState, IsFin, received}
use capybara_artifact.State.Encode.Structs.{
  encode_receiver, receiver-writes, receiver-reads, encode_sender, sender-writes, sender-reads,
  map_id, Option-map_id,
}

abbrev pub entries :
    Codec (serialize_deque serialize_out_of_order) (deserialize_deque deserialize_out_of_order)
entries = deque_codec out_of_order_codec

abbrev pub fins : Codec (serialize_option serialize_seq) (deserialize_option deserialize_seq)
fins = option_codec seq_codec

entries-writes :
    (c : ControlBlockState)
    → IsControlBlockState c
    → (o : Out)
    → serialize_deque serialize_out_of_order c.out_of_order_queue o
      ≡ put (entries.encode c.out_of_order_queue) o
unfolding deque_codec out_of_order_codec
entries-writes c v =
    entries.writes c.out_of_order_queue (v.out_of_order_count, v.out_of_order_queue)

entries-reads :
    (c : ControlBlockState)
    → IsControlBlockState c
    → (rest : Buffer)
    → deserialize_deque deserialize_out_of_order (entries.encode c.out_of_order_queue ++ rest)
      ≡ some (c.out_of_order_queue, rest)
unfolding deque_codec out_of_order_codec
entries-reads c v rest =
    entries.reads c.out_of_order_queue (v.out_of_order_count, v.out_of_order_queue) rest
    ∙ ap (λ q. some (q, rest)) (map_id c.out_of_order_queue)

fin-valid : (f : Option SeqNumber) → IsFin f → fins.IsValid f
unfolding option_codec seq_codec
fin-valid none h = tt
fin-valid (some s) h = h

fins-reads :
    (f : Option SeqNumber)
    → IsFin f
    → (rest : Buffer) → deserialize_option deserialize_seq (fins.encode f ++ rest) ≡ some (f, rest)
unfolding option_codec seq_codec
fins-reads f h rest = fins.reads f (fin-valid f h) rest ∙ ap (λ g. some (g, rest)) (Option-map_id f)

unfoldable pub encode : ControlBlockState → List ℕ
encode c =
    (((control_block_fixed c ++ fins.encode c.out_of_order_fin)
        ++ entries.encode c.out_of_order_queue)
      ++ encode_receiver c.receiver)
    ++ encode_sender c.sender

pub control_block-writes :
    (c : ControlBlockState)
    → IsControlBlockState c
    → (o : Out) → serialize_control_block c o ≡ put (encode c) o
unfolding serialize_control_block encode
control_block-writes c v =
    then-put _ (serialize_sender c.sender) _ (encode_sender c.sender)
      (then-put _ (serialize_receiver c.receiver) _ (encode_receiver c.receiver)
        (then-put _ (serialize_deque serialize_out_of_order c.out_of_order_queue) _
          (entries.encode c.out_of_order_queue)
          (then-put (put (control_block_fixed c))
            (serialize_option serialize_seq c.out_of_order_fin) (control_block_fixed c)
            (fins.encode c.out_of_order_fin) (λ o. refl)
            (fins.writes c.out_of_order_fin (fin-valid c.out_of_order_fin v.out_of_order_fin)))
          (entries-writes c v))
        (receiver-writes c.receiver v.receiver))
      (sender-writes c.sender v.sender)

encode_split :
    (c : ControlBlockState) (rest : Buffer)
    → encode c ++ rest
      ≡ control_block_fixed c
        ++ (fins.encode c.out_of_order_fin
            ++ (entries.encode c.out_of_order_queue
                ++ (encode_receiver c.receiver ++ (encode_sender c.sender ++ rest))))
unfolding encode
encode_split c rest = simp append_assoc

-- Reading what was written gives the state back, and leaves what follows it.
pub control_block-reads :
    (c : ControlBlockState)
    → IsControlBlockState c
    → (rest : Buffer) → deserialize_control_block (encode c ++ rest) ≡ some (received c, rest)
unfolding deserialize_control_block
control_block-reads c v rest = rw (
  encode_split c rest,
  of_be2-to_be2 c.local.port v.local.port,
  of_be2-to_be2 c.remote.port v.remote.port,
  of_be4-to_be4 c.receive_buffer_size v.receive_buffer_size,
  of_be4-to_be4 c.window_scale v.window_scale,
  fins-reads c.out_of_order_fin v.out_of_order_fin (
      entries.encode c.out_of_order_queue
      ++ (encode_receiver c.receiver ++ (encode_sender c.sender ++ rest))),
  entries-reads c v (encode_receiver c.receiver ++ (encode_sender c.sender ++ rest)),
  receiver-reads c.receiver v.receiver (encode_sender c.sender ++ rest),
  sender-reads c.sender v.sender rest,
)
