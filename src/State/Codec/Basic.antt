-- ===== src/State/Codec/Basic.antt =====
-- The codecs of sequence numbers, buffers, out-of-order entries and unacknowledged segments.
use capybara_artifact.Base.{
  ℕ, ◌^◌, ◌≡◌, refl, some, none, List, ◌++◌, IsU32, length, to_be4, of_be4-to_be4, lt→ltb, le→ltb,
  length-append, take-length_append, adjust-length_append, arith,
}
use capybara_artifact.State.{Buffer}
use capybara_artifact.State.Writer.{Out, put}
use capybara_artifact.State.Serialize.{
  put_len, serialize_seq, serialize_buffer, serialize_out_of_order, serialize_unacked,
}
use capybara_artifact.State.Deserialize.{
  deserialize_seq, deserialize_buffer, deserialize_out_of_order, deserialize_unacked,
}
use capybara_artifact.State.Codec.{Codec, then-put}

pub put_len-put : (n : ℕ) → IsU32 n → (o : Out) → put_len n o ≡ put (to_be4 n) o
unfolding put_len
put_len-put n h o = rw (lt→ltb n (2 ^ 32) h)

unfoldable pub seq_codec : Codec serialize_seq deserialize_seq
unfolding serialize_seq deserialize_seq
seq_codec = record {
  encode = to_be4;
  received = λ s. s;
  IsValid = IsU32;
  writes = λ s h o. refl;
  reads = λ s h rest. rw (of_be4-to_be4 s h);
}

abbrev pub encode_buffer : Buffer → List ℕ
encode_buffer b = to_be4 (length b) ++ b

pub serialize_buffer-put :
    (b : Buffer) → IsU32 (length b) → (o : Out) → serialize_buffer b o ≡ put (encode_buffer b) o
unfolding serialize_buffer
serialize_buffer-put b h =
    then-put (put_len (length b)) (put b) (to_be4 (length b)) b (put_len-put (length b) h)
      (λ o. refl)

pub deserialize_buffer-encode :
    (b : Buffer)
    → IsU32 (length b)
    → (rest : Buffer) → deserialize_buffer (encode_buffer b ++ rest) ≡ some (b, rest)
unfolding deserialize_buffer
deserialize_buffer-encode b h rest = rw (
  of_be4-to_be4 (length b) h,
  le→ltb (length (b ++ rest)) (length b) (omega (arith, length-append b rest)),
  take-length_append b rest,
  adjust-length_append b rest,
)

unfoldable pub buffer_codec : Codec serialize_buffer deserialize_buffer
buffer_codec = record {
  encode = encode_buffer;
  received = λ b. b;
  IsValid = λ b. IsU32 (length b);
  writes = serialize_buffer-put;
  reads = deserialize_buffer-encode;
}

unfoldable pub out_of_order_codec : Codec serialize_out_of_order deserialize_out_of_order
unfolding serialize_out_of_order deserialize_out_of_order
out_of_order_codec = record {
  encode = λ e. to_be4 (e.0) ++ encode_buffer (e.1);
  received = λ e. e;
  IsValid = λ e. IsU32 (e.0) × IsU32 (length (e.1));
  writes = λ e h.
      then-put (put (to_be4 (e.0))) (serialize_buffer (e.1)) (to_be4 (e.0)) (encode_buffer (e.1))
        (λ o. refl) (serialize_buffer-put (e.1) (h.1));
  reads = λ e h rest. rw (of_be4-to_be4 (e.0) (h.0), deserialize_buffer-encode (e.1) (h.1) rest);
}

-- The transmission time does not travel: an unacknowledged segment arrives without it.
unfoldable pub unacked_codec : Codec serialize_unacked deserialize_unacked
unfolding serialize_unacked deserialize_unacked
unacked_codec = record {
  encode = λ u. encode_buffer u.bytes;
  received = λ u. record u { initial_tx = none };
  IsValid = λ u. IsU32 (length u.bytes);
  writes = λ u h. serialize_buffer-put u.bytes h;
  reads = λ u h rest. rw (deserialize_buffer-encode u.bytes h rest);
}
