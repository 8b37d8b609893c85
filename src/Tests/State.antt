-- ===== src/Tests/State.antt =====
-- The theorems on sequence numbers and on a connection's state, at sample data.
use capybara_artifact.Base.{◌≡◌, some, [], ◌∷◌, ◌++◌, ◌>>=◌, ltb, leb, length, arith}
use capybara_artifact.Seq.{add, lt, le, gt, ge}
use capybara_artifact.Seq.Order.{compare_window}
use capybara_artifact.State.Size.{serialize, serialized_size}
use capybara_artifact.State.Deserialize.{deserialize, deserialize_control_block}
use capybara_artifact.State.Encode.{received}
use capybara_artifact.State.Encode.Block.{encode, control_block-reads}
use capybara_artifact.State.RoundTrip.{
  received_state, encode_app, serialize_fills, deserialize-serialize,
}
use capybara_artifact.Tests.Samples.{
  control_block_state, control_block_state-valid, tcp_state, tcp_state-valid,
}

compare_window_example :
    (lt (add 4294967290 3) (add 4294967290 9) ≡ ltb 3 9)
    × (le (add 4294967290 3) (add 4294967290 9) ≡ leb 3 9)
    × (gt (add 4294967290 3) (add 4294967290 9) ≡ ltb 9 3)
    × (ge (add 4294967290 3) (add 4294967290 9) ≡ leb 9 3)
compare_window_example = compare_window 4294967290 3 9 (omega arith) (omega arith) (omega arith)

control_block-reads_example :
    deserialize_control_block (encode control_block_state ++ (0 ∷ []))
    ≡ some (received control_block_state, 0 ∷ [])
control_block-reads_example =
    control_block-reads control_block_state control_block_state-valid (0 ∷ [])

serialize_fills_example :
    (serialize tcp_state ≡ some (encode control_block_state ++ encode_app tcp_state.app_state))
    × (length (encode control_block_state ++ encode_app tcp_state.app_state)
        ≡ serialized_size tcp_state)
serialize_fills_example = serialize_fills tcp_state tcp_state-valid

deserialize-serialize_example :
    (serialize tcp_state >>= deserialize) ≡ some (received_state tcp_state)
deserialize-serialize_example = deserialize-serialize tcp_state tcp_state-valid
