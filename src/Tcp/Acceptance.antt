-- ===== src/Tcp/Acceptance.antt =====
-- The beginning of `ControlBlock::receive` in inetstack/protocols/tcp/established/ctrlblk.rs: whether
-- a segment is acceptable, and what of it lies in the receive window.
pub mod Window
use capybara_artifact.Base.{
  ℕ, ◌+◌, ◌-◌, ◌%◌, ◌^◌, ◌==◌, Bool, true, false, not, ◌&&◌, ltb, if◌then◌else◌, Option, some, none,
  ◌>>=◌, adjust,
}
use capybara_artifact.Seq.{SeqNumber, add, sub, lt, le, ge}
use capybara_artifact.State.{Buffer}
use capybara_artifact.Tcp.Header.{TcpHeader}
use capybara_artifact.Tcp.ControlBlock.{len32, trim}

-- The variables `seg_start`, `seg_end`, `seg_len`, `header` and `data` of `receive`.
pub record Segment : Type 0 where
  pub start : SeqNumber
  pub end : SeqNumber
  pub len : ℕ
  pub header : TcpHeader
  pub data_bytes : Buffer

-- A flag's place in the sequence space.
abbrev pub flag_len : Bool → ℕ
flag_len true = 1
flag_len false = 0

abbrev pub end_from : SeqNumber → ℕ → SeqNumber
end_from start len = if len == 0 then start else add start (len - 1)

unfoldable pub segment_of : TcpHeader → Buffer → Segment
segment_of header buf =
    let len = (len32 buf + flag_len header.syn + flag_len header.fin) % 2 ^ 32 in
    record {
      start = header.seq_num;
      end = end_from header.seq_num len;
      len = len;
      header = header;
      data_bytes = buf;
    }

-- Segments that are not acceptable are acknowledged, unless they are RSTs, and dropped.
pub data Checked : Type 0 where
  refused : Checked
  accepted : Segment → Checked

-- The duplicate data at the front, a SYN first. `none` is a panic, of a subtraction or of `adjust`.
unfoldable pub cut_front : ℕ → Segment → Option Segment
cut_front duplicate s = if ltb s.len duplicate then none else (do
  bytes ← adjust (duplicate - flag_len s.header.syn) s.data_bytes
  some (record s {
    start = add s.start duplicate;
    len = s.len - duplicate;
    header = record (s.header) { syn = false };
    data_bytes = bytes;
  }))

unfoldable pub check_front : SeqNumber → SeqNumber → Segment → Option Checked
unfolding cut_front
check_front receive_next after s =
    if s.start == receive_next
    then some (accepted s)
    else if lt s.start receive_next
    then (if lt s.end receive_next
        then some refused
        else (cut_front (sub receive_next s.start) s >>= λ s'. some (accepted s')))
    else if ge s.start after
    then some refused
    else some (accepted s)

-- The excess at the end, a FIN last.
unfoldable pub cut_back : ℕ → Segment → Option Segment
cut_back excess s = if ltb s.len excess then none else (do
  bytes ← trim (excess - flag_len s.header.fin) s.data_bytes
  some (record s {
    end = sub s.end excess;
    len = s.len - excess;
    header = record (s.header) { fin = false };
    data_bytes = bytes;
  }))

unfoldable pub check_back : SeqNumber → Segment → Option Segment
unfolding cut_back
check_back after s =
    if ltb 0 s.len && ge s.end after then cut_back (sub s.end after + 1) s else some s

-- `debug_assert!(receive_next <= seg_start && seg_end < after_receive_window)`
abbrev pub assert_in_window : SeqNumber → SeqNumber → Segment → Option Checked
assert_in_window receive_next after s =
    if le receive_next s.start && lt s.end after then some (accepted s) else none

unfoldable pub check_segment : SeqNumber → SeqNumber → Segment → Option Checked
unfolding check_front check_back
check_segment receive_next after s = check_front receive_next after s >>= λ c. elim c [
  | refused ↦ some refused
  | accepted s' ↦ check_back after s' >>= λ s''. assert_in_window receive_next after s''
]
