-- ===== src/Mig/Segment.antt =====
-- inetstack/protocols/tcpmig/segment/mod.rs and defragmenter.rs: a segment is cut into fragments
-- that fit a packet, and put together again at the other end.
pub mod Store
pub mod Order
pub mod Reassemble
pub mod Chunks
pub mod Delivery
use capybara_artifact.Base.{
  ℕ, zero, suc, ◌+◌, ◌-◌, ◌/◌, ◌%◌, ◌^◌, ◌==◌, Bool, true, false, not, ◌&&◌, ltb, leb,
  if◌then◌else◌, Option, some, none, List, [], ◌∷◌, ◌++◌, ◌>>=◌, length, take, drop, set, replicate,
}
use capybara_artifact.State.{Buffer}
use capybara_artifact.State.Writer.{Out, Writer, ◌then◌, put}
use capybara_artifact.Mig.Header.{TcpMigHeader, Ipv4Header, tcpmig_header_size}

abbrev pub MacAddress : Type 0
MacAddress = ℕ

-- The EtherType is IPv4 throughout.
pub record Ethernet2Header : Type 0 where
  pub dst_addr : MacAddress
  pub src_addr : MacAddress

abbrev pub ipv4_header_default_size : ℕ
ipv4_header_default_size = 20

abbrev pub max_fragment_size : ℕ
max_fragment_size = 1500 - ipv4_header_default_size - tcpmig_header_size

pub record TcpMigSegment : Type 0 where
  pub ethernet2_hdr : Ethernet2Header
  pub ipv4_hdr : Ipv4Header
  pub tcpmig_hdr : TcpMigHeader
  pub payload : Buffer

pub record TcpMigFragmenter : Type 0 where
  pub segment : TcpMigSegment
  pub current_fragment : ℕ

unfoldable pub fragments : TcpMigSegment → TcpMigFragmenter
fragments s = record { segment = s; current_fragment = 0 }

-- One fragment, with `flag_next_fragment` and `fragment_offset` set.
abbrev pub cut : TcpMigFragmenter → Bool → Buffer → TcpMigSegment
cut f more payload = record (f.segment) {
  tcpmig_hdr = record (f.segment.tcpmig_hdr) {
    flag_next_fragment = more;
    fragment_offset = f.current_fragment;
  };
  payload = payload;
}

-- `current_fragment += 1` on a u16, which wraps in a release build.
abbrev pub advance : TcpMigFragmenter → Buffer → TcpMigFragmenter
advance f rest = record {
  segment = record (f.segment) { payload = rest };
  current_fragment = (f.current_fragment + 1) % 2 ^ 16;
}

-- `Iterator::next`. `trim` and `adjust` stay inside the data, which is longer than a fragment.
unfoldable pub next : TcpMigFragmenter → Option (TcpMigSegment × TcpMigFragmenter)
next f =
    if length f.segment.payload == 0 && not (f.current_fragment == 0)
    then none
    else (if leb (length f.segment.payload) max_fragment_size
        then some (cut f false f.segment.payload, advance f [])
        else some (
          cut f true (take max_fragment_size f.segment.payload),
          advance f (drop max_fragment_size f.segment.payload),
        ))

-- The `for` loop over the fragments, on fuel; `none` means that the fuel ran out.
unfoldable pub collect : ℕ → TcpMigFragmenter → Option (List TcpMigSegment)
collect zero f = none
collect (suc fuel) f = elim (next f) [
  | none ↦ some []
  | some (s, f') ↦ (collect fuel f' >>= λ rest. some (s ∷ rest))
]

pub record TcpMigDefragmenter : Type 0 where
  pub fragments : List Buffer
  pub total_fragments : Option ℕ
  pub current_fragments : ℕ
  pub current_size : ℕ

unfoldable pub new : TcpMigDefragmenter
new = record { fragments = []; total_fragments = none; current_fragments = 0; current_size = 0 }

-- `reset` leaves `current_size` as it is.
unfoldable pub reset : TcpMigDefragmenter → TcpMigDefragmenter
reset d = record d { fragments = []; total_fragments = none; current_fragments = 0 }

-- `self.fragments.iter().fold(0, …)` with `copy_from_slice`
abbrev pub copy_all : List Buffer → Writer
copy_all [] = some
copy_all (f ∷ fs) = put f then copy_all fs

-- A zeroed buffer of `size` bytes, which must not be empty, with the fragments copied in.
unfoldable pub assemble : ℕ → List Buffer → Option Buffer
assemble size fs = elim (size == 0) [
  | true ↦ none
  | false ↦
      (copy_all fs (record { done = []; left = replicate size 0 }) >>= λ o. some (o.done ++ o.left))
]

abbrev pub Defragmented : Type 0
Defragmented = Option (TcpMigHeader × Buffer) × TcpMigDefragmenter

-- The buffer is stored at its offset, where the vector is grown to hold it.
unfoldable pub store : ℕ → Buffer → TcpMigDefragmenter → TcpMigDefragmenter
store offset buf d = record d {
  fragments = set (d.fragments ++ replicate (offset + 1 - length d.fragments) []) offset buf;
  current_fragments = d.current_fragments + 1;
  current_size = d.current_size + length buf;
}

-- The end of `defragment`, where all is there.
unfoldable pub complete : TcpMigHeader → TcpMigDefragmenter → Option Defragmented
unfolding assemble reset
complete hdr d = do
  buffer ← assemble d.current_size d.fragments
  some (some (record hdr { flag_next_fragment = false; fragment_offset = 0 }, buffer), reset d)

unfoldable pub check_complete : TcpMigHeader → TcpMigDefragmenter → Option ℕ → Option Defragmented
unfolding complete
check_complete hdr d none = some (none, d)
check_complete hdr d (some count) =
    if count == d.current_fragments then complete hdr d else some (none, d)

unfoldable pub store_and_check : TcpMigHeader → Buffer → TcpMigDefragmenter → Option Defragmented
unfolding store check_complete
store_and_check hdr buf d =
    let d' = store hdr.fragment_offset buf d in check_complete hdr d' d'.total_fragments

-- `count - self.fragments.len()` underflows where a fragment beyond the last one is stored: a
-- panic at the subtraction or, in a release build, in `reserve`.
unfoldable pub last_fragment : TcpMigHeader → Buffer → TcpMigDefragmenter → Option Defragmented
unfolding store_and_check reset
last_fragment hdr buf d =
    if hdr.fragment_offset == 0
    then some (some (hdr, buf), reset d)
    else (if ltb (hdr.fragment_offset + 1) (length d.fragments)
        then none
        else store_and_check hdr buf
            (record d { total_fragments = some (hdr.fragment_offset + 1) }))

-- `none` is a panic.
unfoldable pub defragment : TcpMigDefragmenter → TcpMigHeader → Buffer → Option Defragmented
unfolding last_fragment store_and_check
defragment d hdr buf =
    if hdr.flag_next_fragment then store_and_check hdr buf d else last_fragment hdr buf d

-- A run of received fragments, with the messages that they complete.
unfoldable pub receive_all :
    TcpMigDefragmenter
    → List (TcpMigHeader × Buffer)
    → Option (List (TcpMigHeader × Buffer) × TcpMigDefragmenter)
unfolding defragment
receive_all d [] = some ([], d)
receive_all d ((hdr, buf) ∷ rest) = defragment d hdr buf >>= λ (m, d').
    receive_all d' rest >>= λ (ms, d''). some (elim m [ none ↦ ms | some x ↦ x ∷ ms ], d'')
