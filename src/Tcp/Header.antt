-- ===== src/Tcp/Header.antt =====
-- inetstack/protocols/tcp/segment.rs: the TCP header, its options, its bytes and its checksum.
pub mod Parse
pub mod Options
pub mod Fuel
pub mod RoundTrip
pub mod Total
use capybara_artifact.Base.{
  ℕ, zero, suc, ◌+◌, ◌-◌, ◌*◌, ◌/◌, ◌%◌, ◌^◌, ◌==◌, bit_and, bit_or, Bool, true, false, not, ◌&&◌,
  ◌||◌, ltb, leb, if◌then◌else◌, Option, some, none, List, [], ◌∷◌, ◌++◌, ◌>>=◌, Result, ok, err,
  length, take, drop, replicate, get_elem?, of_be2, of_be4, to_be2, to_be4, read_u16, read_u32,
}
use mathlib.Core.List.{foldl}
use capybara_artifact.Seq.{SeqNumber}
use capybara_artifact.State.{Buffer}
use capybara_artifact.Mig.Header.{Ipv4Header, octets, words, last_word}

abbrev pub min_tcp_header_size : ℕ
min_tcp_header_size = 20

abbrev pub max_tcp_header_size : ℕ
max_tcp_header_size = 60

abbrev pub max_tcp_options : ℕ
max_tcp_options = 5

pub data TcpOptions2 : Type 0 where
  no_operation sack_permitted : TcpOptions2
  maximum_segment_size window_scale : ℕ → TcpOptions2
  -- The first `num_sacks` of the four pairs.
  selective_acknowledgement : List (SeqNumber × SeqNumber) → TcpOptions2
  timestamp : ℕ → ℕ → TcpOptions2

-- `option_list` has the first `num_options` entries of the array of five.
pub record TcpHeader : Type 0 where
  pub src_port : ℕ
  pub dst_port : ℕ
  pub seq_num : SeqNumber
  pub ack_num : SeqNumber
  pub ns : Bool
  pub cwr : Bool
  pub ece : Bool
  pub urg : Bool
  pub ack : Bool
  pub psh : Bool
  pub rst : Bool
  pub syn : Bool
  pub fin : Bool
  pub window_size : ℕ
  pub urgent_pointer : ℕ
  pub option_list : List TcpOptions2

-- The messages of `Fail`; `unexpected_end` is the cursor's error past the end of the options.
pub data TcpFail : Type 0 where
  too_small smaller_than_offset offset_too_small offset_too_large checksum_mismatch : TcpFail
  bad_mss bad_window_scale bad_sack_permitted bad_sack bad_timestamp bad_option : TcpFail
  too_many_options unexpected_end : TcpFail
  -- The end of the fuel of the loop over the options, which is none of the code's errors.
  unfinished : TcpFail

unfoldable pub option_size : TcpOptions2 → ℕ
option_size no_operation = 1
option_size (maximum_segment_size mss) = 4
option_size (window_scale scale) = 3
option_size sack_permitted = 2
option_size (selective_acknowledgement sacks) = 2 + 8 * length sacks
option_size (timestamp sender echo) = 10

abbrev pub sack_bytes : List (SeqNumber × SeqNumber) → List ℕ
sack_bytes [] = []
sack_bytes ((begin, end) ∷ sacks) = to_be4 begin ++ (to_be4 end ++ sack_bytes sacks)

unfoldable pub serialize_option : TcpOptions2 → List ℕ
serialize_option no_operation = 1 ∷ []
serialize_option (maximum_segment_size mss) = 2 ∷ 4 ∷ to_be2 mss
serialize_option (window_scale scale) = 3 ∷ 3 ∷ scale ∷ []
serialize_option sack_permitted = 4 ∷ 2 ∷ []
serialize_option (selective_acknowledgement sacks) = 5 ∷ (2 + 8 * length sacks) ∷ sack_bytes sacks
serialize_option (timestamp sender echo) = 8 ∷ 10 ∷ (to_be4 sender ++ to_be4 echo)

unfoldable pub options_bytes : List TcpOptions2 → List ℕ
unfolding serialize_option
options_bytes [] = []
options_bytes (o ∷ os) = serialize_option o ++ options_bytes os

unfoldable pub options_size : List TcpOptions2 → ℕ
unfolding option_size
options_size [] = 0
options_size (o ∷ os) = option_size o + options_size os

abbrev pub end_size : List TcpOptions2 → ℕ
end_size [] = 0
end_size (o ∷ os) = 1

-- `size.wrapping_add(3) & !0x3`
unfoldable pub compute_size : TcpHeader → ℕ
unfolding options_size
compute_size h =
    (min_tcp_header_size + options_size h.option_list + end_size h.option_list + 3) / 4 * 4

abbrev flag : Bool → ℕ → ℕ
flag b bit = if b then bit else 0

-- Octet 13
unfoldable pub flags_byte : TcpHeader → ℕ
flags_byte h = bit_or (flag h.cwr 128) (
    bit_or (flag h.ece 64) (
      bit_or (flag h.urg 32) (
        bit_or (flag h.ack 16)
          (bit_or (flag h.psh 8) (bit_or (flag h.rst 4) (bit_or (flag h.syn 2) (flag h.fin 1)))))))

-- Octet 12: the size in words, cut to a byte and shifted, and the NS flag.
unfoldable pub offset_byte : ℕ → Bool → ℕ
offset_byte size ns = bit_or (size / 4 % 256 * 16 % 256) (flag ns 1)

-- The first 20 bytes, with a given checksum.
abbrev pub fixed_bytes : TcpHeader → ℕ → List ℕ
fixed_bytes h sum =
    to_be2 h.src_port
    ++ (to_be2 h.dst_port
        ++ (to_be4 h.seq_num
            ++ (to_be4 h.ack_num
                ++ (offset_byte (compute_size h) h.ns
                    ∷ (flags_byte h
                        ∷ (to_be2 h.window_size ++ (to_be2 sum ++ to_be2 h.urgent_pointer)))))))

-- The options, the end marker if there are any, and the padding.
unfoldable pub tail_bytes : TcpHeader → List ℕ
unfolding options_bytes compute_size
tail_bytes h =
    options_bytes h.option_list
    ++ replicate (compute_size h - min_tcp_header_size - options_size h.option_list) 0

-- `while state > 0xFFFF { state -= 0xFFFF }`, which takes as many steps as there are multiples.
abbrev pub reduce : ℕ → ℕ → ℕ
reduce zero s = s
reduce (suc n) s = let rest = reduce n (s - 0xFFFF) in if ltb 0xFFFF s then rest else s

abbrev pub add_words : List ℕ → ℕ → ℕ
add_words ws s = foldl (λ s w. (s + w) % 2 ^ 32) s ws

-- Over the addresses, the protocol number 6, the length, the header without its bytes 16 and 17,
-- and the data, an odd last byte of which is padded with a zero. The sum is a u32, which wraps
-- around as in a build without overflow checks.
unfoldable pub tcp_checksum : Ipv4Header → List ℕ → List ℕ → ℕ
tcp_checksum ip hdr payload =
    let state = add_words (last_word payload ∷ []) (
      add_words (words payload) (
        add_words (words (drop 18 hdr)) (
          add_words (words (take 16 hdr)) (
            (add_words (words (octets ip.dst_addr)) (add_words (words (octets ip.src_addr)) 0xFFFF)
              + 6
              + (length hdr + length payload))
            % 2 ^ 32)))) in
    0xFFFF - reduce (state / 0xFFFF) state

-- What `serialize` leaves in a buffer of `compute_size` bytes.
unfoldable pub serialize : TcpHeader → Ipv4Header → Buffer → Bool → Buffer
unfolding tail_bytes tcp_checksum
serialize h ip payload offload =
    fixed_bytes h (if offload then 0 else tcp_checksum ip (fixed_bytes h 0 ++ tail_bytes h) payload)
    ++ tail_bytes h

unfoldable pub new : ℕ → ℕ → TcpHeader
new src_port dst_port = record {
  src_port = src_port;
  dst_port = dst_port;
  seq_num = 0;
  ack_num = 0;
  ns = false;
  cwr = false;
  ece = false;
  urg = false;
  ack = false;
  psh = false;
  rst = false;
  syn = false;
  fin = false;
  window_size = 0;
  urgent_pointer = 0;
  option_list = [];
}

-- `option_list[num_options] = option` panics where the array is full.
unfoldable pub push_option : TcpOptions2 → TcpHeader → Option TcpHeader
push_option o h =
    if ltb (length h.option_list) max_tcp_options
    then some (record h { option_list = h.option_list ++ (o ∷ []) })
    else none
