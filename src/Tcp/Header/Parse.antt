-- ===== src/Tcp/Header/Parse.antt =====
-- inetstack/protocols/tcp/segment.rs: parsing a TCP header and its options.
use capybara_artifact.Base.{
  ℕ, zero, suc, ◌-◌, ◌*◌, ◌/◌, ◌==◌, bit_and, Bool, true, false, not, ◌||◌, ltb, if◌then◌else◌,
  Option, some, none, List, [], ◌∷◌, ◌++◌, ◌>>=◌, Result, ok, err, length, take, drop, get_elem?,
  of_be2, of_be4, read_u16, read_u32,
}
use capybara_artifact.Seq.{SeqNumber}
use capybara_artifact.State.{Buffer}
use capybara_artifact.Mig.Header.{Ipv4Header}
use capybara_artifact.Tcp.Header.{
  TcpHeader, TcpOptions2, sack_permitted, maximum_segment_size, window_scale,
  selective_acknowledgement, timestamp, TcpFail, too_small, smaller_than_offset, offset_too_small,
  offset_too_large, checksum_mismatch, bad_mss, bad_window_scale, bad_sack_permitted, bad_sack,
  bad_timestamp, bad_option, too_many_options, unexpected_end, unfinished, tcp_checksum,
  min_tcp_header_size, max_tcp_header_size, max_tcp_options,
}

abbrev pub Parsed : Type 0
Parsed = Result TcpFail (TcpOptions2 × List ℕ)

-- Each option's rest, after its kind; a wrong length is refused before the data is read.
unfoldable pub mss_option : List ℕ → Parsed
mss_option [] = err unexpected_end
mss_option (len ∷ []) = if len == 4 then err unexpected_end else err bad_mss
mss_option (len ∷ a ∷ []) = if len == 4 then err unexpected_end else err bad_mss
mss_option (len ∷ a ∷ b ∷ rest) =
    if len == 4 then ok (maximum_segment_size (of_be2 a b), rest) else err bad_mss

unfoldable pub window_scale_option : List ℕ → Parsed
window_scale_option [] = err unexpected_end
window_scale_option (len ∷ []) = if len == 3 then err unexpected_end else err bad_window_scale
window_scale_option (len ∷ scale ∷ rest) =
    if len == 3 then ok (window_scale scale, rest) else err bad_window_scale

unfoldable pub sack_permitted_option : List ℕ → Parsed
sack_permitted_option [] = err unexpected_end
sack_permitted_option (len ∷ rest) =
    if len == 2 then ok (sack_permitted, rest) else err bad_sack_permitted

-- `n` pairs of sequence numbers.
unfoldable pub read_sacks : ℕ → List ℕ → Option (List (SeqNumber × SeqNumber) × List ℕ)
read_sacks zero bytes = some ([], bytes)
read_sacks (suc n) (a ∷ b ∷ c ∷ d ∷ a' ∷ b' ∷ c' ∷ d' ∷ rest) = do
  (sacks, rest') ← read_sacks n rest
  some ((of_be4 a b c d, of_be4 a' b' c' d') ∷ sacks, rest')
read_sacks (suc n) bytes = none

abbrev pub sacks_or_end : Option (List (SeqNumber × SeqNumber) × List ℕ) → Parsed
sacks_or_end none = err unexpected_end
sacks_or_end (some (sacks, rest)) = ok (selective_acknowledgement sacks, rest)

unfoldable pub sack_option : List ℕ → Parsed
unfolding read_sacks
sack_option [] = err unexpected_end
sack_option (len ∷ rest) =
    if len == 10 || len == 18 || len == 26 || len == 34
    then sacks_or_end (read_sacks ((len - 2) / 8) rest)
    else err bad_sack

unfoldable pub timestamp_option : List ℕ → Parsed
timestamp_option [] = err unexpected_end
timestamp_option (len ∷ a ∷ b ∷ c ∷ d ∷ a' ∷ b' ∷ c' ∷ d' ∷ rest) =
    if len == 10
    then ok (timestamp (of_be4 a b c d) (of_be4 a' b' c' d'), rest)
    else err bad_timestamp
timestamp_option (len ∷ rest) = if len == 10 then err unexpected_end else err bad_timestamp

unfoldable pub parse_option : ℕ → List ℕ → Parsed
unfolding mss_option window_scale_option sack_permitted_option sack_option timestamp_option
parse_option kind bytes =
    if kind == 2
    then mss_option bytes
    else if kind == 3
    then window_scale_option bytes
    else if kind == 4
    then sack_permitted_option bytes
    else if kind == 5
    then sack_option bytes
    else if kind == 8
    then timestamp_option bytes
    else err bad_option

abbrev pub store_option : List TcpOptions2 → Parsed → Result TcpFail (List TcpOptions2 × List ℕ)
store_option os (err e) = err e
store_option os (ok (o, rest)) =
    if ltb (length os) max_tcp_options then ok (os ++ (o ∷ []), rest) else err too_many_options

abbrev pub and_then : {A B : Type 0} → Result TcpFail A → (A → Result TcpFail B) → Result TcpFail B
and_then (err e) f = err e
and_then (ok a) f = f a

-- The loop over the options, on fuel for each byte. Kind 0 ends it, and kind 1 is skipped.
-- The fuel is up only where bytes are left: `unfinished`.
unfoldable pub parse_options : ℕ → List TcpOptions2 → List ℕ → Result TcpFail (List TcpOptions2)
unfolding parse_option
parse_options zero os [] = ok os
parse_options zero os (kind ∷ bytes) = err unfinished
parse_options (suc fuel) os [] = ok os
parse_options (suc fuel) os (kind ∷ bytes) =
    let skip = parse_options fuel os bytes in
    let next =
      and_then (store_option os (parse_option kind bytes))
        (λ (os', rest). parse_options fuel os' rest) in
    if kind == 0 then ok os else (if kind == 1 then skip else next)

unfoldable pub options_of : List ℕ → Result TcpFail (List TcpOptions2)
unfolding parse_options
options_of hdr = parse_options (length hdr) [] (drop min_tcp_header_size hdr)

-- The checksum first, unless the device has checked it, then the options.
unfoldable pub finish_parse :
    Bool
    → Bool
    → Result TcpFail (List TcpOptions2)
    → (List TcpOptions2 → TcpHeader)
    → Buffer
    → Result TcpFail (TcpHeader × Buffer)
finish_parse false false os header payload = err checksum_mismatch
finish_parse false true os header payload = and_then os (λ os. ok (header os, payload))
finish_parse true same os header payload = and_then os (λ os. ok (header os, payload))

abbrev pub bit : ℕ → ℕ → Bool
bit byte mask = not (bit_and byte mask == 0)

unfoldable pub parse_fields :
    Ipv4Header → List ℕ → Buffer → Bool → Option (Result TcpFail (TcpHeader × Buffer))
unfolding options_of tcp_checksum finish_parse
parse_fields ip hdr payload offload = do
  src_port ← read_u16 0 hdr
  dst_port ← read_u16 2 hdr
  seq_num ← read_u32 4 hdr
  ack_num ← read_u32 8 hdr
  offset ← get_elem? hdr 12
  flags ← get_elem? hdr 13
  window_size ← read_u16 14 hdr
  sum ← read_u16 16 hdr
  urgent_pointer ← read_u16 18 hdr
  some (
      finish_parse offload (sum == tcp_checksum ip hdr payload) (options_of hdr)
        (λ os. record {
          src_port = src_port;
          dst_port = dst_port;
          seq_num = seq_num;
          ack_num = ack_num;
          ns = bit offset 1;
          cwr = bit flags 128;
          ece = bit flags 64;
          urg = bit flags 32;
          ack = bit flags 16;
          psh = bit flags 8;
          rst = bit flags 4;
          syn = bit flags 2;
          fin = bit flags 1;
          window_size = window_size;
          urgent_pointer = urgent_pointer;
          option_list = os;
        })
        payload)

unfoldable pub parse_at :
    Ipv4Header → Buffer → Bool → ℕ → Option (Result TcpFail (TcpHeader × Buffer))
unfolding parse_fields
parse_at ip buf offload data_offset =
    if ltb (length buf) data_offset
    then some (err smaller_than_offset)
    else (if ltb data_offset min_tcp_header_size
        then some (err offset_too_small)
        else (if ltb max_tcp_header_size data_offset
            then some (err offset_too_large)
            else parse_fields ip (take data_offset buf) (drop data_offset buf) offload))

unfoldable pub parse_sized :
    Ipv4Header → Buffer → Bool → Bool → Option (Result TcpFail (TcpHeader × Buffer))
unfolding parse_at
parse_sized ip buf offload true = some (err too_small)
parse_sized ip buf offload false = do b ← get_elem? buf 12; parse_at ip buf offload (b / 16 * 4)

-- `none` is a panic.
unfoldable pub parse : Ipv4Header → Buffer → Bool → Option (Result TcpFail (TcpHeader × Buffer))
unfolding parse_sized
parse ip buf offload = parse_sized ip buf offload (ltb (length buf) min_tcp_header_size)
