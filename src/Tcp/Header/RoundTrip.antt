-- ===== src/Tcp/Header/RoundTrip.antt =====
-- A TCP header, written and parsed.
use capybara_artifact.Base.{
  ℕ, zero, suc, ◌+◌, ◌-◌, ◌*◌, ◌/◌, ◌%◌, ◌≤◌, ◌<◌, ◌==◌, ◌≡◌, refl, ap, sym, ◌∙◌, bit_or, Bool,
  true, false, ltb, le→ltb, ==_refl, some, List, [], ◌∷◌, ◌++◌, ok, length, length-append,
  length-replicate, replicate, get_elem?, take, drop, take-length_append, drop-length_append, All,
  IsU16, IsU32, of_be2-to_be2, of_be4-to_be4, arith,
}
use capybara_artifact.State.{Buffer}
use capybara_artifact.Mig.Header.{Ipv4Header}
use capybara_artifact.Tcp.Header.{
  TcpOptions2, TcpHeader, options_bytes, options_size, end_size, compute_size, flags_byte,
  offset_byte, fixed_bytes, tail_bytes, tcp_checksum, serialize, flag,
}
use capybara_artifact.Tcp.Header.Parse.{
  parse_options, options_of, finish_parse, parse_fields, parse_at, parse_sized, parse, bit,
}
use capybara_artifact.Tcp.Header.Options.{
  IsOption, significant, length-options, parse_options-bytes,
}

-- The ranges of the Rust types, and options that fit: at most five, in a header of 60 bytes.
pub record IsTcpHeader (h : TcpHeader) : Type 0 where
  pub src_port : IsU16 h.src_port
  pub dst_port : IsU16 h.dst_port
  pub seq_num : IsU32 h.seq_num
  pub ack_num : IsU32 h.ack_num
  pub window_size : IsU16 h.window_size
  pub urgent_pointer : IsU16 h.urgent_pointer
  pub options : All IsOption h.option_list
  pub few : length h.option_list ≤ 5
  pub fits : compute_size h ≤ 60

flags_back :
    (h : TcpHeader)
    → (bit (flags_byte h) 128 ≡ h.cwr)
      × (bit (flags_byte h) 64 ≡ h.ece)
      × (bit (flags_byte h) 32 ≡ h.urg)
      × (bit (flags_byte h) 16 ≡ h.ack)
      × (bit (flags_byte h) 8 ≡ h.psh)
      × (bit (flags_byte h) 4 ≡ h.rst)
      × (bit (flags_byte h) 2 ≡ h.syn)
      × (bit (flags_byte h) 1 ≡ h.fin)
unfolding flags_byte
flags_back h = ground arith

abbrev Shifted : ℕ → Bool → Type 0
Shifted k ns = (bit_or (k * 16) (flag ns 1) / 16 ≡ k) × (bit (bit_or (k * 16) (flag ns 1)) 1 ≡ ns)

shift_back : (k : ℕ) (ns : Bool) → k < 16 → Shifted k ns
shift_back zero ns h = ground arith
shift_back (suc zero) ns h = ground arith
shift_back (suc (suc zero)) ns h = ground arith
shift_back (suc (suc (suc zero))) ns h = ground arith
shift_back (suc (suc (suc (suc zero)))) ns h = ground arith
shift_back (suc (suc (suc (suc (suc zero))))) ns h = ground arith
shift_back (suc (suc (suc (suc (suc (suc zero)))))) ns h = ground arith
shift_back (suc (suc (suc (suc (suc (suc (suc zero))))))) ns h = ground arith
shift_back (suc (suc (suc (suc (suc (suc (suc (suc zero)))))))) ns h = ground arith
shift_back (suc (suc (suc (suc (suc (suc (suc (suc (suc zero))))))))) ns h = ground arith
shift_back (suc (suc (suc (suc (suc (suc (suc (suc (suc (suc zero)))))))))) ns h = ground arith
shift_back (suc (suc (suc (suc (suc (suc (suc (suc (suc (suc (suc zero))))))))))) ns h =
    ground arith
shift_back (suc (suc (suc (suc (suc (suc (suc (suc (suc (suc (suc (suc zero)))))))))))) ns h =
    ground arith
shift_back (suc (suc (suc (suc (suc (suc (suc (suc (suc (suc (suc (suc (suc zero))))))))))))) ns h =
    ground arith
shift_back (suc (suc (suc (suc (suc (suc (suc (suc (suc (suc (suc (suc (suc (suc zero))))))))))))))
      ns h =
    ground arith
shift_back
      (suc (suc (suc (suc (suc (suc (suc (suc (suc (suc (suc (suc (suc (suc (suc zero)))))))))))))))
      ns h =
    ground arith
shift_back
      (suc
        (suc (suc (suc (suc (suc (suc (suc (suc (suc (suc (suc (suc (suc (suc (suc k))))))))))))))))
      ns h =
    absurd (omega arith)

-- The options, with as much padding as there is, and at least one byte after any option.
padded-options :
    (os : List TcpOptions2) (n fuel : ℕ)
    → All IsOption os
    → length os ≤ 5
    → end_size os ≤ n
    → length (options_bytes os) < fuel
    → parse_options fuel [] (options_bytes os ++ replicate n 0) ≡ ok (significant os)
unfolding parse_options options_bytes
padded-options os n zero a l e f = absurd (omega arith)
padded-options [] zero (suc fuel) a l e f = refl
padded-options [] (suc n) (suc fuel) a l e f = refl
padded-options (o ∷ os) zero (suc fuel) a l e f = absurd (omega arith)
padded-options (o ∷ os) (suc n) (suc fuel) a l e f =
    parse_options-bytes (o ∷ os) [] (suc fuel) (replicate n 0) a (omega arith) f

parse-offset :
    (ip : Ipv4Header) (buf : Buffer) (offload : Bool) (byte : ℕ)
    → 20 ≤ length buf
    → get_elem? buf 12 ≡ some byte
    → parse ip buf offload ≡ parse_at ip buf offload (byte / 16 * 4)
unfolding parse parse_sized
parse-offset ip buf offload byte h e = rw (le→ltb (length buf) 20 h, e)

parse_at-exact :
    (ip : Ipv4Header) (b payload : Buffer) (offload : Bool) (n : ℕ)
    → length b ≡ n
    → 20 ≤ n
    → n ≤ 60
    → parse_at ip (b ++ payload) offload n ≡ parse_fields ip b payload offload
unfolding parse_at
parse_at-exact ip b payload offload n e lo hi =
    let z : ltb (length (b ++ payload)) n ≡ false =
      le→ltb (length (b ++ payload)) n (omega (arith, length-append b payload)) in
    let t : take n (b ++ payload) ≡ b =
      ap (λ k. take k (b ++ payload)) (sym e) ∙ take-length_append b payload in
    let d : drop n (b ++ payload) ≡ payload =
      ap (λ k. drop k (b ++ payload)) (sym e) ∙ drop-length_append b payload in
    rw (z, le→ltb n 20 lo, le→ltb 60 n hi, t, d)

module _ (h : TcpHeader) (v : IsTcpHeader h) where
  -- The size is a multiple of four, that the offset field can hold, and covers the options.
  size_words :
      (compute_size h / 4 * 4 ≡ compute_size h)
      × (compute_size h / 4 < 16)
      × (20 + options_size h.option_list + end_size h.option_list ≤ compute_size h)
  unfolding compute_size
  size_words = let f : compute_size h ≤ 60 = v.fits in (omega arith, omega arith, omega arith)

  offset_byte-words :
      (offset_byte (compute_size h) h.ns / 16 * 4 ≡ compute_size h)
      × (bit (offset_byte (compute_size h) h.ns) 1 ≡ h.ns)
  unfolding offset_byte
  offset_byte-words =
      let (m, l, c) = size_words in
      let (p, q) = shift_back (compute_size h / 4) h.ns l in
      let z : compute_size h / 4 % 256 * 16 % 256 ≡ compute_size h / 4 * 16 = omega arith in
      rw (z, p, q) (m, refl)

  length-tail : length (tail_bytes h) ≡ compute_size h - 20
  unfolding tail_bytes
  length-tail =
      let (m, l, c) = size_words in
      let n = compute_size h - 20 - options_size h.option_list in
      omega (
        arith,
        length-append (options_bytes h.option_list) (replicate n 0),
        length-replicate {A = ℕ} n 0,
        length-options h.option_list,
      )

  length-header : (sum : ℕ) → length (fixed_bytes h sum ++ tail_bytes h) ≡ compute_size h
  length-header sum = let (m, l, c) = size_words in omega (arith, length-tail)

  options_of-header :
      (sum : ℕ) → options_of (fixed_bytes h sum ++ tail_bytes h) ≡ ok (significant h.option_list)
  unfolding options_of tail_bytes
  options_of-header sum =
      let (m, l, c) = size_words in
      let n = compute_size h - 20 - options_size h.option_list in
      padded-options h.option_list n (length (fixed_bytes h sum ++ tail_bytes h)) v.options v.few
        (omega arith) (omega (arith, length-header sum, length-options h.option_list))

  -- The parser takes the header's bytes apart from the data.
  parse-split :
      (ip : Ipv4Header) (sum : ℕ) (payload : Buffer) (offload : Bool)
      → parse ip ((fixed_bytes h sum ++ tail_bytes h) ++ payload) offload
        ≡ parse_fields ip (fixed_bytes h sum ++ tail_bytes h) payload offload
  parse-split ip sum payload offload =
      let b = fixed_bytes h sum ++ tail_bytes h in
      let (m, l, c) = size_words in
      let (w, q) = offset_byte-words in
      parse-offset ip (b ++ payload) offload (offset_byte (compute_size h) h.ns)
        (omega (arith, length-append b payload, length-header sum)) refl
      ∙ ap (parse_at ip (b ++ payload) offload) w
      ∙ parse_at-exact ip b payload offload (compute_size h) (length-header sum) (omega arith)
          v.fits

-- The sum leaves its own field out.
checksum-sum :
    (h : TcpHeader) (ip : Ipv4Header) (sum : ℕ) (payload : Buffer)
    → tcp_checksum ip (fixed_bytes h sum ++ tail_bytes h) payload
      ≡ tcp_checksum ip (fixed_bytes h 0 ++ tail_bytes h) payload
unfolding tcp_checksum
checksum-sum h ip sum payload = refl

parse_fields-header :
    (h : TcpHeader) (ip : Ipv4Header) (sum : ℕ) (payload : Buffer) (offload : Bool)
    → IsTcpHeader h
    → IsU16 sum
    → parse_fields ip (fixed_bytes h sum ++ tail_bytes h) payload offload
      ≡ some (
          finish_parse offload
            (sum == tcp_checksum ip (fixed_bytes h 0 ++ tail_bytes h) payload)
            (ok (significant h.option_list))
            (λ os. record h { option_list = os })
            payload)
unfolding parse_fields
parse_fields-header h ip sum payload offload v hs =
    let (a, b, c, d, e, f, g, i) = flags_back h in
    rw (
      options_of-header h v sum,
      checksum-sum h ip sum payload,
      of_be2-to_be2 h.src_port v.src_port,
      of_be2-to_be2 h.dst_port v.dst_port,
      of_be4-to_be4 h.seq_num v.seq_num,
      of_be4-to_be4 h.ack_num v.ack_num,
      of_be2-to_be2 h.window_size v.window_size,
      of_be2-to_be2 sum hs,
      of_be2-to_be2 h.urgent_pointer v.urgent_pointer,
      (offset_byte-words h v).1,
      a,
      b,
      c,
      d,
      e,
      f,
      g,
      i,
    )

checksum-bound :
    (ip : Ipv4Header) (hdr : List ℕ) (payload : Buffer) → IsU16 (tcp_checksum ip hdr payload)
unfolding tcp_checksum
checksum-bound ip hdr payload = omega arith

-- A header whose numbers have the ranges of their Rust types, with at most five options that fit
-- into 60 bytes, written before any data is parsed back as it was but for its no-operation
-- options, and the data after it, with the checksum or, on both sides, without it.
pub parse-tcp_header :
    (h : TcpHeader) (ip : Ipv4Header) (payload : Buffer) (offload : Bool)
    → IsTcpHeader h
    → parse ip (serialize h ip payload offload ++ payload) offload
      ≡ some (ok (record h { option_list = significant h.option_list }, payload))
unfolding serialize finish_parse
parse-tcp_header h ip payload true v =
    parse-split h v ip 0 payload true ∙ parse_fields-header h ip 0 payload true v (omega arith)
parse-tcp_header h ip payload false v =
    let sum = tcp_checksum ip (fixed_bytes h 0 ++ tail_bytes h) payload in
    parse-split h v ip sum payload false
    ∙ parse_fields-header h ip sum payload false v
        (checksum-bound ip (fixed_bytes h 0 ++ tail_bytes h) payload)
    ∙ ap
        (λ b. some (
          finish_parse false b (ok (significant h.option_list))
            (λ os. record h { option_list = os }) payload))
        (==_refl sum)
