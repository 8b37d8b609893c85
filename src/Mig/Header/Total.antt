-- ===== src/Mig/Header/Total.antt =====
-- The parser on an arbitrary buffer: it never reads out of range, and each refusal has its reason.
use capybara_artifact.Base.{
  ℕ, ◌+◌, ◌≤◌, ◌<◌, ◌==◌, ◌≡◌, ◌≢◌, ◌⊎◌, subst, sym, get_elem?, read_u16, if◌then◌else◌, refl, ap,
  ◌∙◌, true, false, some, Result, ok, err, ltb, ltb→lt, le→ltb, le→leb, length, drop, take, not,
  ◌&&◌, ◌/◌, bit_and, get_elem?-some, read_u32, read_u16-some, read_u32-some, adjust-drop,
  Bool-cases, inl, inr, arith,
}
use capybara_artifact.Net.{SocketAddrV4}
use capybara_artifact.State.{Buffer}
use capybara_artifact.State.Deserialize.{read_socket_addr}
use capybara_artifact.Mig.Header.{
  TcpMigHeader, MigrationStage, Ipv4Header, Fail, too_small, not_tcpmig, checksum_mismatch,
  invalid_stage, magic_number, checksum, stage_of_u8, finish_parse, parse_fields, parse, is_tcpmig,
}

read_socket_addr-some :
    (i : ℕ) (buf : Buffer)
    → i + 5 < length buf
    → (a : SocketAddrV4) × (read_socket_addr i buf ≡ some a)
read_socket_addr-some i buf h =
    let (a, ea) = get_elem?-some buf i (omega arith) in
    let (b, eb) = get_elem?-some buf (i + 1) (omega arith) in
    let (c, ec) = get_elem?-some buf (i + 2) (omega arith) in
    let (d, ed) = get_elem?-some buf (i + 3) (omega arith) in
    let (p, ep) = read_u16-some (i + 4) buf (omega arith) in
    (record { ip = record { o0 = a; o1 = b; o2 = c; o3 = d }; port = p }, rw (ea, eb, ec, ed, ep))

-- What a result says of the buffer that was parsed.
pub data Explains (ip : Ipv4Header) (buf : Buffer)
    : Result Fail (TcpMigHeader × Buffer) → Type 0 where
  short : length buf < 28 → Explains ip buf (err too_small)
  foreign : 28 ≤ length buf → is_tcpmig buf ≡ some false → Explains ip buf (err not_tcpmig)
  bad_stage :
      (flags e : ℕ)
      → is_tcpmig buf ≡ some true
      → get_elem? buf 26 ≡ some flags
      → stage_of_u8 (bit_and flags 0xF0 / 16) ≡ err e
      → Explains ip buf (err (invalid_stage e))
  corrupted :
      (sum : ℕ)
      → is_tcpmig buf ≡ some true
      → read_u16 6 buf ≡ some sum
      → sum ≢ 0
      → sum ≢ checksum ip (take 28 buf) (drop 28 buf)
      → Explains ip buf (err checksum_mismatch)
  accepted :
      (h : TcpMigHeader) (flags sum : ℕ)
      → is_tcpmig buf ≡ some true
      → get_elem? buf 26 ≡ some flags
      → stage_of_u8 (bit_and flags 0xF0 / 16) ≡ ok h.stage
      → read_u16 6 buf ≡ some sum
      → (sum ≡ 0) ⊎ (sum ≡ checksum ip (take 28 buf) (drop 28 buf))
      → Explains ip buf (ok (h, drop 28 buf))

-- What the fields of a buffer of 28 bytes or more come to.
record Fields (ip : Ipv4Header) (buf : Buffer) : Type 0 where
  sum : ℕ
  flags : ℕ
  header : MigrationStage → TcpMigHeader
  sum_at : read_u16 6 buf ≡ some sum
  flags_at : get_elem? buf 26 ≡ some flags
  stage_of : (s : MigrationStage) → (header s).stage ≡ s
  parsed :
      parse_fields ip buf
      ≡ some (
          finish_parse sum
            (checksum ip (take 28 buf) (drop 28 buf))
            (stage_of_u8 (bit_and flags 0xF0 / 16))
            header
            (drop 28 buf))

parse_fields_lem : (ip : Ipv4Header) (buf : Buffer) → 28 ≤ length buf → Fields ip buf
unfolding parse_fields
parse_fields_lem ip buf h =
    let (source, e0) = read_u16-some 0 buf (omega arith) in
    let (dest, e2) = read_u16-some 2 buf (omega arith) in
    let (len, e4) = read_u16-some 4 buf (omega arith) in
    let (sum, e6) = read_u16-some 6 buf (omega arith) in
    let (origin, e12) = read_socket_addr-some 12 buf (omega arith) in
    let (client, e18) = read_socket_addr-some 18 buf (omega arith) in
    let (offset, e24) = read_u16-some 24 buf (omega arith) in
    let (flags, e26) = get_elem?-some buf 26 (omega arith) in
    record {
      sum = sum;
      flags = flags;
      header = λ stage. record {
        origin = origin;
        client = client;
        length = len;
        fragment_offset = offset;
        flag_load = not (bit_and flags 1 == 0);
        flag_next_fragment = not (bit_and flags 2 == 0);
        stage = stage;
        source_udp_port = source;
        dest_udp_port = dest;
      };
      sum_at = e6;
      flags_at = e26;
      stage_of = λ s. refl;
      parsed = rw (e0, e2, e4, e6, e12, e18, e24, e26, adjust-drop 28 buf h);
    }

-- The checksum is compared unless it is 0.
checksum-cases :
    (sum computed : ℕ)
    → ((not (sum == 0) && not (sum == computed) ≡ true) × (sum ≢ 0) × (sum ≢ computed))
      ⊎ ((not (sum == 0) && not (sum == computed) ≡ false) × ((sum ≡ 0) ⊎ (sum ≡ computed)))
checksum-cases sum computed = elim (Bool-cases (sum == 0)) [
  | inl e ↦ inr (rw e, inl (ground arith))
  | inr e ↦ elim (Bool-cases (sum == computed)) [
    | inl g ↦ inr (rw (e, g), inr (ground arith))
    | inr g ↦ inl (rw (e, g), (λ z. ground arith), (λ z. ground arith))
  ]
]

finish_parse-Explains :
    (ip : Ipv4Header) (buf : Buffer) (f : Fields ip buf) (stage : Result ℕ MigrationStage)
    → is_tcpmig buf ≡ some true
    → stage_of_u8 (bit_and f.flags 0xF0 / 16) ≡ stage
    → Explains ip buf
        (finish_parse f.sum (checksum ip (take 28 buf) (drop 28 buf)) stage f.header (drop 28 buf))
unfolding finish_parse
finish_parse-Explains ip buf f (err e) h g = bad_stage f.flags e h f.flags_at g
finish_parse-Explains ip buf f (ok s) h g =
    let computed = checksum ip (take 28 buf) (drop 28 buf) in
    elim (checksum-cases f.sum computed) [
      | inl (e, n, m) ↦
          subst (Explains ip buf)
            (sym (ap (λ b. if b then err checksum_mismatch else ok (f.header s, drop 28 buf)) e))
            (corrupted f.sum h f.sum_at n m)
      | inr (e, c) ↦
          subst (Explains ip buf)
            (sym (ap (λ b. if b then err checksum_mismatch else ok (f.header s, drop 28 buf)) e))
            (accepted (f.header s) f.flags f.sum h f.flags_at (g ∙ ap ok (sym (f.stage_of s)))
              f.sum_at c)
    ]

module _ (ip : Ipv4Header) (buf : Buffer) (w : ℕ) (h : 28 ≤ length buf)
    (ew : read_u32 8 buf ≡ some w) where
  is_tcpmig-word : is_tcpmig buf ≡ some (w == magic_number)
  unfolding is_tcpmig
  is_tcpmig-word = rw (le→leb 28 (length buf) h, ew)

  parse-tcpmig : (w == magic_number) ≡ true → parse ip buf ≡ parse_fields ip buf
  unfolding parse
  parse-tcpmig e = rw (le→ltb (length buf) 28 h, ew, e)

  parse-not_tcpmig : (w == magic_number) ≡ false → parse ip buf ≡ some (err not_tcpmig)
  unfolding parse
  parse-not_tcpmig e = rw (le→ltb (length buf) 28 h, ew, e)

  parse_long :
      (r : Result Fail (TcpMigHeader × Buffer)) × (parse ip buf ≡ some r) × Explains ip buf r
  parse_long = elim (Bool-cases (w == magic_number)) [
    | inl e ↦
        let f = parse_fields_lem ip buf h in
        (
          _,
          parse-tcpmig e ∙ f.parsed,
          finish_parse-Explains ip buf f (stage_of_u8 (bit_and f.flags 0xF0 / 16))
              (is_tcpmig-word ∙ ap some e) refl,
        )
    | inr e ↦ (err not_tcpmig, parse-not_tcpmig e, foreign h (is_tcpmig-word ∙ ap some e))
  ]

-- On every buffer the parser returns, without reading out of range, and its result is one that the
-- buffer explains: `too small` below 28 bytes, and `not a TCPMig segment` at another magic number;
-- otherwise the error for the stage where the flags byte has one that there is not, `checksum
-- mismatch` where the checksum field is not 0 and not the computed checksum, or, where it is one of
-- these and the stage is valid, a header with that stage and the bytes after the header.
pub parse_total :
    (ip : Ipv4Header) (buf : Buffer)
    → (r : Result Fail (TcpMigHeader × Buffer)) × (parse ip buf ≡ some r) × Explains ip buf r
unfolding parse
parse_total ip buf = elim (Bool-cases (ltb (length buf) 28)) [
  | inl e ↦ (err too_small, rw e, short (ltb→lt (length buf) 28 e))
  | inr e ↦
      let h : 28 ≤ length buf = ground arith in
      let (w, ew) = read_u32-some 8 buf (omega arith) in parse_long ip buf w h ew
]
