-- ===== src/Mig/Header.antt =====
-- inetstack/protocols/tcpmig/segment/header.rs: the TCPMig header, its bytes and its checksum.
pub mod Flags
pub mod RoundTrip
pub mod Total
pub mod Checksum
use capybara_artifact.Base.{
  ℕ, ◌+◌, ◌-◌, ◌*◌, ◌/◌, ◌%◌, ◌^◌, ◌==◌, Bool, true, false, not, ◌&&◌, leb, ltb, if◌then◌else◌,
  bit_and, bit_or, Option, some, none, List, [], ◌∷◌, ◌++◌, ◌>>=◌, Result, ok, err, length, take,
  drop, get_elem?, read_u16, read_u32, to_be2, to_be4, adjust, IsU16,
}
use mathlib.Core.List.{foldl}
use capybara_artifact.Net.{Ipv4Addr, SocketAddrV4, IsSocketAddr}
use capybara_artifact.State.{Buffer}
use capybara_artifact.State.Deserialize.{read_socket_addr}

abbrev pub tcpmig_header_size : ℕ
tcpmig_header_size = 28

abbrev pub rps_signal_header_size : ℕ
rps_signal_header_size = 20

abbrev pub magic_number : ℕ
magic_number = 0xCAFEDEAD

abbrev pub rps_signal_signature : ℕ
rps_signal_signature = 0xABCDABCD

pub data MigrationStage : Type 0 where
  none_stage rejected prepare_migration prepare_migration_ack : MigrationStage
  connection_state connection_state_ack heartbeat_update heartbeat_response : MigrationStage

pub record TcpMigHeader : Type 0 where
  pub origin : SocketAddrV4
  pub client : SocketAddrV4
  pub length : ℕ
  pub fragment_offset : ℕ
  pub flag_load : Bool
  pub flag_next_fragment : Bool
  pub stage : MigrationStage
  pub source_udp_port : ℕ
  pub dest_udp_port : ℕ

-- The two fields of the IPv4 header that are read here.
pub record Ipv4Header : Type 0 where
  pub src_addr : Ipv4Addr
  pub dst_addr : Ipv4Addr

-- The messages of `Fail`, all with EBADMSG.
pub data Fail : Type 0 where
  too_small not_tcpmig checksum_mismatch : Fail
  invalid_stage : ℕ → Fail
  expected_prepare_migration expected_prepare_migration_ack_or_rejected : Fail
  expected_connection_state expected_connection_state_ack : Fail

-- `TCPMIG_HEADER_SIZE as u16 + payload_length` overflows from 2 ^ 16 on: it wraps in a release build.
unfoldable pub new : SocketAddrV4 → SocketAddrV4 → ℕ → MigrationStage → ℕ → ℕ → TcpMigHeader
new origin client payload_length stage source dest = record {
  origin = origin;
  client = client;
  length = (tcpmig_header_size + payload_length) % 2 ^ 16;
  fragment_offset = 0;
  flag_load = false;
  flag_next_fragment = false;
  stage = stage;
  source_udp_port = source;
  dest_udp_port = dest;
}

unfoldable pub swap_src_dst_port : TcpMigHeader → TcpMigHeader
swap_src_dst_port h = record h {
  source_udp_port = h.dest_udp_port;
  dest_udp_port = h.source_udp_port;
}

-- `buf.len() >= size && read_u32(&buf[8..12]) == word`; `none` would be the panic of an index out of
-- range, which the test of the length prevents.
word_is : ℕ → Buffer → Bool → Option Bool
word_is word buf false = some false
word_is word buf true = do w ← read_u32 8 buf; some (w == word)

has_word : ℕ → ℕ → Buffer → Option Bool
unfolding word_is
has_word size word buf = word_is word buf (leb size (length buf))

unfoldable pub is_tcpmig : Buffer → Option Bool
unfolding has_word
is_tcpmig = has_word tcpmig_header_size magic_number

unfoldable pub is_rps_signal : Buffer → Option Bool
unfolding has_word
is_rps_signal = has_word rps_signal_header_size rps_signal_signature

-- `stage as u8`, and back by `TryFrom<u8>`.
unfoldable pub stage_to_u8 : MigrationStage → ℕ
stage_to_u8 none_stage = 0
stage_to_u8 rejected = 1
stage_to_u8 prepare_migration = 2
stage_to_u8 prepare_migration_ack = 3
stage_to_u8 connection_state = 4
stage_to_u8 connection_state_ack = 5
stage_to_u8 heartbeat_update = 12
stage_to_u8 heartbeat_response = 13

unfoldable pub stage_of_u8 : ℕ → Result ℕ MigrationStage
stage_of_u8 v =
    if v == 0
    then ok none_stage
    else if v == 1
    then ok rejected
    else if v == 2
    then ok prepare_migration
    else if v == 3
    then ok prepare_migration_ack
    else if v == 4
    then ok connection_state
    else if v == 5
    then ok connection_state_ack
    else if v == 12
    then ok heartbeat_update
    else if v == 13
    then ok heartbeat_response
    else err v

unfoldable pub serialize_flags_and_stage : Bool → Bool → MigrationStage → ℕ
unfolding stage_to_u8
serialize_flags_and_stage load next stage =
    bit_or (bit_or (if load then 1 else 0) (if next then 2 else 0)) (stage_to_u8 stage * 16 % 256)

-- `chunks_exact(2)` read as words; an odd last byte is left out.
abbrev pub words : List ℕ → List ℕ
words [] = []
words (a ∷ []) = []
words (a ∷ b ∷ rest) = (a * 256 + b) ∷ words rest

-- The odd last byte, padded with a zero, and a zero word if there is none.
abbrev pub last_word : List ℕ → ℕ
last_word [] = 0
last_word (a ∷ []) = a * 256
last_word (a ∷ b ∷ rest) = last_word rest

-- The sum wraps at 16 bits.
abbrev pub sum_words : List ℕ → ℕ → ℕ
sum_words ws s = foldl (λ s w. (s + w) % 2 ^ 16) s ws

abbrev pub octets : Ipv4Addr → List ℕ
octets a = a.o0 ∷ a.o1 ∷ a.o2 ∷ a.o3 ∷ []

-- The negated sum of the addresses, of the header without its bytes 6 and 7, and of the data.
unfoldable pub checksum : Ipv4Header → List ℕ → List ℕ → ℕ
checksum ip hdr payload =
    (2 ^ 16
      - sum_words (last_word payload ∷ []) (
          sum_words (words payload) (
            sum_words
              (words (octets ip.src_addr)
                ++ (words (octets ip.dst_addr) ++ (words (take 6 hdr) ++ words (drop 8 hdr))))
              0)))
    % 2 ^ 16

-- The 28 bytes, with a given checksum.
abbrev pub header_bytes : TcpMigHeader → ℕ → List ℕ
header_bytes h sum =
    to_be2 h.source_udp_port
    ++ (to_be2 h.dest_udp_port
        ++ (to_be2 h.length
            ++ (to_be2 sum
                ++ (to_be4 magic_number
                    ++ (octets h.origin.ip
                        ++ (to_be2 h.origin.port
                            ++ (octets h.client.ip
                                ++ (to_be2 h.client.port
                                    ++ (to_be2 h.fragment_offset
                                        ++ (serialize_flags_and_stage h.flag_load
                                              h.flag_next_fragment h.stage
                                            ∷ 0
                                            ∷ []))))))))))

-- What `serialize` writes to its buffer: first with a zero checksum, then with the right one.
unfoldable pub serialize : TcpMigHeader → Ipv4Header → Buffer → Buffer
serialize h ip payload = header_bytes h (checksum ip (header_bytes h 0) payload)

-- The end of `parse_from_slice`: the stage first, then the checksum, where 0 is no checksum.
unfoldable pub finish_parse :
    ℕ
    → ℕ
    → Result ℕ MigrationStage
    → (MigrationStage → TcpMigHeader)
    → Buffer
    → Result Fail (TcpMigHeader × Buffer)
finish_parse sum computed (err e) header payload = err (invalid_stage e)
finish_parse sum computed (ok stage) header payload =
    if not (sum == 0) && not (sum == computed)
    then err checksum_mismatch
    else ok (header stage, payload)

unfoldable pub parse_fields : Ipv4Header → Buffer → Option (Result Fail (TcpMigHeader × Buffer))
unfolding finish_parse stage_of_u8
parse_fields ip buf = do
  source ← read_u16 0 buf
  dest ← read_u16 2 buf
  len ← read_u16 4 buf
  sum ← read_u16 6 buf
  origin ← read_socket_addr 12 buf
  client ← read_socket_addr 18 buf
  offset ← read_u16 24 buf
  flags ← get_elem? buf 26
  payload ← adjust tcpmig_header_size buf
  some (
      finish_parse sum (checksum ip (take tcpmig_header_size buf) payload)
        (stage_of_u8 (bit_and flags 0xF0 / 16))
        (λ stage. record {
          origin = origin;
          client = client;
          length = len;
          fragment_offset = offset;
          flag_load = not (bit_and flags 1 == 0);
          flag_next_fragment = not (bit_and flags 2 == 0);
          stage = stage;
          source_udp_port = source;
          dest_udp_port = dest;
        })
        payload)

parse_tcpmig : Ipv4Header → Buffer → Bool → Option (Result Fail (TcpMigHeader × Buffer))
unfolding parse_fields
parse_tcpmig ip buf true = parse_fields ip buf
parse_tcpmig ip buf false = some (err not_tcpmig)

parse_sized : Ipv4Header → Buffer → Bool → Option (Result Fail (TcpMigHeader × Buffer))
unfolding parse_tcpmig
parse_sized ip buf true = some (err too_small)
parse_sized ip buf false = do magic ← read_u32 8 buf; parse_tcpmig ip buf (magic == magic_number)

-- `parse_from_slice`; `parse` copies the rest into a buffer of its own. `none` is a panic.
unfoldable pub parse : Ipv4Header → Buffer → Option (Result Fail (TcpMigHeader × Buffer))
unfolding parse_sized
parse ip buf = parse_sized ip buf (ltb (length buf) tcpmig_header_size)

-- The ranges of the Rust types.
pub record IsHeader (h : TcpMigHeader) : Type 0 where
  pub origin : IsSocketAddr h.origin
  pub client : IsSocketAddr h.client
  pub length : IsU16 h.length
  pub fragment_offset : IsU16 h.fragment_offset
  pub source_udp_port : IsU16 h.source_udp_port
  pub dest_udp_port : IsU16 h.dest_udp_port
