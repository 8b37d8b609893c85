-- ===== src/Mig/Header/RoundTrip.antt =====
-- Parsing a header that was serialized, and what the parser does with every other buffer.
use capybara_artifact.Base.{
  ℕ, ◌<◌, ◌^◌, ◌≡◌, some, List, ◌++◌, ok, length, le→ltb, of_be2-to_be2, arith,
}
use capybara_artifact.State.{Buffer}
use capybara_artifact.Mig.Header.{
  TcpMigHeader, MigrationStage, Ipv4Header, IsHeader, checksum, header_bytes, serialize,
  finish_parse, parse,
}
use capybara_artifact.Mig.Header.Flags.{flags_read}

pub checksum_U16 : (ip : Ipv4Header) (hdr payload : List ℕ) → checksum ip hdr payload < 2 ^ 16
unfolding checksum
checksum_U16 ip hdr payload = omega arith

finish_parse-same :
    (sum : ℕ) (stage : MigrationStage) (header : MigrationStage → TcpMigHeader) (payload : Buffer)
    → finish_parse sum sum (ok stage) header payload ≡ ok (header stage, payload)
unfolding finish_parse
finish_parse-same sum stage header payload = ground arith

-- The header's bytes with any checksum field, before any data: the checksum field itself is left
-- out of the sum.
pub parse-header_bytes :
    (h : TcpMigHeader) (ip : Ipv4Header) (sum : ℕ) (payload : Buffer)
    → IsHeader h
    → sum < 2 ^ 16
    → parse ip (header_bytes h sum ++ payload)
      ≡ some (
          finish_parse sum
            (checksum ip (header_bytes h 0) payload)
            (ok h.stage)
            (λ s. record h { stage = s })
            payload)
unfolding parse checksum
parse-header_bytes h ip sum payload v hs =
    let (load, next, stage) = flags_read h.flag_load h.flag_next_fragment h.stage in
    rw (
      le→ltb (length (header_bytes h sum ++ payload)) 28 (omega arith),
      of_be2-to_be2 h.source_udp_port v.source_udp_port,
      of_be2-to_be2 h.dest_udp_port v.dest_udp_port,
      of_be2-to_be2 h.length v.length,
      of_be2-to_be2 sum hs,
      of_be2-to_be2 h.origin.port v.origin.port,
      of_be2-to_be2 h.client.port v.client.port,
      of_be2-to_be2 h.fragment_offset v.fragment_offset,
      load,
      next,
      stage,
    )

-- A header whose numbers have the ranges of their Rust types, serialized before any data, is parsed
-- back as it was, and the data after it.
pub parse-serialize :
    (h : TcpMigHeader) (ip : Ipv4Header) (payload : Buffer)
    → IsHeader h
    → parse ip (serialize h ip payload ++ payload) ≡ some (ok (h, payload))
unfolding serialize
parse-serialize h ip payload v = rw (
  parse-header_bytes h ip (checksum ip (header_bytes h 0) payload) payload v
      (checksum_U16 ip (header_bytes h 0) payload),
  finish_parse-same (checksum ip (header_bytes h 0) payload) h.stage (λ s. record h { stage = s })
      payload,
)
