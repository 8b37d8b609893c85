-- ===== src/Tests/Migration.antt =====
-- The theorems on the migration protocol, at sample messages.
use capybara_artifact.Base.{
  suc, ◌/◌, ◌<◌, ◌≡◌, ◌≢◌, refl, true, false, some, none, List, [], ◌∷◌, ◌++◌, map, set, replicate,
  Result, ok, err, arith,
}
use mathlib.Core.List.{Perm, flatten}
use mathlib.Core.List.Perm
use capybara_artifact.Net.{SocketAddrV4}
use capybara_artifact.Net.Map.{addr_key, lookup, insert}
use capybara_artifact.State.{Buffer}
use capybara_artifact.State.Size.{serialized_size, control_block_size}
use capybara_artifact.Mig.Header.{
  TcpMigHeader, Fail, checksum_mismatch, prepare_migration_ack, serialize_flags_and_stage, parse,
  serialize, header_bytes, checksum,
}
use capybara_artifact.Mig.Header.RoundTrip.{parse-serialize}
use capybara_artifact.Mig.Header.Total.{Explains, parse_total}
use capybara_artifact.Mig.Header.Checksum.{parse_corrupted}
use capybara_artifact.Mig.Segment as Segment
use capybara_artifact.Mig.Segment.{
  TcpMigSegment, TcpMigDefragmenter, max_fragment_size, fragments, collect, next, receive_all,
}
use capybara_artifact.Mig.Segment.Order.{enumerate}
use capybara_artifact.Mig.Segment.Reassemble.{fragment, receive_all-perm}
use capybara_artifact.Mig.Segment.Chunks.{chunks, full_chunks, segment_of, received_part}
use capybara_artifact.Mig.Segment.Delivery.{receive_all-fragments}
use capybara_artifact.Mig.Active as Active
use capybara_artifact.Mig.Active.{
  ActiveMigration, TcpmigReceiveStatus, ok_status, returned_by_switch, segment_to_send, send,
  process_packet,
}
use capybara_artifact.Mig.Active.Send.{send-total, send-chunks}
use capybara_artifact.Mig.Active.Stages.{Follows, start, then, buffered}
use capybara_artifact.Mig.Active.Order.{Steps-Follows}
use capybara_artifact.Mig.Active.Handshake.{Migrates, migrates}
use capybara_artifact.Mig.Peer as Peer
use capybara_artifact.Mig.Peer.{
  TcpMigPeer, Packet, new_active, put_active, drop_active, receive, close_active_migration,
}
use capybara_artifact.Mig.Peer.Buffered.{buffer_all, close-buffer_all}
use capybara_artifact.Mig.Peer.Requests.{prepared, receive-prepare}
use capybara_artifact.Tests.Samples.{
  origin_addr, client_addr, tcp_state, tcp_state-valid, ip_header, header, header-valid, request,
  request-valid, origin_side, target_side, peer, tcp_header,
}

parse-serialize_example :
    parse ip_header (serialize header ip_header (1 ∷ 2 ∷ 3 ∷ []) ++ (1 ∷ 2 ∷ 3 ∷ []))
    ≡ some (ok (header, 1 ∷ 2 ∷ 3 ∷ []))
parse-serialize_example = parse-serialize header ip_header (1 ∷ 2 ∷ 3 ∷ []) header-valid

parse_total_example :
    (r : Result Fail (TcpMigHeader × Buffer)) × (parse ip_header
        (serialize header ip_header [] ++ (7 ∷ []))
      ≡ some r)
    × Explains ip_header (serialize header ip_header [] ++ (7 ∷ [])) r
parse_total_example = parse_total ip_header (serialize header ip_header [] ++ (7 ∷ []))

sum_not_zero : checksum ip_header (header_bytes header 0) (1 ∷ 2 ∷ 3 ∷ []) ≢ 0
unfolding checksum serialize_flags_and_stage
sum_not_zero e = absurd (omega arith)

parse_corrupted_example :
    parse ip_header (serialize header ip_header (1 ∷ 2 ∷ 3 ∷ []) ++ set (1 ∷ 2 ∷ 3 ∷ []) 1 9)
    ≡ some (err checksum_mismatch)
parse_corrupted_example =
    parse_corrupted header ip_header (1 ∷ 2 ∷ 3 ∷ []) 1 9 2 header-valid refl (omega arith)
      (omega arith) (λ e. absurd (omega arith)) sum_not_zero

-- The second fragment arrives first, and the buffer has two zeros too many.
pieces_swapped :
    Perm ((1, 3 ∷ []) ∷ (0, 1 ∷ 2 ∷ []) ∷ []) (enumerate 0 ((1 ∷ 2 ∷ []) ∷ (3 ∷ []) ∷ []))
unfolding enumerate
pieces_swapped = Perm.swap (0, 1 ∷ 2 ∷ []) (1, 3 ∷ []) []

receive_all-perm_example :
    receive_all
      (record { fragments = []; total_fragments = none; current_fragments = 0; current_size = 2 })
      (map (fragment header 2) ((1, 3 ∷ []) ∷ (0, 1 ∷ 2 ∷ []) ∷ []))
    ≡ some (
      (header, 1 ∷ 2 ∷ 3 ∷ 0 ∷ 0 ∷ []) ∷ [],
      record { fragments = []; total_fragments = none; current_fragments = 0; current_size = 5 },
    )
unfolding flatten
receive_all-perm_example =
    receive_all-perm header ((1 ∷ 2 ∷ []) ∷ (3 ∷ []) ∷ []) 2 ((1, 3 ∷ []) ∷ (0, 1 ∷ 2 ∷ []) ∷ [])
      (omega arith) (omega arith) pieces_swapped

-- Two fragments, of 1452 bytes and of one.
abbrev long_payload : Buffer
long_payload = replicate 1453 7

abbrev long_segment : TcpMigSegment
long_segment = segment_to_send origin_side header long_payload

abbrev first_part : TcpMigSegment
first_part = segment_of long_segment 2 (0, replicate 1452 7)

abbrev last_part : TcpMigSegment
last_part = segment_of long_segment 2 (1, 7 ∷ [])

two_parts : collect 3 (fragments long_segment) ≡ some (first_part ∷ last_part ∷ [])
unfolding collect fragments next
two_parts = refl

one_full : full_chunks long_payload ≡ 1
unfolding full_chunks
one_full = refl

receive_all-fragments_example :
    (d : TcpMigDefragmenter) × (receive_all Segment.new
        (map received_part (last_part ∷ first_part ∷ []))
      ≡ some ((header, long_payload) ∷ [], d))
receive_all-fragments_example =
    receive_all-fragments long_segment 3 (first_part ∷ last_part ∷ []) (last_part ∷ first_part ∷ [])
      (rw one_full (omega arith)) (rw one_full (omega arith)) two_parts
      (Perm.swap first_part last_part [])

send-total_example : (out : List TcpMigSegment) × (send origin_side header long_payload ≡ some out)
send-total_example = send-total origin_side header long_payload (omega arith)

send-chunks_example :
    send origin_side header long_payload
    ≡ some (
        map
          (segment_of long_segment (suc (full_chunks long_payload)))
          (enumerate 0 (chunks (full_chunks long_payload) long_payload)))
send-chunks_example = send-chunks origin_side header long_payload (omega arith)

Steps-Follows_example : Follows origin_side (Active.buffer_packet tcp_header (1 ∷ []) origin_side)
Steps-Follows_example =
    Steps-Follows origin_side (Active.buffer_packet tcp_header (1 ∷ []) origin_side) (
      then origin_side (Active.buffer_packet tcp_header (1 ∷ []) origin_side) start
        (buffered tcp_header (1 ∷ [])))

size_small : serialized_size tcp_state / max_fragment_size < 65535
unfolding serialized_size control_block_size
size_small = omega arith

migrates_example : Migrates origin_side target_side 5 tcp_state
unfolding Active.new
migrates_example =
    migrates origin_side target_side 5 tcp_state refl refl refl refl tcp_state-valid size_small

abbrev busy_peer : TcpMigPeer
busy_peer = put_active client_addr target_side peer

found : lookup client_addr busy_peer.active_migrations ≡ some target_side
unfolding lookup insert
found = refl

close-buffer_all_example :
    (p' : TcpMigPeer) × (buffer_all busy_peer client_addr
        ((tcp_header, 1 ∷ []) ∷ (tcp_header, 2 ∷ []) ∷ [])
      ≡ some p')
    × ((close_active_migration p' client_addr).0
        ≡ some (target_side.recv_queue ++ ((tcp_header, 1 ∷ []) ∷ (tcp_header, 2 ∷ []) ∷ [])))
    × ((close_active_migration ((close_active_migration p' client_addr).1) client_addr).0 ≡ none)
    × ((l : SocketAddrV4)
        → client_addr ≢ l
        → lookup l p'.active_migrations ≡ lookup l busy_peer.active_migrations)
close-buffer_all_example =
    close-buffer_all busy_peer client_addr target_side
      ((tcp_header, 1 ∷ []) ∷ (tcp_header, 2 ∷ []) ∷ []) found

abbrev request_bytes : Buffer
request_bytes = serialize request ip_header []

request_parsed : parse ip_header (request_bytes ++ []) ≡ some (ok (request, []))
request_parsed = parse-serialize request ip_header [] request-valid

not_found : lookup client_addr peer.active_migrations ≡ none
unfolding Peer.new lookup
not_found = refl

abbrev request_answer : TcpMigHeader
request_answer = record request {
  stage = prepare_migration_ack;
  flag_load = true;
  flag_next_fragment = false;
  fragment_offset = 0;
  source_udp_port = request.dest_udp_port;
  dest_udp_port = request.source_udp_port;
}

abbrev answering : ActiveMigration
answering = prepared peer ip_header (request_bytes ++ []) [] request request_parsed refl

receive-prepare_example :
    (p' : TcpMigPeer) × (lookup client_addr p'.active_migrations ≡ some answering)
    × (receive peer ip_header (request_bytes ++ [])
        ≡ some (ok ok_status, (p', segment_to_send answering request_answer [] ∷ [])))
receive-prepare_example =
    receive-prepare peer ip_header (request_bytes ++ []) [] request request_parsed refl not_found

abbrev returned : Result Fail TcpmigReceiveStatus
returned = ok (returned_by_switch origin_addr client_addr)

abbrev returned_peer : TcpMigPeer
returned_peer = drop_active client_addr (
    put_active client_addr (new_active busy_peer origin_addr.port origin_addr client_addr none)
      busy_peer)
