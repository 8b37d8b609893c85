-- ===== src/Mig/Active/Handshake.antt =====
-- The four messages of a migration from one server to another, from the first to the last.
use capybara_artifact.Base.{
  ℕ, ◌+◌, ◌/◌, ◌<◌, ◌≡◌, refl, sym, ap, ◌∙◌, true, some, List, [], ◌∷◌, ◌++◌, map, length, ok,
  arith,
}
use mathlib.Core.List.{Perm}
use capybara_artifact.State.{Buffer, TcpState, set_local}
use capybara_artifact.State.Deserialize.{deserialize}
use capybara_artifact.State.Size.{serialize, serialized_size}
use capybara_artifact.State.RoundTrip.{
  IsTcpState, received_state, encode_app, serialize_fills, deserialize-serialize,
}
use capybara_artifact.State.Encode.Block.{encode}
use capybara_artifact.Mig.Header as Header
use capybara_artifact.Mig.Header.{
  TcpMigHeader, MigrationStage, none_stage, prepare_migration, prepare_migration_ack,
  connection_state, connection_state_ack, swap_src_dst_port,
}
use capybara_artifact.Mig.Segment.{TcpMigSegment, max_fragment_size, fragments, collect}
use capybara_artifact.Mig.Segment as Segment
use capybara_artifact.Mig.Segment.Chunks.{received_part, full_chunks}
use capybara_artifact.Mig.Segment.Delivery.{receive_all-fragments, fragments-InStage}
use capybara_artifact.Mig.Active.{
  QDesc, ActiveMigration, ok_status, migration_completed, prepare_migration_acked, state_received,
  segment_to_send, send, send_stage, next_header, on_stage, on_prepare, on_connection_state,
  process_packet, initiate_at, initiate_migration, send_state_at, send_connection_state, peer_port,
}
use capybara_artifact.Mig.Active.Empty.{unfragmented, send-empty, process-prepare}
use capybara_artifact.Mig.Active.Send.{send-total, send-collect}
use capybara_artifact.Mig.Active.Transfer.{process_all, local_addr, Accepts, accepts}

-- The run of both sides, `origin` and `target`, with every result: PREPARE_MIGRATION and its
-- acknowledgement, CONNECTION_STATE in fragments that arrive in any order, and the last
-- acknowledgement.
pub record Migrates (origin target : ActiveMigration) (qd : QDesc) (s : TcpState) : Type 0 where
  pub origin1 : ActiveMigration
  pub request : TcpMigSegment
  pub initiate : initiate_migration origin ≡ some (origin1, request ∷ [])
  pub target1 : ActiveMigration
  pub answer : TcpMigSegment
  pub prepare :
      process_packet target request.tcpmig_hdr request.payload
      ≡ some (ok ok_status, (target1, answer ∷ []))
  pub origin2 : ActiveMigration
  pub prepared :
      process_packet origin1 answer.tcpmig_hdr answer.payload
      ≡ some (ok (prepare_migration_acked qd), (origin2, []))
  pub origin3 : ActiveMigration
  pub sent : List TcpMigSegment
  pub send_state : send_connection_state origin2 s ≡ some (origin3, sent)
  pub deliver :
      (arrived : List TcpMigSegment)
      → Perm arrived sent
      → (target2 : ActiveMigration) × (last : TcpMigSegment) × (process_all target1
            (map received_part arrived)
          ≡ some (
            ok (state_received (set_local (local_addr target) (received_state s))) ∷ [],
            (target2, last ∷ []),
          ))
        × (process_packet origin3 last.tcpmig_hdr last.payload
            ≡ some (ok migration_completed, (origin3, [])))

module _ (origin : ActiveMigration) where
  -- The origin after each of its messages.
  abbrev sent_request : ActiveMigration
  sent_request = record origin { last_sent_stage = prepare_migration }

  abbrev request_header : TcpMigHeader
  request_header =
      Header.new origin.origin origin.client 0 prepare_migration origin.self_udp_port
        (peer_port origin.self_udp_port)

  initiates :
      origin.last_sent_stage ≡ none_stage
      → initiate_migration origin
        ≡ some (sent_request, segment_to_send origin (unfragmented request_header) [] ∷ [])
  unfolding initiate_migration initiate_at send_stage
  initiates e = ap (initiate_at origin) e ∙ rw (send-empty origin request_header)

  acked : ℕ → ActiveMigration
  acked port = record origin { last_sent_stage = prepare_migration; dest_udp_port = port }

  acks :
      (qd : QDesc) (hdr : TcpMigHeader) (buf : Buffer)
      → origin.qd ≡ some qd
      → hdr.stage ≡ prepare_migration_ack
      → process_packet sent_request hdr buf
        ≡ some (ok (prepare_migration_acked qd), (acked hdr.source_udp_port, []))
  unfolding process_packet on_stage on_prepare acked
  acks qd hdr buf e t = ap (on_prepare sent_request hdr) t ∙ rw e

  abbrev state_header : ℕ → TcpMigHeader
  state_header port =
      Header.new origin.origin origin.client 0 connection_state origin.self_udp_port port

  abbrev sent_state : ℕ → ActiveMigration
  sent_state port = record origin { last_sent_stage = connection_state; dest_udp_port = port }

  sends_state :
      (port : ℕ) (s : TcpState) (buf : Buffer) (out : List TcpMigSegment)
      → serialize s ≡ some buf
      → send (acked port) (state_header port) buf ≡ some out
      → send_connection_state (acked port) s ≡ some (sent_state port, out)
  unfolding send_connection_state send_state_at send_stage acked
  sends_state port s buf out e f = rw (e, f)

  completes :
      (port : ℕ) (hdr : TcpMigHeader) (buf : Buffer)
      → hdr.stage ≡ connection_state_ack
      → process_packet (sent_state port) hdr buf
        ≡ some (ok migration_completed, (sent_state port, []))
  unfolding process_packet on_stage on_connection_state
  completes port hdr buf t = ap (on_connection_state (sent_state port)) t

  -- What the target makes of the state's fragments.
  delivers :
      (port : ℕ) (s : TcpState) (buf : Buffer) (sent arrived : List TcpMigSegment)
      (target1 : ActiveMigration)
      → deserialize buf ≡ some (received_state s)
      → length buf / max_fragment_size < 65535
      → send (acked port) (state_header port) buf ≡ some sent
      → target1.last_sent_stage ≡ prepare_migration_ack
      → target1.defragmenter ≡ Segment.new
      → Perm arrived sent
      → Accepts target1
          (map received_part arrived)
          (unfragmented (state_header port))
          (received_state s)
  unfolding full_chunks Header.new
  delivers port s buf sent arrived target1 e b f l n p =
      let seg = segment_to_send (acked port) (state_header port) buf in
      let fuel = length buf / max_fragment_size + 4 in
      let c : collect fuel (fragments seg) ≡ some sent =
        sym (send-collect (acked port) (state_header port) buf (omega arith)) ∙ f in
      let (d, r) = receive_all-fragments seg fuel sent arrived (omega arith) (omega arith) c p in
      let st = fragments-InStage seg fuel sent arrived (omega arith) (omega arith) c p in
      accepts (unfragmented (state_header port)) buf (received_state s) e target1
        (map received_part arrived) d l st (rw n r)

-- A connection's state moves from one server to the other. Where the origin has not begun and
-- holds the connection's descriptor, the target has just been created by the request, and the
-- state is one that can be serialized to fewer than 65535 full fragments, both sides go through
-- the handshake without a failure or a panic, whatever order the fragments arrive in: the target
-- gives out the state once, complete and under its own address, and its acknowledgement completes
-- the migration at the origin.
pub migrates :
    (origin target : ActiveMigration) (qd : QDesc) (s : TcpState)
    → origin.last_sent_stage ≡ none_stage
    → origin.qd ≡ some qd
    → target.last_sent_stage ≡ none_stage
    → target.defragmenter ≡ Segment.new
    → IsTcpState s
    → serialized_size s / max_fragment_size < 65535
    → Migrates origin target qd s
unfolding Header.new swap_src_dst_port acked
migrates origin target qd s o q t d v b =
    let (w, z) = serialize_fills s v in
    let buf = encode s.cb ++ encode_app s.app_state in
    let e : deserialize buf ≡ some (received_state s) = rw w at (deserialize-serialize s v) in
    let request = segment_to_send origin (unfragmented (request_header origin)) [] in
    let header = record (next_header (request.tcpmig_hdr) prepare_migration_ack) {
      flag_load = true;
    } in
    let answer = segment_to_send target (unfragmented header) [] in
    let port = answer.tcpmig_hdr.source_udp_port in
    let b' : length buf / max_fragment_size < 65535 = rw z b in
    let (sent, f) = send-total (acked origin port) (state_header origin port) buf (omega arith) in
    let target1 = record target { last_sent_stage = prepare_migration_ack } in
    record {
      origin1 = sent_request origin;
      request = request;
      initiate = initiates origin o;
      target1 = target1;
      answer = answer;
      prepare = process-prepare target (request.tcpmig_hdr) [] t refl;
      origin2 = acked origin port;
      prepared = acks origin qd (answer.tcpmig_hdr) [] q refl;
      origin3 = sent_state origin port;
      sent = sent;
      send_state = sends_state origin port s buf sent w f;
      deliver = λ arrived p.
          let (target2, run, l) = delivers origin port s buf sent arrived target1 e b' f refl d p in
          let last =
            segment_to_send target1
              (unfragmented
                (next_header (unfragmented (state_header origin port)) connection_state_ack))
              [] in
          (target2, last, run, completes origin port (last.tcpmig_hdr) [] refl);
    }
