-- ===== src/Mig/Peer.antt =====
-- inetstack/protocols/tcpmig/peer.rs and constants.rs: the table of a server's active migrations,
-- and of the application states that come and go with them.
pub mod Buffered
pub mod Frame
pub mod Requests
use capybara_artifact.Base.{
  ℕ, ◌+◌, ◌==◌, ◌^◌, Bool, true, false, ltb, if◌then◌else◌, Option, some, none, List, [], ◌∷◌, ◌++◌,
  ◌>>=◌, map, Result, ok, err, read_u32, adjust, to_be4,
}
use capybara_artifact.Net.{Ipv4Addr, SocketAddrV4, ip_eq}
use capybara_artifact.Net.Map.{addr_key, HashMap, lookup, remove, insert}
use capybara_artifact.Tcp.Header.{TcpHeader}
use capybara_artifact.State.{
  Buffer, TcpState, ApplicationState, MigratedApplicationState, none_state, registered, migrated_in,
  remote, add_app_state,
}
use capybara_artifact.Mig.Header as Header
use capybara_artifact.Mig.Header.{
  TcpMigHeader, Ipv4Header, MigrationStage, none_stage, rejected, prepare_migration,
  prepare_migration_ack, connection_state, connection_state_ack, heartbeat_update,
  heartbeat_response, Fail, parse,
}
use capybara_artifact.Mig.Segment.{MacAddress, TcpMigSegment}
use capybara_artifact.Mig.Active as Active
use capybara_artifact.Mig.Active.{
  QDesc, ActiveMigration, TcpmigReceiveStatus, ok_status, sent_reject, migration_completed,
  rejected_status, returned_by_switch, prepare_migration_acked, state_received,
  heartbeat_response_status, Processed, process_packet, send_connection_state, buffer_packet,
  take_buffered_packets, peer_port,
}

abbrev pub frontend_mac : MacAddress
frontend_mac = 0x08c0ebb6e805

abbrev pub backend_mac : MacAddress
backend_mac = 0x08c0ebb6c5ad

abbrev pub frontend_ip : Ipv4Addr
frontend_ip = record { o0 = 10; o1 = 0; o2 = 1; o3 = 8 }

abbrev pub backend_ip : Ipv4Addr
backend_ip = record { o0 = 10; o1 = 0; o2 = 1; o3 = 9 }

abbrev unspecified : SocketAddrV4
unspecified = record { ip = record { o0 = 0; o1 = 0; o2 = 0; o3 = 0 }; port = 0 }

-- The runtime is not kept here, nor the number of yields that `initiate_migration` starts with.
pub record TcpMigPeer : Type 0 where
  pub local_link_addr : MacAddress
  pub local_ipv4_addr : Ipv4Addr
  pub active_migrations : HashMap SocketAddrV4 ActiveMigration
  pub incoming_user_data : HashMap SocketAddrV4 Buffer
  pub self_udp_port : ℕ
  pub heartbeat_message : TcpMigSegment
  pub application_state : HashMap SocketAddrV4 MigratedApplicationState

unfoldable pub new : MacAddress → Ipv4Addr → TcpMigPeer
new link ip = record {
  local_link_addr = link;
  local_ipv4_addr = ip;
  active_migrations = [];
  incoming_user_data = [];
  self_udp_port = 10000;
  heartbeat_message = record {
    ethernet2_hdr = record { dst_addr = frontend_mac; src_addr = link };
    ipv4_hdr = record { src_addr = ip; dst_addr = frontend_ip };
    tcpmig_hdr = Header.new unspecified unspecified 4 heartbeat_update 10000 10000;
    payload = 0 ∷ 0 ∷ 0 ∷ 0 ∷ [];
  };
  application_state = [];
}

abbrev pub set_port : ℕ → TcpMigPeer → TcpMigPeer
set_port port p = record p { self_udp_port = port }

-- The other server, to which all messages go by way of the switch.
abbrev pub other_ip : Ipv4Addr → Ipv4Addr
other_ip ip = if ip_eq ip frontend_ip then backend_ip else frontend_ip

abbrev pub other_mac : MacAddress → MacAddress
other_mac mac = if mac == frontend_mac then backend_mac else frontend_mac

abbrev pub new_active :
    TcpMigPeer → ℕ → SocketAddrV4 → SocketAddrV4 → Option QDesc → ActiveMigration
new_active p dest_port origin client qd =
    Active.new p.local_ipv4_addr p.local_link_addr (other_ip p.local_ipv4_addr)
      (other_mac p.local_link_addr) p.self_udp_port dest_port origin client qd

abbrev pub put_active : SocketAddrV4 → ActiveMigration → TcpMigPeer → TcpMigPeer
put_active k a p = record p { active_migrations = insert k a p.active_migrations }

abbrev pub drop_active : SocketAddrV4 → TcpMigPeer → TcpMigPeer
drop_active k p = record p { active_migrations = remove k p.active_migrations }

abbrev pub Received : Type 0
Received = Result Fail TcpmigReceiveStatus × (TcpMigPeer × List TcpMigSegment)

-- An application state that came with the connection is moved to the table.
unfoldable pub take_app_state :
    TcpMigPeer → TcpState → MigratedApplicationState → TcpState × TcpMigPeer
take_app_state p s (migrated_in b) = (
  record s { app_state = none_state },
  record p { application_state = insert (remote s) (migrated_in b) p.application_state },
)
take_app_state p s none_state = (s, p)
take_app_state p s (registered a) = (s, p)

-- The `match status` of `receive`.
unfoldable pub on_status :
    SocketAddrV4 → TcpMigPeer → List TcpMigSegment → TcpmigReceiveStatus → Option Received
unfolding take_app_state
on_status k p out (prepare_migration_acked qd) = some (ok (prepare_migration_acked qd), (p, out))
on_status k p out (state_received s) =
    let (s', p') = take_app_state p s s.app_state in some (ok (state_received s'), (p', out))
on_status k p out migration_completed = some (ok migration_completed, (drop_active k p, out))
on_status k p out (rejected_status a b) = some (ok (rejected_status a b), (drop_active k p, out))
on_status k p out sent_reject = some (ok sent_reject, (drop_active k p, out))
on_status k p out ok_status = some (ok ok_status, (p, out))
on_status k p out (heartbeat_response_status n) = none
on_status k p out (returned_by_switch a b) = none

-- The active migration is changed in place, on an error too.
unfoldable pub on_processed : SocketAddrV4 → TcpMigPeer → Processed → Option Received
unfolding on_status
on_processed k p (err e, (a, out)) = some (err e, (put_active k a p, out))
on_processed k p (ok status, (a, out)) = on_status k (put_active k a p) out status

-- A message of a migration that is in the table; `none` is a panic.
unfoldable pub dispatch : TcpMigPeer → TcpMigHeader → Buffer → Option Received
unfolding on_processed
dispatch p hdr buf = do
  a ← lookup hdr.client p.active_migrations
  res ← process_packet a hdr buf
  on_processed hdr.client p res

-- The new migration is put in first. Where one was in its place already, the new one is taken out
-- again, so that both are gone.
prepare : TcpMigPeer → TcpMigHeader → Buffer → Option ActiveMigration → Option Received
unfolding dispatch
prepare p hdr buf none =
    dispatch (put_active hdr.client (new_active p hdr.origin.port hdr.origin hdr.client none) p) hdr
      buf
prepare p hdr buf (some old) =
    let a = new_active p hdr.origin.port hdr.origin hdr.client none in
    some (
      ok (returned_by_switch hdr.origin hdr.client),
      (drop_active hdr.client (put_active hdr.client a p), []),
    )

unfoldable pub on_message : TcpMigPeer → TcpMigHeader → Buffer → MigrationStage → Option Received
unfolding prepare dispatch
on_message p hdr buf heartbeat_response = do
  n ← read_u32 0 buf
  some (ok (heartbeat_response_status n), (p, []))
on_message p hdr buf prepare_migration = prepare p hdr buf (lookup hdr.client p.active_migrations)
on_message p hdr buf _ = dispatch p hdr buf

unfoldable pub on_parsed : TcpMigPeer → Result Fail (TcpMigHeader × Buffer) → Option Received
unfolding on_message
on_parsed p (err e) = some (err e, (p, []))
on_parsed p (ok (hdr, buf)) = on_message p hdr buf hdr.stage

unfoldable pub receive : TcpMigPeer → Ipv4Header → Buffer → Option Received
unfolding on_parsed
receive p ip buf = do parsed ← parse ip buf; on_parsed p parsed

abbrev pub SentBy : Type 0
SentBy = TcpMigPeer × List TcpMigSegment

initiate_new :
    TcpMigPeer → SocketAddrV4 → SocketAddrV4 → QDesc → Option ActiveMigration → Option SentBy
initiate_new p origin client qd (some old) = none
initiate_new p origin client qd none = do
  (a, out) ←
      Active.initiate_migration (new_active p (peer_port p.self_udp_port) origin client (some qd))
  some (put_active client a p, out)

unfoldable pub initiate_migration : TcpMigPeer → SocketAddrV4 × SocketAddrV4 → QDesc → Option SentBy
unfolding initiate_new
initiate_migration p (origin, client) qd =
    initiate_new p origin client qd (lookup client p.active_migrations)

-- `application_state.remove` drops a state of any kind, and a registered one goes along.
unfoldable pub with_app_state : TcpState → Option MigratedApplicationState → TcpState
with_app_state s (some (registered a)) = add_app_state a s
with_app_state s (some (migrated_in b)) = s
with_app_state s (some none_state) = s
with_app_state s none = s

unfoldable pub send_tcp_state : TcpMigPeer → TcpState → Option SentBy
unfolding with_app_state
send_tcp_state p s = do
  a ← lookup (remote s) p.active_migrations
  (a', out) ← send_connection_state a (with_app_state s (lookup (remote s) p.application_state))
  some (
    record p {
      active_migrations = insert (remote s) a' p.active_migrations;
      application_state = remove (remote s) p.application_state;
      incoming_user_data = remove (remote s) p.incoming_user_data;
    },
    out,
  )

abbrev pub Packet : Type 0
Packet = TcpHeader × Buffer

buffer_in : TcpMigPeer → SocketAddrV4 → Packet → Option ActiveMigration → Result Packet TcpMigPeer
buffer_in p k (hdr, buf) none = err (hdr, buf)
buffer_in p k (hdr, buf) (some a) = ok (put_active k (buffer_packet hdr buf a) p)

unfoldable pub try_buffer_packet :
    TcpMigPeer → SocketAddrV4 → TcpHeader → Buffer → Result Packet TcpMigPeer
unfolding buffer_in
try_buffer_packet p k hdr buf = buffer_in p k (hdr, buf) (lookup k p.active_migrations)

unfoldable pub close_active_migration :
    TcpMigPeer → SocketAddrV4 → Option (List Packet) × TcpMigPeer
close_active_migration p k =
    ((lookup k p.active_migrations >>= λ a. some ((take_buffered_packets a).0)), drop_active k p)

-- The first four bytes of the heartbeat message; the length must fit a u32.
unfoldable pub send_heartbeat : ℕ → TcpMigPeer → Option TcpMigPeer
send_heartbeat n p =
    let write =
      (adjust 4 p.heartbeat_message.payload >>= λ rest. some (record p {
        heartbeat_message = record (p.heartbeat_message) { payload = to_be4 n ++ rest };
      })) in
    if ltb n (2 ^ 32) then write else none

unfoldable pub register_application_state :
    SocketAddrV4 → ApplicationState → TcpMigPeer → TcpMigPeer
register_application_state k a p = record p {
  application_state = insert k (registered a) p.application_state;
}

take_migrated :
    (Buffer → ApplicationState)
    → SocketAddrV4
    → TcpMigPeer
    → Option MigratedApplicationState
    → Option ApplicationState × TcpMigPeer
unfolding register_application_state
take_migrated de k p (some (migrated_in b)) = (some (de b), register_application_state k (de b) p)
take_migrated de k p (some (registered a)) = (none, p)
take_migrated de k p (some none_state) = (none, p)
take_migrated de k p none = (none, p)

-- `T::deserialize` is the application's. The state is removed first, also one that is registered.
unfoldable pub get_migrated_application_state :
    (Buffer → ApplicationState) → TcpMigPeer → SocketAddrV4 → Option ApplicationState × TcpMigPeer
unfolding take_migrated
get_migrated_application_state de p k =
    take_migrated de k (record p { application_state = remove k p.application_state })
      (lookup k p.application_state)
