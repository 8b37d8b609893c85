-- ===== src/Tests/Peer.antt =====
-- A server that accepts a connection and hands it over to another one.
use capybara_artifact.Base.{
  ◌≡◌, refl, true, ◌<◌, ◌^◌, ◌>>=◌, inl, inr, some, none, [], ◌∷◌, ok, Gives, subst, arith,
}
use capybara_artifact.Net.{SocketAddrV4}
use capybara_artifact.Net.Map.{number_key, pair_key, addr_key, lookup, insert, remove, insert-cases}
use capybara_artifact.Seq.{add, sub}
use capybara_artifact.Tcp.Sender as Sender
use capybara_artifact.Tcp.ControlBlock.Migrate.{from_state}
use capybara_artifact.Net.Ports.{EphemeralPorts}
use capybara_artifact.Net.Ports as Ports
use capybara_artifact.State.{Buffer}
use capybara_artifact.Mig.Header.{Ipv4Header}
use capybara_artifact.Mig.Peer as Mig
use capybara_artifact.Tcp.ControlBlock.{ControlBlock}
use capybara_artifact.Tcp.Connection.Defs as Defs
use capybara_artifact.Tcp.Connection.Defs.{Connection}
use capybara_artifact.Tcp.Opening.{new_block}
use capybara_artifact.Tcp.Opening.Passive as Passive
use capybara_artifact.Tcp.Opening.Passive.{PassiveSocket, Handshake}
use capybara_artifact.Tcp.Peer as Peer
use capybara_artifact.Tcp.Peer.{
  Env, Inner, listening, connecting, established, do_socket, bind, listen, has_local, in_use,
  reserve,
}
use capybara_artifact.Tcp.Peer.Calls.{start, receive_all, poll_accept, poll_connect_finished}
use capybara_artifact.Tcp.Peer.Data.{do_close}
use capybara_artifact.Tcp.Peer.Packets.{receive}
use capybara_artifact.Tcp.Peer.Migrating.{migrate_out_connection}
use capybara_artifact.Tcp.Peer.HandOver.{
  IsOpenFor, HandedOver, restored_at, hand_over, hand_over-HandedOver,
}
use capybara_artifact.Tcp.Peer.Tables.Runs.{
  Run, starts, opens, binds, listens, accepts, receives, HaveMss, Left, Run-Left,
}
use capybara_artifact.Tests.Samples.{origin_addr, client_addr}
use capybara_artifact.Tests.Connection.{timing}
use capybara_artifact.Tests.Opening.{server_config, crc}

abbrev env : Env
env = record {
  config = server_config;
  rx_checksum_offload = true;
  ack_delay_timeout = 5;
  local_ipv4_addr = origin_addr.ip;
  crc = crc;
  try_query = λ ip. some 5;
  now = 0;
}

abbrev fresh : Inner timing
fresh = Peer.new timing 9 (record { ports = 50000 ∷ [] }) (Mig.new 1 origin_addr.ip)

abbrev listener : Inner timing
listener = record fresh {
  sockets = (3, listening origin_addr) ∷ [];
  passive = (origin_addr, Passive.new origin_addr 4 9) ∷ [];
  tcpmig = Mig.set_port 10000 fresh.tcpmig;
}

listener-Run : Run timing env listener
unfolding do_socket bind in_use has_local reserve listen lookup insert remove Ports.is_private
    Ports.alloc_port Ports.alloc_any
listener-Run = listens 3 4 9 (
    binds 3 origin_addr
      (opens 3 (starts 9 (record { ports = 50000 ∷ [] }) (Mig.new 1 origin_addr.ip))))

abbrev from_client : Ipv4Header
from_client = record { src_addr = client_addr.ip; dst_addr = origin_addr.ip }

abbrev syn_bytes : Buffer
syn_bytes =
    15 ∷ 160 ∷ 39 ∷ 16 ∷ 255 ∷ 255 ∷ 255 ∷ 255 ∷ 0 ∷ 0 ∷ 0 ∷ 0 ∷ 80 ∷ 2 ∷ 16 ∷ 0 ∷ 0 ∷ 0 ∷ 0 ∷ 0
    ∷ []

abbrev ack_bytes : Buffer
ack_bytes =
    15 ∷ 160 ∷ 39 ∷ 16 ∷ 0 ∷ 0 ∷ 0 ∷ 0 ∷ 0 ∷ 0 ∷ 0 ∷ 78 ∷ 80 ∷ 16 ∷ 16 ∷ 0 ∷ 0 ∷ 0 ∷ 0 ∷ 0 ∷ []

abbrev with_passive : PassiveSocket → Inner timing
with_passive p = record listener {
  passive = (origin_addr, p) ∷ [];
  tasks =
      record { local_isn = 77; remote_isn = 4294967295; local = origin_addr; remote = client_addr }
      ∷ [];
}

abbrev block : ControlBlock
block = new_block origin_addr client_addr 0 65535 0 78 4096 0 536

abbrev started : Inner timing
started = with_passive (record (Passive.new origin_addr 4 9) {
  inflight =
      (
        client_addr,
        record {
          local_isn = 77;
          remote_isn = 4294967295;
          header_window_size = 4096;
          remote_window_scale = none;
          mss = 536;
        },
      )
      ∷ [];
  isn_generator = record { nonce = 9; counter = 1 };
})

abbrev ready : Inner timing
ready = with_passive (record (Passive.new origin_addr 4 9) {
  ready = record { ready = ok block ∷ []; endpoints = (client_addr, tt) ∷ [] };
  isn_generator = record { nonce = 9; counter = 1 };
})

abbrev connection : Connection timing
connection = start timing env block

abbrev serving : Inner timing
serving =
    record (with_passive (record (Passive.new origin_addr 4 9) {
      isn_generator = record { nonce = 9; counter = 1 };
    })) {
      sockets = (5, established origin_addr client_addr) ∷ (3, listening origin_addr) ∷ [];
      qds = ((origin_addr, client_addr), 5) ∷ [];
      established = ((origin_addr, client_addr), connection) ∷ [];
    }

gets_syn : receive timing env from_client syn_bytes listener ≡ some (none, started)
unfolding receive lookup Mig.new Passive.new insert
gets_syn = refl

gets_ack : receive timing env from_client ack_bytes started ≡ some (none, ready)
unfolding receive lookup Mig.new Passive.new add insert
gets_ack = refl

accepts_it : poll_accept timing env 3 5 ready ≡ some (some (ok 5), serving)
unfolding poll_accept lookup new_block Mig.new insert remove Passive.new
accepts_it = refl

serving-Run : Run timing env serving
serving-Run =
    accepts 3 5
      (receives from_client ack_bytes (receives from_client syn_bytes listener-Run gets_syn)
        gets_ack)
      accepts_it

serving-HaveMss : HaveMss serving
unfolding lookup insert remove start new_block Sender.new
serving-HaveMss = record {
  small = λ key c e. elim (insert-cases (origin_addr, client_addr) key connection c [] e) [
    | inl (q, z) ↦ subst (λ (d : Connection timing). d.block.sender.mss < 2 ^ 32) z (omega arith)
    | inr (n, z) ↦ cc
  ];
}

Run-Left_example :
    Gives (Left timing env 5 origin_addr client_addr serving) (migrate_out_connection 5 serving)
unfolding lookup
Run-Left_example =
    Run-Left timing env serving 5 origin_addr client_addr serving-Run serving-HaveMss refl

-- The other server listens on the same address.
-- The other server, which listens at an address of its own.
abbrev target_addr : SocketAddrV4
target_addr = record { ip = record { o0 = 10; o1 = 0; o2 = 1; o3 = 9 }; port = 10001 }

abbrev target : Inner timing
target = record fresh {
  sockets = (3, listening target_addr) ∷ [];
  passive = (target_addr, Passive.new target_addr 4 9) ∷ [];
  tcpmig = Mig.set_port 10001 fresh.tcpmig;
}

target-IsOpenFor :
    IsOpenFor timing env 3 7
      (restored_at timing env target_addr block)
      target
      (Passive.new target_addr 4 9)
      (start timing env (restored_at timing env target_addr block))
unfolding lookup from_state Passive.new start new_block Mig.new receive_all
    Mig.close_active_migration
target-IsOpenFor = record {
  listens = refl;
  socket = refl;
  queue = refl;
  endpoint = refl;
  descriptor = refl;
  addresses = refl;
  connection = refl;
  packets = refl;
}

hand_over-HandedOver_example :
    Gives
      (HandedOver timing env 5 7 origin_addr client_addr
        (restored_at timing env target_addr block)
        (start timing env (restored_at timing env target_addr block)))
      (hand_over timing env 5 3 7 target_addr serving target)
unfolding lookup start
hand_over-HandedOver_example =
    hand_over-HandedOver timing env serving 5 origin_addr client_addr target_addr connection 3 7
      target (Passive.new target_addr 4 9)
      (start timing env (restored_at timing env target_addr block)) serving-Run serving-HaveMss refl
      refl target-IsOpenFor

-- A peer that has opened a connection itself: there is no descriptor for it in `qds`, and migrating it
-- panics.
abbrev opened : Inner timing
opened = record fresh {
  sockets = (3, connecting client_addr origin_addr) ∷ [];
  connecting =
      (
        (client_addr, origin_addr),
        record {
          local_isn = 0;
          remote = origin_addr;
          local = client_addr;
          result = some (ok (new_block client_addr origin_addr 5 65535 0 1 4096 0 536));
        },
      )
      ∷ [];
}

opened_panics :
    (poll_connect_finished timing env 3 opened >>= λ x. migrate_out_connection 3 (x.1)) ≡ none
unfolding poll_connect_finished lookup insert remove new_block migrate_out_connection Mig.new start
opened_panics = refl

-- After it is closed, its addresses still have their descriptor, which is no socket any more.
closed_stays :
    (do_close timing env 5 serving >>= λ x. lookup (origin_addr, client_addr) (x.1).qds) ≡ some 5
unfolding do_close lookup insert remove new_block Mig.new Passive.new start Defs.close sub
closed_stays = refl
