-- ===== src/Tests/Switch.antt =====
-- A switch with two servers: a client that has got the first, one that has got the second since.
use capybara_artifact.Base.{◌≡◌, refl, true, false, some, none, [], ◌∷◌, ok}
use capybara_artifact.Net.{SocketAddrV4}
use capybara_artifact.Net.Map.{addr_key, lookup, insert, remove}
use capybara_artifact.Tcp.Header.{TcpHeader}
use capybara_artifact.Tcp.Header.Parse.{parse}
use capybara_artifact.Tcp.Peer.Switch.{
  Switch, SwitchEnv, Frame, send_to, send_from_here, assign, forward, receive, Run, stays, gets,
  Run-forward,
}
use capybara_artifact.Tests.Samples.{tcp_header, origin_addr, client_addr, other_client}

abbrev env : SwitchEnv
env = record {
  local_link_addr = 8;
  local_ipv4_addr = record { o0 = 10; o1 = 0; o2 = 1; o3 = 8 };
  rx_checksum_offload = true;
  try_query = λ ip. some ip.o3;
}

abbrev second_server : SocketAddrV4
second_server = record origin_addr { port = 10001 }

abbrev virtual : SocketAddrV4
virtual = record { ip = record { o0 = 10; o1 = 0; o2 = 1; o3 = 20 }; port = 10000 }

abbrev before : Switch
before = record {
  backend_servers = origin_addr ∷ second_server ∷ [];
  migration_directory = [];
  be_idx = 0;
  num_backends = 2;
}

abbrev frame : SocketAddrV4 → SocketAddrV4 → TcpHeader → Frame
frame src dst h = record {
  ethernet2_hdr = record { dst_addr = 20; src_addr = 3 };
  ipv4_hdr = record { src_addr = src.ip; dst_addr = dst.ip };
  tcp_hdr = record h { src_port = src.port; dst_port = dst.port };
  payload = [];
}

abbrev syn : Frame
syn = frame client_addr virtual (record tcp_header { syn = true; ack = false })

abbrev after : Switch
after = record before { migration_directory = (client_addr, origin_addr) ∷ []; be_idx = 1 }

abbrev now : Switch
now = record before {
  migration_directory = (other_client, second_server) ∷ (client_addr, origin_addr) ∷ [];
  be_idx = 0;
}

assigned : forward env syn before ≡ some (after, send_to origin_addr origin_addr.ip.o3 syn)
unfolding forward assign lookup insert remove
assigned = refl

abbrev other_syn : Frame
other_syn = frame other_client virtual (record tcp_header {
  seq_num = 9;
  ack_num = 0;
  ack = false;
  psh = false;
  syn = true;
  window_size = 4096;
})

-- The other client's SYN, from its bytes.
gets_syn :
    receive env other_syn.ethernet2_hdr other_syn.ipv4_hdr
      (15 ∷ 161 ∷ 39 ∷ 16 ∷ 0 ∷ 0 ∷ 0 ∷ 9 ∷ 0 ∷ 0 ∷ 0 ∷ 0 ∷ 80 ∷ 2 ∷ 16 ∷ 0 ∷ 0 ∷ 0 ∷ 0 ∷ 0 ∷ [])
      after
    ≡ some (ok (send_to second_server origin_addr.ip.o3 other_syn), now)
unfolding receive forward assign lookup insert remove parse
gets_syn = refl

later : Run env after now
later =
    gets other_syn.ethernet2_hdr other_syn.ipv4_hdr
      (15 ∷ 161 ∷ 39 ∷ 16 ∷ 0 ∷ 0 ∷ 0 ∷ 9 ∷ 0 ∷ 0 ∷ 0 ∷ 0 ∷ 80 ∷ 2 ∷ 16 ∷ 0 ∷ 0 ∷ 0 ∷ 0 ∷ 0 ∷ [])
      stays gets_syn

abbrev request : Frame
request = frame client_addr virtual tcp_header

abbrev reply : Frame
reply = frame origin_addr client_addr tcp_header

Run-forward_example :
    (forward env request now ≡ some (now, send_to origin_addr origin_addr.ip.o3 request))
    × (forward env reply now ≡ some (now, send_from_here env reply))
unfolding lookup
Run-forward_example =
    Run-forward env before after now syn (send_to origin_addr origin_addr.ip.o3 syn) request reply
      refl assigned later refl refl refl refl refl refl

-- A SYN that the client sends again makes the switch panic.
panics_again : forward env syn now ≡ none
unfolding forward assign lookup
panics_again = refl
