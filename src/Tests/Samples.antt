-- ===== src/Tests/Samples.antt =====
-- Two servers, a client and a connection between them, as sample data.
use capybara_artifact.Base.{refl, true, false, some, none, [], ◌∷◌, arith}
use capybara_artifact.Net.{Ipv4Addr, SocketAddrV4, IsSocketAddr}
use capybara_artifact.State.{SenderState, ControlBlockState, TcpState, registered}
use capybara_artifact.State.Encode.{IsControlBlockState}
use capybara_artifact.State.RoundTrip.{IsTcpState}
use capybara_artifact.Mig.Header.{
  TcpMigHeader, Ipv4Header, IsHeader, connection_state, prepare_migration,
}
use capybara_artifact.Mig.Active as Active
use capybara_artifact.Mig.Active.{ActiveMigration}
use capybara_artifact.Tcp.Header.{TcpHeader}
use capybara_artifact.Mig.Peer as Peer
use capybara_artifact.Mig.Peer.{TcpMigPeer}

abbrev pub origin_ip : Ipv4Addr
origin_ip = record { o0 = 10; o1 = 0; o2 = 1; o3 = 8 }

abbrev pub target_ip : Ipv4Addr
target_ip = record { o0 = 10; o1 = 0; o2 = 1; o3 = 9 }

abbrev pub client_ip : Ipv4Addr
client_ip = record { o0 = 10; o1 = 0; o2 = 1; o3 = 7 }

abbrev pub origin_addr : SocketAddrV4
origin_addr = record { ip = origin_ip; port = 10000 }

abbrev pub client_addr : SocketAddrV4
client_addr = record { ip = client_ip; port = 4000 }

abbrev pub other_client : SocketAddrV4
other_client = record { ip = client_ip; port = 4001 }

pub origin_addr-IsSocketAddr : IsSocketAddr origin_addr
origin_addr-IsSocketAddr = record {
  ip = record { b0 = omega arith; b1 = omega arith; b2 = omega arith; b3 = omega arith };
  port = omega arith;
}

pub client_addr-IsSocketAddr : IsSocketAddr client_addr
client_addr-IsSocketAddr = record {
  ip = record { b0 = omega arith; b1 = omega arith; b2 = omega arith; b3 = omega arith };
  port = omega arith;
}

-- One segment is unacknowledged, one unsent, one unread, and one out of order.
abbrev pub sender_state : SenderState
sender_state = record {
  unsent_seq_no = 1003;
  send_unacked = 1000;
  send_next = 1002;
  send_window = 65535;
  send_window_last_update_seq = 77;
  send_window_last_update_ack = 78;
  mss = 1450;
  window_scale = 7;
  unacked_queue = record { bytes = 1 ∷ 2 ∷ []; initial_tx = some 5 } ∷ [];
  unsent_queue = (3 ∷ []) ∷ [];
}

abbrev pub control_block_state : ControlBlockState
control_block_state = record {
  local = origin_addr;
  remote = client_addr;
  receive_buffer_size = 65535;
  window_scale = 7;
  out_of_order_fin = some 2010;
  out_of_order_queue = (2005, 9 ∷ 9 ∷ []) ∷ [];
  receiver = record { reader_next = 2000; receive_next = 2003; recv_queue = (4 ∷ 5 ∷ 6 ∷ []) ∷ [] };
  sender = sender_state;
}

pub control_block_state-valid : IsControlBlockState control_block_state
control_block_state-valid = record {
  local = origin_addr-IsSocketAddr;
  remote = client_addr-IsSocketAddr;
  receive_buffer_size = omega arith;
  window_scale = omega arith;
  out_of_order_fin = omega arith;
  out_of_order_count = omega arith;
  out_of_order_queue = ((omega arith, omega arith), tt);
  receiver = record {
    reader_next = omega arith;
    receive_next = omega arith;
    recv_queue = record { count = omega arith; short = (omega arith, tt) };
  };
  sender = record {
    unsent_seq_no = omega arith;
    send_unacked = omega arith;
    send_next = omega arith;
    send_window = omega arith;
    send_window_last_update_seq = omega arith;
    send_window_last_update_ack = omega arith;
    mss = omega arith;
    unacked_queue = record { count = omega arith; short = (omega arith, tt) };
    unsent_queue = record { count = omega arith; short = (omega arith, tt) };
  };
}

abbrev pub tcp_state : TcpState
tcp_state = record {
  cb = control_block_state;
  app_state = registered (record { serialized_size = 2; bytes = 8 ∷ 7 ∷ [] });
}

pub tcp_state-valid : IsTcpState tcp_state
tcp_state-valid = record { cb = control_block_state-valid; app = refl }

abbrev pub ip_header : Ipv4Header
ip_header = record { src_addr = origin_ip; dst_addr = target_ip }

abbrev pub header : TcpMigHeader
header = record {
  origin = origin_addr;
  client = client_addr;
  length = 28;
  fragment_offset = 0;
  flag_load = false;
  flag_next_fragment = false;
  stage = connection_state;
  source_udp_port = 10000;
  dest_udp_port = 10001;
}

pub header-valid : IsHeader header
header-valid = record {
  origin = origin_addr-IsSocketAddr;
  client = client_addr-IsSocketAddr;
  length = omega arith;
  fragment_offset = omega arith;
  source_udp_port = omega arith;
  dest_udp_port = omega arith;
}

abbrev pub request : TcpMigHeader
request = record header { stage = prepare_migration }

pub request-valid : IsHeader request
request-valid = record {
  origin = origin_addr-IsSocketAddr;
  client = client_addr-IsSocketAddr;
  length = omega arith;
  fragment_offset = omega arith;
  source_udp_port = omega arith;
  dest_udp_port = omega arith;
}

abbrev pub origin_side : ActiveMigration
origin_side = Active.new origin_ip 1 target_ip 2 10000 10001 origin_addr client_addr (some 5)

abbrev pub target_side : ActiveMigration
target_side = Active.new target_ip 2 origin_ip 1 10001 10000 origin_addr client_addr none

abbrev pub peer : TcpMigPeer
peer = Peer.new 2 target_ip

abbrev pub tcp_header : TcpHeader
tcp_header = record {
  src_port = 4000;
  dst_port = 10000;
  seq_num = 2003;
  ack_num = 1002;
  ns = false;
  cwr = false;
  ece = false;
  urg = false;
  ack = true;
  psh = true;
  rst = false;
  syn = false;
  fin = false;
  window_size = 512;
  urgent_pointer = 0;
  option_list = [];
}
