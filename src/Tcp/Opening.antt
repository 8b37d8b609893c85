-- ===== src/Tcp/Opening.antt =====
-- How connections are opened, inetstack/protocols/tcp: the number generator of isn_generator.rs, the
-- constructor of the control block, and what active_open.rs and passive_open.rs have in common. The
-- options of runtime/network/config/tcp.rs are in TcpConfig.
pub mod Active
pub mod Passive
pub mod Handshake
pub mod Accepting
use capybara_artifact.Base.{
  ℕ, zero, suc, ◌+◌, ◌*◌, ◌%◌, ◌^◌, true, false, ltb, leb, ◌&&◌, if◌then◌else◌, Option, some, none,
  List, [], ◌∷◌, ◌++◌, ◌>>=◌, to_be2, to_be4,
}
use capybara_artifact.Seq.{SeqNumber}
use capybara_artifact.Net.{SocketAddrV4}
use capybara_artifact.Mig.Header.{octets}
use capybara_artifact.Tcp.Header.{
  TcpHeader, TcpOptions2, no_operation, sack_permitted, maximum_segment_size, window_scale,
  selective_acknowledgement, timestamp,
}
use capybara_artifact.Tcp.Sender as Sender
use capybara_artifact.Mig.Segment.{MacAddress}
use capybara_artifact.Tcp.ControlBlock.{ControlBlock, established}
use capybara_artifact.Tcp.Connection.Defs.{TcpSegment}

-- `fallback_mss` is that of runtime/network/consts.rs.
abbrev pub fallback_mss : ℕ
fallback_mss = 536

pub record TcpConfig : Type 0 where
  pub receive_window_size : ℕ
  pub window_scale : ℕ
  pub advertised_mss : ℕ
  pub handshake_retries : ℕ

pub record IsnGenerator : Type 0 where
  pub nonce : ℕ
  pub counter : ℕ

-- `crc` is the CRC-32 of a third-party crate. The sum of u32 wraps in a release build, the counter
-- always.
unfoldable pub generate :
    (List ℕ → ℕ) → SocketAddrV4 → SocketAddrV4 → IsnGenerator → SeqNumber × IsnGenerator
generate crc local remote g =
    let digest = crc (
      octets remote.ip
      ++ (to_be2 remote.port ++ (octets local.ip ++ (to_be2 local.port ++ to_be4 g.nonce)))) in
    ((digest + g.counter) % 2 ^ 32, record g { counter = (g.counter + 1) % 2 ^ 16 })

-- `ControlBlock::new`, but for the timers and the congestion control.
unfoldable pub new_block :
    SocketAddrV4 → SocketAddrV4 → SeqNumber → ℕ → ℕ → SeqNumber → ℕ → ℕ → ℕ → ControlBlock
unfolding Sender.new
new_block local remote receiver_seq_no receiver_window_size receiver_window_scale sender_seq_no
      sender_window_size sender_window_scale sender_mss =
    record {
      local = local;
      remote = remote;
      sender = Sender.new sender_seq_no sender_window_size sender_window_scale sender_mss;
      state = established;
      receive_buffer_size = receiver_window_size;
      window_scale = receiver_window_scale;
      out_of_order = [];
      out_of_order_fin = none;
      receiver = record {
        reader_next = receiver_seq_no;
        receive_next = receiver_seq_no;
        recv_queue = [];
      };
      user_is_done_sending = false;
    }

-- The loop over the options of a SYN: the window scale and the MSS so far, the last one of each.
unfoldable pub offers : List TcpOptions2 → Option ℕ × ℕ → Option ℕ × ℕ
offers [] (scale, mss) = (scale, mss)
offers (window_scale w ∷ os) (scale, mss) = offers os (some w, mss)
offers (maximum_segment_size m ∷ os) (scale, mss) = offers os (scale, m)
offers (no_operation ∷ os) (scale, mss) = offers os (scale, mss)
offers (sack_permitted ∷ os) (scale, mss) = offers os (scale, mss)
offers (selective_acknowledgement sacks ∷ os) (scale, mss) = offers os (scale, mss)
offers (timestamp sender echo ∷ os) (scale, mss) = offers os (scale, mss)

-- The local and the remote scale: none without the peer's option.
unfoldable pub scales : TcpConfig → Option ℕ → ℕ × ℕ
scales config (some w) = (config.window_scale, w)
scales config none = (0, 0)

-- `checked_shl` at a width: the distance is checked, and bits shifted out are lost.
unfoldable pub checked_shl : ℕ → ℕ → ℕ → Option ℕ
checked_shl width n shift = if ltb shift width then some (n * 2 ^ shift % 2 ^ width) else none

-- The options that both sides put on their SYN.
unfoldable pub push_offers : TcpConfig → TcpHeader → TcpHeader
push_offers config h = record h {
  option_list =
      h.option_list
      ++ (maximum_segment_size (config.advertised_mss % 2 ^ 16)
          ∷ (window_scale config.window_scale ∷ []));
}

-- The messages of `Fail`.
pub data OpenFail : Type 0 where
  expecting_ack invalid_seq_num invalid_flags connection_refused handshake_timeout : OpenFail

abbrev attempt : TcpHeader → Option MacAddress → List TcpSegment
attempt h none = []
attempt h (some addr) = record { remote_link_addr = addr; tcp_hdr = h; body = none } ∷ []

-- What the `background` of either side sends in its tries, when nothing stops it. `arp` is the answer
-- to the query of each, `none` where it fails.
unfoldable pub background : ℕ → (ℕ → Option MacAddress) → TcpHeader → List TcpSegment
background zero arp h = []
background (suc n) arp h = attempt h (arp n) ++ background n arp h
