-- ===== src/Tests/Opening.antt =====
-- The theorems on the opening of connections, between a client with a window scale and a server.
use capybara_artifact.Base.{ℕ, ◌≡◌, refl, some, none, List, [], ◌∷◌, ok, Gives, arith, ◌>>=◌}
use capybara_artifact.Net.Map.{addr_key, lookup, insert, remove}
use capybara_artifact.Tcp.Header as Header
use capybara_artifact.Tcp.Sender as Sender
use capybara_artifact.Tcp.ControlBlock.{ControlBlock}
use capybara_artifact.Tcp.Opening.{
  TcpConfig, new_block, scales, checked_shl, generate, offers, push_offers,
}
use capybara_artifact.Tcp.Opening.Active as Active
use capybara_artifact.Tcp.Opening.Active.{ActiveOpenSocket, syn_header}
use capybara_artifact.Tcp.Opening.Passive as Passive
use capybara_artifact.Tcp.Opening.Passive.{
  PassiveSocket, Handshake, receive, push_migrated_in, accepted_block, unless_ready, route, on_new,
  push_ok, push_new,
}
use capybara_artifact.Tcp.Opening.Handshake.{
  IsTcpConfig, HasRoom, Opened, handshake, packet_from, handshake-Opened,
}
use capybara_artifact.Tcp.Opening.Accepting.{listens, receives, migrates_in, Queues, Run-Queues}
use capybara_artifact.Tests.Samples.{origin_addr, client_addr}
use capybara_artifact.Tests.Tcp.{control_block}

abbrev client_config : TcpConfig
client_config = record {
  receive_window_size = 4096;
  window_scale = 3;
  advertised_mss = 1450;
  handshake_retries = 5;
}

abbrev pub server_config : TcpConfig
server_config = record {
  receive_window_size = 65535;
  window_scale = 0;
  advertised_mss = 9000;
  handshake_retries = 5;
}

-- In place of the CRC.
abbrev pub crc : List ℕ → ℕ
crc bytes = 77

abbrev opening : ActiveOpenSocket
opening = Active.new 4294967295 client_addr origin_addr

abbrev listening : PassiveSocket
listening = Passive.new origin_addr 4 9

client_config-IsTcpConfig : IsTcpConfig client_config
client_config-IsTcpConfig = record { mss = omega arith; scale = omega arith; window = omega arith }

server_config-IsTcpConfig : IsTcpConfig server_config
server_config-IsTcpConfig = record { mss = omega arith; scale = omega arith; window = omega arith }

listening-HasRoom : HasRoom opening listening
unfolding Active.new Passive.new lookup
listening-HasRoom = record { not_ready = refl; not_inflight = refl; backlog = omega arith }

handshake-Opened_example :
    Gives
      (Opened client_config server_config listening)
      (handshake client_config server_config crc 5 opening listening)
unfolding Active.new Passive.new
handshake-Opened_example =
    handshake-Opened client_config server_config client_config-IsTcpConfig server_config-IsTcpConfig
      crc opening listening listening-HasRoom 5 refl

-- A connection of another peer that migrated in waits while a SYN arrives.
abbrev elsewhere : ControlBlock
elsewhere = record control_block { remote = record origin_addr { port = 4001 } }

abbrev with_migrated : PassiveSocket
with_migrated = record listening {
  ready = record { ready = ok elsewhere ∷ []; endpoints = (elsewhere.remote, tt) ∷ [] };
}

abbrev with_syn : PassiveSocket
with_syn = record with_migrated {
  inflight =
      (
        client_addr,
        record {
          local_isn = 77;
          remote_isn = 4294967295;
          header_window_size = 4096;
          remote_window_scale = some 3;
          mss = 1450;
        },
      )
      ∷ [];
  isn_generator = record { nonce = 9; counter = 1 };
}

migrates : push_migrated_in elsewhere listening ≡ some with_migrated
unfolding push_migrated_in Passive.new push_ok push_new lookup insert remove
migrates = refl

abbrev started : Handshake
started = record {
  local_isn = 77;
  remote_isn = 4294967295;
  local = origin_addr;
  remote = client_addr;
}

receives_syn :
    receive server_config crc (packet_from opening) (syn_header client_config opening) with_migrated
    ≡ some (none, (with_syn, started ∷ []))
unfolding receive unless_ready route on_new syn_header push_offers Header.new Active.new Passive.new
    generate offers lookup insert remove
receives_syn = refl

Run-Queues_example : Queues with_syn
unfolding Passive.new
Run-Queues_example = Run-Queues server_config crc with_syn (
    receives (packet_from opening) (syn_header client_config opening)
      (migrates_in elsewhere (listens origin_addr 4 9) migrates) receives_syn)

-- A peer that offers a window scale of 16 makes the server panic once it acknowledges.
panics_scale_16 :
    accepted_block server_config origin_addr client_addr (record {
      local_isn = 77;
      remote_isn = 5;
      header_window_size = 1;
      remote_window_scale = some 16;
      mss = 1450;
    })
    ≡ none
unfolding accepted_block scales checked_shl
panics_scale_16 = refl

-- A window of 65535 with the scale 7 is taken for one of 65408.
loses_window :
    (accepted_block server_config origin_addr client_addr (record {
      local_isn = 77;
      remote_isn = 5;
      header_window_size = 65535;
      remote_window_scale = some 7;
      mss = 1450;
    })
      >>= λ cb. some cb.sender.send_window)
    ≡ some 65408
unfolding accepted_block scales checked_shl new_block Sender.new
loses_window = refl
