-- ===== src/Tcp/Peer/Data.antt =====
-- The calls on established sockets in inetstack/protocols/tcp/peer.rs: receiving, sending, closing,
-- and what a connection tells of itself.
use capybara_artifact.Base.{ℕ, Option, some, none, ◌>>=◌, Result, ok, err}
use capybara_artifact.Net.Map.{number_key, pair_key, lookup, remove}
use capybara_artifact.State.{Buffer}
use capybara_artifact.Mig.Active.{QDesc}
use capybara_artifact.Tcp.ControlBlock.{ControlBlock}
use capybara_artifact.Tcp.ControlBlock as ControlBlock
use capybara_artifact.Tcp.Connection.Defs as Defs
use capybara_artifact.Tcp.Connection.Defs.{Timing, Connection, Duration, SendFail}
use capybara_artifact.Tcp.Peer.{
  Socket, inactive, listening, connecting, established, migrated_out, PeerFail, bad_descriptor,
  in_progress, is_inactive, is_listening, is_migrated_out, not_established, cannot_close, sending,
  Env, Pair, Inner,
}
use capybara_artifact.Tcp.Peer.Calls.{link_of, put_connection, Polled}

-- The address pair of an established socket, or the error of the call for another one.
unfoldable pub key_or : (Socket → PeerFail) → Option Socket → Result PeerFail Pair
key_or f (some (established local remote)) = ok (local, remote)
key_or f (some (inactive local)) = err (f (inactive local))
key_or f (some (listening local)) = err (f (listening local))
key_or f (some (connecting local remote)) = err (f (connecting local remote))
key_or f (some (migrated_out local remote)) = err (f (migrated_out local remote))
key_or f none = err bad_descriptor

unfoldable pub recv_fail : Socket → PeerFail
recv_fail (inactive local) = is_inactive
recv_fail (listening local) = is_listening
recv_fail (connecting local remote) = in_progress
recv_fail (migrated_out local remote) = is_migrated_out
recv_fail (established local remote) = not_established

unfoldable pub send_fail : Socket → PeerFail
send_fail (inactive local) = not_established
send_fail (listening local) = not_established
send_fail (connecting local remote) = not_established
send_fail (migrated_out local remote) = is_migrated_out
send_fail (established local remote) = not_established

unfoldable pub close_fail : Socket → PeerFail
close_fail s = cannot_close

module _ (t : Timing) (env : Env) where
  open t use {RtoCalculator, rto}
  open env use {now}

  unfoldable pub recv_on :
      Pair → Inner t → Connection t → Option (Buffer × ControlBlock) → Polled t env Buffer
  recv_on key i c none = some (none, i)
  recv_on key i c (some (buf, block)) =
      some (some (ok buf), put_connection t env key (record c { block = block }) i)

  unfoldable pub recv_at : Pair → Inner t → Option (Connection t) → Polled t env Buffer
  unfolding recv_on
  recv_at key i none = some (some (err not_established), i)
  recv_at key i (some c) = recv_on key i c (ControlBlock.poll_recv c.block)

  unfoldable pub recv_key : Inner t → Result PeerFail Pair → Polled t env Buffer
  unfolding recv_at
  recv_key i (err e) = some (some (err e), i)
  recv_key i (ok key) = recv_at key i (lookup key i.established)

  unfoldable pub poll_recv : QDesc → Inner t → Polled t env Buffer
  unfolding recv_key key_or recv_fail
  poll_recv qd i = recv_key i (key_or recv_fail (lookup qd i.sockets))

  -- The outer `none` is a panic, the inner one success.
  abbrev pub Called : Type 0
  Called = Option (Option PeerFail × Inner t)

  abbrev sent_with : Option SendFail → Option PeerFail
  sent_with none = none
  sent_with (some e) = some (sending e)

  unfoldable pub send_at : Buffer → Pair → Inner t → Option (Connection t) → Called
  send_at buf key i none = some (some not_established, i)
  send_at buf key i (some c) = do
    (e, c') ← Defs.send t (link_of t env c) now buf c
    some (sent_with e, put_connection t env key c' i)

  unfoldable pub send_key : Buffer → Inner t → Result PeerFail Pair → Called
  unfolding send_at
  send_key buf i (err e) = some (some e, i)
  send_key buf i (ok key) = send_at buf key i (lookup key i.established)

  unfoldable pub send : QDesc → Buffer → Inner t → Called
  unfolding send_key key_or send_fail
  send qd buf i = send_key buf i (key_or send_fail (lookup qd i.sockets))

  unfoldable pub close_at : Pair → Inner t → Option (Connection t) → Called
  close_at key i none = some (some not_established, i)
  close_at key i (some c) = do
    c' ← Defs.close t (link_of t env c) now c
    some (none, put_connection t env key c' i)

  unfoldable pub close_key : Inner t → Result PeerFail Pair → Called
  unfolding close_at
  close_key i (err e) = some (some e, i)
  close_key i (ok key) = close_at key i (lookup key i.established)

  -- The socket is gone, whatever it was; the connection and its descriptor stay in their tables.
  unfoldable pub do_close : QDesc → Inner t → Called
  unfolding close_key key_or close_fail
  do_close qd i =
      close_key (record i { sockets = remove qd i.sockets })
        (key_or close_fail (lookup qd i.sockets))

  ask_at : {A : Type 0} → (Connection t → A) → Option (Connection t) → Result PeerFail A
  ask_at f none = err not_established
  ask_at f (some c) = ok (f c)

  ask_key : {A : Type 0} → (Connection t → A) → Inner t → Result PeerFail Pair → Result PeerFail A
  unfolding ask_at
  ask_key f i (err e) = err e
  ask_key f i (ok key) = ask_at f (lookup key i.established)

  -- Of a connection by its descriptor.
  unfoldable pub ask : {A : Type 0} → (Connection t → A) → QDesc → Inner t → Result PeerFail A
  unfolding ask_key key_or
  ask f qd i = ask_key f i (key_or (λ s. not_established) (lookup qd i.sockets))

  abbrev pub remote_mss : QDesc → Inner t → Result PeerFail ℕ
  remote_mss = ask (λ c. c.block.sender.mss)

  abbrev pub current_rto : QDesc → Inner t → Result PeerFail Duration
  current_rto = ask (λ c. rto c.rto_calculator)

  abbrev pub endpoints : QDesc → Inner t → Result PeerFail Pair
  endpoints = ask (λ c. (c.block.local, c.block.remote))
