-- ===== src/Tcp/Peer/Tables/Sockets.antt =====
-- Opening, binding, listening, connecting and accepting keep the tables consistent.
use capybara_artifact.Base.{
  ℕ, ◌≡◌, refl, if_both, Option, some, none, Result, ok, err, Holds, Holds-bind,
}
use capybara_artifact.Net.{SocketAddrV4}
use capybara_artifact.Net.Map.{number_key, pair_key, addr_key, lookup}
use capybara_artifact.Net.Ports.{EphemeralPorts, is_private, alloc_any}
use capybara_artifact.Mig.Active.{QDesc}
use capybara_artifact.Mig.Peer.{close_active_migration}
use capybara_artifact.Tcp.ControlBlock.{ControlBlock}
use capybara_artifact.Tcp.Connection.Defs.{Timing}
use capybara_artifact.Tcp.Opening.{OpenFail}
use capybara_artifact.Tcp.Opening.Passive as Passive
use capybara_artifact.Tcp.Opening.Passive.{PassiveSocket}
use capybara_artifact.Tcp.Peer.{
  Socket, inactive, listening, connecting, established, migrated_out, PeerFail, Env, Inner,
  put_passive, do_socket, open_as, bind, bind_reserved, bind_to, rollback, in_use, reserve, listen,
  listen_as, listen_on,
}
use capybara_artifact.Tcp.Peer.Calls.{
  start, receive_all, buffered, may_take, absent, accepted, on_polled, accept_on, accept_as,
  poll_accept, local_any, local_for, connect_from, connect,
}
use capybara_artifact.Tcp.Peer.Tables.{
  IsConsistent, put_socket-IsConsistent, add-IsConsistent, NotEstablished,
}

not_inactive : (o : Option SocketAddrV4) → NotEstablished (inactive o)
not_inactive o = λ l r e. cc

not_listening : (a : SocketAddrV4) → NotEstablished (listening a)
not_listening a = λ l r e. cc

not_connecting : (a b : SocketAddrV4) → NotEstablished (connecting a b)
not_connecting a b = λ l r e. cc

absent-none : {A : Type 0} (o : Option A) (u : Unit {0}) → absent o ≡ some u → o ≡ none
absent-none none u e = refl
absent-none (some a) u e = cc

module _ {t : Timing} where
  open_as-IsConsistent :
      (qd : QDesc) (i : Inner t) (o : Option Socket)
      → IsConsistent i
      → IsConsistent ((open_as qd i o).1)
  unfolding open_as
  open_as-IsConsistent qd i (some s) h = h
  open_as-IsConsistent qd i none h =
      put_socket-IsConsistent qd (inactive none) i (not_inactive none) h

  pub do_socket-IsConsistent :
      (qd : QDesc) (i : Inner t) → IsConsistent i → IsConsistent ((do_socket qd i).1)
  unfolding do_socket
  do_socket-IsConsistent qd i h = open_as-IsConsistent qd i (lookup qd i.sockets) h

  rollback-IsConsistent :
      (addr : SocketAddrV4) (i : Inner t) → IsConsistent i → IsConsistent (rollback addr i)
  rollback-IsConsistent addr i h =
      if_both IsConsistent (is_private addr.port) _ _ (record { known = h.known; held = h.held }) h

  bind_to-IsConsistent :
      (qd : QDesc) (addr : SocketAddrV4) (i : Inner t) (o : Option Socket)
      → IsConsistent i
      → IsConsistent ((bind_to qd addr i o).1)
  unfolding bind_to
  bind_to-IsConsistent qd addr i (some (inactive none)) h =
      put_socket-IsConsistent qd (inactive (some addr)) i (not_inactive (some addr)) h
  bind_to-IsConsistent qd addr i (some (inactive (some l))) h = rollback-IsConsistent addr i h
  bind_to-IsConsistent qd addr i (some (listening l)) h = rollback-IsConsistent addr i h
  bind_to-IsConsistent qd addr i (some (connecting l r)) h = rollback-IsConsistent addr i h
  bind_to-IsConsistent qd addr i (some (established l r)) h = rollback-IsConsistent addr i h
  bind_to-IsConsistent qd addr i (some (migrated_out l r)) h = rollback-IsConsistent addr i h
  bind_to-IsConsistent qd addr i none h = rollback-IsConsistent addr i h

  bind_reserved-IsConsistent :
      (qd : QDesc) (i : Inner t) (r : Result PeerFail (SocketAddrV4 × EphemeralPorts))
      → IsConsistent i
      → IsConsistent ((bind_reserved qd i r).1)
  unfolding bind_reserved
  bind_reserved-IsConsistent qd i (err e) h = h
  bind_reserved-IsConsistent qd i (ok (addr, ports)) h =
      bind_to-IsConsistent qd addr _ (lookup qd i.sockets)
        (record { known = h.known; held = h.held })

  pub bind-IsConsistent :
      (qd : QDesc) (addr : SocketAddrV4) (i : Inner t)
      → IsConsistent i
      → IsConsistent ((bind qd addr i).1)
  unfolding bind
  bind-IsConsistent qd addr i h =
      if_both (λ (x : Option PeerFail × Inner t). IsConsistent (x.1)) (in_use addr i.sockets) _ _ h
        (bind_reserved-IsConsistent qd i (reserve addr i.ephemeral_ports) h)

  listen_on-IsConsistent :
      (qd : QDesc) (local : SocketAddrV4) (backlog nonce : ℕ) (i : Inner t)
      (o : Option PassiveSocket)
      → IsConsistent i
      → IsConsistent ((listen_on qd local backlog nonce i o).1)
  unfolding listen_on
  listen_on-IsConsistent qd local backlog nonce i (some p) h = h
  listen_on-IsConsistent qd local backlog nonce i none h =
      put_socket-IsConsistent qd (listening local) _ (not_listening local)
        (record { known = h.known; held = h.held })

  listen_as-IsConsistent :
      (qd : QDesc) (backlog nonce : ℕ) (i : Inner t) (o : Option Socket)
      → IsConsistent i
      → IsConsistent ((listen_as qd backlog nonce i o).1)
  unfolding listen_as
  listen_as-IsConsistent qd backlog nonce i (some (inactive (some l))) h =
      listen_on-IsConsistent qd l backlog nonce i (lookup l i.passive) h
  listen_as-IsConsistent qd backlog nonce i (some (inactive none)) h = h
  listen_as-IsConsistent qd backlog nonce i (some (listening l)) h = h
  listen_as-IsConsistent qd backlog nonce i (some (connecting l r)) h = h
  listen_as-IsConsistent qd backlog nonce i (some (established l r)) h = h
  listen_as-IsConsistent qd backlog nonce i (some (migrated_out l r)) h = h
  listen_as-IsConsistent qd backlog nonce i none h = h

  pub listen-IsConsistent :
      (qd : QDesc) (backlog nonce : ℕ) (i : Inner t)
      → IsConsistent i
      → IsConsistent ((listen qd backlog nonce i).1)
  unfolding listen
  listen-IsConsistent qd backlog nonce i h =
      listen_as-IsConsistent qd backlog nonce i (lookup qd i.sockets) h

module _ (t : Timing) (env : Env) where
  -- Where the call gives a result, its tables are consistent.
  abbrev pub StaysConsistent : {A : Type 0} → Option (A × Inner t) → Type 0
  StaysConsistent m = Holds (λ x. IsConsistent (x.1)) m

  abbrev LocalConsistent : Result PeerFail (SocketAddrV4 × Inner t) → Type 0
  LocalConsistent (err e) = Unit
  LocalConsistent (ok (local, i)) = IsConsistent i

  local_any-IsConsistent :
      (o : Option (ℕ × EphemeralPorts)) (i : Inner t)
      → IsConsistent i
      → LocalConsistent (local_any t env o i)
  local_any-IsConsistent none i h = tt
  local_any-IsConsistent (some (port, ports)) i h = record { known = h.known; held = h.held }

  local_for-IsConsistent :
      (i : Inner t) (o : Option Socket) → IsConsistent i → LocalConsistent (local_for t env i o)
  unfolding local_for
  local_for-IsConsistent i (some (inactive none)) h =
      local_any-IsConsistent (alloc_any i.ephemeral_ports) i h
  local_for-IsConsistent i (some (inactive (some l))) h = h
  local_for-IsConsistent i (some (connecting l r)) h = tt
  local_for-IsConsistent i (some (established l r)) h = tt
  local_for-IsConsistent i (some (listening l)) h = tt
  local_for-IsConsistent i (some (migrated_out l r)) h = tt
  local_for-IsConsistent i none h = tt

  connect_from-IsConsistent :
      (qd : QDesc) (remote : SocketAddrV4) (i : Inner t)
      (r : Result PeerFail (SocketAddrV4 × Inner t))
      → IsConsistent i
      → LocalConsistent r
      → IsConsistent ((connect_from t env qd remote i r).1)
  unfolding connect_from
  connect_from-IsConsistent qd remote i (err e) h k = h
  connect_from-IsConsistent qd remote i (ok (local, j)) h k =
      let p =
        put_socket-IsConsistent qd (connecting local remote) j (not_connecting local remote) k in
      record { known = p.known; held = p.held }

  pub connect-IsConsistent :
      (qd : QDesc) (remote : SocketAddrV4) (i : Inner t)
      → IsConsistent i
      → IsConsistent ((connect t env qd remote i).1)
  unfolding connect
  connect-IsConsistent qd remote i h =
      connect_from-IsConsistent qd remote i (local_for t env i (lookup qd i.sockets)) h
        (local_for-IsConsistent i (lookup qd i.sockets) h)

  accepted-IsConsistent :
      (local : SocketAddrV4) (qd : QDesc) (cb : ControlBlock) (i : Inner t)
      → IsConsistent i
      → StaysConsistent (accepted t env local qd cb i)
  unfolding accepted
  accepted-IsConsistent local qd cb i h =
      let packets = buffered ((close_active_migration i.tcpmig cb.remote).0) in
      Holds-bind _ (receive_all t env packets (start t env cb)) _ (λ c e.
        Holds-bind _ (may_take (lookup qd i.sockets)) _ (λ u e1.
          Holds-bind _ (absent (lookup (local, cb.remote) i.qds)) _ (λ u2 e2.
            Holds-bind _ (absent (lookup (local, cb.remote) i.established)) _ (λ u3 e3.
              let p =
                add-IsConsistent qd local cb.remote c i
                  (absent-none (lookup (local, cb.remote) i.qds) u2 e2) h in
              record { known = p.known; held = p.held }))))

  on_polled-IsConsistent :
      (local : SocketAddrV4) (qd : QDesc) (i : Inner t) (r : Option (Result OpenFail ControlBlock))
      → IsConsistent i
      → StaysConsistent (on_polled t env local qd i r)
  unfolding on_polled
  on_polled-IsConsistent local qd i none h = h
  on_polled-IsConsistent local qd i (some (err e)) h = h
  on_polled-IsConsistent local qd i (some (ok cb)) h = accepted-IsConsistent local qd cb i h

  accept_on-IsConsistent :
      (local : SocketAddrV4) (qd : QDesc) (i : Inner t)
      → IsConsistent i
      → StaysConsistent (accept_on t env local qd i)
  unfolding accept_on
  accept_on-IsConsistent local qd i h = Holds-bind _ (lookup local i.passive) _ (λ p e.
      Holds-bind _ (Passive.poll_accept p) _ (λ x e'.
        on_polled-IsConsistent local qd (put_passive local (x.1) i) (x.0)
          (record { known = h.known; held = h.held })))

  accept_as-IsConsistent :
      (qd : QDesc) (i : Inner t) (o : Option Socket)
      → IsConsistent i
      → StaysConsistent (accept_as t env qd i o)
  unfolding accept_as
  accept_as-IsConsistent qd i (some (listening l)) h = accept_on-IsConsistent l qd i h
  accept_as-IsConsistent qd i (some (inactive l)) h = h
  accept_as-IsConsistent qd i (some (connecting l r)) h = h
  accept_as-IsConsistent qd i (some (established l r)) h = h
  accept_as-IsConsistent qd i (some (migrated_out l r)) h = h
  accept_as-IsConsistent qd i none h = h

  pub poll_accept-IsConsistent :
      (qd new_qd : QDesc) (i : Inner t)
      → IsConsistent i
      → StaysConsistent (poll_accept t env qd new_qd i)
  unfolding poll_accept
  poll_accept-IsConsistent qd new_qd i h = accept_as-IsConsistent new_qd i (lookup qd i.sockets) h
