-- ===== src/Tcp/Peer/HandOver.antt =====
-- A connection that goes from one server to another, as their sockets see it: out of the one peer,
-- into the listening socket of the other, and accepted there.
use capybara_artifact.Base.{
  ◌≡◌, sym, ap, subst, ◌∙◌, Gives-bind, Option, some, none, [], ◌∷◌, ok, ◌>>=◌, Gives,
}
use capybara_artifact.Net.{SocketAddrV4}
use capybara_artifact.Net.Map.{
  number_key, pair_key, addr_key, lookup, insert, remove, lookup-insert,
}
use capybara_artifact.State.{TcpState, ControlBlockState, set_local}
use capybara_artifact.Mig.Active.{QDesc}
use capybara_artifact.Mig.Peer.{close_active_migration}
use capybara_artifact.Tcp.ControlBlock.{ControlBlock}
use capybara_artifact.Tcp.ControlBlock.Migrate.{state_of, from_state}
use capybara_artifact.Tcp.Connection.Defs.{Timing, Connection}
use capybara_artifact.Tcp.Opening.Passive as Passive
use capybara_artifact.Tcp.Opening.Passive.{
  PassiveSocket, push_migrated_in, push_ok, push_new, poll, poll_from, poll_known,
}
use capybara_artifact.Tcp.Peer.{listening, established, migrated_out, Env, Inner, put_passive}
use capybara_artifact.Tcp.Peer.Calls.{
  start, receive_all, buffered, accepted, on_polled, accept_on, accept_as, poll_accept,
}
use capybara_artifact.Tcp.Peer.Migrating.{
  migrate_out_connection, migrate_in_connection, migrate_in_to,
}
use capybara_artifact.Tcp.Peer.Tables.Runs.{Run, HaveMss, Left, Run-Left}

module _ (t : Timing) (env : Env) where
  -- A state that arrives is put to the listening socket, which `qd` accepts from. Its local address is
  -- already the target's.
  unfoldable pub arrive : QDesc → QDesc → TcpState → Inner t → Option (Inner t)
  arrive qd new_qd s j = do
    (e, j') ← migrate_in_connection t env s j
    (r, j'') ← poll_accept t env qd new_qd j'
    some j''

  -- The target listens at the address that the connection has there, has nothing else to accept, and knows neither
  -- the descriptor nor the addresses; `result` is the connection with the packets in it that the
  -- target has buffered, which it receives without a panic.
  pub record IsOpenFor (qd new_qd : QDesc) (cb : ControlBlock) (j : Inner t) (p : PassiveSocket)
      (result : Connection t) : Type 0 where
    pub listens : lookup qd j.sockets ≡ some (listening cb.local)
    pub socket : lookup cb.local j.passive ≡ some p
    pub queue : p.ready.ready ≡ []
    pub endpoint : lookup cb.remote p.ready.endpoints ≡ none
    pub descriptor : lookup new_qd j.sockets ≡ none
    pub addresses : lookup (cb.local, cb.remote) j.qds ≡ none
    pub connection : lookup (cb.local, cb.remote) j.established ≡ none
    pub packets :
        receive_all t env
          (buffered ((close_active_migration j.tcpmig cb.remote).0))
          (start t env cb)
        ≡ some result

  pub record Arrived (new_qd : QDesc) (cb : ControlBlock) (result : Connection t) (j : Inner t)
      : Type 0 where
    pub socket : lookup new_qd j.sockets ≡ some (established cb.local cb.remote)
    pub descriptor : lookup (cb.local, cb.remote) j.qds ≡ some new_qd
    pub connection : lookup (cb.local, cb.remote) j.established ≡ some result

  module _ (qd new_qd : QDesc) (s : TcpState) (j : Inner t) (p : PassiveSocket)
      (result : Connection t) (h : IsOpenFor qd new_qd (from_state s.cb) j p result) where
    abbrev cb : ControlBlock
    cb = from_state s.cb

    abbrev waiting : PassiveSocket
    waiting = record p {
      ready = record { ready = ok cb ∷ []; endpoints = insert cb.remote tt p.ready.endpoints };
    }

    abbrev polled : PassiveSocket
    polled = record p {
      ready = record {
        ready = [];
        endpoints = remove cb.remote (insert cb.remote tt p.ready.endpoints);
      };
    }

    abbrev taken : Inner t
    taken = record (put_passive cb.local polled (put_passive cb.local waiting j)) {
      sockets = insert new_qd (established cb.local cb.remote) j.sockets;
      qds = insert (cb.local, cb.remote) new_qd j.qds;
      established = insert (cb.local, cb.remote) result j.established;
      tcpmig = (close_active_migration j.tcpmig cb.remote).1;
    }

    comes_in : migrate_in_connection t env s j ≡ some (none, put_passive cb.local waiting j)
    unfolding migrate_in_connection migrate_in_to push_migrated_in push_ok push_new
    comes_in = rw (h.socket, h.endpoint, h.queue)

    is_polled : Passive.poll_accept waiting ≡ some (some (ok cb), polled)
    unfolding Passive.poll_accept poll poll_from poll_known
    is_polled = rw (lookup-insert cb.remote tt p.ready.endpoints)

    is_accepted :
        poll_accept t env qd new_qd (put_passive cb.local waiting j)
        ≡ some (some (ok new_qd), taken)
    unfolding poll_accept accept_as accept_on on_polled accepted
    is_accepted = rw (
      h.listens,
      lookup-insert cb.local waiting j.passive,
      is_polled,
      h.packets,
      h.descriptor,
      h.addresses,
      h.connection,
    )

    arrive-Arrived : Gives (Arrived new_qd cb result) (arrive qd new_qd s j)
    unfolding arrive
    arrive-Arrived = (
      taken,
      rw (comes_in, is_accepted),
      record {
        socket = lookup-insert new_qd (established cb.local cb.remote) j.sockets;
        descriptor = lookup-insert (cb.local, cb.remote) new_qd j.qds;
        connection = lookup-insert (cb.local, cb.remote) result j.established;
      },
    )

  -- One connection, from the origin's descriptor `qd` to a new one of the target, which on receipt of
  -- the state puts its own address `addr` in the place of the origin's (tcpmig/active.rs).
  unfoldable pub hand_over :
      QDesc → QDesc → QDesc → SocketAddrV4 → Inner t → Inner t → Option (Inner t × Inner t)
  hand_over qd listener new_qd addr i j = do
    (s, i') ← migrate_out_connection qd i
    j' ← arrive listener new_qd (set_local addr s) j
    some (i', j')

  -- What is restored of a control block, at another address.
  abbrev pub restored_at : SocketAddrV4 → ControlBlock → ControlBlock
  restored_at addr cb = from_state (record (state_of cb) { local = addr })

  same_connection : (c d : Connection t) → some c ≡ some d → c ≡ d
  same_connection c d e = cc

  pub record HandedOver (qd new_qd : QDesc) (local remote : SocketAddrV4) (cb : ControlBlock)
      (result : Connection t) (x : Inner t × Inner t) : Type 0 where
    pub left : lookup qd (x.0).sockets ≡ some (migrated_out local remote)
    pub gone : lookup (local, remote) (x.0).established ≡ none
    pub no_descriptor : lookup (local, remote) (x.0).qds ≡ none
    pub arrived : Arrived new_qd cb result (x.1)

  -- A connection is handed over whole. Take an origin after any run, without a connection that it
  -- opened itself and with every MSS below 2 ^ 32, and a target that listens at its own address, which
  -- it puts in the place of the origin's, has no other connection to accept, has neither the new
  -- descriptor nor the addresses in its tables, and can receive, without a panic, the packets that it
  -- has buffered for the connection. Then migrating the connection out, taking its state in and
  -- accepting it all succeed. The origin's socket is marked as migrated out, and neither the
  -- connection nor its descriptor is in its tables any more; the target has, under the new descriptor
  -- and the addresses, the connection with the control block that is restored from the origin's under
  -- the new address, new timers, and the buffered packets received.
  pub hand_over-HandedOver :
      (i : Inner t) (qd : QDesc) (local remote addr : SocketAddrV4) (c : Connection t)
      (listener new_qd : QDesc) (j : Inner t) (p : PassiveSocket) (result : Connection t)
      → Run t env i
      → HaveMss i
      → lookup qd i.sockets ≡ some (established local remote)
      → lookup (local, remote) i.established ≡ some c
      → IsOpenFor listener new_qd (restored_at addr c.block) j p result
      → Gives
          (HandedOver qd new_qd local remote (restored_at addr c.block) result)
          (hand_over qd listener new_qd addr i j)
  unfolding hand_over
  hand_over-HandedOver i qd local remote addr c listener new_qd j p result run mss e there
        open_for =
      Gives-bind (Left t env qd local remote i) _ (migrate_out_connection qd i) _
        (Run-Left t env i qd local remote run mss e)
        (λ x left.
          let d = left.connection in
          let same : d ≡ c = same_connection d c (sym left.was_there ∙ there) in
          let is_state : (x.0).cb ≡ state_of c.block =
            ap (λ (s : TcpState). s.cb) left.state
            ∙ ap (λ (b : Connection t). state_of b.block) same in
          let open_x : IsOpenFor listener new_qd (from_state (record ((x.0).cb) { local = addr })) j
              p result =
            subst
              (λ (s : ControlBlockState).
                IsOpenFor listener new_qd (from_state (record s { local = addr })) j p result)
              (sym is_state) open_for in
          let (k, arrives, there_now) =
            arrive-Arrived listener new_qd (set_local addr (x.0)) j p result open_x in
          (
            (x.1, k),
            rw arrives,
            record {
              left = left.socket;
              gone = left.no_connection;
              no_descriptor = left.no_descriptor;
              arrived =
                  subst
                    (λ (s : ControlBlockState).
                      Arrived new_qd (from_state (record s { local = addr })) result k)
                    is_state there_now;
            },
          ))
