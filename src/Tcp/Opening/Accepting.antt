-- ===== src/Tcp/Opening/Accepting.antt =====
-- The connections that are ready on a listening socket: the set of their endpoints and the queue.
use capybara_artifact.Base.{
  ◌≡◌, refl, sym, ap, ◌∙◌, inl, inr, Bool, true, false, ◌||◌, Bool-cases, Option, some, none, List,
  [], ◌∷◌, ◌++◌, Result, ok, err, Gives, Gives-bind, Gives-imp, Holds, Holds-bind, Holds-if,
  Holds-some, Gives-Holds, not, leb, ◌+◌, ◌==◌, length, ℕ,
}
use capybara_artifact.Net.{
  SocketAddrV4, addr_eq, addr_eq_iff, addr_eq_refl, addr_eq_sym, ne-addr_eq,
}
use capybara_artifact.Net.Map.{
  addr_key, HashMap, lookup, insert, remove, lookup-insert, lookup-insert_ne, lookup-remove,
  lookup-remove_ne,
}
use capybara_artifact.Mig.Header.{Ipv4Header}
use capybara_artifact.Tcp.Header.{TcpHeader}
use capybara_artifact.Tcp.ControlBlock.{ControlBlock}
use capybara_artifact.Tcp.Opening.{TcpConfig, OpenFail, new_block, checked_shl, scales}
use capybara_artifact.Seq.{add}
use capybara_artifact.Tcp.Opening.Passive.{
  ReadySockets, PassiveSocket, Handshake, push_ok, push_new, poll, poll_from, poll_known, new,
  InflightAccept, Received, accepted_block, on_inflight, on_new, route, unless_ready, receive,
  poll_accept, push_migrated_in,
}

-- The peers of the connections in the queue, in their order.
unfoldable pub remotes : List (Result OpenFail ControlBlock) → List SocketAddrV4
remotes [] = []
remotes (ok cb ∷ q) = cb.remote ∷ remotes q
remotes (err e ∷ q) = remotes q

unfoldable pub listed : SocketAddrV4 → List SocketAddrV4 → Bool
listed k [] = false
listed k (j ∷ q) = addr_eq j k || listed k q

unfoldable pub Distinct : List SocketAddrV4 → Type 0
unfolding listed
Distinct [] = Unit
Distinct (j ∷ q) = (listed j q ≡ false) × Distinct q

unfoldable pub entry : Bool → Option (Unit {0})
entry true = some tt
entry false = none

-- The set has exactly the peers in the queue, and none is there twice.
pub record IsReady (r : ReadySockets) : Type 0 where
  pub tracked : (k : SocketAddrV4) → lookup k r.endpoints ≡ entry (listed k (remotes r.ready))
  pub distinct : Distinct (remotes r.ready)

remotes-append :
    (q : List (Result OpenFail ControlBlock)) (cb : ControlBlock)
    → remotes (q ++ (ok cb ∷ [])) ≡ remotes q ++ (cb.remote ∷ [])
unfolding remotes
remotes-append [] cb = refl
remotes-append (ok x ∷ q) cb = ap (λ l. x.remote ∷ l) (remotes-append q cb)
remotes-append (err e ∷ q) cb = remotes-append q cb

or_assoc : (a b c : Bool) → ((a || b) || c) ≡ (a || (b || c))
or_assoc true b c = refl
or_assoc false b c = refl

or_false : (a : Bool) → (a || false) ≡ a
or_false true = refl
or_false false = refl

or_true : (a : Bool) → (a || true) ≡ true
or_true true = refl
or_true false = refl

listed-append :
    (k j : SocketAddrV4) (q : List SocketAddrV4)
    → listed k (q ++ (j ∷ [])) ≡ (listed k q || addr_eq j k)
unfolding listed
listed-append k j [] = or_false (addr_eq j k)
listed-append k j (i ∷ q) =
    ap (λ b. addr_eq i k || b) (listed-append k j q)
    ∙ sym (or_assoc (addr_eq i k) (listed k q) (addr_eq j k))

or_no : (a b : Bool) → (a || b) ≡ false → (a ≡ false) × (b ≡ false)
or_no true b h = cc
or_no false b h = (refl, h)

Distinct-append :
    (j : SocketAddrV4) (q : List SocketAddrV4)
    → Distinct q
    → listed j q ≡ false
    → Distinct (q ++ (j ∷ []))
unfolding Distinct listed
Distinct-append j [] d h = (refl, tt)
Distinct-append j (i ∷ q) (n, d) h =
    let (e, h') = or_no (addr_eq i j) (listed j q) h in
    (listed-append i j q ∙ rw (n, addr_eq_sym j i) e, Distinct-append j q d h')

-- A connection joins the end of the queue.
push_ok-IsReady :
    (cb : ControlBlock) (r : ReadySockets)
    → IsReady r
    → listed cb.remote (remotes r.ready) ≡ false
    → Gives (λ r'. IsReady r' × (r'.ready ≡ r.ready ++ (ok cb ∷ []))) (push_ok cb r)
unfolding push_ok push_new entry
push_ok-IsReady cb r h n = (
  record { ready = r.ready ++ (ok cb ∷ []); endpoints = insert cb.remote tt r.endpoints },
  rw (h.tracked cb.remote, n),
  (
    record {
      tracked = λ k. elim (Bool-cases (addr_eq cb.remote k)) [
        | inl e ↦
            rw
              (
                remotes-append r.ready cb,
                listed-append k cb.remote (remotes r.ready),
                e,
                or_true (listed k (remotes r.ready)),
                sym ((addr_eq_iff cb.remote k).0 e),
              )
              (lookup-insert cb.remote tt r.endpoints)
        | inr e ↦
            rw
              (
                remotes-append r.ready cb,
                listed-append k cb.remote (remotes r.ready),
                e,
                or_false (listed k (remotes r.ready)),
              )
              (lookup-insert_ne cb.remote k tt r.endpoints (ne-addr_eq cb.remote k e) ∙ h.tracked k)
      ];
      distinct =
          rw (remotes-append r.ready cb) (Distinct-append cb.remote (remotes r.ready) h.distinct n);
    },
    refl,
  ),
)

-- What `poll` makes of the queue: nothing, of the empty one only, or its first entry.
abbrev pub Takes :
    Option (Result OpenFail ControlBlock)
    → List (Result OpenFail ControlBlock)
    → List (Result OpenFail ControlBlock)
    → Type 0
Takes none before after = (before ≡ []) × (after ≡ [])
Takes (some x) before after = before ≡ x ∷ after

poll_from-IsReady :
    (q : List (Result OpenFail ControlBlock)) (m : HashMap SocketAddrV4 (Unit {0}))
    → IsReady (record { ready = q; endpoints = m })
    → Gives
        (λ x. IsReady (x.1) × Takes (x.0) q ((x.1).ready))
        (poll_from q (record { ready = q; endpoints = m }))
unfolding poll_from poll_known remotes listed Distinct entry
poll_from-IsReady [] m h = ((none, record { ready = []; endpoints = m }), refl, (h, (refl, refl)))
poll_from-IsReady (err e ∷ q) m h = (
  (some (err e), record { ready = q; endpoints = m }),
  refl,
  (record { tracked = h.tracked; distinct = h.distinct }, refl),
)
poll_from-IsReady (ok cb ∷ q) m h = (
  (some (ok cb), record { ready = q; endpoints = remove cb.remote m }),
  rw (h.tracked cb.remote, addr_eq_refl cb.remote),
  (
    record {
      tracked = λ k. elim (Bool-cases (addr_eq cb.remote k)) [
        | inl e ↦ rw (sym ((addr_eq_iff cb.remote k).0 e), h.distinct.0) (lookup-remove cb.remote m)
        | inr e ↦ lookup-remove_ne cb.remote k m (ne-addr_eq cb.remote k e) ∙ (h.tracked k ∙ rw e)
      ];
      distinct = h.distinct.1;
    },
    refl,
  ),
)

accepted_block-remote :
    (config : TcpConfig) (local remote : SocketAddrV4) (i : InflightAccept)
    → Holds (λ cb. cb.remote ≡ remote) (accepted_block config local remote i)
unfolding accepted_block new_block
accepted_block-remote config local remote i =
    Holds-bind _ (checked_shl 16 i.header_window_size (scales config i.remote_window_scale).1) _
      (λ w e.
        Holds-bind _
          (checked_shl 32 config.receive_window_size (scales config i.remote_window_scale).0) _
          (λ w' e'. refl))

abbrev Keeps : Received → Type 0
Keeps m = Holds (λ x. IsReady ((x.1).0).ready) m

not_listed : (b : Bool) → none ≡ entry b → b ≡ false
unfolding entry
not_listed true e = cc
not_listed false e = refl

on_inflight-IsReady :
    (config : TcpConfig) (remote : SocketAddrV4) (h : TcpHeader) (i : InflightAccept)
    (p : PassiveSocket)
    → IsReady p.ready
    → lookup remote p.ready.endpoints ≡ none
    → Keeps (on_inflight config remote h i p)
unfolding on_inflight
on_inflight-IsReady config remote h i p r n = Holds-if _ (not h.ack) _ _ r (
    Holds-if _ (not (h.ack_num == add i.local_isn 1)) _ _ r (
      Holds-bind _ (accepted_block config p.local remote i) _ (λ cb e.
        let remote_is : cb.remote ≡ remote =
          Holds-some (λ (b : ControlBlock). b.remote ≡ remote)
            (accepted_block config p.local remote i) cb
            (accepted_block-remote config p.local remote i) e in
        let free : listed cb.remote (remotes p.ready.ready) ≡ false =
          not_listed (listed cb.remote (remotes p.ready.ready))
            (sym (rw remote_is n) ∙ r.tracked cb.remote) in
        Holds-bind _ (push_ok cb p.ready) _ (λ q e'.
          (Holds-some (λ r'. IsReady r' × (r'.ready ≡ p.ready.ready ++ (ok cb ∷ [])))
            (push_ok cb p.ready) q
            (Gives-Holds _ (push_ok cb p.ready) (push_ok-IsReady cb p.ready r free)) e').0))))

on_new-IsReady :
    (crc : List ℕ → ℕ) (remote : SocketAddrV4) (h : TcpHeader) (p : PassiveSocket)
    → IsReady p.ready
    → Keeps (on_new crc remote h p)
unfolding on_new
on_new-IsReady crc remote h p r =
    Holds-if _ (not h.syn || h.ack || h.rst) _ _ r
      (Holds-if _ (leb p.max_backlog (length p.inflight + length p.ready.ready)) _ _ r r)

route-IsReady :
    (config : TcpConfig) (crc : List ℕ → ℕ) (remote : SocketAddrV4) (h : TcpHeader)
    (p : PassiveSocket) (o : Option InflightAccept)
    → IsReady p.ready
    → lookup remote p.ready.endpoints ≡ none
    → Keeps (route config crc remote h p o)
unfolding route
route-IsReady config crc remote h p (some i) r n = on_inflight-IsReady config remote h i p r n
route-IsReady config crc remote h p none r n = on_new-IsReady crc remote h p r

unless_ready-IsReady :
    (config : TcpConfig) (crc : List ℕ → ℕ) (remote : SocketAddrV4) (h : TcpHeader)
    (p : PassiveSocket) (o : Option (Unit {0}))
    → IsReady p.ready
    → lookup remote p.ready.endpoints ≡ o
    → Keeps (unless_ready config crc remote h p o)
unfolding unless_ready
unless_ready-IsReady config crc remote h p (some u) r n = r
unless_ready-IsReady config crc remote h p none r n =
    route-IsReady config crc remote h p (lookup remote p.inflight) r n

receive-IsReady :
    (config : TcpConfig) (crc : List ℕ → ℕ) (ip : Ipv4Header) (h : TcpHeader) (p : PassiveSocket)
    → IsReady p.ready
    → Keeps (receive config crc ip h p)
unfolding receive
receive-IsReady config crc ip h p r =
    let remote : SocketAddrV4 = record { ip = ip.src_addr; port = h.src_port } in
    unless_ready-IsReady config crc remote h p (lookup remote p.ready.endpoints) r refl

poll_accept-IsReady :
    (p : PassiveSocket)
    → IsReady p.ready
    → Gives
        (λ x. IsReady (x.1).ready × Takes (x.0) p.ready.ready (((x.1).ready).ready))
        (poll_accept p)
unfolding poll_accept poll
poll_accept-IsReady p r =
    Gives-bind (λ x. IsReady (x.1) × Takes (x.0) p.ready.ready ((x.1).ready)) _
      (poll_from p.ready.ready p.ready) _ (poll_from-IsReady p.ready.ready p.ready.endpoints r)
      (λ x h. ((x.0, record p { ready = x.1 }), refl, h))

push_migrated_in-IsReady :
    (cb : ControlBlock) (p : PassiveSocket)
    → IsReady p.ready
    → listed cb.remote (remotes p.ready.ready) ≡ false
    → Gives
        (λ q. IsReady q.ready × (q.ready.ready ≡ p.ready.ready ++ (ok cb ∷ [])))
        (push_migrated_in cb p)
unfolding push_migrated_in
push_migrated_in-IsReady cb p r n =
    Gives-bind (λ r'. IsReady r' × (r'.ready ≡ p.ready.ready ++ (ok cb ∷ []))) _
      (push_ok cb p.ready) _ (push_ok-IsReady cb p.ready r n)
      (λ x h. (record p { ready = x }, refl, h))

push_migrated_in-listed :
    (cb : ControlBlock) (p : PassiveSocket)
    → IsReady p.ready
    → listed cb.remote (remotes p.ready.ready) ≡ true
    → push_migrated_in cb p ≡ none
unfolding push_migrated_in push_ok push_new entry
push_migrated_in-listed cb p r n = rw (r.tracked cb.remote, n)

-- A listening socket after any sequence of packets, accepts and migrations into it.
pub data Run (config : TcpConfig) (crc : List ℕ → ℕ) : PassiveSocket → Type 0 where
  listens :
      (local : SocketAddrV4) (max_backlog nonce : ℕ) → Run config crc (new local max_backlog nonce)
  receives :
      {p q : PassiveSocket} {e : Option OpenFail} {tasks : List Handshake} (ip : Ipv4Header)
      (h : TcpHeader)
      → Run config crc p
      → receive config crc ip h p ≡ some (e, (q, tasks))
      → Run config crc q
  accepts :
      {p q : PassiveSocket} {r : Option (Result OpenFail ControlBlock)}
      → Run config crc p
      → poll_accept p ≡ some (r, q)
      → Run config crc q
  migrates_in :
      {p q : PassiveSocket} (cb : ControlBlock)
      → Run config crc p
      → push_migrated_in cb p ≡ some q
      → Run config crc q

Run-IsReady :
    (config : TcpConfig) (crc : List ℕ → ℕ) (p : PassiveSocket) → Run config crc p → IsReady p.ready
unfolding new entry listed remotes lookup Distinct
Run-IsReady config crc p (listens local max_backlog nonce) = record {
  tracked = λ k. refl;
  distinct = tt;
}
Run-IsReady config crc q (receives {p = p} ip h run e) =
    Holds-some (λ x. IsReady ((x.1).0).ready) (receive config crc ip h p) _
      (receive-IsReady config crc ip h p (Run-IsReady config crc p run)) e
Run-IsReady config crc q (accepts {p = p} run e) =
    (Holds-some (λ x. IsReady (x.1).ready × Takes (x.0) p.ready.ready (((x.1).ready).ready))
      (poll_accept p) _
      (Gives-Holds _ (poll_accept p) (poll_accept-IsReady p (Run-IsReady config crc p run))) e).0
Run-IsReady config crc q (migrates_in {p = p} cb run e) =
    elim (Bool-cases (listed cb.remote (remotes p.ready.ready))) [
      | inl h ↦
          let z : push_migrated_in cb p ≡ none =
            push_migrated_in-listed cb p (Run-IsReady config crc p run) h in
          cc
      | inr h ↦
          (Holds-some (λ q. IsReady q.ready × (q.ready.ready ≡ p.ready.ready ++ (ok cb ∷ [])))
            (push_migrated_in cb p) q
            (Gives-Holds _ (push_migrated_in cb p)
              (push_migrated_in-IsReady cb p (Run-IsReady config crc p run) h))
            e).0
    ]

-- The specification of the queue: first in, first out, with each peer at most once.
pub record Queues (p : PassiveSocket) : Type 0 where
  pub accept : Gives (λ x. Takes (x.0) p.ready.ready (((x.1).ready).ready)) (poll_accept p)
  pub migrate_in :
      (cb : ControlBlock)
      → listed cb.remote (remotes p.ready.ready) ≡ false
      → Gives (λ q. q.ready.ready ≡ p.ready.ready ++ (ok cb ∷ [])) (push_migrated_in cb p)
  pub migrate_in_twice :
      (cb : ControlBlock)
      → listed cb.remote (remotes p.ready.ready) ≡ true
      → push_migrated_in cb p ≡ none

-- A listening socket, after any sequence of packets, accepts and migrations into it, has a queue of
-- connections: accepting never panics and takes the first entry, or nothing, and that of the empty
-- queue only; and migrating a connection in puts it at the end, or panics, exactly when a
-- connection of the same peer waits in the queue.
pub Run-Queues :
    (config : TcpConfig) (crc : List ℕ → ℕ) (p : PassiveSocket) → Run config crc p → Queues p
Run-Queues config crc p run =
    let r : IsReady p.ready = Run-IsReady config crc p run in
    record {
      accept = Gives-imp _ _ (poll_accept p) (λ x h. h.1) (poll_accept-IsReady p r);
      migrate_in = λ cb n.
          Gives-imp _ _ (push_migrated_in cb p) (λ x h. h.1) (push_migrated_in-IsReady cb p r n);
      migrate_in_twice = λ cb n. push_migrated_in-listed cb p r n;
    }
