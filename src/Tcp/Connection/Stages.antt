-- ===== src/Tcp/Connection/Stages.antt =====
-- The states of a connection: which edges of the state diagram a received segment may take, and
-- which sending may.
use capybara_artifact.Base.{
  ℕ, ◌+◌, ◌==◌, ◌≡◌, refl, subst, sym, Bool, true, false, not, ◌&&◌, ltb, if◌then◌else◌, if_both,
  Holds, Holds-bind, Holds-imp, Holds-if, Holds-some, Option, some, none, [], ◌∷◌, length, ◌⊎◌, inl,
  inr, ◌∙◌, ◌>>=◌, adjust, ◌-◌,
}
use capybara_artifact.Seq.{SeqNumber, add, sub, lt, le, ge}
use capybara_artifact.State.{Buffer, Instant}
use capybara_artifact.Mig.Segment.{MacAddress}
use capybara_artifact.Tcp.Header.{TcpHeader}
use capybara_artifact.Tcp.Sender.Queues.{remove_acknowledged_data}
use capybara_artifact.Tcp.ControlBlock.{
  State, established, fin_wait1, fin_wait2, closing, time_wait, close_wait, last_ack, closed,
  ControlBlock, hdr_window_size, receive_data, store_passes, len32, get_receive_window_size,
  store_out_of_order_segment, store_out_of_order_fin, trim,
}
use capybara_artifact.Tcp.Acceptance.{
  Segment, segment_of, Checked, refused, accepted, check_segment, cut_front, cut_back, check_front,
  check_back, assert_in_window, flag_len,
}
use capybara_artifact.Tcp.Connection.Defs.{
  Timing, Connection, tcp_header, fin_sent, after_emit, emit, send_ack,
}
use capybara_artifact.Tcp.Connection.Receive.{
  all_acked, fin_received, receives_data, acknowledged, note_ack, process_ack, store_plain,
  store_segment, out_of_order, receive_text, process_text, process_fin, schedule_ack, finish,
  process_segment, continue, on_segment, receive,
}

-- The acknowledgement of one's own FIN.
pub data Acked : State → State → Type 0 where
  no_ack : (s : State) → Acked s s
  fin_acked : Acked fin_wait1 fin_wait2
  both_acked : Acked closing time_wait
  last_acked : Acked last_ack closed

-- The peer's FIN.
pub data PeerCloses : State → State → Type 0 where
  no_fin : (s : State) → PeerCloses s s
  peer_closes : PeerCloses established close_wait
  both_close : PeerCloses fin_wait1 closing
  peer_closes_last : PeerCloses fin_wait2 time_wait

-- One's own FIN.
pub data WeClose : State → State → Type 0 where
  no_close : (s : State) → WeClose s s
  we_close : WeClose established fin_wait1
  we_close_last : WeClose close_wait last_ack

pub record Moved (s s' : State) : Type 0 where
  pub between : State
  pub acked : Acked s between
  pub closed_by_peer : PeerCloses between s'

-- One segment: without an ACK it changes nothing but for a reset; with one, an acknowledgement is
-- taken in before a FIN.
pub data Received (header : TcpHeader) (s : State) : State → Type 0 where
  resets : (header.rst ≡ true) ⊎ (header.syn ≡ true) → Received header s closed
  ignored : Received header s s
  taken : {s' : State} → header.ack ≡ true → Moved s s' → Received header s s'

all_acked-Acked : (s : State) → Acked s (all_acked s)
unfolding all_acked
all_acked-Acked fin_wait1 = fin_acked
all_acked-Acked closing = both_acked
all_acked-Acked last_ack = last_acked
all_acked-Acked established = no_ack established
all_acked-Acked fin_wait2 = no_ack fin_wait2
all_acked-Acked time_wait = no_ack time_wait
all_acked-Acked close_wait = no_ack close_wait
all_acked-Acked closed = no_ack closed

fin_received-PeerCloses : (s : State) → Holds (PeerCloses s) (fin_received s)
unfolding fin_received
fin_received-PeerCloses established = peer_closes
fin_received-PeerCloses fin_wait1 = both_close
fin_received-PeerCloses fin_wait2 = peer_closes_last
fin_received-PeerCloses closing = no_fin closing
fin_received-PeerCloses time_wait = no_fin time_wait
fin_received-PeerCloses close_wait = no_fin close_wait
fin_received-PeerCloses last_ack = no_fin last_ack
fin_received-PeerCloses closed = tt

fin_sent-WeClose : (s : State) → WeClose s (fin_sent s)
unfolding fin_sent
fin_sent-WeClose established = we_close
fin_sent-WeClose close_wait = we_close_last
fin_sent-WeClose fin_wait1 = no_close fin_wait1
fin_sent-WeClose fin_wait2 = no_close fin_wait2
fin_sent-WeClose closing = no_close closing
fin_sent-WeClose time_wait = no_close time_wait
fin_sent-WeClose last_ack = no_close last_ack
fin_sent-WeClose closed = no_close closed

-- What is left of a segment has the flags RST and ACK of the header, and a SYN only if that has one.
pub record IsPart (header : TcpHeader) (s : Segment) : Type 0 where
  pub rst : s.header.rst ≡ header.rst
  pub ack : s.header.ack ≡ header.ack
  pub syn : s.header.syn ≡ true → header.syn ≡ true

abbrev Part : TcpHeader → Checked → Type 0
Part header refused = Unit
Part header (accepted s) = IsPart header s

cut_front-IsPart :
    (header : TcpHeader) (n : ℕ) (s : Segment)
    → IsPart header s
    → Holds (IsPart header) (cut_front n s)
unfolding cut_front
cut_front-IsPart header n s p = Holds-if _ (ltb s.len n) none _ tt (
    Holds-bind _ (adjust (n - flag_len s.header.syn) s.data_bytes) _
      (λ b e. record { rst = p.rst; ack = p.ack; syn = λ q. cc }))

cut_back-IsPart :
    (header : TcpHeader) (n : ℕ) (s : Segment)
    → IsPart header s
    → Holds (IsPart header) (cut_back n s)
unfolding cut_back
cut_back-IsPart header n s p = Holds-if _ (ltb s.len n) none _ tt (
    Holds-bind _ (trim (n - flag_len s.header.fin) s.data_bytes) _
      (λ b e. record { rst = p.rst; ack = p.ack; syn = p.syn }))

check_front-Part :
    (header : TcpHeader) (next after : SeqNumber) (s : Segment)
    → IsPart header s
    → Holds (Part header) (check_front next after s)
unfolding check_front
check_front-Part header next after s p = Holds-if (Part header) (s.start == next) _ _ p (
    Holds-if (Part header) (lt s.start next) _ _
      (Holds-if (Part header) (lt s.end next) _ _ tt (
        Holds-bind (Part header) (cut_front (sub next s.start) s) _ (λ s' e.
          Holds-some (IsPart header) (cut_front (sub next s.start) s) s'
            (cut_front-IsPart header (sub next s.start) s p) e)))
      (Holds-if (Part header) (ge s.start after) _ _ tt p))

check_back-IsPart :
    (header : TcpHeader) (after : SeqNumber) (s : Segment)
    → IsPart header s
    → Holds (IsPart header) (check_back after s)
unfolding check_back
check_back-IsPart header after s p =
    Holds-if (IsPart header) (ltb 0 s.len && ge s.end after) _ _
      (cut_back-IsPart header (sub s.end after + 1) s p) p

check_segment-Part :
    (next after : SeqNumber) (header : TcpHeader) (buf : Buffer)
    → Holds (Part header) (check_segment next after (segment_of header buf))
unfolding check_segment segment_of
check_segment-Part next after header buf =
    let whole : IsPart header (segment_of header buf) = record {
      rst = refl;
      ack = refl;
      syn = λ q. q;
    } in
    Holds-bind (Part header) (check_front next after (segment_of header buf)) _ (λ c e. rest c (
      Holds-some (Part header) (check_front next after (segment_of header buf)) c
        (check_front-Part header next after (segment_of header buf) whole) e))
  where
    rest :
        (c : Checked)
        → Part header c
        → Holds (Part header) (elim c [
          | refused ↦ some refused
          | accepted s ↦ check_back after s >>= λ s'. assert_in_window next after s'
        ])
    rest refused p = tt
    rest (accepted s) p = Holds-bind (Part header) (check_back after s) _ (λ s' e.
        Holds-if (Part header) (le next s'.start && lt s'.end after) _ none
          (Holds-some (IsPart header) (check_back after s) s' (check_back-IsPart header after s p)
            e)
          tt)

store-state :
    (start end : SeqNumber) (buf : Buffer) (cb : ControlBlock)
    → Holds
        (λ (cb' : ControlBlock). cb'.state ≡ cb.state)
        (store_out_of_order_segment start end buf cb)
unfolding store_out_of_order_segment
store-state start end buf cb =
    Holds-bind _ (store_passes (length cb.out_of_order + 1) cb.out_of_order start end buf) _
      (λ q e. refl)

store_plain-state :
    (start end : SeqNumber) (len : ℕ) (buf : Buffer) (cb : ControlBlock)
    → Holds (λ (cb' : ControlBlock). cb'.state ≡ cb.state) (store_plain start end len buf cb)
unfolding store_plain
store_plain-state start end len buf cb =
    Holds-if _ (len == len32 buf) _ _
      (Holds-if _ (ltb 0 len) _ _ (store-state start end buf cb) refl) tt

store_segment-state :
    (s : Segment) (cb : ControlBlock)
    → Holds (λ (cb' : ControlBlock). cb'.state ≡ cb.state) (store_segment s cb)
unfolding store_segment store_out_of_order_fin
store_segment-state s cb =
    Holds-if _ s.header.fin _ _
      (store_plain-state s.start (sub s.end 1) (s.len - 1) s.data_bytes
        (store_out_of_order_fin s.end cb))
      (store_plain-state s.start s.end s.len s.data_bytes cb)

Holds-when {ℓ κ} :
    {A : Type ℓ} (P : A → Type κ) (b : Bool) (x y : Option A)
    → (b ≡ true → Holds P x)
    → (b ≡ false → Holds P y)
    → Holds P (if b then x else y)
Holds-when P true x y h g = h refl
Holds-when P false x y h g = g refl

not-false : (b : Bool) → not b ≡ false → b ≡ true
not-false true e = refl
not-false false e = cc

module _ (t : Timing) where
  abbrev pub In : (State → Type 0) → Connection t → Type 0
  In P c = P c.block.state

  after_emit-WeClose :
      (fin : Bool) (c : Connection t) → In (WeClose c.block.state) (after_emit t fin c)
  unfolding after_emit
  after_emit-WeClose true c = fin_sent-WeClose c.block.state
  after_emit-WeClose false c = no_close c.block.state

  pub emit-WeClose :
      (header : TcpHeader) (body : Option Buffer) (addr : MacAddress) (c : Connection t)
      → Holds (In (WeClose c.block.state)) (emit t header body addr c)
  unfolding emit
  emit-WeClose header body addr c =
      Holds-if _ header.ack _ none (after_emit-WeClose header.fin _) tt

  tcp_header-fin :
      (c : Connection t) → Holds (λ h. (h.fin ≡ false) × (h.ack ≡ true)) (tcp_header t c)
  unfolding tcp_header
  tcp_header-fin c = Holds-bind _ (hdr_window_size c.block) _ (λ w e. (refl, refl))

  pub after_emit-block :
      (fin : Bool) (c : Connection t) → fin ≡ false → (after_emit t fin c).block ≡ c.block
  unfolding after_emit
  after_emit-block true c e = cc
  after_emit-block false c e = refl

  -- An acknowledgement changes nothing of the block.
  pub send_ack-block :
      (link : Option MacAddress) (c : Connection t)
      → Holds (λ c'. c'.block ≡ c.block) (send_ack t link c)
  unfolding send_ack emit
  send_ack-block none c = Holds-bind _ (tcp_header t c) _ (λ h e. refl)
  send_ack-block (some addr) c = Holds-bind _ (tcp_header t c) _ (λ h e.
      Holds-if _ h.ack _ none
        (after_emit-block h.fin _ ((Holds-some _ (tcp_header t c) h (tcp_header-fin c) e).0)) tt)

  send_ack-In :
      (P : State → Type 0) (link : Option MacAddress) (c : Connection t)
      → In P c
      → Holds (In P) (send_ack t link c)
  send_ack-In P link c r =
      Holds-imp (λ c'. c'.block ≡ c.block) (In P) (send_ack t link c)
        (λ c' e. subst (λ (b : ControlBlock). P b.state) (sym e) r) (send_ack-block link c)

  acknowledged-Acked :
      (now : Instant) (header : TcpHeader) (c : Connection t)
      → Holds (In (Acked c.block.state)) (acknowledged t now header c)
  unfolding acknowledged
  acknowledged-Acked now header c =
      let P = In (Acked c.block.state) in
      Holds-bind P
        (remove_acknowledged_data (sub header.ack_num c.block.sender.send_unacked) now
          c.block.sender)
        _
        (λ x e.
          if_both P (header.ack_num == c.block.sender.send_next) _ _ (all_acked-Acked c.block.state)
            (no_ack c.block.state))

  process_ack-Acked :
      (link : Option MacAddress) (now : Instant) (header : TcpHeader) (c : Connection t)
      → Holds (λ r. In (Acked c.block.state) (r.1)) (process_ack t link now header c)
  unfolding process_ack
  process_ack-Acked link now header c =
      let s = c.block.state in
      let P = λ (x : Bool × Connection t). In (Acked s) (x.1) in
      let c' = note_ack t header c in
      Holds-if P (lt c.block.sender.send_unacked header.ack_num) _ _
        (Holds-if P (le header.ack_num c.block.sender.send_next) _ _
          (Holds-bind P (acknowledged t now header c') _ (λ d e.
            Holds-some (In (Acked s)) (acknowledged t now header c') d
              (acknowledged-Acked now header c') e))
          (Holds-bind P (send_ack t link c') _ (λ d e.
            Holds-some (In (Acked s)) (send_ack t link c') d
              (send_ack-In (Acked s) link c' (no_ack s)) e)))
        (no_ack s)

  out_of_order-In :
      (P : State → Type 0) (link : Option MacAddress) (seg : Segment) (c : Connection t)
      → In P c
      → Holds (In P) (out_of_order t link seg c)
  unfolding out_of_order
  out_of_order-In P link seg c r =
      Holds-if (In P) (ltb 0 seg.len && receives_data c.block.state) _ _
        (Holds-bind (In P) (store_segment seg c.block) _ (λ cb e. send_ack-In P link _ (
          subst P
            (sym (Holds-some _ (store_segment seg c.block) cb (store_segment-state seg c.block) e))
            r)))
        r

  receive_text-In :
      (P : State → Type 0) (seg : Segment) (buf : Buffer) (c : Connection t)
      → In P c
      → In P ((receive_text t seg buf c).1.1)
  unfolding receive_text receive_data
  receive_text-In P seg [] c r = r
  receive_text-In P seg (b ∷ buf) c r =
      if_both (λ (x : Bool × (Bool × Connection t)). In P (x.1.1)) (receives_data c.block.state) _ _
        r r

  -- After the acknowledgement the peer's FIN may follow.
  module _ (s : State) (link : Option MacAddress) (now : Instant) where
    still : (u : State) → Acked s u → Moved s u
    still u a = record { between = u; acked = a; closed_by_peer = no_fin u }

    process_fin-Moved :
        (c : Connection t) → In (Acked s) c → Holds (In (Moved s)) (process_fin t link c)
    unfolding process_fin
    process_fin-Moved c r = Holds-bind (In (Moved s)) (fin_received c.block.state) _ (λ u e.
        send_ack-In (Moved s) link _ (record {
          between = c.block.state;
          acked = r;
          closed_by_peer =
              Holds-some (PeerCloses c.block.state) (fin_received c.block.state) u
                (fin_received-PeerCloses c.block.state) e;
        }))

    schedule_ack-In :
        (P : State → Type 0) (c : Connection t) → In P c → Holds (In P) (schedule_ack t link now c)
    unfolding schedule_ack
    schedule_ack-In P c r =
        elim c.ack_deadline
          as (λ d. Holds (In P) (elim d [
            | none ↦ some (record c { ack_deadline = some (now + c.ack_delay_timeout) })
            | some d ↦ send_ack t link (record c { ack_deadline = none })
          ])) [ none ↦ r | some d ↦ send_ack-In P link _ r ]

    finish-Moved :
        (x : Bool × (Bool × Connection t))
        → In (Acked s) (x.1.1)
        → Holds (In (Moved s)) (finish t link now x)
    unfolding finish
    finish-Moved (true, (ack, c)) r = process_fin-Moved c r
    finish-Moved (false, (true, c)) r = schedule_ack-In (Moved s) c (still c.block.state r)
    finish-Moved (false, (false, c)) r = still c.block.state r

    continue-Moved :
        (n : SeqNumber) (seg : Segment) (x : Bool × Connection t)
        → In (Acked s) (x.1)
        → Holds (In (Moved s)) (continue t link now n seg x)
    unfolding continue process_segment process_text
    continue-Moved n seg (true, c) r =
        Holds-if (In (Moved s)) (seg.start == n) _ _
          (finish-Moved (process_text t seg c) (receive_text-In (Acked s) seg seg.data_bytes c r))
          (out_of_order-In (Moved s) link seg c (still c.block.state r))
    continue-Moved n seg (false, c) r = still c.block.state r

  module _ (link : Option MacAddress) (now : Instant) (header : TcpHeader) (c : Connection t) where
    abbrev After : Connection t → Type 0
    After = In (Received header c.block.state)

    taken_in :
        (n : SeqNumber) (seg : Segment)
        → header.ack ≡ true
        → Holds After (process_ack t link now seg.header c >>= continue t link now n seg)
    taken_in n seg a = Holds-bind After (process_ack t link now seg.header c) _ (λ x e.
        Holds-imp (In (Moved c.block.state)) After (continue t link now n seg x) (λ c' m. taken a m)
          (continue-Moved c.block.state link now n seg x (
            Holds-some _ (process_ack t link now seg.header c) x
              (process_ack-Acked link now seg.header c) e)))

    on_segment-Received :
        (n : SeqNumber) (seg : Segment)
        → IsPart header seg
        → Holds After (on_segment t link now n seg c)
    unfolding on_segment
    on_segment-Received n seg p =
        Holds-when After seg.header.rst _ _ (λ e. resets (inl (sym p.rst ∙ e)))
          (λ e.
            Holds-when After seg.header.syn _ _ (λ g. resets (inr (p.syn g)))
              (λ g.
                Holds-when After (not seg.header.ack) _ _ (λ a. ignored)
                  (λ a. taken_in n seg (sym p.ack ∙ not-false seg.header.ack a))))

    pub receive-Received : (buf : Buffer) → Holds After (receive t link now header buf c)
    unfolding receive
    receive-Received buf =
        let next = c.block.receiver.receive_next in
        let after = add next (get_receive_window_size c.block) in
        Holds-bind After (check_segment next after (segment_of header buf)) _ (λ x e. go x (
          Holds-some (Part header) (check_segment next after (segment_of header buf)) x
            (check_segment-Part next after header buf) e))
      where
        go :
            (x : Checked)
            → Part header x
            → Holds After (elim x [
              | refused ↦ if header.rst then some c else send_ack t link c
              | accepted seg ↦ on_segment t link now c.block.receiver.receive_next seg c
            ])
        go refused p =
            Holds-if After header.rst _ _ ignored
              (send_ack-In (Received header c.block.state) link c ignored)
        go (accepted seg) p = on_segment-Received c.block.receiver.receive_next seg p
