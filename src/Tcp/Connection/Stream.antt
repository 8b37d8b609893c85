-- ===== src/Tcp/Connection/Stream.antt =====
-- The connection as a whole keeps the peer's stream: `receive` never panics on segments of it, and
-- what can be read stays the stream, whatever arrives, in whatever order.
use capybara_artifact.Base.{
  ℕ, ◌+◌, ◌-◌, ◌*◌, ◌^◌, ◌≤◌, ◌<◌, ◌==◌, ◌≡◌, ◌≢◌, refl, ap, ap₂, sym, subst, ◌∙◌, Bool, true,
  false, not, ◌&&◌, ltb, leb, Bool-cases, Option-cases, lt→ltb, ltb→lt, inl, inr, if_both, if_true,
  if_false, and_left, ==_iff, Gives, Gives-when, Gives-bind, Gives-if, Gives-imp, Option, some,
  none, List, [], ◌∷◌, length, All, IsU32, arith,
}
use capybara_artifact.Seq.{SeqNumber, add, sub}
use capybara_artifact.Seq.Positions.{sub_positions, add_position, equal_positions}
use capybara_artifact.State.{Buffer, Instant}
use capybara_artifact.Mig.Segment.{MacAddress}
use capybara_artifact.Tcp.Header.{TcpHeader}
use capybara_artifact.Tcp.Sender.{Sender}
use capybara_artifact.Tcp.ControlBlock.{
  State, closed, Receiver, ControlBlock, len32, recover, push, receive_data,
  get_receive_window_size, fin_reached,
}
use capybara_artifact.Tcp.ControlBlock.Stream.{slice, length-slice, StoredAt}
use capybara_artifact.Tcp.ControlBlock.InOrder.{Reads, receive_data-Reads}
use capybara_artifact.Tcp.ControlBlock.Stored.{store-Reads}
use capybara_artifact.Tcp.ControlBlock.Total.{Filled, Fresh, store-total}
use capybara_artifact.Tcp.Acceptance.{
  flag_len, Segment, segment_of, Checked, refused, accepted, check_segment,
}
use capybara_artifact.Tcp.Acceptance.Window.{Carries, segment_of-Carries, InWindow, check-InWindow}
use capybara_artifact.Tcp.Connection.Defs.{Timing, Connection, send_ack}
use capybara_artifact.Tcp.Connection.Receive.{
  receives_data, process_ack, store_plain, store_segment, out_of_order, receive_text, process_text,
  schedule_ack, finish, process_segment, continue, on_segment, receive,
}
use capybara_artifact.Tcp.Connection.Sound.{
  IsSound, WindowFits, send_ack-Gives, Acked, process_ack-Acked,
}

-- `m` bytes of the stream were read and `k` more can be, of a buffer that ends at the window's end;
-- the peer's FIN has not been seen.
pub record Healthy (f : ℕ → ℕ) (base lo m k : ℕ) (cb : ControlBlock) : Type 0 where
  pub reads : Reads f base lo (m + cb.receive_buffer_size) m k cb
  pub stored : All (Filled f base lo (m + cb.receive_buffer_size)) cb.out_of_order
  pub no_fin : cb.out_of_order_fin ≡ none
  pub scaled : cb.receive_buffer_size ≤ 2 ^ cb.window_scale * 65535
  pub near : m + cb.receive_buffer_size < lo + 2 ^ 31
  pub sound : IsSound cb.sender

module _ (f : ℕ → ℕ) (base lo m : ℕ) where
  window_size :
      (k : ℕ) (cb : ControlBlock)
      → Healthy f base lo m k cb
      → get_receive_window_size cb ≡ cb.receive_buffer_size - k
  unfolding get_receive_window_size
  window_size k cb v =
      let e = ap₂ sub v.reads.receiver.next v.reads.receiver.reader in
      let h : m + k ≤ m + cb.receive_buffer_size = v.reads.high in
      let l : lo ≤ m = v.reads.low in
      let d = sub_positions base m (m + k) (omega arith) (omega (arith, v.near)) in
      rw (e, d) (omega (arith, v.near))

  pub Healthy-WindowFits : (k : ℕ) (cb : ControlBlock) → Healthy f base lo m k cb → WindowFits cb
  Healthy-WindowFits k cb v = rw (window_size k cb v) (omega (arith, v.scaled))

  -- The receive window's end.
  pub window_end :
      (k : ℕ) (cb : ControlBlock)
      → Healthy f base lo m k cb
      → add cb.receiver.receive_next (get_receive_window_size cb)
        ≡ add base (m + cb.receive_buffer_size)
  window_end k cb v =
      let h : m + k ≤ m + cb.receive_buffer_size = v.reads.high in
      ap₂ add v.reads.receiver.next (window_size k cb v)
      ∙ add_position base (m + k) (cb.receive_buffer_size - k)
      ∙ ap (add base) (omega arith)

  pub with_sender :
      (k : ℕ) (cb : ControlBlock) (s : Sender) (st : State)
      → Healthy f base lo m k cb
      → IsSound s
      → Healthy f base lo m k (record cb { sender = s; state = st })
  with_sender k cb s st v i = record {
    reads = record {
      receiver = v.reads.receiver;
      stored = v.reads.stored;
      low = v.reads.low;
      high = v.reads.high;
    };
    stored = v.stored;
    no_fin = v.no_fin;
    scaled = v.scaled;
    near = v.near;
    sound = i;
  }

  recover-All {κ} :
      (P : SeqNumber × Buffer → Type κ) (next : SeqNumber) (q : List (SeqNumber × Buffer))
      (r : Receiver)
      → All P q
      → All P ((recover next q r).1.0)
  unfolding recover
  recover-All P next [] r a = tt
  recover-All P next ((s, b) ∷ q) r (p, a) =
      if_both (λ (x : SeqNumber × (List (SeqNumber × Buffer) × Receiver)). All P (x.1.0))
        (s == next) _ _ (recover-All P (add next (len32 b)) q (push b r) a) (p, a)

  no_fin_reached :
      (b : Bool) (o : Option SeqNumber) (n : SeqNumber) → o ≡ none → fin_reached b o n ≡ false
  no_fin_reached false o n e = refl
  no_fin_reached true none n e = refl
  no_fin_reached true (some x) n e = cc

  -- Data in order.
  pub receive_data-Healthy :
      (k seg_start : ℕ) (buf : Buffer) (cb : ControlBlock)
      → Healthy f base lo m k cb
      → buf ≡ slice f (m + k) (length buf)
      → m + k + length buf ≤ m + cb.receive_buffer_size
      → ((receive_data seg_start buf cb).0 ≡ false)
        × ((k' : ℕ) × (k + length buf ≤ k')
            × Healthy f base lo m k' ((receive_data seg_start buf cb).1))
  unfolding receive_data
  receive_data-Healthy k seg_start buf cb v e h =
      let (k', g, r) =
        receive_data-Reads f base lo (m + cb.receive_buffer_size) m k seg_start buf cb v.reads e h
          (omega (arith, v.near)) in
      (
        no_fin_reached _ cb.out_of_order_fin _ v.no_fin,
        (
          k',
          omega (arith, g.bytes),
          record {
            reads = r;
            stored =
                recover-All (Filled f base lo (m + cb.receive_buffer_size))
                  (add cb.receiver.receive_next (len32 buf)) cb.out_of_order (push buf cb.receiver)
                  v.stored;
            no_fin = v.no_fin;
            scaled = v.scaled;
            near = v.near;
            sound = v.sound;
          },
        ),
      )

  -- Data out of order.
  store_segment-Healthy :
      (k pos held : ℕ) (s : Segment) (cb : ControlBlock)
      → Healthy f base lo m k cb
      → Carries f base pos held s
      → s.header.fin ≡ false
      → 0 < s.len
      → lo ≤ pos
      → pos + s.len ≤ m + cb.receive_buffer_size
      → Gives (Healthy f base lo m k) (store_segment s cb)
  unfolding store_segment store_plain
  store_segment-Healthy k pos held s cb v c e z a b =
      let hi = m + cb.receive_buffer_size in
      let flag : flag_len s.header.fin ≡ 0 = ap flag_len e in
      let l : s.len ≡ held = omega (arith, c.len) in
      let n : length s.data_bytes ≡ held = ap length c.bytes ∙ length-slice f pos held in
      let at : StoredAt f base lo hi (s.start, s.data_bytes) = record {
        pos = pos;
        start = c.start;
        bytes = c.bytes ∙ ap (slice f pos) (sym n);
        above = a;
        below = omega arith;
      } in
      let fresh : Fresh f base lo hi s.start s.end s.data_bytes = record {
        at = at;
        filled = omega arith;
        last = c.end ∙ ap (add base) (omega arith);
      } in
      let (q, x, g) =
        store-total f base lo hi s.start s.end s.data_bytes cb v.near v.stored fresh in
      let w : (s.len == len32 s.data_bytes) ≡ true = ground (arith, v.near) in
      let p : ltb 0 s.len ≡ true = lt→ltb 0 s.len z in
      let cb' = record cb { out_of_order = q } in
      (
        cb',
        if_false s.header.fin _ _ e
            ∙ if_true (s.len == len32 s.data_bytes) _ _ w
            ∙ if_true (ltb 0 s.len) _ _ p
            ∙ x,
        record {
          reads = store-Reads f base lo hi m k s.start s.end s.data_bytes cb cb' v.reads at x;
          stored = g;
          no_fin = v.no_fin;
          scaled = v.scaled;
          near = v.near;
          sound = v.sound;
        },
      )

  pub schedule_ack-Gives :
      (t : Timing) (link : Option MacAddress) (now : Instant) (c : Connection t)
      → WindowFits c.block
      → Gives (λ c'. c'.block ≡ c.block) (schedule_ack t link now c)
  unfolding schedule_ack
  schedule_ack-Gives t link now c h = elim (Option-cases c.ack_deadline) [
    | inl e ↦ rw e (_, refl, refl)
    | inr (d, e) ↦ rw e (send_ack-Gives t link (record c { ack_deadline = none }) h)
  ]

  receive_text-Healthy :
      (t : Timing) (link : Option MacAddress) (now : Instant) (k held : ℕ) (s : Segment)
      (buf : Buffer) (c : Connection t)
      → Healthy f base lo m k c.block
      → s.header.fin ≡ false
      → buf ≡ slice f (m + k) held
      → m + k + held ≤ m + c.block.receive_buffer_size
      → Gives
          (λ c'. (k' : ℕ) × (k ≤ k') × Healthy f base lo m k' c'.block)
          (finish t link now (receive_text t s buf c))
  unfolding receive_text finish
  receive_text-Healthy t link now k held s [] c v e b h = rw e (_, refl, (k, omega arith, v))
  receive_text-Healthy t link now k held s (x ∷ buf) c v e b h =
      let n : length (x ∷ buf) ≡ held = ap length b ∙ length-slice f (m + k) held in
      elim (Bool-cases (receives_data c.block.state)) [
        | inl p ↦
            let (d, (k', g, v')) =
              receive_data-Healthy k s.start (x ∷ buf) c.block v (b ∙ ap (slice f (m + k)) (sym n))
                (omega arith) in
            let c' = record c { block = (receive_data s.start (x ∷ buf) c.block).1 } in
            rw (p, e, d)
              (Gives-imp (λ c''. c''.block ≡ c'.block) _ (schedule_ack t link now c')
                (λ c'' q. (k', omega arith, subst (Healthy f base lo m k') (sym q) v'))
                (schedule_ack-Gives t link now c' (Healthy-WindowFits k' c'.block v')))
        | inr p ↦ rw (p, e) (_, refl, (k, omega arith, v))
      ]

  -- What a step of `receive` leaves: a healthy block, with at least as much to read.
  abbrev pub After : ℕ → ControlBlock → Type 0
  After k cb = (k' : ℕ) × (k ≤ k') × Healthy f base lo m k' cb

  module _ (t : Timing) where
    abbrev Leaves : ℕ → Connection t → Type 0
    Leaves k c = After k c.block

    out_of_order-After :
        (link : Option MacAddress) (k pos held : ℕ) (s : Segment) (c : Connection t)
        → Healthy f base lo m k c.block
        → Carries f base pos held s
        → s.header.fin ≡ false
        → lo ≤ pos
        → pos + s.len ≤ m + c.block.receive_buffer_size
        → Gives (Leaves k) (out_of_order t link s c)
    unfolding out_of_order
    out_of_order-After link k pos held s c v y e a b =
        Gives-when (Leaves k) (ltb 0 s.len && receives_data c.block.state) _ _
          (λ p.
            Gives-bind (Healthy f base lo m k) (Leaves k) (store_segment s c.block) _
              (store_segment-Healthy k pos held s c.block v y e
                (ltb→lt 0 s.len (and_left (ltb 0 s.len) (receives_data c.block.state) p)) a b)
              (λ cb v'.
                Gives-imp _ (Leaves k) (send_ack t link (record c { block = cb }))
                  (λ c' q. (k, omega arith, subst (Healthy f base lo m k) (sym q) v'))
                  (send_ack-Gives t link (record c { block = cb }) (Healthy-WindowFits k cb v'))))
          (λ p. (c, refl, (k, omega arith, v)))

    -- A segment in its place goes to the application, any other part of the window to the store.
    pub process_segment-After :
        (link : Option MacAddress) (now : Instant) (next : SeqNumber) (k pos held : ℕ) (s : Segment)
        (c : Connection t)
        → Healthy f base lo m k c.block
        → next ≡ add base (m + k)
        → Carries f base pos held s
        → s.header.fin ≡ false
        → lo ≤ pos
        → pos + s.len ≤ m + c.block.receive_buffer_size
        → Gives (Leaves k) (process_segment t link now next s c)
    unfolding process_segment process_text
    process_segment-After link now next k pos held s c v n y e a b =
        let low : lo ≤ m = v.reads.low in
        let high : m + k ≤ m + c.block.receive_buffer_size = v.reads.high in
        let flag : flag_len s.header.fin ≡ 0 = ap flag_len e in
        let l : s.len ≡ held = omega (arith, y.len) in
        let same =
          ap₂ ◌==◌ y.start n
          ∙ equal_positions base lo (m + c.block.receive_buffer_size) pos (m + k) a (omega arith)
              (omega arith) high v.near in
        Gives-when (Leaves k) (s.start == next) _ _
          (λ q.
            let at : pos ≡ m + k = (==_iff pos (m + k)).0 (sym same ∙ q) in
            receive_text-Healthy t link now k held s s.data_bytes c v e
              (y.bytes ∙ ap (λ x. slice f x held) at) (omega arith))
          (λ q. out_of_order-After link k pos held s c v y e a b)

    on_segment-After :
        (link : Option MacAddress) (now : Instant) (k p : ℕ) (s s' : Segment) (c : Connection t)
        → Healthy f base lo m k c.block
        → InWindow f base p (m + k) (m + c.block.receive_buffer_size) s s'
        → s.header.fin ≡ false
        → IsU32 s.header.ack_num
        → s.header.ack_num ≢ add c.block.sender.send_unacked (2 ^ 31)
        → Gives (Leaves k) (on_segment t link now c.block.receiver.receive_next s' c)
    unfolding on_segment continue
    on_segment-After link now k p s s' c v i e u w =
        Gives-if (Leaves k) s'.header.rst _ _
          (_, refl, (k, omega arith, with_sender k c.block c.block.sender closed v v.sound))
          (Gives-if (Leaves k) s'.header.syn _ _
            (_, refl, (k, omega arith, with_sender k c.block c.block.sender closed v v.sound))
            (Gives-if (Leaves k) (not s'.header.ack) _ _ (c, refl, (k, omega arith, v))
              (Gives-bind (λ r. Acked t c.block (r.1)) (Leaves k)
                (process_ack t link now s'.header c) _
                (process_ack-Acked t link now s'.header c v.sound (Healthy-WindowFits k c.block v)
                  (subst IsU32 (sym ack) u) (λ q. w (sym ack ∙ q)))
                go)))
      where
        ack : s'.header.ack_num ≡ s.header.ack_num
        ack = ap (λ (h : TcpHeader). h.ack_num) i.same

        no_fin : s'.header.fin ≡ false
        no_fin =
            ap (λ (h : TcpHeader). h.fin) i.same
            ∙ ap (λ b. b && leb (p + s.len) (m + c.block.receive_buffer_size)) e

        go :
            (r : Bool × Connection t)
            → Acked t c.block (r.1)
            → Gives (Leaves k) (continue t link now c.block.receiver.receive_next s' r)
        go (false, c') a = (
          c',
          refl,
          (
            k,
            omega arith,
            subst (Healthy f base lo m k) (sym a.same)
                (with_sender k c.block c'.block.sender c'.block.state v a.sound),
          ),
        )
        go (true, c') a =
            let size = ap (λ (b : ControlBlock). b.receive_buffer_size) a.same in
            let low : lo ≤ m = v.reads.low in
            let from : m + k ≤ i.pos = ground (arith, i.first) in
            let upto : i.pos + s'.len ≤ m + c'.block.receive_buffer_size =
              ground (arith, i.last, size) in
            process_segment-After link now c.block.receiver.receive_next k i.pos i.held s' c'
              (subst (Healthy f base lo m k) (sym a.same)
                (with_sender k c.block c'.block.sender c'.block.state v a.sound))
              v.reads.receiver.next i.carries no_fin (omega arith) upto

    -- A connection that holds the peer's stream receives a segment of it that has no SYN and no FIN,
    -- wherever the segment lies (within 2 ^ 31 of what is expected) and whatever else it says, while
    -- there is room in the receive buffer and the acknowledgement is not exactly 2 ^ 31 ahead: there
    -- is no panic and no failed assertion, nothing that could be read is lost, what can be read
    -- afterwards is still the stream, and the queues and sequence numbers of both directions still
    -- belong together.
    pub receive-Healthy :
        (link : Option MacAddress) (now : Instant) (k p n : ℕ) (header : TcpHeader)
        (c : Connection t)
        → Healthy f base lo m k c.block
        → header.seq_num ≡ add base p
        → header.syn ≡ false
        → header.fin ≡ false
        → IsU32 header.ack_num
        → header.ack_num ≢ add c.block.sender.send_unacked (2 ^ 31)
        → lo ≤ p
        → p + n < lo + 2 ^ 31
        → k < c.block.receive_buffer_size
        → Gives (λ c'. After k c'.block) (receive t link now header (slice f p n) c)
    unfolding receive segment_of
    receive-Healthy link now k p n header c v e y z u w a b d =
        let s = segment_of header (slice f p n) in
        let carries = segment_of-Carries f base p n header e y (omega arith) in
        let flag : flag_len header.fin ≡ 0 = ap flag_len z in
        let len : s.len ≡ n = omega (arith, carries.len) in
        let high : m + k ≤ m + c.block.receive_buffer_size = v.reads.high in
        let test =
          λ (r : Checked)
              (q : check_segment (add base (m + k)) (add base (m + c.block.receive_buffer_size)) s
                ≡ some r).
            ap₂ (λ x y. check_segment x y s) v.reads.receiver.next (window_end k c.block v) ∙ q in
        elim (check-InWindow f base lo (lo + 2 ^ 31 - 1) (omega arith) p n (m + k)
          (m + c.block.receive_buffer_size) s carries a (omega arith) (omega (arith, v.reads.low))
          (omega arith) (omega (arith, v.near))) [
            | inl (q, o) ↦ rw (test refused q) (
                Gives-if (Leaves k) header.rst _ _ (c, refl, (k, omega arith, v))
                  (Gives-imp _ (Leaves k) (send_ack t link c)
                    (λ c' e. (k, omega arith, subst (Healthy f base lo m k) (sym e) v))
                    (send_ack-Gives t link c (Healthy-WindowFits k c.block v))))
            | inr (s', q, i) ↦
                rw (test (accepted s') q) (on_segment-After link now k p s s' c v i z u w)
          ]
