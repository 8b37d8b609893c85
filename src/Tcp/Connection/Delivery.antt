-- ===== src/Tcp/Connection/Delivery.antt =====
-- Data in its place reaches the application.
use capybara_artifact.Base.{
  ℕ, ◌+◌, ◌-◌, ◌^◌, ◌≤◌, ◌<◌, ◌==◌, ◌≡◌, ◌≢◌, refl, ap, ap₂, sym, subst, ◌∙◌, Bool, true, false,
  not, ◌&&◌, ltb, leb, inl, inr, if◌then◌else◌, if_both, if_true, if_false, ==_refl, Holds,
  Holds-bind, Holds-if, Holds-some, Gives, Gives-bind, Gives-imp, Gives-and, Option, some, [], ◌∷◌,
  length, IsU32, arith,
}
use native.Mathlib.Nat.{le_trans}
use capybara_artifact.Seq.{add, sub, lt, le}
use capybara_artifact.State.{Buffer, Instant}
use capybara_artifact.Mig.Segment.{MacAddress}
use capybara_artifact.Tcp.Header.{TcpHeader}
use capybara_artifact.Tcp.Sender.Queues.{remove_acknowledged_data}
use capybara_artifact.Tcp.ControlBlock.{
  State, established, fin_wait1, fin_wait2, closing, time_wait, close_wait, last_ack, closed,
  ControlBlock, receive_data,
}
use capybara_artifact.Tcp.ControlBlock.Stream.{slice, length-slice}
use capybara_artifact.Tcp.Acceptance.{
  flag_len, Segment, segment_of, Checked, accepted, check_segment,
}
use capybara_artifact.Tcp.Acceptance.Window.{Carries, segment_of-Carries, check-InWindow}
use capybara_artifact.Tcp.Connection.Defs.{Timing, Connection}
use capybara_artifact.Tcp.Connection.Receive.{
  all_acked, receives_data, acknowledged, note_ack, process_ack, receive_text, process_text,
  schedule_ack, finish, process_segment, continue, on_segment, receive,
}
use capybara_artifact.Tcp.Connection.Sound.{Acked, process_ack-Acked}
use capybara_artifact.Tcp.Connection.Stream.{
  Healthy, After, Healthy-WindowFits, window_end, with_sender, receive_data-Healthy,
  schedule_ack-Gives,
}

receives_data-all_acked : (s : State) → receives_data s ≡ true → receives_data (all_acked s) ≡ true
unfolding all_acked
receives_data-all_acked established e = refl
receives_data-all_acked fin_wait1 e = refl
receives_data-all_acked fin_wait2 e = refl
receives_data-all_acked closing e = cc
receives_data-all_acked time_wait e = cc
receives_data-all_acked close_wait e = cc
receives_data-all_acked last_ack e = cc
receives_data-all_acked closed e = cc

module _ (t : Timing) where
  abbrev Open : Connection t → Type 0
  Open c = receives_data c.block.state ≡ true

  acknowledged-Open :
      (now : Instant) (h : TcpHeader) (c : Connection t)
      → Open c
      → Holds Open (acknowledged t now h c)
  unfolding acknowledged
  acknowledged-Open now h c o =
      Holds-bind Open
        (remove_acknowledged_data (sub h.ack_num c.block.sender.send_unacked) now c.block.sender) _
        (λ x e.
          if_both Open (h.ack_num == c.block.sender.send_next) _ _
            (receives_data-all_acked c.block.state o) o)

  abbrev GoesOn : Bool × Connection t → Type 0
  GoesOn r = (r.0 ≡ true) × Open (r.1)

  process_ack-GoesOn :
      (link : Option MacAddress) (now : Instant) (h : TcpHeader) (c : Connection t)
      → Open c
      → le h.ack_num c.block.sender.send_next ≡ true
      → Holds GoesOn (process_ack t link now h c)
  unfolding process_ack
  process_ack-GoesOn link now h c o e =
      Holds-if GoesOn (lt c.block.sender.send_unacked h.ack_num) _ _
        (subst (Holds GoesOn) (sym (if_true (le h.ack_num c.block.sender.send_next) _ _ e)) (
          Holds-bind GoesOn (acknowledged t now h (note_ack t h c)) _ (λ c' q. (
            refl,
            Holds-some Open (acknowledged t now h (note_ack t h c)) c'
                (acknowledged-Open now h (note_ack t h c) o) q,
          ))))
        (refl, o)

module _ (f : ℕ → ℕ) (base lo m : ℕ) (t : Timing) where
  text-delivers :
      (link : Option MacAddress) (now : Instant) (k held : ℕ) (s : Segment) (buf : Buffer)
      (c : Connection t)
      → Healthy f base lo m k c.block
      → receives_data c.block.state ≡ true
      → s.header.fin ≡ false
      → buf ≡ slice f (m + k) held
      → m + k + held ≤ m + c.block.receive_buffer_size
      → Gives
          (λ c'. After f base lo m (k + held) c'.block)
          (finish t link now (receive_text t s buf c))
  unfolding receive_text finish
  text-delivers link now k held s [] c v o e b h =
      let n : 0 ≡ held = ap length b ∙ length-slice f (m + k) held in
      rw e (_, refl, (k, omega arith, v))
  text-delivers link now k held s (x ∷ buf) c v o e b h =
      let n : length (x ∷ buf) ≡ held = ap length b ∙ length-slice f (m + k) held in
      let (d, (k', g, v')) =
        receive_data-Healthy f base lo m k s.start (x ∷ buf) c.block v
          (b ∙ ap (slice f (m + k)) (sym n)) (omega arith) in
      let c' = record c { block = (receive_data s.start (x ∷ buf) c.block).1 } in
      rw (o, e, d)
        (Gives-imp (λ c''. c''.block ≡ c'.block) _ (schedule_ack t link now c')
          (λ c'' q. (k', omega arith, subst (Healthy f base lo m k') (sym q) v'))
          (schedule_ack-Gives f base lo m t link now c'
            (Healthy-WindowFits f base lo m k' c'.block v')))

  on_segment-delivers :
      (link : Option MacAddress) (now : Instant) (k held : ℕ) (s : Segment) (c : Connection t)
      → Healthy f base lo m k c.block
      → receives_data c.block.state ≡ true
      → Carries f base (m + k) held s
      → m + k + held ≤ m + c.block.receive_buffer_size
      → s.header.fin ≡ false
      → s.header.rst ≡ false
      → s.header.ack ≡ true
      → IsU32 s.header.ack_num
      → s.header.ack_num ≢ add c.block.sender.send_unacked (2 ^ 31)
      → le s.header.ack_num c.block.sender.send_next ≡ true
      → Gives
          (λ c'. After f base lo m (k + held) c'.block)
          (on_segment t link now c.block.receiver.receive_next s c)
  unfolding on_segment continue process_segment process_text
  on_segment-delivers link now k held s c v o y h e r a u w l =
      let P = λ (c' : Connection t). After f base lo m (k + held) c'.block in
      let chosen =
        if_false s.header.rst _ _ r
        ∙ if_false s.header.syn _ _ y.syn
        ∙ if_false (not s.header.ack) _ _ (ap not a) in
      subst (Gives P) (sym chosen) (
        Gives-bind (λ x. Acked t c.block (x.1) × GoesOn t x) P (process_ack t link now s.header c) _
          (Gives-and _ (GoesOn t) (process_ack t link now s.header c)
            (process_ack-Acked t link now s.header c v.sound
              (Healthy-WindowFits f base lo m k c.block v) u w)
            (process_ack-GoesOn t link now s.header c o l))
          go)
    where
      go :
          (x : Bool × Connection t)
          → Acked t c.block (x.1) × GoesOn t x
          → Gives
              (λ c'. After f base lo m (k + held) c'.block)
              (continue t link now c.block.receiver.receive_next s x)
      go (false, c') (g, (q, x)) = cc
      go (true, c') (g, (q, x)) =
          let next = ap₂ ◌==◌ y.start v.reads.receiver.next ∙ ==_refl (add base (m + k)) in
          let size = ap (λ (b : ControlBlock). b.receive_buffer_size) g.same in
          subst (Gives (λ (c' : Connection t). After f base lo m (k + held) c'.block))
            (sym (if_true (s.start == c.block.receiver.receive_next) _ _ next))
            (text-delivers link now k held s s.data_bytes c'
              (subst (Healthy f base lo m k) (sym g.same)
                (with_sender f base lo m k c.block c'.block.sender c'.block.state v g.sound))
              x e y.bytes (omega (arith, size)))

  -- What the segment completes, up to the end of the receive window: the position that is read last.
  abbrev pub reached : ℕ → ℕ → ℕ → ℕ
  reached p n size = if ltb (m + size) (p + n) then size else p + n - m

  -- Data that is new and in its place is not put off. Take a connection that holds the peer's
  -- stream, with room in its receive buffer, no FIN seen and a sound sender, in a state that
  -- receives data, and a segment of the stream within 2 ^ 31 of what is kept, which begins at or
  -- before the next expected position and goes beyond it, without SYN, FIN and RST and with an
  -- acknowledgement of nothing that was not sent, nor of the place exactly 2 ^ 31 ahead.
  -- Receiving it does not panic, everything up to the segment's end or the window's can be read
  -- afterwards, and the connection still holds the stream.
  pub receive-delivers :
      (link : Option MacAddress) (now : Instant) (k p n : ℕ) (header : TcpHeader) (c : Connection t)
      → Healthy f base lo m k c.block
      → receives_data c.block.state ≡ true
      → header.seq_num ≡ add base p
      → header.syn ≡ false
      → header.fin ≡ false
      → header.rst ≡ false
      → header.ack ≡ true
      → IsU32 header.ack_num
      → header.ack_num ≢ add c.block.sender.send_unacked (2 ^ 31)
      → le header.ack_num c.block.sender.send_next ≡ true
      → lo ≤ p
      → p ≤ m + k
      → m + k < p + n
      → p + n < lo + 2 ^ 31
      → k < c.block.receive_buffer_size
      → Gives
          (λ c'. After f base lo m (reached p n c.block.receive_buffer_size) c'.block)
          (receive t link now header (slice f p n) c)
  unfolding receive segment_of
  receive-delivers link now k p n header c v o e y z r g u w l a b b' d d' =
      let s = segment_of header (slice f p n) in
      let carries = segment_of-Carries f base p n header e y (omega arith) in
      let flag : flag_len header.fin ≡ 0 = ap flag_len z in
      let len : s.len ≡ n = omega (arith, carries.len) in
      let high : m + k ≤ m + c.block.receive_buffer_size = v.reads.high in
      let test =
        λ (r : Checked)
            (q : check_segment (add base (m + k)) (add base (m + c.block.receive_buffer_size)) s
              ≡ some r).
          ap₂ (λ x y. check_segment x y s) v.reads.receiver.next
            (window_end f base lo m k c.block v)
          ∙ q in
      elim (check-InWindow f base lo (lo + 2 ^ 31 - 1) (omega arith) p n (m + k)
        (m + c.block.receive_buffer_size) s carries a (omega arith) (omega (arith, v.reads.low))
        (omega arith) (omega (arith, v.near))) [
          | inl (q, inl x) ↦ absurd (omega arith)
          | inl (q, inr (x, x')) ↦ absurd (omega arith)
          | inr (s', q, i) ↦
              let at : i.pos ≡ m + k = ground (arith, i.first) in
              let h' : s'.header.fin ≡ false =
                ap (λ (h : TcpHeader). h.fin) i.same
                ∙ ap (λ b. b && leb (p + s.len) (m + c.block.receive_buffer_size)) z in
              let flag' : flag_len s'.header.fin ≡ 0 = ap flag_len h' in
              let held : s'.len ≡ i.held = omega (arith, i.carries.len) in
              let enough : reached p n c.block.receive_buffer_size ≤ k + i.held =
                ground (arith, i.last) in
              rw (test (accepted s') q) (
                Gives-imp (λ c'. After f base lo m (k + i.held) c'.block)
                  (λ c'. After f base lo m (reached p n c.block.receive_buffer_size) c'.block) _
                  (λ c' (k', h'', x). (k', le_trans enough h'', x))
                  (on_segment-delivers link now k i.held s' c v o
                    (subst (λ x. Carries f base x i.held s') at i.carries) (ground (arith, i.last))
                    h' (ap (λ (h : TcpHeader). h.rst) i.same ∙ r)
                    (ap (λ (h : TcpHeader). h.ack) i.same ∙ g)
                    (subst IsU32 (sym (ap (λ (h : TcpHeader). h.ack_num) i.same)) u)
                    (λ q. w (sym (ap (λ (h : TcpHeader). h.ack_num) i.same) ∙ q))
                    (ap (λ (h : TcpHeader). le h.ack_num c.block.sender.send_next) i.same ∙ l)))
        ]
