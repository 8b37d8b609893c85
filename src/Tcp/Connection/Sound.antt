-- ===== src/Tcp/Connection/Sound.antt =====
-- The retransmission queue and the sequence numbers of the sender belong together, and an
-- acknowledgement of what was sent is processed.
use capybara_artifact.Base.{
  ℕ, ◌-◌, ◌*◌, ◌/◌, ◌^◌, ◌≤◌, ◌<◌, ◌==◌, ◌≡◌, ◌≢◌, refl, ap, sym, subst, ◌∙◌, true, false, lt→ltb,
  Bool-cases, inl, inr, if_both, if_true, Gives, Gives-bind, Option, some, none, length,
  length-drop, IsU32, arith,
}
use native.Mathlib.Nat.{div-le_of_le-mul}
use capybara_artifact.Seq.{add, sub, lt, le}
use capybara_artifact.State.{Instant}
use capybara_artifact.Mig.Segment.{MacAddress}
use capybara_artifact.Tcp.Header.{TcpHeader}
use capybara_artifact.Tcp.Sender.{Sender}
use capybara_artifact.Tcp.Sender.Queues.{remove_acknowledged_data, update_send_window}
use capybara_artifact.Tcp.Sender.Queues.Acknowledged.{space, FinLast, remove-space}
use capybara_artifact.Tcp.ControlBlock.{ControlBlock, get_receive_window_size, hdr_window_size}
use capybara_artifact.Tcp.Connection.Defs.{Timing, Connection, tcp_header, emit, send_ack}
use capybara_artifact.Tcp.Connection.Stages.{after_emit-block}
use capybara_artifact.Tcp.Connection.Receive.{acknowledged, note_ack, process_ack}

-- What the retransmission queue covers is what was sent and is not acknowledged.
pub record IsSound (s : Sender) : Type 0 where
  pub fin_last : FinLast s.unacked_queue
  pub span : s.send_next ≡ add s.send_unacked (length (space s.unacked_queue))
  pub bounded : length (space s.unacked_queue) < 2 ^ 31
  pub word : IsU32 s.send_unacked

-- The window fits into a header.
abbrev pub WindowFits : ControlBlock → Type 0
WindowFits cb = get_receive_window_size cb ≤ 2 ^ cb.window_scale * 65535

acked_part :
    (una next ack len : ℕ)
    → next ≡ add una len
    → len < 2 ^ 31
    → IsU32 una
    → IsU32 ack
    → ack ≢ add una (2 ^ 31)
    → lt una ack ≡ true
    → le ack next ≡ true
    → (sub ack una ≤ len) × (next ≡ add ack (len - sub ack una))
unfolding lt le add sub
acked_part una next ack len e b u v w p q = ground arith

update-IsSound : (h : TcpHeader) (s : Sender) → IsSound s → IsSound (update_send_window h s)
unfolding update_send_window
update-IsSound h s v =
    if_both IsSound _ _ _
      (record { fin_last = v.fin_last; span = v.span; bounded = v.bounded; word = v.word }) v

hdr_window-Gives :
    (cb : ControlBlock) → WindowFits cb → Gives (λ w. w < 2 ^ 16) (hdr_window_size cb)
unfolding hdr_window_size
hdr_window-Gives cb h =
    let w = get_receive_window_size cb / 2 ^ cb.window_scale in
    let b : w ≤ 65535 = div-le_of_le-mul (2 ^ cb.window_scale) h in
    (w, rw (lt→ltb w (2 ^ 16) (omega arith)), omega arith)

module _ (t : Timing) where
  tcp_header-Gives :
      (c : Connection t)
      → WindowFits c.block
      → Gives (λ h. (h.fin ≡ false) × (h.ack ≡ true)) (tcp_header t c)
  unfolding tcp_header
  tcp_header-Gives c h =
      Gives-bind _ _ (hdr_window_size c.block) _ (hdr_window-Gives c.block h)
        (λ w b. (_, refl, (refl, refl)))

  emit-Gives :
      (h : TcpHeader) (addr : MacAddress) (c : Connection t)
      → h.fin ≡ false
      → h.ack ≡ true
      → Gives (λ c'. c'.block ≡ c.block) (emit t h none addr c)
  unfolding emit
  emit-Gives h addr c e a = (_, if_true h.ack _ _ a, after_emit-block t h.fin _ e)

  pub send_ack-Gives :
      (link : Option MacAddress) (c : Connection t)
      → WindowFits c.block
      → Gives (λ c'. c'.block ≡ c.block) (send_ack t link c)
  unfolding send_ack
  send_ack-Gives none c h =
      Gives-bind _ _ (tcp_header t c) _ (tcp_header-Gives c h) (λ x p. (c, refl, refl))
  send_ack-Gives (some addr) c h =
      Gives-bind _ _ (tcp_header t c) _ (tcp_header-Gives c h)
        (λ x p. emit-Gives (record x { seq_num = c.block.sender.send_next }) addr c p.0 p.1)

  -- What processing an acknowledgement may change of the block.
  pub record Acked (cb : ControlBlock) (c' : Connection t) : Type 0 where
    pub sound : IsSound c'.block.sender
    pub same : c'.block ≡ record cb { sender = c'.block.sender; state = c'.block.state }

  acknowledged-Acked :
      (now : Instant) (h : TcpHeader) (c : Connection t)
      → IsSound c.block.sender
      → IsU32 h.ack_num
      → h.ack_num ≢ add c.block.sender.send_unacked (2 ^ 31)
      → lt c.block.sender.send_unacked h.ack_num ≡ true
      → le h.ack_num c.block.sender.send_next ≡ true
      → Gives (Acked c.block) (acknowledged t now h c)
  unfolding acknowledged
  acknowledged-Acked now h c v u w p q =
      let s = c.block.sender in
      let n = sub h.ack_num s.send_unacked in
      let (b, e) =
        acked_part s.send_unacked s.send_next h.ack_num (length (space s.unacked_queue)) v.span
          v.bounded v.word u w p q in
      let (left, (samples, ((k, rest), fin))) = remove-space n now s v.fin_last b in
      let dropped = ap length rest ∙ length-drop n (space s.unacked_queue) in
      let s' = record s { unacked_queue = left; send_unacked = h.ack_num } in
      let sound : IsSound s' = record {
        fin_last = fin;
        span = e ∙ ap (add h.ack_num) (sym dropped);
        bounded = omega (arith, v.bounded);
        word = u;
      } in
      Gives-bind (λ x. IsSound (record (x.0) { send_unacked = h.ack_num })) (Acked c.block)
        (remove_acknowledged_data n now s) _ (_, k, sound)
        (λ x g.
          let g' = update-IsSound h (record (x.0) { send_unacked = h.ack_num }) g in
          (
            _,
            refl,
            if_both (Acked c.block) (h.ack_num == s.send_next) _ _
                (record { sound = g'; same = refl }) (record { sound = g'; same = refl }),
          ))

  -- The window does not depend on what an acknowledgement changes.
  Acked-WindowFits :
      (c c' : Connection t) → Acked c.block c' → WindowFits c.block → WindowFits c'.block
  unfolding get_receive_window_size
  Acked-WindowFits c c' a h = subst WindowFits (sym a.same) h

  -- An acknowledgement is processed: of what was sent, of what was acknowledged before, or of what
  -- was not sent.
  pub process_ack-Acked :
      (link : Option MacAddress) (now : Instant) (h : TcpHeader) (c : Connection t)
      → IsSound c.block.sender
      → WindowFits c.block
      → IsU32 h.ack_num
      → h.ack_num ≢ add c.block.sender.send_unacked (2 ^ 31)
      → Gives (λ r. Acked c.block (r.1)) (process_ack t link now h c)
  unfolding process_ack
  process_ack-Acked link now h c v f u w =
      let s = c.block.sender in
      elim (Bool-cases (lt s.send_unacked h.ack_num)) [
        | inl p ↦ elim (Bool-cases (le h.ack_num s.send_next)) [
          | inl q ↦
              rw (p, q)
                (Gives-bind (Acked c.block) (λ r. Acked c.block (r.1))
                  (acknowledged t now h (note_ack t h c)) _
                  (acknowledged-Acked now h (note_ack t h c) v u w p q) (λ c' a. (_, refl, a)))
          | inr q ↦
              rw (p, q)
                (Gives-bind (λ c'. c'.block ≡ c.block) (λ r. Acked c.block (r.1))
                  (send_ack t link (note_ack t h c)) _ (send_ack-Gives link (note_ack t h c) f)
                  (λ c' e. (_, refl, unchanged c c' v e)))
        ]
        | inr p ↦ rw p (_, refl, unchanged c (note_ack t h c) v refl)
      ]
    where
      unchanged :
          (c c' : Connection t) → IsSound c.block.sender → c'.block ≡ c.block → Acked c.block c'
      unchanged c c' v e = record {
        sound = subst (λ (b : ControlBlock). IsSound b.sender) (sym e) v;
        same =
            e
            ∙ ap (λ (b : ControlBlock). record (c.block) { sender = b.sender; state = b.state })
                (sym e);
      }
