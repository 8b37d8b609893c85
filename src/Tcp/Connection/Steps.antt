-- ===== src/Tcp/Connection/Steps.antt =====
-- What each operation on a connection may make of its state.
use capybara_artifact.Base.{
  ◌^◌, ◌≡◌, refl, Bool, true, false, ltb, leb, if_both, Holds, Holds-bind, Holds-if, Holds-some,
  Option, some, none, List, [], ◌∷◌, length,
}
use capybara_artifact.State.{Buffer, Instant, UnackedSegment}
use capybara_artifact.Mig.Segment.{MacAddress}
use capybara_artifact.Tcp.Header.{TcpHeader}
use capybara_artifact.Tcp.ControlBlock.{ControlBlock}
use capybara_artifact.Tcp.Connection.Defs.{
  Timing, Connection, tcp_header, emit, send_now, send_later, send_in_room, note_check, send_buffer,
  send, untimed, send_again, retransmit_first, retransmit, close, SendFail, later_result, has_room,
  may_close, expect_sent, unsent_queue_cutoff, mark, note_send,
}
use capybara_artifact.Tcp.Connection.Receive.{receive}
use capybara_artifact.Tcp.ControlBlock.{poll_recv, pop}
use capybara_artifact.Tcp.Connection.Stages.{
  WeClose, no_close, Received, In, emit-WeClose, receive-Received,
}

poll_recv-state : (cb : ControlBlock) → Holds (λ x. (x.1).state ≡ cb.state) (poll_recv cb)
unfolding poll_recv
poll_recv-state cb = Holds-bind _ ((pop cb.receiver).0) _ (λ buf e. refl)

module _ (t : Timing) where
  -- The one edge, if any, that the close of this side takes.
  abbrev Closing : Connection t → Connection t → Type 0
  Closing c = In t (WeClose c.block.state)

  send_now-Closing :
      (now : Instant) (addr : MacAddress) (buf : Buffer) (c : Connection t)
      → Holds (Closing c) (send_now t now addr buf c)
  unfolding send_now
  send_now-Closing now addr buf c = Holds-bind (Closing c) (tcp_header t (note_send t c)) _ (λ h e.
      let h' = mark buf (record h { seq_num = c.block.sender.send_next }) in
      Holds-bind (Closing c) (emit t h' (some buf) addr (note_send t c)) _ (λ c' e'.
        Holds-some (Closing c) (emit t h' (some buf) addr (note_send t c)) c'
          (emit-WeClose t h' (some buf) addr (note_send t c)) e'))

  send_later-Closing : (buf : Buffer) (c : Connection t) → Closing c ((send_later t buf c).1)
  unfolding send_later
  send_later-Closing buf c =
      if_both (λ (x : Bool × Connection t). Closing c (x.1))
        (ltb unsent_queue_cutoff (length c.block.sender.unsent_queue)) _ _ (no_close c.block.state)
        (no_close c.block.state)

  later-In :
      (P : Connection t → Type 0) (x : Bool × Connection t)
      → P (x.1)
      → Holds (λ r. P (r.1)) (later_result t x)
  later-In P (true, c) r = r
  later-In P (false, c) r = r

  send_in_room-Closing :
      (link : Option MacAddress) (now : Instant) (buf : Buffer) (c : Connection t)
      → Holds (λ r. Closing c (r.1)) (send_in_room t link now buf c)
  unfolding send_in_room
  send_in_room-Closing none now buf c =
      later-In (Closing c) (send_later t buf c) (send_later-Closing buf c)
  send_in_room-Closing (some addr) now buf c = Holds-bind _ (send_now t now addr buf c) _ (λ c' e.
      Holds-some (Closing c) (send_now t now addr buf c) c' (send_now-Closing now addr buf c) e)

  send_buffer-Closing :
      (q : List Buffer) (link : Option MacAddress) (now : Instant) (buf : Buffer) (c : Connection t)
      → Holds (λ r. Closing c (r.1)) (send_buffer t q link now buf c)
  unfolding send_buffer
  send_buffer-Closing (x ∷ q) link now buf c =
      later-In (Closing c) (send_later t buf c) (send_later-Closing buf c)
  send_buffer-Closing [] link now buf c =
      let c' = note_check t c in
      Holds-if _ (has_room t buf c') _ _ (send_in_room-Closing link now buf c')
        (later-In (Closing c) (send_later t buf c') (send_later-Closing buf c'))

  send-Closing :
      (link : Option MacAddress) (now : Instant) (buf : Buffer) (c : Connection t)
      → Holds (λ r. Closing c (r.1)) (send t link now buf c)
  unfolding send
  send-Closing link now buf c =
      Holds-if _ c.block.user_is_done_sending _ _ (no_close c.block.state) (
        Holds-if _ (leb (2 ^ 32) (length buf)) _ _ (no_close c.block.state)
          (send_buffer-Closing c.block.sender.unsent_queue link now buf c))

  send_again-Closing :
      (link : Option MacAddress) (buf : Buffer) (c : Connection t)
      → Holds (Closing c) (send_again t link buf c)
  unfolding send_again
  send_again-Closing none buf c = no_close c.block.state
  send_again-Closing (some addr) buf c = Holds-bind (Closing c) (tcp_header t c) _ (λ h e.
      emit-WeClose t (mark buf (record h { seq_num = c.block.sender.send_unacked })) (some buf) addr
        c)

  retransmit_first-Closing :
      (q : List UnackedSegment) (link : Option MacAddress) (c : Connection t)
      → Holds (Closing c) (retransmit_first t q link c)
  unfolding retransmit_first
  retransmit_first-Closing [] link c = no_close c.block.state
  retransmit_first-Closing (seg ∷ q) link c = send_again-Closing link seg.bytes (untimed t seg q c)

  expect_sent-In :
      (P : Connection t → Type 0) (x : Option SendFail × Connection t)
      → P (x.1)
      → Holds P (expect_sent t x)
  expect_sent-In P (none, c) r = r
  expect_sent-In P (some e, c) r = tt

  close-Closing :
      (link : Option MacAddress) (now : Instant) (c : Connection t)
      → Holds (Closing c) (close t link now c)
  unfolding close
  close-Closing link now c =
      Holds-if (Closing c) c.block.user_is_done_sending _ _ (no_close c.block.state) (
        Holds-if (Closing c) (may_close c.block.state) _ _
          (Holds-bind (Closing c) (send t link now [] c) _ (λ x e.
            Holds-bind (Closing c) (expect_sent t x) _ (λ c' e'.
              Holds-some (Closing c) (expect_sent t x) c'
                (expect_sent-In (Closing c) x (
                  Holds-some (λ x. Closing c (x.1)) (send t link now [] c) x
                    (send-Closing link now [] c) e))
                e')))
          tt)

  -- What happens to a connection: a segment arrives, or an operation is called on it.
  pub data Step : Connection t → Connection t → Type 0 where
    receives :
        {c c' : Connection t} (link : Option MacAddress) (now : Instant) (header : TcpHeader)
        (buf : Buffer)
        → receive t link now header buf c ≡ some c'
        → Step c c'
    sends :
        {c c' : Connection t} {e : Option SendFail} (link : Option MacAddress) (now : Instant)
        (buf : Buffer)
        → send t link now buf c ≡ some (e, c')
        → Step c c'
    retransmits :
        {c c' : Connection t} (link : Option MacAddress) → retransmit t link c ≡ some c' → Step c c'
    closes :
        {c c' : Connection t} (link : Option MacAddress) (now : Instant)
        → close t link now c ≡ some c'
        → Step c c'
    reads :
        {c : Connection t} {buf : Buffer} {cb : ControlBlock}
        → poll_recv c.block ≡ some (buf, cb)
        → Step c (record c { block = cb })

  -- What each step may make of the connection's state.
  abbrev pub Allowed : {c c' : Connection t} → Step c c' → Type 0
  Allowed {c = c} {c' = c'} (receives link now header buf e) =
      Received header c.block.state c'.block.state
  Allowed {c = c} {c' = c'} (sends link now buf e) = WeClose c.block.state c'.block.state
  Allowed {c = c} {c' = c'} (retransmits link e) = WeClose c.block.state c'.block.state
  Allowed {c = c} {c' = c'} (closes link now e) = WeClose c.block.state c'.block.state
  Allowed {c = c} {c' = c'} (reads e) = c'.block.state ≡ c.block.state

  -- The state of a connection moves along the edges of the TCP state diagram, each step along the
  -- edges that are its own. A segment with RST or SYN may close it; one with an ACK may acknowledge
  -- one's FIN (FIN-WAIT-1 to FIN-WAIT-2, CLOSING to TIME-WAIT, LAST-ACK to CLOSED) and then bring the
  -- peer's FIN (ESTABLISHED to CLOSE-WAIT, FIN-WAIT-1 to CLOSING, FIN-WAIT-2 to TIME-WAIT); any other
  -- changes nothing of the state. Sending, retransmitting and closing may send one's own FIN
  -- (ESTABLISHED to FIN-WAIT-1, CLOSE-WAIT to LAST-ACK), and reading changes nothing of it.
  pub Step-Allowed : {c c' : Connection t} (x : Step c c') → Allowed x
  unfolding retransmit
  Step-Allowed {c = c} {c' = c'} (receives link now header buf e) =
      Holds-some (In t (Received header c.block.state)) (receive t link now header buf c) c'
        (receive-Received t link now header c buf) e
  Step-Allowed {c = c} {c' = c'} (sends {e = x} link now buf e) =
      Holds-some (λ x. Closing c (x.1)) (send t link now buf c) (x, c')
        (send-Closing link now buf c) e
  Step-Allowed {c = c} {c' = c'} (retransmits link e) =
      Holds-some (Closing c) (retransmit t link c) c'
        (retransmit_first-Closing c.block.sender.unacked_queue link c) e
  Step-Allowed {c = c} {c' = c'} (closes link now e) =
      Holds-some (Closing c) (close t link now c) c' (close-Closing link now c) e
  Step-Allowed {c = c} (reads {cb = cb} e) =
      Holds-some (λ x. (x.1).state ≡ c.block.state) (poll_recv c.block) (_, cb)
        (poll_recv-state c.block) e
