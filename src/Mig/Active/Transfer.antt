-- ===== src/Mig/Active/Transfer.antt =====
-- A whole migration: the origin's side and the target's exchange the four messages, and the
-- connection's state arrives.
use capybara_artifact.Base.{
  ◌≡◌, refl, ap, ◌∙◌, Option, some, none, List, [], ◌∷◌, ◌++◌, ◌>>=◌, >>=-some, All, Result, ok,
}
use capybara_artifact.Net.{SocketAddrV4}
use capybara_artifact.State.{Buffer, TcpState, set_local}
use capybara_artifact.State.Deserialize.{deserialize}
use capybara_artifact.Mig.Header.{
  TcpMigHeader, prepare_migration_ack, connection_state, connection_state_ack, swap_src_dst_port,
  Fail,
}
use capybara_artifact.Mig.Segment.{TcpMigDefragmenter, defragment, receive_all}
use capybara_artifact.Mig.Active.{
  ActiveMigration, TcpmigReceiveStatus, ok_status, state_received, Sent, segment_to_send,
  send_stage, next_header, accept_state, on_prepare_ack, on_stage, process_packet,
}
use capybara_artifact.Mig.Active.Empty.{unfragmented, send-empty}

abbrev pub Event : Type 0
Event = Result Fail TcpmigReceiveStatus

-- What a caller hears of: every result but a plain `Ok`.
abbrev pub event : Event → List Event
event (ok ok_status) = []
event e = e ∷ []

-- A run of received packets: the events, the last state and all that is sent.
unfoldable pub process_all :
    ActiveMigration → List (TcpMigHeader × Buffer) → Option (List Event × Sent)
process_all a [] = some ([], (a, []))
process_all a ((hdr, buf) ∷ rest) = do
  (r, (a', out)) ← process_packet a hdr buf
  (rs, (a'', out')) ← process_all a' rest
  some (event r ++ rs, (a'', out ++ out'))

ignored :
    (a : ActiveMigration) (hdr : TcpMigHeader) (buf : Buffer)
    → a.last_sent_stage ≡ connection_state_ack
    → process_packet a hdr buf ≡ some (ok ok_status, (a, []))
unfolding process_packet on_stage
ignored a hdr buf e = ap (on_stage a hdr buf) e

-- After its acknowledgement the target takes no notice of what comes.
ignores :
    (a : ActiveMigration) (ls : List (TcpMigHeader × Buffer))
    → a.last_sent_stage ≡ connection_state_ack
    → process_all a ls ≡ some ([], (a, []))
unfolding process_all
ignores a [] e = refl
ignores a ((hdr, buf) ∷ ls) e = rw (ignored a hdr buf e, ignores a ls e)

abbrev pub local_addr : ActiveMigration → SocketAddrV4
local_addr a = record { ip = a.local_ipv4_addr; port = a.self_udp_port }

process-piece :
    (a : ActiveMigration) (hdr : TcpMigHeader) (buf : Buffer) (m : Option (TcpMigHeader × Buffer))
    (d : TcpMigDefragmenter)
    → a.last_sent_stage ≡ prepare_migration_ack
    → hdr.stage ≡ connection_state
    → defragment a.defragmenter hdr buf ≡ some (m, d)
    → process_packet a hdr buf ≡ accept_state (record a { defragmenter = d }) m
unfolding process_packet on_stage on_prepare_ack
process-piece a hdr buf m d s t e =
    ap (on_stage a hdr buf) s
    ∙ ap (on_prepare_ack a hdr buf) t
    ∙ ap
        (λ (o : Option (Option (TcpMigHeader × Buffer) × TcpMigDefragmenter)).
          o >>= λ (m, d). accept_state (record a { defragmenter = d }) m)
        e

accept-whole :
    (a : ActiveMigration) (hdr : TcpMigHeader) (buf : Buffer) (s : TcpState)
    → deserialize buf ≡ some s
    → accept_state a (some (hdr, buf))
      ≡ some (
        ok (state_received (set_local (local_addr a) s)),
        (
          record a { last_sent_stage = connection_state_ack },
          segment_to_send a (unfragmented (next_header hdr connection_state_ack)) [] ∷ [],
        ),
      )
unfolding accept_state send_stage
accept-whole a hdr buf s e = rw (e, send-empty a (next_header hdr connection_state_ack))

-- The one event of a delivery, and the one segment that answers it.
abbrev pub Accepts :
    ActiveMigration → List (TcpMigHeader × Buffer) → TcpMigHeader → TcpState → Type 0
Accepts a ls hdr s =
    (a' : ActiveMigration) × (process_all a ls
      ≡ some (
        ok (state_received (set_local (local_addr a) s)) ∷ [],
        (a', segment_to_send a (unfragmented (next_header hdr connection_state_ack)) [] ∷ []),
      ))
    × (a'.last_sent_stage ≡ connection_state_ack)

module _ (hdr : TcpMigHeader) (buf : Buffer) (s : TcpState) (e : deserialize buf ≡ some s) where
  Accepts-piece :
      (a : ActiveMigration) (h : TcpMigHeader) (b : Buffer) (ls ms : List (TcpMigHeader × Buffer))
      (m : Option (TcpMigHeader × Buffer)) (d d1 d2 : TcpMigDefragmenter)
      → a.last_sent_stage ≡ prepare_migration_ack
      → h.stage ≡ connection_state
      → defragment a.defragmenter h b ≡ some (m, d1)
      → receive_all d1 ls ≡ some (ms, d2)
      → ◌≡◌ {A = Option (List (TcpMigHeader × Buffer) × TcpMigDefragmenter)}
          (some (elim m [ none ↦ ms | some x ↦ x ∷ ms ], d2))
          (some ((hdr, buf) ∷ [], d))
      → (receive_all d1 ls ≡ some ((hdr, buf) ∷ [], d2)
          → Accepts (record a { defragmenter = d1 }) ls hdr s)
      → Accepts a ((h, b) ∷ ls) hdr s
  unfolding process_all accept_state swap_src_dst_port
  Accepts-piece a h b ls ms none d d1 d2 l t q q' r rec =
      let (a', e', w) = rec (cc) in
      (a', rw (process-piece a h b none d1 l t q, accept_state, e'), w)
  Accepts-piece a h b ls ms (some x) d d1 d2 l t q q' r rec =
      let z : x ≡ (hdr, buf) = cc in
      let a1 = record a { defragmenter = d1; last_sent_stage = connection_state_ack } in
      (
        a1,
        rw (
          process-piece a h b (some x) d1 l t q,
          z,
          accept-whole (record a { defragmenter = d1 }) hdr buf s e,
          ignores a1 ls refl,
        ),
        refl,
      )

  -- What the defragmenter completes, the target deserializes and acknowledges, once.
  pub accepts :
      (a : ActiveMigration) (ls : List (TcpMigHeader × Buffer)) (d : TcpMigDefragmenter)
      → a.last_sent_stage ≡ prepare_migration_ack
      → All (λ x. (x.0).stage ≡ connection_state) ls
      → receive_all a.defragmenter ls ≡ some ((hdr, buf) ∷ [], d)
      → Accepts a ls hdr s
  unfolding receive_all
  accepts a [] d l st r = cc
  accepts a ((h, b) ∷ ls) d l (t, st) r =
      let ((m, d1), q, r') = >>=-some (defragment a.defragmenter h b) _ _ r in
      let ((ms, d2), q', r'') = >>=-some (receive_all d1 ls) _ _ r' in
      Accepts-piece a h b ls ms m d d1 d2 l t q q' r''
        (λ z. accepts (record a { defragmenter = d1 }) ls d2 l st z)
