-- ===== src/Mig/Active/Order.antt =====
-- How the stages of one migration may follow each other, for every operation of active.rs.
use capybara_artifact.Base.{
  ◌≤◌, ◌≡◌, ◌⊎◌, inl, inr, refl, ap, sym, ◌∙◌, true, Option, some, none, List, [], >>=-some, Result,
  err, arith,
}
use capybara_artifact.State.{Buffer, TcpState}
use capybara_artifact.State.Deserialize.{deserialize}
use capybara_artifact.State.Size.{serialize}
use capybara_artifact.Mig.Header.{
  TcpMigHeader, MigrationStage, none_stage, rejected, prepare_migration, prepare_migration_ack,
  connection_state, connection_state_ack, Fail, expected_prepare_migration,
  expected_prepare_migration_ack_or_rejected, expected_connection_state,
  expected_connection_state_ack,
}
use capybara_artifact.Mig.Segment.{TcpMigSegment, defragment}
use capybara_artifact.Mig.Active.{
  on_none, on_prepare, on_prepare_ack, on_connection_state, on_stage, initiate_at, send_state_at,
  next_header, ActiveMigration, TcpmigReceiveStatus, Processed, on_none, on_prepare, on_prepare_ack,
  on_connection_state, on_stage, send, send_stage, accept_state, process_packet, initiate_migration,
  send_connection_state, buffer_packet, take_buffered_packets,
}
use capybara_artifact.Mig.Active.Stages.{
  idle, side, place, Follows, Step, initiated, state_sent, processed, buffered, taken, Steps, start,
  then,
}

Follows-refl : (a : ActiveMigration) → Follows a a
Follows-refl a = record {
  client = refl;
  origin = refl;
  qd = refl;
  self_udp_port = refl;
  forward = omega arith;
  same_side = inr refl;
}

Follows-trans : (a b c : ActiveMigration) → Follows a b → Follows b c → Follows a c
Follows-trans a b c f g = record {
  client = g.client ∙ f.client;
  origin = g.origin ∙ f.origin;
  qd = g.qd ∙ f.qd;
  self_udp_port = g.self_udp_port ∙ f.self_udp_port;
  forward = omega (arith, f.forward, g.forward);
  same_side = side_trans f.same_side g.same_side;
}
  where
    side_trans :
        (side a.last_sent_stage ≡ idle) ⊎ (side b.last_sent_stage ≡ side a.last_sent_stage)
        → (side b.last_sent_stage ≡ idle) ⊎ (side c.last_sent_stage ≡ side b.last_sent_stage)
        → (side a.last_sent_stage ≡ idle) ⊎ (side c.last_sent_stage ≡ side a.last_sent_stage)
    side_trans (inl e) h = inl e
    side_trans (inr e) (inl h) = inl (sym e ∙ h)
    side_trans (inr e) (inr h) = inr (h ∙ e)

module _ (a : ActiveMigration) (s s' : MigrationStage) (at : a.last_sent_stage ≡ s)
    (fw : place s ≤ place s') (sd : (side s ≡ idle) ⊎ (side s' ≡ side s)) where
  send_stage-Follows :
      (hdr : TcpMigHeader) (buf : Buffer) (a' : ActiveMigration) (out : List TcpMigSegment)
      → send_stage a s' hdr buf ≡ some (a', out)
      → Follows a a'
  unfolding send_stage
  send_stage-Follows hdr buf a' out q =
      let (o, e, r) = >>=-some (send a hdr buf) _ _ q in
      let k : a' ≡ record a { last_sent_stage = s' } = cc in
      rw k (record {
        client = refl;
        origin = refl;
        qd = refl;
        self_udp_port = refl;
        forward = rw at fw;
        same_side = rw at sd;
      })

kept :
    (a a' : ActiveMigration)
    → a'.client ≡ a.client
    → a'.origin ≡ a.origin
    → a'.qd ≡ a.qd
    → a'.self_udp_port ≡ a.self_udp_port
    → a'.last_sent_stage ≡ a.last_sent_stage
    → Follows a a'
kept a a' c o q p l = record {
  client = c;
  origin = o;
  qd = q;
  self_udp_port = p;
  forward = rw l (omega arith);
  same_side = inr (ap side l);
}

accept_state-Follows :
    (a : ActiveMigration) (m : Option (TcpMigHeader × Buffer)) (r : Result Fail TcpmigReceiveStatus)
    (a' : ActiveMigration) (out : List TcpMigSegment)
    → a.last_sent_stage ≡ prepare_migration_ack
    → accept_state a m ≡ some (r, (a', out))
    → Follows a a'
unfolding accept_state
accept_state-Follows a none r a' out l q = let k : a' ≡ a = cc in rw k (Follows-refl a)
accept_state-Follows a (some (hdr, buf)) r a' out l q =
    let (state, e, q') = >>=-some (deserialize buf) _ _ q in
    let ((b, o), e', k) =
      >>=-some (send_stage a connection_state_ack (next_header hdr connection_state_ack) []) _ _
        q' in
    let z : b ≡ a' = cc in
    rw z at (
      send_stage-Follows a prepare_migration_ack connection_state_ack l (omega arith) (inr refl)
        (next_header hdr connection_state_ack) [] b o e')

module _ (a : ActiveMigration) (hdr : TcpMigHeader) (buf : Buffer)
    (r : Result Fail TcpmigReceiveStatus) (a' : ActiveMigration) (out : List TcpMigSegment) where
  refuse-Follows :
      (e : Fail)
      → ◌≡◌ {A = Option Processed} (some (err e, (a, []))) (some (r, (a', out)))
      → Follows a a'
  refuse-Follows e q = let k : a' ≡ a = cc in rw k (Follows-refl a)

  on_none-Follows :
      (t : MigrationStage)
      → a.last_sent_stage ≡ none_stage
      → on_none a hdr t ≡ some (r, (a', out))
      → Follows a a'
  unfolding on_none
  on_none-Follows prepare_migration l q =
      let h = record (next_header hdr prepare_migration_ack) { flag_load = true } in
      let ((b, o), e, k) = >>=-some (send_stage a prepare_migration_ack h []) _ _ q in
      let z : b ≡ a' = cc in
      rw z at (
        send_stage-Follows a none_stage prepare_migration_ack l (omega arith) (inl refl) h [] b o e)
  on_none-Follows _ l q = refuse-Follows expected_prepare_migration q

  on_prepare-Follows :
      (t : MigrationStage) → on_prepare a hdr t ≡ some (r, (a', out)) → Follows a a'
  unfolding on_prepare
  on_prepare-Follows prepare_migration_ack q =
      let (qd, e, k) = >>=-some a.qd _ _ q in
      let z : a' ≡ record a { dest_udp_port = hdr.source_udp_port } = cc in
      rw z (kept a (record a { dest_udp_port = hdr.source_udp_port }) refl refl refl refl refl)
  on_prepare-Follows rejected q = let k : a' ≡ a = cc in rw k (Follows-refl a)
  on_prepare-Follows _ q = refuse-Follows expected_prepare_migration_ack_or_rejected q

  on_prepare_ack-Follows :
      (t : MigrationStage)
      → a.last_sent_stage ≡ prepare_migration_ack
      → on_prepare_ack a hdr buf t ≡ some (r, (a', out))
      → Follows a a'
  unfolding on_prepare_ack
  on_prepare_ack-Follows connection_state l q =
      let ((m, d), e, k) = >>=-some (defragment a.defragmenter hdr buf) _ _ q in
      let b = record a { defragmenter = d } in
      Follows-trans a b a' (kept a b refl refl refl refl refl)
        (accept_state-Follows b m r a' out l k)
  on_prepare_ack-Follows _ l q = refuse-Follows expected_connection_state q

  on_connection_state-Follows :
      (t : MigrationStage) → on_connection_state a t ≡ some (r, (a', out)) → Follows a a'
  unfolding on_connection_state
  on_connection_state-Follows connection_state_ack q = let k : a' ≡ a = cc in rw k (Follows-refl a)
  on_connection_state-Follows _ q = refuse-Follows expected_connection_state_ack q

  on_stage-Follows :
      (s : MigrationStage)
      → a.last_sent_stage ≡ s
      → on_stage a hdr buf s ≡ some (r, (a', out))
      → Follows a a'
  unfolding on_stage
  on_stage-Follows none_stage l q = on_none-Follows hdr.stage l q
  on_stage-Follows prepare_migration l q = on_prepare-Follows hdr.stage q
  on_stage-Follows prepare_migration_ack l q = on_prepare_ack-Follows hdr.stage l q
  on_stage-Follows connection_state l q = on_connection_state-Follows hdr.stage q
  on_stage-Follows connection_state_ack l q = let k : a' ≡ a = cc in rw k (Follows-refl a)
  on_stage-Follows _ l q = cc

initiate-Follows :
    (a : ActiveMigration) (s : MigrationStage) (a' : ActiveMigration) (out : List TcpMigSegment)
    → a.last_sent_stage ≡ s
    → initiate_at a s ≡ some (a', out)
    → Follows a a'
unfolding initiate_at
initiate-Follows a none_stage a' out l q =
    send_stage-Follows a none_stage prepare_migration l (omega arith) (inl refl) _ [] a' out q
initiate-Follows a _ a' out l q = cc

send_state-Follows :
    (a : ActiveMigration) (state : TcpState) (s : MigrationStage) (a' : ActiveMigration)
    (out : List TcpMigSegment)
    → a.last_sent_stage ≡ s
    → send_state_at a state s ≡ some (a', out)
    → Follows a a'
unfolding send_state_at
send_state-Follows a state prepare_migration a' out l q =
    let (buf, e, k) = >>=-some (serialize state) _ _ q in
    send_stage-Follows a prepare_migration connection_state l (omega arith) (inr refl) _ buf a' out
      k
send_state-Follows a state _ a' out l q = cc

Step-Follows : (a a' : ActiveMigration) → Step a a' → Follows a a'
unfolding process_packet initiate_migration send_connection_state buffer_packet
    take_buffered_packets
Step-Follows a a' (initiated _ out q) = initiate-Follows a a.last_sent_stage a' out refl q
Step-Follows a a' (state_sent state _ out q) =
    send_state-Follows a state a.last_sent_stage a' out refl q
Step-Follows a a' (processed hdr buf r _ out q) =
    on_stage-Follows a hdr buf r a' out a.last_sent_stage refl q
Step-Follows a a' (buffered hdr buf) = kept a (buffer_packet hdr buf a) refl refl refl refl refl
Step-Follows a a' taken = kept a ((take_buffered_packets a).1) refl refl refl refl refl

-- Whatever operations a migration goes through, it stays about the same connection, descriptor and
-- port, its stage only moves forward, and a server that has begun to give a connection away never
-- becomes one that takes it, nor the other way.
pub Steps-Follows : (a a' : ActiveMigration) → Steps a a' → Follows a a'
Steps-Follows a a' start = Follows-refl a
Steps-Follows a a' (then b _ ss s) =
    Follows-trans a b a' (Steps-Follows a b ss) (Step-Follows b a' s)
