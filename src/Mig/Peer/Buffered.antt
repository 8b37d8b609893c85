-- ===== src/Mig/Peer/Buffered.antt =====
-- Packets that arrive while their connection migrates: kept in order, and handed over once.
use capybara_artifact.Base.{
  ◌≡◌, ◌≢◌, refl, ap, ◌∙◌, Option, some, none, List, [], ◌∷◌, ◌++◌, append-nil, append_assoc, ok,
  err,
}
use capybara_artifact.Net.{SocketAddrV4}
use capybara_artifact.Net.Map.{addr_key, lookup, lookup-insert, lookup-insert_ne, lookup-remove}
use capybara_artifact.State.{Buffer}
use capybara_artifact.Tcp.Header.{TcpHeader}
use capybara_artifact.Mig.Active.{ActiveMigration, buffer_packet, take_buffered_packets}
use capybara_artifact.Mig.Peer.{
  TcpMigPeer, Packet, put_active, try_buffer_packet, close_active_migration, buffer_in,
}

-- A run of packets of one connection; `none` when one of them is handed back.
unfoldable pub buffer_all : TcpMigPeer → SocketAddrV4 → List Packet → Option TcpMigPeer
unfolding try_buffer_packet
buffer_all p k [] = some p
buffer_all p k ((hdr, buf) ∷ ps) = elim (try_buffer_packet p k hdr buf) [
  | ok p' ↦ buffer_all p' k ps
  | err e ↦ none
]

try_buffer_packet-some :
    (p : TcpMigPeer) (k : SocketAddrV4) (a : ActiveMigration) (hdr : TcpHeader) (buf : Buffer)
    → lookup k p.active_migrations ≡ some a
    → try_buffer_packet p k hdr buf ≡ ok (put_active k (buffer_packet hdr buf a) p)
unfolding try_buffer_packet buffer_in
try_buffer_packet-some p k a hdr buf e = rw e

-- The packets of a connection in the table, buffered one after the other, are all accepted, change
-- no other connection's migration, and come out of `close_active_migration` behind those that were
-- there, in the order of arrival; a second close gives nothing.
pub close-buffer_all :
    (p : TcpMigPeer) (k : SocketAddrV4) (a : ActiveMigration) (ps : List Packet)
    → lookup k p.active_migrations ≡ some a
    → (p' : TcpMigPeer) × (buffer_all p k ps ≡ some p')
      × ((close_active_migration p' k).0 ≡ some (a.recv_queue ++ ps))
      × ((close_active_migration ((close_active_migration p' k).1) k).0 ≡ none)
      × ((l : SocketAddrV4) → k ≢ l → lookup l p'.active_migrations ≡ lookup l p.active_migrations)
unfolding buffer_all close_active_migration take_buffered_packets buffer_packet
close-buffer_all p k a [] e = (
  p,
  refl,
  rw (e, append-nil a.recv_queue),
  rw (lookup-remove k p.active_migrations),
  λ l h. refl,
)
close-buffer_all p k a ((hdr, buf) ∷ ps) e =
    let b = buffer_packet hdr buf a in
    let (p', f, c, d, o) =
      close-buffer_all (put_active k b p) k b ps (lookup-insert k b p.active_migrations) in
    (
      p',
      rw (try_buffer_packet-some p k a hdr buf e, buffer_all) f,
      c ∙ ap some (append_assoc a.recv_queue ((hdr, buf) ∷ []) ps),
      d,
      λ l h. o l h ∙ lookup-insert_ne k l b p.active_migrations h,
    )
