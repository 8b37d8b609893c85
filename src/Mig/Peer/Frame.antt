-- ===== src/Mig/Peer/Frame.antt =====
-- One connection's migration does not touch another's.
use capybara_artifact.Base.{◌≡◌}
use capybara_artifact.Net.{SocketAddrV4}
use capybara_artifact.Net.Map.{addr_key, lookup}
use capybara_artifact.Mig.Peer.{TcpMigPeer}

-- The migration of `l` is the same in both.
abbrev Same : SocketAddrV4 → TcpMigPeer → TcpMigPeer → Type 0
Same l p p' = lookup l p'.active_migrations ≡ lookup l p.active_migrations
