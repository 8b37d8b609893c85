-- ===== src/Mig.antt =====
-- inetstack/protocols/tcpmig: the migration protocol between servers.
pub mod Header
pub mod Segment
pub mod Active
pub mod Peer
