-- ===== src/Tests.antt =====
-- Sample data, and each theorem applied to it.
mod Samples
mod State
mod Migration
mod Tcp
mod Sender
mod Connection
mod Opening
mod Peer
mod Switch
