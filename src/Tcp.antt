-- ===== src/Tcp.antt =====
-- inetstack/protocols/tcp: the TCP header, the sender, the receiving half of an established
-- connection, and the connection as a whole.
pub mod Header
pub mod Sender
pub mod ControlBlock
pub mod Acceptance
pub mod Connection
pub mod Opening
pub mod Peer
