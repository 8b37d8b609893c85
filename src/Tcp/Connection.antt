-- ===== src/Tcp/Connection.antt =====
-- A TCP connection: inetstack/protocols/tcp/established/ctrlblk.rs with the operations of
-- inetstack/protocols/tcp/established/sender.rs that send, which work on one another's state.
pub mod Defs
pub mod Receive
pub mod Stages
pub mod Steps
pub mod Sound
pub mod Stream
pub mod Delivery
