-- ===== src/Ipc.antt =====
-- internal/ipc: messages between the processes, over streams and datagrams.
pub mod Framing
pub mod Multi
pub mod Datagram
mod Tests
