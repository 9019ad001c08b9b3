-- ===== src/Rpc.antt =====
-- libmpaxos/rpc: byte buffers, polling, and the connections between them and the messages.
pub mod Buf
pub mod Polling
pub mod Conn
