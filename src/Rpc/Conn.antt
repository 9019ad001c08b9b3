-- ===== src/Rpc/Conn.antt =====
-- libmpaxos/rpc/server.c, client.c and rpc_comm.h: connections that carry messages over byte streams.
mod Defs
mod Server
mod Client
mod Setup
pub mod Ready
pub mod Frames
pub mod Loops
pub mod Wire
pub mod Delivery
pub mod Answers
unfoldable pub use Defs.*
unfoldable pub use Server.*
unfoldable pub use Client.*
unfoldable pub use Setup.*
