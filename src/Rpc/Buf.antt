-- ===== src/Rpc/Buf.antt =====
-- libmpaxos/rpc/buf.c: a buffer that is written at its end and read at its front.
mod Defs
mod Growth
pub mod Queue
pub mod Room
mod Sock
pub mod Flow
unfoldable pub use Defs.*
unfoldable pub use Sock.*
