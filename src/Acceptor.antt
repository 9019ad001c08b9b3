-- ===== src/Acceptor.antt =====
-- libmpaxos/acceptor.c: what a node has promised and accepted in each slot, and its two handlers.
mod Defs
pub mod Views
pub mod Turns
pub mod Promises
pub mod Accepts
pub mod Answers
pub mod Forget
pub mod History
unfoldable pub use Defs.*
