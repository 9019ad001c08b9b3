-- ===== src/Async.antt =====
-- libmpaxos/async.c and the calls of libmpaxos/mpaxos.c that make requests.
mod Defs
pub mod Starts
pub mod Counters
unfoldable pub use Defs.*
