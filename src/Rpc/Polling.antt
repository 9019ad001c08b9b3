-- ===== src/Rpc/Polling.antt =====
-- libmpaxos/rpc/polling.c: poll managers, their workers, and the jobs that they poll.
mod Defs
pub mod Jobs
unfoldable pub use Defs.*
