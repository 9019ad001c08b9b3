-- ===== src/Recorder.antt =====
-- libmpaxos/recorder.c: the accepted values kept in memory, the marks of decided slots, and the next
-- free slot of each group. The writes of `db_put_raw` (libmpaxos/db_helper.c) have an empty body.
mod Defs
pub mod Slots
unfoldable pub use Defs.*
