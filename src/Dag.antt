-- ===== src/Dag.antt =====
-- libmpaxos/utils/mpr_queue.h and mpr_dag.h: requests queue up under each group that they name, and
-- one that heads all its queues goes to the daemon.
pub mod Queue
mod Defs
pub mod Heads
mod Safe
mod Taken
pub mod Idle
mod Contents
mod Requests
mod Awake
mod Turns
mod Order
mod Sound
mod Waiting
pub mod Exclusion
pub mod Progress
pub mod Repeats
unfoldable pub use Defs.*
