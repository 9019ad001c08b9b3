-- ===== src/Node.antt =====
-- One node of the system: the state of all components, and the code that reaches across them, from
-- libmpaxos/proposer.c, controller.c, comm.c and async.c.
mod Defs
mod Send
mod Decide
mod Handlers
mod Wire
mod Requests
unfoldable pub use Defs.*
unfoldable pub use Send.*
unfoldable pub use Decide.*
unfoldable pub use Handlers.*
unfoldable pub use Wire.*
pub mod Broadcast
pub mod Kept
pub mod Accept
pub mod Decided
pub mod Txns
pub mod Tallied
pub mod Counting
pub mod Ballots
pub mod Calls
pub mod Prepare
unfoldable pub use Requests.*
