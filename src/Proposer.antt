-- ===== src/Proposer.antt =====
-- libmpaxos/proposer.c: the counting of answers and the choice of a proposal, for one transaction.
-- The handlers that reach into the other components stand in `mpaxos.Node`.
mod Defs
pub mod Majority
pub mod Unseen
pub mod Tally
pub mod Quorum
pub mod Memory
unfoldable pub use Defs.*
