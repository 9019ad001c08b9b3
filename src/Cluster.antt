-- ===== src/Cluster.antt =====
-- Several nodes and the messages between them.
mod Defs
mod Answers
mod Groups
mod Invariant
mod Steps
pub mod Origins
pub mod Agreement
pub use Defs.*
