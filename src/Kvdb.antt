-- ===== src/Kvdb.antt =====
-- libkvdb: a store of keys and values over mpaxos.
mod Packing
pub mod RoundTrip
mod Calls
pub mod Batches
pub mod Commits
unfoldable pub use Packing.*
unfoldable pub use Calls.*
