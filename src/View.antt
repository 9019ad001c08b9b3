-- ===== src/View.antt =====
-- libmpaxos/view.c: which nodes there are and which one this is; with `set_nid_sender` of
-- libmpaxos/comm.c, which every new node gets.
mod Defs
pub mod Config
unfoldable pub use Defs.*
