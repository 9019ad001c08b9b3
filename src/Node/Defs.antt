-- ===== src/Node/Defs.antt =====
-- The state of a node, and what its code leaves to others.
use mpaxos.Prelude.{ℕ, Bool, List, Dict}
use mpaxos.Types.{MsgPrepare, MsgAccept}
use mpaxos.View.{View}
use mpaxos.Recorder.{Flush}
use mpaxos.Acceptor.{Store}
use mpaxos.Coding.{Coder}
use mpaxos.Dag.{Dag}
use mpaxos.Proposer.{GroupInfo, Heap, TxnInfo}

-- What the sources do not define: the erasure coder of zfec, the order in which APR's hash table
-- yields its entries, and the unwritten key of `get_view`.
pub record Env : Type 0 where
  pub fec : Coder
  pub order : List GroupInfo → List GroupInfo
  pub garbage : ℕ

-- A message handed to the client of a node.
pub data Packet : Type 0 where
  to_prepare : MsgPrepare → Packet
  to_accept : MsgAccept → Packet

-- The static variables of the library. `called` lists the requests for which the application's
-- callback ran, latest first; `cb_god` says whether one is set.
pub record Node : Type 0 where
  pub view : View
  pub flush : Flush
  pub store : Store
  pub txns : Dict ℕ TxnInfo
  pub heap : Heap
  pub dag : Dag
  pub cb_god : Bool
  pub out : List (ℕ × Packet)
  pub called : List ℕ
