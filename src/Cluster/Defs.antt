-- ===== src/Cluster/Defs.antt =====
-- Nodes that run libmpaxos/proposer.c and acceptor.c, and the answers that are on their way.
use mpaxos.Prelude.{
  ℕ, ◌≡◌, false, Option, none, some, List, [], ◌∷◌, ◌++◌, In, ◌==◌, if◌then◌else◌, Result, fault,
  abort, ok, get, nat_key,
}
use mpaxos.Types.{InstId, MsgPrepare, MsgAccept, MsgReply, Req}
use mpaxos.Acceptor.Views.{info_of}
use mpaxos.Proposer.{
  Heap, TxnInfo, is_accepting, yes_most, no_most, uncertain, count_accepted, on_responses,
}
use mpaxos.Proposer.Tally.{IsOnce}
use mpaxos.Node.{
  Env, Node, mpaxos_start_request, on_prepare, on_accept, on_promise, on_accepted, verdict,
}

-- All nodes, the answers that were sent, and the transactions that were decided, latest first.
pub record Cluster : Type 0 where
  pub node : ℕ → Node
  pub sent : List MsgReply
  pub decided : List TxnInfo

abbrev pub update : (ℕ → Node) → ℕ → Node → ℕ → Node
update f k s j = if k == j then s else f j

-- The transaction that an accepted message decides, if it decides one, as it is after the count.
abbrev pub counted_yes : Env → Node → Result (TxnInfo × Heap) → List TxnInfo
counted_yes env s fault = []
counted_yes env s abort = []
counted_yes env s (ok (t, h)) = elim (verdict env false t (record s { heap = h })) [
  | yes_most ↦ t ∷ []
  | no_most ↦ []
  | uncertain ↦ []
]

abbrev pub winner_of : Env → MsgReply → Node → Option TxnInfo → List TxnInfo
winner_of env m s none = []
winner_of env m s (some t) =
    let won = counted_yes env s (on_responses count_accepted m.h.nid m.ress (t, s.heap)) in
    if is_accepting t.in_phase then won else []

abbrev pub winner : Env → MsgReply → Node → List TxnInfo
winner env m s = winner_of env m s (get s.txns m.h.tid)

-- One step of one node. Prepares and accepts may come from anywhere, any number of times, in any order;
-- an answer is one that some node sent, and it too may be lost, repeated, late, or go to any node. A step
-- whose code aborts is none. The slot `i` is not forgotten by a decision.
pub data Step (env : Env) (members : List ℕ) (i : InstId) (c : Cluster) : Cluster → Type 0 where
  starts :
      (k : ℕ) (req : Req) (w : Node)
      → mpaxos_start_request env req (c.node k) ≡ ok w
      → Step env members i c (record c { node = update c.node k w })
  prepares :
      (k : ℕ) (m : MsgPrepare) (w : Node) (rep : MsgReply)
      → IsOnce k members
      → on_prepare m (c.node k) ≡ ok (w, rep)
      → Step env members i c (record c { node = update c.node k w; sent = rep ∷ c.sent })
  accepts :
      (k : ℕ) (m : MsgAccept) (w : Node) (rep : MsgReply)
      → IsOnce k members
      → on_accept m (c.node k) ≡ ok (w, rep)
      → Step env members i c (record c { node = update c.node k w; sent = rep ∷ c.sent })
  hears_promise :
      (k : ℕ) (m : MsgReply) (w : Node)
      → In m c.sent
      → on_promise env m (c.node k) ≡ ok w
      → Step env members i c (record c { node = update c.node k w })
  hears_accepted :
      (k : ℕ) (m : MsgReply) (w : Node)
      → In m c.sent
      → on_accepted env m (c.node k) ≡ ok w
      → info_of w.store.accp i ≡ info_of (c.node k).store.accp i
      → Step env members i c
          (record c { node = update c.node k w; decided = winner env m (c.node k) ++ c.decided })

-- Every node knows its number and the members, and no transaction is under way.
pub record IsNew (members : List ℕ) (c : Cluster) : Type 0 where
  pub local : (k : ℕ) → (c.node k).view.local_nid ≡ k
  pub nodes : (k : ℕ) → (c.node k).view.arr_nodes ≡ members
  pub txns : (k : ℕ) → (c.node k).txns ≡ []
  pub sent : c.sent ≡ []
  pub decided : c.decided ≡ []

pub data Reach (env : Env) (members : List ℕ) (i : InstId) : Cluster → Type 0 where
  begins : (c : Cluster) → IsNew members c → Reach env members i c
  later : {c d : Cluster} → Reach env members i c → Step env members i c d → Reach env members i d
