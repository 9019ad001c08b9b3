-- ===== src/Dag/Defs.antt =====
-- The state and the operations of libmpaxos/utils/mpr_dag.h.
use mpaxos.Prelude.{
  ℕ, ◌+◌, ◌%◌, ◌^◌, Bool, true, false, ◌&&◌, Option, none, some, List, [], ◌∷◌, ◌++◌, ◌==◌,
  if◌then◌else◌, Result, ok, abort, ◌>>=◌, ◌>>◌, safe_assert, deref, Dict, get, put, del, nat_key,
}
use mpaxos.Dag.Queue
use mpaxos.Dag.Queue.{Queue, queue_create}

-- GRAY, WHITE, BLACK
pub data Color : Type 0 where
  gray white black : Color

abbrev pub is_white : Color → Bool
is_white white = true
is_white _ = false

-- `mpr_dag_node_t`; `load` is the field `data`.
pub record DagNode : Type 0 where
  pub qids : List ℕ
  pub color : Color
  pub load : ℕ

-- `mpr_dag_t`, with the nodes that are allocated. A freed node's address is not used again.
pub record Dag : Type 0 where
  pub ht : Dict ℕ Queue
  pub qu : List ℕ
  pub nodes : Dict ℕ DagNode
  pub next : ℕ
  pub n_push : ℕ
  pub n_pop : ℕ

-- `mpr_dag_create`
abbrev pub dag_create : Dag
dag_create = record { ht = []; qu = []; nodes = []; next = 1; n_push = 0; n_pop = 0 }

abbrev pub is_head : Option ℕ → ℕ → Bool
is_head none node = false
is_head (some x) node = x == node

abbrev pub queue_of : Dag → ℕ → Queue
queue_of d qid = elim (get d.ht qid) [ none ↦ queue_create | some q ↦ q ]

-- `apr_atomic_inc32`
abbrev pub inc32 : ℕ → ℕ
inc32 n = (n + 1) % 2 ^ 32

-- The loop of `mpr_dag_push`: the node joins each queue; is it the head of all of them?
unfoldable pub enqueue : ℕ → List ℕ → Bool → Dag → Result (Dag × Bool)
unfolding Queue.push Queue.peek
enqueue node [] goto_white d = ok (d, goto_white)
enqueue node (qid ∷ qids) goto_white d = do
  q ← Queue.push node (queue_of d qid)
  let (first, q') = Queue.peek q
  enqueue node qids (goto_white && is_head first node) (record d { ht = put d.ht qid q' })

-- `node->color = WHITE; apr_queue_push(dag->qu, node);` The white queue is emptied by a thread that
-- does not take the DAG's lock, so a push waits for room at most.
unfoldable pub whiten : ℕ → DagNode → Dag → Dag
whiten node n d = record d {
  nodes = put d.nodes node (record n { color = white });
  qu = d.qu ++ node ∷ [];
}

-- `mpr_dag_push`
unfoldable pub dag_push : List ℕ → ℕ → Dag → Result Dag
unfolding enqueue whiten
dag_push qids load d = do
  let n : DagNode = record { qids = qids; color = black; load = load }
  let d1 : Dag = record d {
    nodes = put d.nodes d.next n;
    next = d.next + 1;
    n_push = inc32 d.n_push;
  }
  (d2, goto_white) ← enqueue d.next qids true d1
  ok (if goto_white then whiten d.next n d2 else d2)

-- The inner loop of `mpr_dag_pop`: is the node the head of all its queues?
unfoldable pub heads_all : ℕ → List ℕ → Bool → Dag → Result (Dag × Bool)
unfolding Queue.peek
heads_all node [] goto_white d = ok (d, goto_white)
heads_all node (qid ∷ qids) goto_white d = do
  q ← deref (get d.ht qid)
  let (first, q') = Queue.peek q
  heads_all node qids (goto_white && is_head first node) (record d { ht = put d.ht qid q' })

-- Step 2 of the outer loop: the next node of the queue goes to the white queue if it may.
unfoldable pub promote : Option ℕ → Dag → Result Dag
unfolding heads_all whiten
promote none d = ok d
promote (some node) d = do
  n ← deref (get d.nodes node)
  let recheck : Result Dag = (do
    (d', goto_white) ← heads_all node n.qids true d
    ok (if goto_white then whiten node n d' else d'))
  if is_white n.color then ok d else recheck

-- `if (ret_node != NULL) SAFE_ASSERT(node == ret_node); else ret_node = node;`
abbrev pub same_node : Option ℕ → ℕ → Result ℕ
same_node none node = ok node
same_node (some ret) node = do safe_assert (ret == node); ok ret

abbrev pub popped {ℓ} : {A : Type ℓ} → Option A → Result A
popped none = abort
popped (some x) = ok x

-- The outer loop of `mpr_dag_pop`.
unfoldable pub dequeue : List ℕ → Option ℕ → Dag → Result (Dag × Option ℕ)
unfolding Queue.trypop Queue.peek promote
dequeue [] ret d = ok (d, ret)
dequeue (qid ∷ qids) ret d = do
  q ← popped (get d.ht qid)
  let (got, q1) = Queue.trypop q
  node ← popped got
  ret' ← same_node ret node
  let (next, q2) = Queue.peek q1
  d' ← promote next (record d { ht = put d.ht qid q2 })
  dequeue qids (some ret') d'

-- `mpr_dag_pop`: the load of the node, which is freed.
unfoldable pub dag_pop : List ℕ → Dag → Result (Dag × ℕ)
unfolding dequeue
dag_pop qids d = do
  (d', ret) ← dequeue qids none d
  node ← deref ret
  n ← deref (get d'.nodes node)
  ok (record d' { nodes = del d'.nodes node }, n.load)

-- The pop of the white queue, and what follows it.
unfoldable pub getwhite_from : List ℕ → Dag → Result (Dag × Option ℕ)
getwhite_from [] d = ok (d, none)
getwhite_from (node ∷ rest) d = do
  n ← deref (get d.nodes node)
  ok (
    record d {
      qu = rest;
      nodes = put d.nodes node (record n { color = gray });
      n_pop = inc32 d.n_pop;
    },
    some n.load,
  )

-- `mpr_dag_getwhite`: none while the white queue is empty (the daemon waits, or was interrupted).
unfoldable pub dag_getwhite : Dag → Result (Dag × Option ℕ)
unfolding getwhite_from
dag_getwhite d = getwhite_from d.qu d
