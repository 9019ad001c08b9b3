-- ===== src/Dag/Repeats.antt =====
-- A request that names a group twice, in libmpaxos/utils/mpr_dag.h.
use mpaxos.Prelude.{
  ℕ, ◌≡◌, refl, true, ◌==◌, List, Dict, some, [], ◌∷◌, arith, ok, fault, get, put, del, nat_key,
}
use mpaxos.Dag.Queue
use mpaxos.Dag.Queue.{Queue, queue_create}
use mpaxos.Dag.Defs.{Color, white, gray, DagNode, Dag, dag_create, dag_push, dag_pop, dag_getwhite}

abbrev node : List ℕ → Color → ℕ → DagNode
node qids color load = record { qids = qids; color = color; load = load }

-- A queue that holds node 1 twice.
abbrev pair : ℕ → Dict ℕ Queue
pair qid = (qid, record { head = some 1; queue = 1 ∷ [] }) ∷ []

-- The DAG after node 1 was handed out.
abbrev handed : List ℕ → ℕ → Dict ℕ Queue → Dag
handed qids load ht = record {
  ht = ht;
  qu = [];
  nodes = (1, node qids gray load) ∷ [];
  next = 2;
  n_push = 1;
  n_pop = 1;
}

-- On an empty DAG, a request that names one group twice is handed out and taken out of its queues as
-- any other, but its node is then freed and in the white queue again, so that the next call of
-- `mpr_dag_getwhite` reads a freed node.
pub repeated_group :
    (qid load : ℕ)
    → (d1 : Dag) × (dag_push (qid ∷ qid ∷ []) load dag_create ≡ ok d1)
      × (d2 : Dag) × (dag_getwhite d1 ≡ ok (d2, some load))
      × (d3 : Dag) × (dag_pop (qid ∷ qid ∷ []) d2 ≡ ok (d3, load))
      × (dag_getwhite d3 ≡ fault)
unfolding dag_push dag_getwhite dag_pop get put del Queue.push Queue.peek Queue.trypop
repeated_group qid load =
    let same : (qid == qid) ≡ true = ground arith in
    let taken : Dag = handed (qid ∷ qid ∷ []) load (pair qid) in
    (
      record taken { qu = 1 ∷ []; nodes = (1, node (qid ∷ qid ∷ []) white load) ∷ []; n_pop = 0 },
      ground arith,
      taken,
      refl,
      record taken { ht = (qid, queue_create) ∷ []; qu = 1 ∷ []; nodes = [] },
      rw (same, same, same, same) refl,
      refl,
    )
