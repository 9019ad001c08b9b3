-- ===== src/Async/Defs.antt =====
-- The way of a request from the application to its transaction: `mpaxos_commit_raw` and
-- `mpaxos_commit_req` of libmpaxos/mpaxos.c, the daemon and its tasks in libmpaxos/async.c.
use mpaxos.Prelude.{
  ℕ, ◌+◌, ◌*◌, ◌%◌, ◌^◌, Option, none, some, List, [], ◌∷◌, ◌++◌, Result, ok, ◌>>=◌, deref, Dict,
  get, put, nat_key,
}
use mpaxos.Types.{Req}
use mpaxos.Dag.{dag_push, dag_getwhite}
use mpaxos.Node.{Env, Node, mpaxos_start_request}

-- A node with the counter of `gen_txn_id`, the requests in memory, and the tasks of `tp_async_`, the
-- latest at the end. The DAG holds pointers to requests; here the request's id stands for its address.
pub record Async : Type 0 where
  pub idcounter : ℕ
  pub reqs : Dict ℕ Req
  pub jobs : List Req
  pub node : Node

-- `gen_txn_id`: the node in the high half, the count in the low half. `apr_atomic_inc32` returns the
-- old value.
unfoldable pub gen_txn_id : ℕ → ℕ → ℕ × ℕ
gen_txn_id local idcounter =
    (local * 2 ^ 32 % 2 ^ 64 + idcounter % 2 ^ 32, (idcounter + 1) % 2 ^ 32)

-- `mpaxos_async_enlist`; the trace of the first group is compiled out.
unfoldable pub mpaxos_async_enlist : Req → Async → Result Async
mpaxos_async_enlist r a = do
  dag ← dag_push r.gids r.id a.node.dag
  ok (record a { reqs = put a.reqs r.id r; node = record (a.node) { dag = dag } })

-- The request that `mpaxos_commit_raw` makes.
abbrev pub raw_req : ℕ → List ℕ → List ℕ → List ℕ → Req
raw_req id gids value value_c = record {
  id = id;
  gids = gids;
  value = value;
  value_c = value_c;
  n_retry = 0;
}

-- The node after `gen_txn_id`, with the new id.
abbrev pub count_txn : Async → ℕ × Async
count_txn a =
    let (id, idcounter') = gen_txn_id a.node.view.local_nid a.idcounter in
    (id, record a { idcounter = idcounter' })

-- `mpaxos_commit_raw`
unfoldable pub mpaxos_commit_raw : List ℕ → List ℕ → List ℕ → Async → Result Async
unfolding gen_txn_id mpaxos_async_enlist
mpaxos_commit_raw gids value value_c a =
    let (id, a') = count_txn a in mpaxos_async_enlist (raw_req id gids value value_c) a'

-- The copy that `mpaxos_commit_req` makes: no group means group 1.
unfoldable pub copy_req : ℕ → Req → Req
copy_req id req = record req {
  id = id;
  n_retry = 0;
  gids = elim req.gids [ [] ↦ 1 ∷ [] | gid ∷ gids ↦ gid ∷ gids ];
}

-- `mpaxos_commit_req`
unfoldable pub mpaxos_commit_req : Req → Async → Result Async
unfolding gen_txn_id copy_req mpaxos_async_enlist
mpaxos_commit_req req a = let (id, a') = count_txn a in mpaxos_async_enlist (copy_req id req) a'

-- The daemon hands a request to the thread pool; without one it goes round again.
abbrev pub push_job : Option ℕ → Async → Result Async
push_job none a = ok a
push_job (some load) a = do
  req ← deref (get a.reqs load)
  ok (record a { jobs = a.jobs ++ req ∷ [] })

-- One turn of the loop of `mpaxos_async_daemon`, less its end by `mpaxos_async_destroy`.
unfoldable pub daemon_turn : Async → Result Async
daemon_turn a = do
  (dag, load) ← dag_getwhite a.node.dag
  push_job load (record a { node = record (a.node) { dag = dag } })

-- `async_commit_job`: the thread pool runs the first task.
unfoldable pub async_commit_job : Env → Async → Result Async
async_commit_job env a = elim a.jobs [
  | [] ↦ ok a
  | req ∷ jobs ↦ do
    node ← mpaxos_start_request env req a.node
    ok (record a { jobs = jobs; node = node })
]
