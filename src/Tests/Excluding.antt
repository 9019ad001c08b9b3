-- ===== src/Tests/Excluding.antt =====
-- A request on groups 1 and 2 that was handed out, and one on group 3 that is about to be; a client that
-- connects at the third attempt.
use mpaxos.Prelude.{
  ℕ, ◌≡◌, ◌≢◌, refl, get_elem?, true, some, List, [], ◌∷◌, arith, ok, get, put, nat_key, abort,
}
use mpaxos.Dag.{
  Dag, DagNode, gray, white, dag_create, enqueue, whiten, dag_push, dag_getwhite, getwhite_from,
}
use mpaxos.Dag.Queue
use mpaxos.Dag.Queue.{Queue}
use mpaxos.Dag.Exclusion.{Step, created, next, pushed, handed_out, in_progress_exclusive}
use mpaxos.Rpc.Buf.{buf_create}
use mpaxos.Rpc.Conn.{
  connected, connrefused, einval, other_status, Conn, client_create, client_connect,
}
use mpaxos.Rpc.Conn.Ready.{client_connect_lem}
use mpaxos.Rpc.Polling.{Events, only_in, PollMgr, poll_mgr_create}
use mpaxos.Rpc.Polling.Jobs.{IsPolled, IsMgr}
use mpaxos.Tests.Sockets.{table_pollset}
use mpaxos.Prelude.{Dict}

abbrev front : DagNode
front = record { qids = 1 ∷ 2 ∷ []; color = gray; load = 7 }

abbrev beside : DagNode
beside = record { qids = 3 ∷ []; color = white; load = 8 }

abbrev alone : ℕ → Queue
alone node = record { head = some node; queue = [] }

abbrev one : Dag
one = record {
  ht = (1, alone 1) ∷ (2, alone 1) ∷ [];
  qu = 1 ∷ [];
  nodes = (1, record { qids = 1 ∷ 2 ∷ []; color = white; load = 7 }) ∷ [];
  next = 2;
  n_push = 1;
  n_pop = 0;
}

abbrev one_out : Dag
one_out = record one { qu = []; nodes = (1, front) ∷ []; n_pop = 1 }

abbrev two : Dag
two = record one_out {
  ht = (1, alone 1) ∷ (2, alone 1) ∷ (3, alone 2) ∷ [];
  qu = 2 ∷ [];
  nodes = (1, front) ∷ (2, beside) ∷ [];
  next = 3;
  n_push = 2;
}

pushes_first : Step dag_create one
unfolding get put enqueue whiten dag_push Queue.push Queue.peek
pushes_first = pushed (1 ∷ 2 ∷ []) 7 refl

hands_out : Step one one_out
unfolding get put getwhite_from dag_getwhite
hands_out = handed_out (some 7) refl

pushes_second : Step one_out two
unfolding get put enqueue whiten dag_push Queue.push Queue.peek
pushes_second = pushed (3 ∷ []) 8 refl

in_progress_exclusive_example : get_elem? (let qids : List ℕ = 3 ∷ [] in qids) 0 ≢ some 2
unfolding get
in_progress_exclusive_example =
    in_progress_exclusive two 1 2 front beside 1 0 2
      (next (next (next created pushes_first) hands_out) pushes_second) (λ e. omega (arith, e)) refl
      refl refl refl refl

abbrev one_worker : PollMgr (Dict ℕ Events)
one_worker = poll_mgr_create 1

one_worker-IsMgr : IsMgr one_worker
one_worker-IsMgr = record { counted = refl; next = omega arith }

client_connect_lem_example :
    ((mgr' : PollMgr (Dict ℕ Events)) × (conn : Conn) × (client_connect true true
          (connrefused ∷ connrefused ∷ connected ∷ einval ∷ [])
          5
          one_worker
          client_create
        ≡ ok (mgr', conn, einval ∷ []))
      × IsPolled mgr' conn.pjob
      × (conn.pjob.fd ≡ 5)
      × (conn.pjob.worker ≡ some 0)
      × (conn.pjob.reqevents ≡ only_in)
      × (conn.buf_send ≡ buf_create)
      × (conn.buf_recv ≡ buf_create)
      × IsMgr mgr')
    × (client_connect true true
          (connrefused ∷ connrefused ∷ einval ∷ einval ∷ [])
          5
          one_worker
          client_create
        ≡ abort)
    × (client_connect true true
          (connrefused ∷ connrefused ∷ other_status ∷ einval ∷ [])
          5
          one_worker
          client_create
        ≡ abort)
unfolding put
client_connect_lem_example =
    client_connect_lem 5 one_worker [] ((5, only_in) ∷ []) one_worker-IsMgr refl refl 2
      (einval ∷ []) client_create refl
