-- ===== src/Tests/Starting.antt =====
-- A request on groups 1 and 2 of a new node, whose slots are nobody's yet, and counters of callbacks.
use mpaxos.Prelude.{arith, ◌+◌, ◌^◌, ◌≡◌, refl, [], ◌∷◌, ok, get, put, nat_key}
use mpaxos.Types.{MsgType}
use mpaxos.Recorder.{get_newest_sid}
use mpaxos.Dag.{dag_create}
use mpaxos.Node.{Packet, to_prepare, pick_slots, assign_bids}
use mpaxos.Async.{Async, gen_txn_id, mpaxos_commit_raw, daemon_turn, async_commit_job}
use mpaxos.Async.Starts.{mpaxos_commit_raw-IsStarted}
use mpaxos.Async.Counters.{LastSlots, get_last_cb_sid, add_all, get_last_cb_sid-add_all}
use mpaxos.Tests.Nodes.{env, known, node}

abbrev start : Async
start = record {
  idcounter = 1;
  reqs = [];
  jobs = [];
  node = record node { txns = []; dag = dag_create };
}

abbrev prepared : Packet
prepared = to_prepare (record {
  h = record { t = MsgType.prepare; nid = 1; tid = 2 ^ 32 + 1 };
  rids = (record { gid = 1; sid = 1; bid = 2 }) ∷ (record { gid = 2; sid = 1; bid = 2 }) ∷ [];
})

mpaxos_commit_raw-IsStarted_example :
    (a1 : Async) × (mpaxos_commit_raw (1 ∷ 2 ∷ []) (104 ∷ []) [] start ≡ ok a1)
    × (a2 : Async) × (daemon_turn a1 ≡ ok a2)
    × (a3 : Async) × (async_commit_job env a2 ≡ ok a3)
    × (a3.node.out ≡ (1, prepared) ∷ (2, prepared) ∷ [])
unfolding get put gen_txn_id pick_slots get_newest_sid assign_bids
mpaxos_commit_raw-IsStarted_example =
    mpaxos_commit_raw-IsStarted env 1 (2 ∷ []) (104 ∷ []) [] start (refl, (refl, tt))
      ((refl, tt), (tt, tt)) refl refl refl known

abbrev called : LastSlots
called = (1, 4) ∷ []

get_last_cb_sid-add_all_example : (get_last_cb_sid 1 (add_all (1 ∷ 2 ∷ 1 ∷ []) called)).0 ≡ 6
unfolding get
get_last_cb_sid-add_all_example = get_last_cb_sid-add_all 1 (1 ∷ 2 ∷ 1 ∷ []) called (omega arith)
