-- ===== src/Tests/Counting.antt =====
-- Node 1 of three counts the answer of node 2, in either phase.
use mpaxos.Prelude.{
  ℕ, ◌≡◌, refl, true, none, List, [], ◌∷◌, arith, ok, get, put, put-AllEntries, nat_key,
}
use mpaxos.Types.{RoundId, Ack, success, err_bid, MsgType, MsgReply, Req}
use mpaxos.View.{view_init, get_group_size}
use mpaxos.Recorder.{Flush, recorder_init}
use mpaxos.Dag.{dag_create}
use mpaxos.Proposer.{
  GroupInfo, TxnInfo, Phase, preparing, accepting, check_counts, check_majority, count_promise,
  count_accepted, see_props, on_response, on_responses,
}
use mpaxos.Proposer.Quorum.{AllTallied}
use mpaxos.Node.{
  Env, Node, group_table, txn_info_create, verdict, promised, handle_msg_promise, accepted_by,
  handle_msg_accepted,
}
use mpaxos.Node.Tallied.{NodeTallied, txn_info_create-AllTallied}
use mpaxos.Node.Counting.{handle_msg_promise-NodeTallied, handle_msg_accepted-NodeTallied}

program : Unit {0}
unfolding get put get_group_size check_counts check_majority count_promise count_accepted see_props
    on_response on_responses group_table txn_info_create verdict promised handle_msg_promise
    accepted_by handle_msg_accepted
program = tt

abbrev nodes : List ℕ
nodes = 1 ∷ 2 ∷ 3 ∷ []

abbrev env : Env
env = record { fec = λ k n primary. []; order = λ gs. gs; garbage = 0 }

abbrev rid : RoundId
rid = record { gid = 1; sid = 1; bid = 2 }

abbrev req : Req
req = record { id = 7; gids = 1 ∷ []; value = 104 ∷ []; value_c = []; n_retry = 0 }

abbrev new_txn : Phase → TxnInfo
new_txn phase = record (txn_info_create (rid ∷ []) req) { in_phase = phase }

abbrev node : TxnInfo → Node
node t = record {
  view = record view_init { arr_nodes = nodes; local_nid = 1; last_nid = 3 };
  flush = Flush.mem;
  store = record { accp = []; rec = recorder_init };
  txns = (7, t) ∷ [];
  heap = record { next = 1; blocks = [] };
  dag = dag_create;
  cb_god = true;
  out = [];
  called = [];
}

abbrev reply : MsgType → Ack → MsgReply
reply t ack = record {
  h = record { t = t; nid = 2; tid = 7 };
  ress = (record { rid = rid; ack = ack; props = [] }) ∷ [];
}

abbrev group : GroupInfo
group = record {
  tid = 7;
  gid = 1;
  sid = 1;
  bid = 2;
  ht_prom = [];
  ht_accd = [];
  n_promises_yes = 0;
  n_promises_no = 0;
  n_accepteds_yes = 0;
  n_accepteds_no = 0;
  max_prop = none;
}

abbrev counted : Phase → GroupInfo → TxnInfo
counted phase g = record (new_txn phase) { ht_ginfo = (1, g) ∷ [] }

abbrev promise_counted : Node
promise_counted =
    node (counted preparing (record group { ht_prom = (2, success) ∷ []; n_promises_yes = 1 }))

abbrev refusal_counted : Node
refusal_counted =
    node (counted accepting (record group { ht_accd = (2, err_bid) ∷ []; n_accepteds_no = 1 }))

new-NodeTallied : (phase : Phase) → NodeTallied (node (new_txn phase))
unfolding program
new-NodeTallied phase =
    put-AllEntries (AllTallied nodes) [] 7 (new_txn phase) (λ k t e. absurd (cc))
      (txn_info_create-AllTallied nodes (rid ∷ []) req)

promise_runs :
    handle_msg_promise env (reply MsgType.promise success) (node (new_txn preparing))
    ≡ ok promise_counted
unfolding program
promise_runs = refl

accepted_runs :
    handle_msg_accepted env (reply MsgType.accepted err_bid) (node (new_txn accepting))
    ≡ ok refusal_counted
unfolding program
accepted_runs = refl

handle_msg_promise-NodeTallied_example : NodeTallied promise_counted
handle_msg_promise-NodeTallied_example =
    handle_msg_promise-NodeTallied env (reply MsgType.promise success) (node (new_txn preparing))
      promise_counted (omega arith) refl (new-NodeTallied preparing) promise_runs

handle_msg_accepted-NodeTallied_example : NodeTallied refusal_counted
handle_msg_accepted-NodeTallied_example =
    handle_msg_accepted-NodeTallied env (reply MsgType.accepted err_bid) (node (new_txn accepting))
      refusal_counted (omega arith) refl (new-NodeTallied accepting) accepted_runs
