-- ===== src/Tests/Nodes.antt =====
-- Node 1 of two, with a transaction on slot 1 of group 1.
use mpaxos.Prelude.{
  ℕ, ◌≡◌, refl, true, false, none, some, List, [], ◌∷◌, ◌++◌, arith, ok, get, put, del, nat_key,
  All, get_elem?, drop, ap,
}
use mpaxos.Types.{
  InstId, inst_key, RoundId, inst_of, Proposal, proposal_init, CodedValue, success, err_bid,
  Response, MsgType, MsgPrepare, MsgAccept, MsgReply, Req, copy_rids, prop_copy,
}
use mpaxos.View.{View, Client, view_init, is_in_group}
use mpaxos.Recorder.{
  Flush, recorder_init, record_accepted, renew, decide_rid, decide_rids, record_decided,
}
use mpaxos.Acceptor.{
  Acceptor, get_accp_info, acceptor_forget, promise_bid, prepare_rid, prepare_rids,
  handle_msg_prepare, Store, accept_rid, accept_rids, handle_msg_accept,
}
use mpaxos.Coding.{rs_encode, read_shares, read_at, label}
use mpaxos.Dag.{
  Dag, gray, dag_create, dag_push, dag_pop, enqueue, whiten, promote, heads_all, dequeue,
}
use mpaxos.Dag.Queue
use mpaxos.Proposer.{preparing, learning, TxnInfo, prop_destroy}
use mpaxos.Node.{Env, Node, to_accept}
use mpaxos.Acceptor.History.{serve_all}
use mpaxos.Node.{shares_of, own_proposal, mpaxos_accept}
use mpaxos.Node.Broadcast.{share_packets, HasClients}
use mpaxos.Node.Accept.{mpaxos_accept_recovered, recovered_refused}
use mpaxos.Node.{
  destroy_groups, detach_txn_info, async_ready_callback, forget_old, phase_2_async_after,
}
use mpaxos.Node.{handle_msg_accepted}
use mpaxos.Node.Decided.{Reported, phase_2_async_after-Reported, late_accepted}

program : Unit {0}
unfolding get put del is_in_group copy_rids prop_copy record_accepted renew decide_rid decide_rids
    record_decided get_accp_info acceptor_forget promise_bid prepare_rid prepare_rids
    handle_msg_prepare accept_rid accept_rids handle_msg_accept rs_encode read_shares read_at label
    Queue.push Queue.peek Queue.trypop dag_push dag_pop enqueue whiten promote heads_all dequeue
    prop_destroy shares_of own_proposal destroy_groups detach_txn_info async_ready_callback
    forget_old phase_2_async_after
program = tt

-- A coder that makes four empty shares.
abbrev pub env : Env
env = record { fec = λ k n primary. [] ∷ [] ∷ [] ∷ [] ∷ []; order = λ gs. gs; garbage = 99 }

abbrev pub client : ℕ → Client
client port = record { ip = 49 ∷ []; port = port }

abbrev pub view : View
view = record view_init {
  arr_nodes = 1 ∷ 2 ∷ [];
  local_nid = 1;
  last_nid = 2;
  senders = (1, client 8001) ∷ (2, client 8002) ∷ [];
}

abbrev rid : ℕ → RoundId
rid b = record { gid = 1; sid = 1; bid = b }

abbrev req : Req
req = record { id = 7; gids = 1 ∷ []; value = 104 ∷ 105 ∷ []; value_c = []; n_retry = 0 }

abbrev txn : TxnInfo
txn = record {
  tid = 7;
  req = req;
  rids = rid 2 ∷ [];
  in_phase = preparing;
  ht_ginfo = [];
  prop_max = none;
  prop_self = none;
}

abbrev dag : Dag
dag = record dag_create {
  ht = (1, record { head = some 1; queue = [] }) ∷ [];
  nodes = (1, record { qids = 1 ∷ []; color = gray; load = 7 }) ∷ [];
  next = 2;
  n_push = 1;
  n_pop = 1;
}

abbrev old : Proposal
old = record proposal_init { rids = rid 1 ∷ []; nid = 2; value = 111 ∷ [] }

abbrev accepts_raised : Acceptor
accepts_raised =
    let i : InstId = inst_of (rid 2) in
    (i, record { iid = i; bid_max = 2; arr_prop = prop_copy old ∷ [] }) ∷ []

abbrev pub node : Node
node = record {
  view = view;
  flush = Flush.async;
  store = record { accp = []; rec = recorder_init };
  txns = (7, txn) ∷ [];
  heap = record { next = 6; blocks = (5, old) ∷ [] };
  dag = dag;
  cb_god = true;
  out = [];
  called = [];
}

abbrev share : ℕ → List ℕ → CodedValue
share i value = record { sz = 2; k = 1; n = 5; id = i; value = value }

abbrev others : List CodedValue
others = share 1 [] ∷ share 2 [] ∷ share 3 [] ∷ share 4 [] ∷ []

coded : shares_of env req ≡ ok (share 0 (104 ∷ 105 ∷ []) ∷ others)
unfolding program
coded = refl

pub known : HasClients view (1 ∷ 2 ∷ [])
unfolding program
known = ((refl, client 8001, refl), ((refl, client 8002, refl), tt))

mpaxos_accept_recovered_example :
    (s' : Node) × (mpaxos_accept env (record txn { prop_max = some 5 }) node ≡ ok s')
    × (s'.out ≡ [] ++ share_packets 1 7 old (1 ∷ 2 ∷ []) (share 0 (104 ∷ 105 ∷ []) ∷ others))
unfolding program
mpaxos_accept_recovered_example =
    mpaxos_accept_recovered env (record txn { prop_max = some 5 }) node (share 0 (104 ∷ 105 ∷ []))
      others 5 old (rid 1) refl refl refl coded known (omega arith)

abbrev resent : MsgAccept
resent = record {
  h = record { t = MsgType.accept; nid = 1; tid = 7 };
  prop = record old { coded_value = some (share 0 (104 ∷ 105 ∷ [])) };
}

-- A node that had accepted the old proposal promises ballot 2.
abbrev asked : MsgPrepare
asked = record { h = record { t = MsgType.prepare; nid = 1; tid = 7 }; rids = rid 2 ∷ [] }

abbrev accepts_old : Acceptor
accepts_old =
    let i : InstId = inst_of (rid 1) in
    (i, record { iid = i; bid_max = 1; arr_prop = prop_copy old ∷ [] }) ∷ []

abbrev yes : Response
yes = record { rid = rid 2; ack = success; props = prop_copy old ∷ [] }

abbrev promise_reply : MsgReply
promise_reply = record { h = record { t = MsgType.promise; nid = 2; tid = 7 }; ress = yes ∷ [] }

promises : handle_msg_prepare 2 asked accepts_old ≡ ok (accepts_raised, promise_reply)
unfolding program
promises = refl

abbrev old_store : Store
old_store = record { accp = accepts_old; rec = recorder_init }

abbrev promised_store : Store
promised_store = record { accp = accepts_raised; rec = recorder_init }

abbrev refusal : Response
refusal = record { rid = rid 1; ack = err_bid; props = [] }

abbrev reply : MsgType → MsgReply
reply t = record { h = record { t = t; nid = 2; tid = 7 }; ress = refusal ∷ [] }

resent_refused :
    handle_msg_accept Flush.async 2 resent promised_store
    ≡ ok (promised_store, reply MsgType.accepted)
unfolding program
resent_refused = refl

abbrev recovering : TxnInfo
recovering = record txn { prop_max = some 5 }

resends :
    (s' : Node) × (mpaxos_accept env recovering node ≡ ok s')
    × (get_elem? (drop 0 s'.out) 0 ≡ some (1, to_accept resent))
unfolding program
resends =
    let (s', run, out) =
      mpaxos_accept_recovered env recovering node (share 0 (104 ∷ 105 ∷ [])) others 5 old (rid 1)
        refl refl refl coded known (omega arith) in
    (s', run, ap (λ l. get_elem? l 0) out)

recovered_refused_example : All (λ r. r.ack ≡ err_bid) (reply MsgType.accepted).ress
unfolding program serve_all
recovered_refused_example =
    recovered_refused env recovering node (share 0 (104 ∷ 105 ∷ [])) others 5 old (rid 1) resends.0
      0 1 resent Flush.async 2 asked [] old_store promised_store promised_store accepts_raised
      promise_reply (reply MsgType.accepted) 0 yes refl refl refl coded known (omega arith)
      resends.1 resends.2 promises refl refl refl (omega arith) refl resent_refused

-- The transaction in phase 2, with its own proposal at address 5.
abbrev own : TxnInfo
own = record txn { in_phase = learning; prop_self = some 5 }

abbrev after : Node
after = record node {
  store = record {
    accp = [];
    rec = record {
      values = [];
      decided = (inst_of (rid 1), 1) ∷ [];
      newest = (1, record { sid = 2; is_me = false }) ∷ [];
    };
  };
  txns = [];
  heap = record { next = 6; blocks = [] };
  dag = record dag { ht = (1, record { head = none; queue = [] }) ∷ []; nodes = [] };
  called = 7 ∷ [];
}

decided : phase_2_async_after own node ≡ ok after
unfolding program
decided = refl

phase_2_async_after-Reported_example : Reported own node after
phase_2_async_after-Reported_example = phase_2_async_after-Reported own node after decided

late_accepted_example : handle_msg_accepted env (reply MsgType.accepted) after ≡ ok after
late_accepted_example =
    late_accepted env own node after (reply MsgType.accepted) decided refl (ground arith) refl
