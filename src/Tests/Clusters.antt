-- ===== src/Tests/Clusters.antt =====
-- Three nodes, of which 1 and 2 answer: a request of node 1 is prepared, accepted and decided.
use mpaxos.Prelude.{
  ℕ, ◌<◌, ◌≡◌, refl, sym, ◌∙◌, inl, inr, true, none, some, List, [], ◌∷◌, ◌++◌, In, arith, Result,
  fault, abort, ok, get, put, del, nat_key,
}
use mpaxos.Types.{
  success, InstId, inst_key, RoundId, proposal_init, MsgType, MsgPrepare, MsgAccept, MsgReply, Req,
  copy_rids, prop_copy,
}
use mpaxos.View.{view_init, is_in_group, get_group_size, get_view}
use mpaxos.Recorder.{
  Flush, recorder_init, get_newest_sid, record_accepted, renew, decide_rid, decide_rids,
  record_decided,
}
use mpaxos.Acceptor.{
  get_accp_info, acceptor_forget, promise_bid, prepare_rid, prepare_rids, handle_msg_prepare,
  accept_rid, accept_rids, handle_msg_accept,
}
use mpaxos.Coding.{rs_encode, read_shares, read_at, label}
use mpaxos.Dag.{Dag, gray, dag_create, dag_pop, promote, heads_all, dequeue}
use mpaxos.Dag.Queue
use mpaxos.Proposer.{
  GroupInfo, TxnInfo, accepting, check_counts, check_majority, count_promise, count_accepted,
  see_props, on_response, on_responses, prop_destroy,
}
use mpaxos.Node.{
  Node, send_to, send_all, send_to_groups, broadcast_msg_prepare, mpaxos_prepare, send_shares,
  broadcast_msg_accept_c, own_proposal, choose_from, shares_of, accept_with, mpaxos_accept,
  destroy_groups, detach_txn_info, async_ready_callback, forget_old, phase_2_async_after, verdict,
  promised, handle_msg_promise, accepted_by, handle_msg_accepted, on_prepare, on_accept, on_promise,
  on_accepted, group_table, txn_info_create, pick_slots, assign_bids, mpaxos_start_request,
}
use mpaxos.Cluster.{
  Cluster, update, winner, Step, starts, prepares, accepts, hears_promise, hears_accepted, IsNew,
  Reach, begins, later,
}
use mpaxos.Cluster.Origins.{requests, HaveOwnIds}
use mpaxos.Cluster.Agreement.{IsIn, IsOwnIn, agreement, decided_stays}
use mpaxos.Tests.Nodes.{env, client}

program : Unit {0}
unfolding get put del copy_rids prop_copy is_in_group get_group_size get_view get_newest_sid
    record_accepted renew decide_rid decide_rids record_decided get_accp_info acceptor_forget
    promise_bid prepare_rid prepare_rids handle_msg_prepare accept_rid accept_rids handle_msg_accept
    rs_encode read_shares read_at label dag_pop promote heads_all dequeue Queue.push Queue.peek
    Queue.trypop check_counts check_majority count_promise count_accepted see_props on_response
    on_responses prop_destroy send_to send_all send_to_groups broadcast_msg_prepare mpaxos_prepare
    send_shares broadcast_msg_accept_c own_proposal choose_from shares_of accept_with mpaxos_accept
    destroy_groups detach_txn_info async_ready_callback forget_old phase_2_async_after verdict
    promised handle_msg_promise accepted_by handle_msg_accepted on_prepare on_accept on_promise
    on_accepted group_table txn_info_create pick_slots assign_bids mpaxos_start_request
program = tt

abbrev members : List ℕ
members = 1 ∷ 2 ∷ 3 ∷ []

abbrev slot : InstId
slot = record { gid = 1; sid = 1 }

abbrev rid : RoundId
rid = record { gid = 1; sid = 1; bid = 2 }

abbrev req : Req
req = record { id = 7; gids = 1 ∷ []; value = 104 ∷ 105 ∷ []; value_c = []; n_retry = 0 }

abbrev dag : Dag
dag = record dag_create {
  ht = (1, record { head = some 1; queue = [] }) ∷ [];
  nodes = (1, record { qids = 1 ∷ []; color = gray; load = 7 }) ∷ [];
  next = 2;
  n_push = 1;
  n_pop = 1;
}

abbrev fresh : ℕ → Node
fresh k = record {
  view = record view_init {
    arr_nodes = members;
    local_nid = k;
    last_nid = 3;
    senders = (1, client 8001) ∷ (2, client 8002) ∷ (3, client 8003) ∷ [];
  };
  flush = Flush.async;
  store = record { accp = []; rec = recorder_init };
  txns = [];
  heap = record { next = 1; blocks = [] };
  dag = dag;
  cb_god = true;
  out = [];
  called = [];
}

abbrev after : Result Node → Node
after fault = fresh 0
after abort = fresh 0
after (ok w) = w

abbrev c0 : Cluster
c0 = record { node = fresh; sent = []; decided = [] }

abbrev goes : Cluster → ℕ → Result Node → Cluster
goes c k r = record c { node = update c.node k (after r) }

abbrev answers : Cluster → ℕ → Result (Node × MsgReply) → Cluster
answers c k fault = c
answers c k abort = c
answers c k (ok (w, rep)) = record c { node = update c.node k w; sent = rep ∷ c.sent }

abbrev prepare : MsgPrepare
prepare = record { h = record { t = MsgType.prepare; nid = 1; tid = 7 }; rids = rid ∷ [] }

abbrev accept : MsgAccept
accept = record {
  h = record { t = MsgType.accept; nid = 1; tid = 7 };
  prop = record proposal_init { rids = rid ∷ []; nid = 1; value = 104 ∷ 105 ∷ [] };
}

abbrev reply : MsgType → ℕ → MsgReply
reply t k = record {
  h = record { t = t; nid = k; tid = 7 };
  ress = (record { rid = rid; ack = success; props = [] }) ∷ [];
}

abbrev c1 : Cluster
c1 = goes c0 1 (mpaxos_start_request env req (c0.node 1))

abbrev c2 : Cluster
c2 = answers c1 1 (on_prepare prepare (c1.node 1))

abbrev c3 : Cluster
c3 = answers c2 2 (on_prepare prepare (c2.node 2))

abbrev c4 : Cluster
c4 = goes c3 1 (on_promise env (reply MsgType.promise 1) (c3.node 1))

abbrev c5 : Cluster
c5 = goes c4 1 (on_promise env (reply MsgType.promise 2) (c4.node 1))

abbrev c6 : Cluster
c6 = answers c5 1 (on_accept accept (c5.node 1))

abbrev c7 : Cluster
c7 = answers c6 2 (on_accept accept (c6.node 2))

starts_one : Step env members slot c0 c1
unfolding program
starts_one = starts 1 req (c1.node 1) refl

prepares_one : Step env members slot c1 c2
unfolding program
prepares_one = prepares 1 prepare (c2.node 1) (reply MsgType.promise 1) refl refl

prepares_two : Step env members slot c2 c3
unfolding program
prepares_two = prepares 2 prepare (c3.node 2) (reply MsgType.promise 2) refl refl

hears_one : Step env members slot c3 c4
unfolding program
hears_one = hears_promise 1 (reply MsgType.promise 1) (c4.node 1) (inr (inl refl)) refl

hears_two : Step env members slot c4 c5
unfolding program
hears_two = hears_promise 1 (reply MsgType.promise 2) (c5.node 1) (inl refl) refl

accepts_one : Step env members slot c5 c6
unfolding program
accepts_one = accepts 1 accept (c6.node 1) (reply MsgType.accepted 1) refl refl

accepts_two : Step env members slot c6 c7
unfolding program
accepts_two = accepts 2 accept (c7.node 2) (reply MsgType.accepted 2) refl refl

abbrev decides : Cluster → ℕ → MsgReply → Cluster
decides c k m = record c {
  node = update c.node k (after (on_accepted env m (c.node k)));
  decided = winner env m (c.node k) ++ c.decided;
}

abbrev c8 : Cluster
c8 = decides c7 1 (reply MsgType.accepted 1)

abbrev c9 : Cluster
c9 = decides c8 1 (reply MsgType.accepted 2)

first_yes : Step env members slot c7 c8
unfolding program
first_yes = hears_accepted 1 (reply MsgType.accepted 1) (c8.node 1) (inr (inl refl)) refl refl

second_yes : Step env members slot c8 c9
unfolding program
second_yes = hears_accepted 1 (reply MsgType.accepted 2) (c9.node 1) (inl refl) refl refl

run : Reach env members slot c9
run =
    later
      (later
        (later
          (later
            (later
              (later (later (later (later (begins c0 new) starts_one) prepares_one) prepares_two)
                hears_one)
              hears_two)
            accepts_one)
          accepts_two)
        first_yes)
      second_yes
  where
    new : IsNew members c0
    new = record {
      local = λ k. refl;
      nodes = λ k. refl;
      txns = λ k. refl;
      sent = refl;
      decided = refl;
    }

abbrev group : GroupInfo
group = record {
  tid = 7;
  gid = 1;
  sid = 1;
  bid = 2;
  ht_prom = (1, success) ∷ (2, success) ∷ [];
  ht_accd = (1, success) ∷ (2, success) ∷ [];
  n_promises_yes = 2;
  n_promises_no = 0;
  n_accepteds_yes = 2;
  n_accepteds_no = 0;
  max_prop = none;
}

abbrev won : TxnInfo
won = record {
  tid = 7;
  req = req;
  rids = rid ∷ [];
  in_phase = accepting;
  ht_ginfo = (1, group) ∷ [];
  prop_max = none;
  prop_self = some 1;
}

won_place : IsIn slot won
unfolding program
won_place = record { group = group; gid = 1; there = refl; of_slot = refl }

won-IsOwnIn : IsOwnIn members slot won
unfolding program won_place
won-IsOwnIn = record { place = won_place; prepared = refl; own = refl }

won_there : In won c9.decided
unfolding program
won_there = inl refl

own_ids : HaveOwnIds (requests run)
unfolding run second_yes first_yes accepts_two accepts_one hears_two hears_one prepares_two
    prepares_one starts_one
own_ids r r' (inl e) (inl e') same = e ∙ sym e'
own_ids r r' (inl e) (inr there) same = absurd there
own_ids r r' (inr there) there' same = absurd there

agreement_example : (won.tid ≡ won.tid) × (won.req ≡ won.req)
agreement_example =
    agreement env members slot c9 won won (omega arith) (λ gs g there. there) run won_there
      won_there own_ids won-IsOwnIn won-IsOwnIn

decided_stays_example : ¬ (won_place.group.bid < won-IsOwnIn.place.group.bid)
decided_stays_example =
    decided_stays env members slot c9 won won (omega arith) (λ gs g there. there) run won_there
      won_there won_place won-IsOwnIn

-- The callback of the request ran once.
called_once : (c9.node 1).called ≡ 7 ∷ []
unfolding program
called_once = refl
