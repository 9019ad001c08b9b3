-- ===== src/Tests/Accepting.antt =====
-- An acceptor that serves the messages of two proposers in slot 1 of group 1.
use mpaxos.Prelude.{ℕ, ◌≡◌, refl, true, none, List, [], ◌∷◌, ◌++◌, arith, ok, get, put, nat_key}
use mpaxos.Types.{
  InstId, inst_key, RoundId, inst_of, Proposal, prop_copy, copy_rids, Ack, success, err_bid,
  Response, Header, MsgType, MsgPrepare, MsgAccept, MsgReply,
}
use mpaxos.View.{is_in_group}
use mpaxos.Recorder.{Flush, recorder_init, record_accepted}
use mpaxos.Acceptor.{
  Acceptor, get_accp_info, promise_bid, prepare_rid, prepare_rids, handle_msg_prepare, Store,
  accept_rid, accept_rids, handle_msg_accept,
}
use mpaxos.Acceptor.Views.{Extends}
use mpaxos.Acceptor.Promises.{Prepared}
use mpaxos.Acceptor.Accepts.{Accepted}
use mpaxos.Acceptor.Answers.{handle_msg_prepare_lem, handle_msg_accept_lem}
use mpaxos.Acceptor.History.{
  prep, serve, serve_all, serve_all-Extends, promise_binds, accepted_reported,
}

program : Unit {0}
unfolding get put is_in_group copy_rids prop_copy record_accepted get_accp_info promise_bid
    prepare_rid prepare_rids handle_msg_prepare accept_rid accept_rids handle_msg_accept serve
    serve_all
program = tt

abbrev pub rid : ℕ → RoundId
rid b = record { gid = 1; sid = 1; bid = b }

abbrev head : MsgType → Header
head t = record { t = t; nid = 1; tid = 7 }

abbrev pub prepare : ℕ → MsgPrepare
prepare b = record { h = head MsgType.prepare; rids = rid b ∷ [] }

abbrev pub prop : ℕ → Proposal
prop b = record {
  rids = rid b ∷ [];
  tid = 7;
  nid = 1;
  has_value = true;
  value = 104 ∷ 105 ∷ [];
  coded_value = none;
}

abbrev pub accept : ℕ → MsgAccept
accept b = record { h = head MsgType.accept; prop = prop b }

abbrev pub slot : ℕ → List Proposal → Acceptor
slot b props =
    let i : InstId = inst_of (rid b) in (i, record { iid = i; bid_max = b; arr_prop = props }) ∷ []

abbrev pub store : Acceptor → Store
store a = record { accp = a; rec = recorder_init }

abbrev pub answer : ℕ → Ack → List Proposal → Response
answer b ack props = record { rid = rid b; ack = ack; props = props }

abbrev reply : MsgType → Response → MsgReply
reply t q = record { h = record { t = t; nid = 2; tid = 7 }; ress = q ∷ [] }

first_promise :
    handle_msg_prepare 2 (prepare 5) []
    ≡ ok (slot 5 [], reply MsgType.promise (answer 5 success []))
unfolding program
first_promise = refl

smaller_refused :
    handle_msg_accept Flush.async 2 (accept 3) (store (slot 6 []))
    ≡ ok (store (slot 6 []), reply MsgType.accepted (answer 3 err_bid []))
unfolding program
smaller_refused = refl

first_accept :
    handle_msg_accept Flush.async 2 (accept 5) (store (slot 5 []))
    ≡ ok (store (slot 5 (prop_copy (prop 5) ∷ [])), reply MsgType.accepted (answer 5 success []))
unfolding program
first_accept = refl

raised :
    serve_all Flush.async 2 (prep (prepare 6) ∷ prep (prepare 4) ∷ []) (store (slot 5 []))
    ≡ ok (store (slot 6 []))
unfolding program
raised = refl

raised_after :
    serve_all Flush.async 2 (prep (prepare 6) ∷ []) (store (slot 5 (prop_copy (prop 5) ∷ [])))
    ≡ ok (store (slot 6 (prop_copy (prop 5) ∷ [])))
unfolding program
raised_after = refl

second_promise :
    handle_msg_prepare 2 (prepare 8) (slot 6 (prop_copy (prop 5) ∷ []))
    ≡ ok (
      slot 8 (prop_copy (prop 5) ∷ []),
      reply MsgType.promise (answer 8 success (prop_copy (prop 5) ∷ [])),
    )
unfolding program
second_promise = refl

promise_binds_example : (answer 3 err_bid []).ack ≡ err_bid
promise_binds_example =
    promise_binds Flush.async 2 (prepare 5) (prep (prepare 6) ∷ prep (prepare 4) ∷ []) (accept 3)
      (store []) (slot 5 []) (store (slot 6 [])) (store (slot 6 []))
      (reply MsgType.promise (answer 5 success [])) (reply MsgType.accepted (answer 3 err_bid [])) 0
      0 (answer 5 success []) (answer 3 err_bid []) first_promise refl refl raised smaller_refused
      refl refl (omega arith)

accepted_reported_example :
    (before : List Proposal) × (after : List Proposal) × (prop_copy (prop 5) ∷ []
      ≡ before ++ (prop_copy (prop 5) ∷ after))
accepted_reported_example =
    accepted_reported Flush.async 2 (accept 5) (prep (prepare 6) ∷ []) (prepare 8)
      (store (slot 5 [])) (store (slot 5 (prop_copy (prop 5) ∷ [])))
      (store (slot 6 (prop_copy (prop 5) ∷ []))) (slot 8 (prop_copy (prop 5) ∷ []))
      (reply MsgType.accepted (answer 5 success []))
      (reply MsgType.promise (answer 8 success (prop_copy (prop 5) ∷ []))) 0 0 (answer 5 success [])
      (answer 8 success (prop_copy (prop 5) ∷ [])) first_accept refl refl raised_after
      second_promise refl refl

handle_msg_prepare_lem_example :
    (b : Acceptor) × (rep : MsgReply) × (handle_msg_prepare 2 (prepare 5) [] ≡ ok (b, rep))
    × Prepared (rid 5 ∷ []) [] b rep.ress
unfolding program
handle_msg_prepare_lem_example =
    handle_msg_prepare_lem 2 (prepare 5) [] refl (tt, tt) (ground arith, tt)

handle_msg_accept_lem_example :
    (s' : Store) × (rep : MsgReply) × (handle_msg_accept Flush.async 2
        (accept 3)
        (store (slot 6 []))
      ≡ ok (s', rep))
    × Accepted (prop 3) (rid 3 ∷ []) (slot 6 []) s'.accp rep.ress
handle_msg_accept_lem_example =
    handle_msg_accept_lem Flush.async 2 (accept 3) (store (slot 6 [])) refl

serve_all-Extends_example : Extends (slot 5 []) (slot 6 [])
serve_all-Extends_example =
    serve_all-Extends Flush.async 2 (prep (prepare 6) ∷ prep (prepare 4) ∷ []) (store (slot 5 []))
      (store (slot 6 [])) raised
