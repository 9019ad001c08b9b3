-- ===== src/Node/Counting.antt =====
-- The counts of a node are right: `handle_msg_promise` and `handle_msg_accepted` of
-- libmpaxos/proposer.c, message by message.
use mpaxos.Prelude.{◌^◌, ◌<◌, ◌≡◌, sym, subst, ok, AllEntries, nat_key, length}
use mpaxos.Types.{MsgReply}
use mpaxos.Proposer.Tally.{IsOnce}
use mpaxos.Proposer.Quorum.{AllTallied, on_promise-AllTallied, on_accepted-AllTallied}
use mpaxos.Node.Defs.{Env, Node}
use mpaxos.Node.Handlers.{handle_msg_promise, handle_msg_accepted}
use mpaxos.Node.Txns.{handle_msg_promise-Carried, handle_msg_accepted-AllAt}
use mpaxos.Node.Tallied.{NodeTallied}

module _ (env : Env) (m : MsgReply) (s s' : Node) (fits : length s.view.arr_nodes < 2 ^ 32)
    (once : IsOnce m.h.nid s.view.arr_nodes) (all : NodeTallied s) where
  -- In a view of fewer than 2^32 nodes, if in every transaction of the node the counts of every group
  -- are the numbers of nodes that said yes and no, then so they are after a promise from a node that is
  -- in the view once, with all that it sets off, if the handler returns.
  pub handle_msg_promise-NodeTallied : handle_msg_promise env m s ≡ ok s' → NodeTallied s'
  handle_msg_promise-NodeTallied e =
      let nodes = s.view.arr_nodes in
      let c =
        handle_msg_promise-Carried (λ k. AllTallied nodes) (λ t phase self here. here) env m s s'
          all
          (λ t t' h hit here.
            on_promise-AllTallied nodes fits m.h.nid once m.ress t t' s.heap h here)
          e in
      subst (λ l. AllEntries (AllTallied l) s'.txns) (sym c.view.nodes) c.txns

  -- In a view of fewer than 2^32 nodes, if in every transaction of the node the counts of every group
  -- are the numbers of nodes that said yes and no, then so they are after an accepted message from a
  -- node that is in the view once, with all that it sets off, if the handler returns.
  pub handle_msg_accepted-NodeTallied : handle_msg_accepted env m s ≡ ok s' → NodeTallied s'
  handle_msg_accepted-NodeTallied e =
      let nodes = s.view.arr_nodes in
      let (txns, view) =
        handle_msg_accepted-AllAt (λ k. AllTallied nodes) (λ t phase self here. here) env m s s' all
          (λ t t' h hit here.
            on_accepted-AllTallied nodes fits m.h.nid once m.ress t t' s.heap h here)
          e in
      subst (λ l. AllEntries (AllTallied l) s'.txns) (sym view.nodes) txns
