-- ===== src/Node/Accept.antt =====
-- `mpaxos_accept` of libmpaxos/proposer.c: a transaction's own proposal, a recovered one, and a
-- request on several groups.
use mpaxos.Prelude.{
  ℕ, zero, suc, ◌≤◌, ◌<◌, ◌≡◌, ◌≢◌, refl, sym, ap, ◌∙◌, false, none, some, List, [], ◌∷◌, ◌++◌,
  arith, ◌==◌, ok, abort, get, put, get-put_self, nat_key, length, get_elem?, drop, drop-append,
  ok-injective, All, map, some-injective,
}
use mpaxos.Types.{
  RoundId, inst_of, Proposal, CodedValue, Response, err_bid, success, MsgPrepare, MsgAccept,
  MsgReply,
}
use mpaxos.Recorder.{Flush}
use mpaxos.Acceptor.{Acceptor, Store, handle_msg_prepare, handle_msg_accept}
use mpaxos.Acceptor.Accepts.{handle_msg_accept-Accepted}
use mpaxos.Acceptor.History.{Msg, serve_all, promise_binds}
use mpaxos.Proposer.{accepting, TxnInfo}
use mpaxos.Node.Defs.{Env, Packet, to_prepare, to_accept, Node}
use mpaxos.Node.Send.{
  own_proposal, broadcast_msg_accept_c, choose_from, accept_with, shares_of, mpaxos_accept,
}
use mpaxos.Node.Broadcast.{share_packets, HasClients, broadcast_sends}

module _ (env : Env) (t : TxnInfo) (s : Node) (cv : CodedValue) (cvs : List CodedValue) where
  -- With a proposal of one round to recover, a coder that gives a share for each node of the view (and at
  -- least one), and nodes that have clients and numbers other than 0: `mpaxos_accept` returns, and every
  -- node is sent that proposal under its own, older round, but with a share of the value of the
  -- transaction's own request.
  pub mpaxos_accept_recovered :
      (a : ℕ) (p : Proposal) (rid : RoundId)
      → t.prop_max ≡ some a
      → get s.heap.blocks a ≡ some p
      → p.rids ≡ rid ∷ []
      → shares_of env t.req ≡ ok (cv ∷ cvs)
      → HasClients s.view s.view.arr_nodes
      → length s.view.arr_nodes ≤ length (cv ∷ cvs)
      → (s' : Node) × (mpaxos_accept env t s ≡ ok s')
        × (s'.out ≡ s.out ++ share_packets s.view.local_nid t.tid p s.view.arr_nodes (cv ∷ cvs))
  unfolding mpaxos_accept choose_from accept_with
  mpaxos_accept_recovered a p rid best live one coded known enough =
      let t' : TxnInfo = record t { in_phase = accepting } in
      let s1 : Node = record s { txns = put s.txns t.tid t' } in
      let (s', run, post) = broadcast_sends env t' a cv cvs p rid s1 live one known enough in
      (s', ap (λ o. accept_with env (choose_from o t' s)) best ∙ rw coded run, post.out)

packet_rids : Packet → List RoundId
packet_rids (to_accept m) = m.prop.rids
packet_rids (to_prepare m) = m.rids

share_rids :
    (from tid : ℕ) (p : Proposal) (nids : List ℕ) (cvs : List CodedValue) (k : ℕ) {nid : ℕ}
    {m : MsgAccept}
    → get_elem? (share_packets from tid p nids cvs) k ≡ some (nid, to_accept m)
    → m.prop.rids ≡ p.rids
unfolding packet_rids
share_rids from tid p [] cvs k at = absurd (cc)
share_rids from tid p (nid ∷ nids) [] k at = absurd (cc)
share_rids from tid p (nid ∷ nids) (cv ∷ cvs) zero at =
    sym (ap (λ e. packet_rids e.1) (some-injective _ _ at))
share_rids from tid p (nid ∷ nids) (cv ∷ cvs) (suc k) at = share_rids from tid p nids cvs k at

one_answer :
    (rid : RoundId) (ress : List Response)
    → map (λ q. q.rid) ress ≡ rid ∷ []
    → ((r : Response) → get_elem? ress 0 ≡ some r → r.rid ≡ rid → r.ack ≡ err_bid)
    → All (λ r. r.ack ≡ err_bid) ress
one_answer rid [] e refused = absurd (cc)
one_answer rid (r ∷ []) e refused = (refused r refl cc, tt)
one_answer rid (r ∷ r' ∷ rs) e refused = absurd (cc)

-- `mpaxos_accept` returned, with a proposal of one round to recover, a coder that gives a share for each
-- node of the view, and nodes that have clients and numbers other than 0. A node had said yes to a
-- prepare of the round's slot under a larger ballot than the round's: whatever it served since, it
-- answers the accept message that was sent with nothing but no.
pub recovered_refused :
    (env : Env) (t : TxnInfo) (s : Node) (cv : CodedValue) (cvs : List CodedValue) (a : ℕ)
    (p : Proposal) (rid : RoundId) (s' : Node) (k nid : ℕ) (m : MsgAccept) (flush : Flush)
    (local : ℕ) (asked : MsgPrepare) (ms : List Msg) (s0 u v : Store) (b : Acceptor)
    (rep rep' : MsgReply) (n : ℕ) (q : Response)
    → t.prop_max ≡ some a
    → get s.heap.blocks a ≡ some p
    → p.rids ≡ rid ∷ []
    → shares_of env t.req ≡ ok (cv ∷ cvs)
    → HasClients s.view s.view.arr_nodes
    → length s.view.arr_nodes ≤ length (cv ∷ cvs)
    → mpaxos_accept env t s ≡ ok s'
    → get_elem? (drop (length s.out) s'.out) k ≡ some (nid, to_accept m)
    → handle_msg_prepare local asked s0.accp ≡ ok (b, rep)
    → get_elem? rep.ress n ≡ some q
    → q.ack ≡ success
    → inst_of rid ≡ inst_of q.rid
    → rid.bid < q.rid.bid
    → serve_all flush local ms (record s0 { accp = b }) ≡ ok u
    → handle_msg_accept flush local m u ≡ ok (v, rep')
    → All (λ r. r.ack ≡ err_bid) rep'.ress
recovered_refused env t s cv cvs a p rid s' k nid m flush local asked ms s0 u v b rep rep' n q best
      live one coded known enough run at promised there yes_q slot less served answered =
    let (s1, run1, out) =
      mpaxos_accept_recovered env t s cv cvs a p rid best live one coded known enough in
    let packets = share_packets s.view.local_nid t.tid p s.view.arr_nodes (cv ∷ cvs) in
    let sent : drop (length s.out) s'.out ≡ packets =
      ap (λ x. drop (length s.out) x.out) (ok-injective (sym run ∙ run1))
      ∙ ap (drop (length s.out)) out
      ∙ drop-append s.out packets in
    let rids : m.prop.rids ≡ p.rids =
      share_rids s.view.local_nid t.tid p s.view.arr_nodes (cv ∷ cvs) k
        (ap (λ l. get_elem? l k) (sym sent) ∙ at) in
    one_answer rid rep'.ress
      ((handle_msg_accept-Accepted flush local m u answered).answers ∙ rids ∙ one)
      (λ r at_r same.
        promise_binds flush local asked ms m s0 b u v rep rep' n 0 q r promised there yes_q served
          answered at_r (ap inst_of same ∙ slot) (omega (arith, ap (λ x. x.bid) same, less)))

-- If the value of a request is coded and there is nothing to recover, a request on several groups, or
-- on none, stops the process when it reaches `mpaxos_accept`.
mpaxos_accept_many :
    (env : Env) (t : TxnInfo) (s : Node) (cvs : List CodedValue)
    → t.prop_max ≡ none
    → length t.rids ≢ 1
    → shares_of env t.req ≡ ok cvs
    → mpaxos_accept env t s ≡ abort
unfolding mpaxos_accept choose_from accept_with own_proposal broadcast_msg_accept_c
mpaxos_accept_many env t s cvs fresh many coded =
    let several : (length t.rids == 1) ≡ false = ground arith in
    ap (λ o. accept_with env (choose_from o (record t { in_phase = accepting }) s)) fresh
    ∙ rw (coded, get-put_self s.heap.blocks s.heap.next (own_proposal s.view.local_nid t), several)
