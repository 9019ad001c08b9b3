-- ===== src/Agreement.antt =====
-- Two proposers and the acceptors between them: libmpaxos/proposer.c on two nodes, libmpaxos/acceptor.c
-- on all.
use mpaxos.Prelude.{
  ℕ, ◌≡◌, sym, subst, ap, ◌∙◌, true, false, some, List, ◌∷◌, ◌++◌, ok, get, nat_key, length,
  get_elem?,
}
use mpaxos.Types.{
  InstId, inst_of, Proposal, prop_copy, success, Response, MsgPrepare, MsgReply, MsgAccept,
}
use mpaxos.Recorder.{Flush}
use mpaxos.Acceptor.{Acceptor, Store, handle_msg_prepare, handle_msg_accept}
use mpaxos.Acceptor.History.{Msg, serve_all, accepted_reported}
use mpaxos.Proposer.{GroupInfo, yes_most, check_group}
use mpaxos.Proposer.Tally.{IsTallied}
use mpaxos.Proposer.Quorum.{majorities_meet}

-- A node answered yes to an accept of the proposal in the slot, served other messages, and then gave the
-- response to a prepare of the slot.
pub record AcceptedThen (flush : Flush) (nid : ℕ) (prop : Proposal) (i : InstId) (q : Response)
    : Type 0 where
  pub accept : MsgAccept
  pub others : List Msg
  pub prepare : MsgPrepare
  pub before : Store
  pub after : Store
  pub later : Store
  pub last : Acceptor
  pub accepted : MsgReply
  pub promise : MsgReply
  pub yes_at : ℕ
  pub yes_response : Response
  pub at : ℕ
  pub accepts : handle_msg_accept flush nid accept before ≡ ok (after, accepted)
  pub of_prop : accept.prop ≡ prop
  pub yes_there : get_elem? accepted.ress yes_at ≡ some yes_response
  pub is_yes : yes_response.ack ≡ success
  pub of_slot : inst_of yes_response.rid ≡ i
  pub serves : serve_all flush nid others after ≡ ok later
  pub promises : handle_msg_prepare nid prepare later.accp ≡ ok (last, promise)
  pub there : get_elem? promise.ress at ≡ some q
  pub same_slot : inst_of q.rid ≡ i

-- Two groups whose counts are right for one view of nodes, one with a majority of accepts, the other
-- with a majority of promises. If each node that is counted in both had answered yes to an accept of the
-- proposal in the slot before it gave its response to the prepare, then the response of one of these
-- nodes reports a copy of the proposal.
pub chosen_is_reported :
    (flush : Flush) (nodes : List ℕ) (g g' : GroupInfo) (prop : Proposal) (i : InstId)
    → IsTallied nodes g
    → IsTallied nodes g'
    → check_group (λ gid. length nodes) true g ≡ yes_most
    → check_group (λ gid. length nodes) false g' ≡ yes_most
    → ((nid : ℕ)
        → get g.ht_prom nid ≡ some success
        → get g'.ht_accd nid ≡ some success
        → (q : Response) × AcceptedThen flush nid prop i q)
    → (nid : ℕ) × (q : Response) × (get g.ht_prom nid ≡ some success)
      × AcceptedThen flush nid prop i q
      × (older : List Proposal) × (newer : List Proposal) × (q.props
          ≡ older ++ (prop_copy prop ∷ newer))
chosen_is_reported flush nodes g g' prop i tallied tallied' promised accepted both =
    let (k, nid, at, p, a) = majorities_meet nodes g g' tallied tallied' promised accepted in
    let (q, life) = both nid p a in
    let (older, newer, e) =
      accepted_reported flush nid life.accept life.others life.prepare life.before life.after
        life.later life.last life.accepted life.promise life.yes_at life.at life.yes_response q
        life.accepts life.yes_there life.is_yes life.serves life.promises life.there
        (subst (λ j. inst_of q.rid ≡ j) (sym life.of_slot) life.same_slot) in
    (nid, q, p, life, older, newer, e ∙ ap (λ x. older ++ (prop_copy x ∷ newer)) life.of_prop)
