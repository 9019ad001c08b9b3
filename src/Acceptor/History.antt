-- ===== src/Acceptor/History.antt =====
-- An acceptor over any sequence of messages: what a promise binds it to, and what it can never lose.
use mpaxos.Prelude.{
  ℕ, ◌<◌, inl, inr, Bool-cases, safe_assert, some-injective, ◌≡◌, ◌∙◌, List, [], ◌∷◌, ◌++◌, arith,
  Option, some, Result, ok, abort, ◌>>=◌, >>=-eq-ok, ok-injective, subst, ap, map, All-get_elem?,
  get_elem?, sym,
}
use mpaxos.Types.{
  RoundId, inst_of, Proposal, prop_copy, Ack, success, err_bid, Response, MsgPrepare, is_prepare,
  MsgReply, MsgAccept,
}
use mpaxos.Recorder.{Flush}
use mpaxos.Acceptor.Defs.{
  Acceptor, prepare_rid, handle_msg_prepare, prepare_rids, Store, handle_msg_accept,
}
use mpaxos.Acceptor.Views.{bid_max_of, props_of, Extends, Extends-refl, Extends-trans}
use mpaxos.Acceptor.Turns.{prepare_rid_equal, prepare_rid_turn}
use mpaxos.Acceptor.Promises.{Prepared, Promised, handle_msg_prepare-Prepared}
use mpaxos.Acceptor.Accepts.{
  Accepted, Judged, Holds, Holds-later, HoldsYes, handle_msg_accept-Accepted,
}

-- A message that the node serves.
pub data Msg : Type 0 where
  prep : MsgPrepare → Msg
  accp : MsgAccept → Msg

-- The node serves one message, and then a list of them, in the order in which they arrive.
unfoldable pub serve : Flush → ℕ → Msg → Store → Result Store
serve flush local (prep m) s = do
  (a, _) ← handle_msg_prepare local m s.accp
  ok (record s { accp = a })
serve flush local (accp m) s = do (t, _) ← handle_msg_accept flush local m s; ok t

unfoldable pub serve_all : Flush → ℕ → List Msg → Store → Result Store
serve_all flush local [] s = ok s
serve_all flush local (m ∷ ms) s = do t ← serve flush local m s; serve_all flush local ms t

module _ (flush : Flush) (local : ℕ) where
  serve-Extends : (m : Msg) (s t : Store) → serve flush local m s ≡ ok t → Extends s.accp t.accp
  unfolding serve
  serve-Extends (prep m) s t e =
      let ((a, rep), e1, k) = >>=-eq-ok (handle_msg_prepare local m s.accp) _ e in
      subst (λ x. Extends s.accp x.accp) (ok-injective k)
        (handle_msg_prepare-Prepared local m e1).extends
  serve-Extends (accp m) s t e =
      let ((a, rep), e1, k) = >>=-eq-ok (handle_msg_accept flush local m s) _ e in
      subst (λ x. Extends s.accp x.accp) (ok-injective k)
        (handle_msg_accept-Accepted flush local m s e1).extends

  -- Whatever messages a node serves, its promises only grow and its accepted proposals stay.
  pub serve_all-Extends :
      (ms : List Msg) (s t : Store) → serve_all flush local ms s ≡ ok t → Extends s.accp t.accp
  unfolding serve_all
  serve_all-Extends [] s t e =
      subst (λ x. Extends s.accp x.accp) (ok-injective e) (Extends-refl s.accp)
  serve_all-Extends (m ∷ ms) s t e =
      let (u, e1, k) = >>=-eq-ok (serve flush local m s) _ e in
      Extends-trans (serve-Extends m s u e1) (serve_all-Extends ms u t k)

pub refused_below :
    (b : Acceptor) (q : Response)
    → Judged b q
    → q.rid.bid < bid_max_of b (inst_of q.rid)
    → q.ack ≡ err_bid
refused_below b q j less = ground (arith, j.yes_reaches)

-- After a yes to a prepare, whatever messages the node then serves, the answer to a later accept is no
-- for each round of the slot with a smaller ballot than the promised one.
pub promise_binds :
    (flush : Flush) (local : ℕ) (m : MsgPrepare) (ms : List Msg) (m' : MsgAccept) (s : Store)
    (a : Acceptor) (t u : Store) (rep rep' : MsgReply) (n k : ℕ) (p q : Response)
    → handle_msg_prepare local m s.accp ≡ ok (a, rep)
    → get_elem? rep.ress n ≡ some p
    → p.ack ≡ success
    → serve_all flush local ms (record s { accp = a }) ≡ ok t
    → handle_msg_accept flush local m' t ≡ ok (u, rep')
    → get_elem? rep'.ress k ≡ some q
    → inst_of q.rid ≡ inst_of p.rid
    → q.rid.bid < p.rid.bid
    → q.ack ≡ err_bid
promise_binds flush local m ms m' s a t u rep rep' n k p q e at yes_p run e' at' same less =
    refused_below u.accp q (All-get_elem? (Judged u.accp) rep'.ress k acc.judged at') (
      subst (λ i. q.rid.bid < bid_max_of u.accp i) (sym same)
        (omega
          (arith, acc.bids (inst_of p.rid), grown.bids (inst_of p.rid), promised.yes_kept yes_p)))
  where
    promised : Promised a p
    promised =
        All-get_elem? (Promised a) rep.ress n (handle_msg_prepare-Prepared local m e).promises at

    grown : Extends a t.accp
    grown = serve_all-Extends flush local ms (record s { accp = a }) t run

    acc : Accepted m'.prop m'.prop.rids t.accp u.accp rep'.ress
    acc = handle_msg_accept-Accepted flush local m' t e'

-- After a yes to an accept, whatever messages the node then serves, each answer to a later prepare of
-- the slot reports a copy of the proposal.
pub accepted_reported :
    (flush : Flush) (local : ℕ) (m : MsgAccept) (ms : List Msg) (m' : MsgPrepare) (s s1 t : Store)
    (b : Acceptor) (rep rep' : MsgReply) (n k : ℕ) (p q : Response)
    → handle_msg_accept flush local m s ≡ ok (s1, rep)
    → get_elem? rep.ress n ≡ some p
    → p.ack ≡ success
    → serve_all flush local ms s1 ≡ ok t
    → handle_msg_prepare local m' t.accp ≡ ok (b, rep')
    → get_elem? rep'.ress k ≡ some q
    → inst_of q.rid ≡ inst_of p.rid
    → (before : List Proposal) × (after : List Proposal) × (q.props
        ≡ before ++ (prop_copy m.prop ∷ after))
accepted_reported flush local m ms m' s s1 t b rep rep' n k p q e at yes_p run e' at' same =
    let (before, after, f) =
      Holds-later m.prop (inst_of p.rid) (Extends-trans grown prepared.extends) held in
    (before, after, reported.reports ∙ ap (props_of b) same ∙ f)
  where
    held : Holds m.prop s1.accp (inst_of p.rid)
    held =
        All-get_elem? (HoldsYes m.prop s1.accp) rep.ress n
          (handle_msg_accept-Accepted flush local m s e).holds at yes_p

    grown : Extends s1.accp t.accp
    grown = serve_all-Extends flush local ms s1 t run

    prepared : Prepared m'.rids t.accp b rep'.ress
    prepared = handle_msg_prepare-Prepared local m' e'

    reported : Promised b q
    reported = All-get_elem? (Promised b) rep'.ress k prepared.promises at'

abbrev first_ack : List Response → Option Ack
first_ack ress = get_elem? (map (λ p. p.ack) ress) 0

one_round_raises :
    (rid : RoundId) (a b : Acceptor) (ress : List Response)
    → prepare_rids (rid ∷ []) a ≡ ok (b, ress)
    → first_ack ress ≡ some success
    → bid_max_of b (inst_of rid) ≡ rid.bid
unfolding prepare_rids
one_round_raises rid a b ress e yes_p =
    let ((a1, res), e1, k) = >>=-eq-ok (prepare_rid rid a) _ e in
    let turn = prepare_rid_turn rid a a1 res e1 in
    let same = ok-injective k in
    let first : first_ack (res ++ []) ≡ some success =
      subst (λ x. first_ack x.1 ≡ some success) (sym same) yes_p in
    let ack_p : some turn.ack ≡ some success =
      subst (λ r. first_ack (r ++ []) ≡ some success) turn.answer first in
    subst (λ x. bid_max_of x.0 (inst_of rid) ≡ rid.bid) same
      (ground (arith, turn.raised, some-injective _ _ ack_p))

prepare_rids_same :
    (a : Acceptor) (rid : RoundId) (rest : List RoundId)
    → rid.bid ≡ bid_max_of a (inst_of rid)
    → prepare_rids (rid ∷ rest) a ≡ abort
unfolding prepare_rids
prepare_rids_same a rid rest h = rw (prepare_rid_equal rid a h)

prepare_same_aborts :
    (local : ℕ) (m : MsgPrepare) (a : Acceptor) (rid : RoundId) (rest : List RoundId)
    → m.rids ≡ rid ∷ rest
    → bid_max_of a (inst_of rid) ≡ rid.bid
    → handle_msg_prepare local m a ≡ abort
unfolding handle_msg_prepare
prepare_same_aborts local m a rid rest e h = elim (Bool-cases (is_prepare m.h.t)) [
  | inl right ↦ rw (right, stops)
  | inr wrong ↦ rw wrong
]
  where
    stops : prepare_rids m.rids a ≡ abort
    stops = subst (λ l. prepare_rids l a ≡ abort) (sym e) (prepare_rids_same a rid rest (sym h))

-- After a prepare of a single round that gets a yes, a prepare that begins with the same round aborts
-- the process if it is the next message, whoever sends it.
prepare_same_ballot :
    (local : ℕ) (m m' : MsgPrepare) (a b : Acceptor) (rep : MsgReply) (rid : RoundId)
    (rest : List RoundId)
    → handle_msg_prepare local m a ≡ ok (b, rep)
    → m.rids ≡ rid ∷ []
    → get_elem? (map (λ p. p.ack) rep.ress) 0 ≡ some success
    → m'.rids ≡ rid ∷ rest
    → handle_msg_prepare local m' b ≡ abort
unfolding handle_msg_prepare
prepare_same_ballot local m m' a b rep rid rest e one yes_p again =
    let (u, e0, k0) = >>=-eq-ok (safe_assert (is_prepare m.h.t)) _ e in
    let ((a1, ress), e1, k1) = >>=-eq-ok (prepare_rids m.rids a) _ k0 in
    let same = ok-injective k1 in
    prepare_same_aborts local m' b rid rest again (
      subst (λ x. bid_max_of x.0 (inst_of rid) ≡ rid.bid) same
        (one_round_raises rid a a1 ress (subst (λ l. prepare_rids l a ≡ ok (a1, ress)) one e1)
          (subst (λ x. first_ack x.1.ress ≡ some success) (sym same) yes_p)))
