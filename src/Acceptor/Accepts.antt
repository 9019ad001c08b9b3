-- ===== src/Acceptor/Accepts.antt =====
-- The loop of `handle_msg_accept` (libmpaxos/acceptor.c), turn by turn.
use mathlib.Core.List.{append-nil, append_assoc}
use mpaxos.Prelude.{
  ℕ, ◌≤◌, ◌<◌, ◌≡◌, refl, sym, ◌∙◌, inl, inr, Bool-cases, List, [], ◌∷◌, ◌++◌, arith, map, ap,
  safe_assert, ok, >>=-eq-ok, ok-injective, subst, All,
}
use mpaxos.Types.{
  InstId, same_inst, same_inst_iff, RoundId, inst_of, Proposal, prop_copy, success, err_bid,
  Response, is_accept, MsgReply, MsgAccept,
}
use mpaxos.Recorder.{Flush}
use mpaxos.Acceptor.Defs.{Acceptor, Store, accept_rid, accept_rids, handle_msg_accept}
use mpaxos.Acceptor.Views.{bid_max_of, props_of, Extends, Extends-refl, Extends-trans}
use mpaxos.Acceptor.Turns.{AcceptTurn, accept_rid_turn}

-- What an answer to an accept says: yes exactly to a ballot that reaches the promise.
pub record Judged (b : Acceptor) (p : Response) : Type 0 where
  pub yes_reaches : p.ack ≡ success → bid_max_of b (inst_of p.rid) ≤ p.rid.bid
  pub no_smaller : p.ack ≡ err_bid → p.rid.bid < bid_max_of b (inst_of p.rid)

-- The slot of a yes holds the proposal.
abbrev pub Holds : Proposal → Acceptor → InstId → Type 0
Holds prop b i =
    (before : List Proposal) × (after : List Proposal) × (props_of b i
      ≡ before ++ (prop_copy prop ∷ after))

abbrev pub HoldsYes : Proposal → Acceptor → Response → Type 0
HoldsYes prop b p = p.ack ≡ success → Holds prop b (inst_of p.rid)

-- The effect of an accept message.
pub record Accepted (prop : Proposal) (rids : List RoundId) (a b : Acceptor) (ress : List Response)
    : Type 0 where
  pub extends : Extends a b
  pub bids : (j : InstId) → bid_max_of b j ≡ bid_max_of a j
  pub answers : map (λ p. p.rid) ress ≡ rids
  pub judged : All (Judged b) ress
  pub holds : All (HoldsYes prop b) ress

pub Holds-later :
    (prop : Proposal) {a b : Acceptor} (i : InstId) → Extends a b → Holds prop a i → Holds prop b i
Holds-later prop i x (before, after, e) =
    let (more, f) = x.props i in
    (
      before,
      after ++ more,
      f ∙ ap (λ l. l ++ more) e ∙ append_assoc before (prop_copy prop ∷ after) more,
    )

module _ {prop : Proposal} {rid : RoundId} {a b : Acceptor} {res : List Response}
    (turn : AcceptTurn prop rid a b res) where
  open turn use {bids, other, pushed}

  props_at :
      (j : InstId)
      → inst_of rid ≡ j
      → (more : List Proposal) × (props_of b j ≡ props_of a j ++ more)
  props_at j e =
      subst (λ i. (more : List Proposal) × (props_of b i ≡ props_of a i ++ more)) e
        (elim pushed [
          | inl (_, _, f) ↦ (prop_copy prop ∷ [], f)
          | inr (_, _, f) ↦ ([], f ∙ sym (append-nil _))
        ])

  accept-Extends : Extends a b
  accept-Extends = record {
    bids = λ j. omega (arith, bids j);
    props = λ j. elim (Bool-cases (same_inst (inst_of rid) j)) [
      | inl e ↦ props_at j ((same_inst_iff _ j).0 e)
      | inr e ↦ ([], other j e ∙ sym (append-nil _))
    ];
  }

  answer : Response
  answer = record { rid = rid; ack = turn.ack; props = [] }

  accept-Judged : Judged b answer
  unfolding answer
  accept-Judged = record {
    yes_reaches = λ e. ground (arith, pushed, bids (inst_of rid));
    no_smaller = λ e. ground (arith, pushed, bids (inst_of rid));
  }

  accept-HoldsYes : HoldsYes prop b answer
  unfolding answer
  accept-HoldsYes = λ e. elim pushed [
    | inl (_, _, f) ↦ (props_of a (inst_of rid), [], f)
    | inr (refused, _, _) ↦ absurd (cc)
  ]

Judged-back :
    {a b : Acceptor}
    → ((j : InstId) → bid_max_of b j ≡ bid_max_of a j)
    → (p : Response) → Judged a p
    → Judged b p
Judged-back same p h = record {
  yes_reaches = λ e. omega (arith, same (inst_of p.rid), h.yes_reaches e);
  no_smaller = λ e. omega (arith, same (inst_of p.rid), h.no_smaller e);
}

accept_rids-Accepted :
    (flush : Flush) (prop : Proposal) (rids : List RoundId) (s : Store)
    → Accepted prop rids s.accp
        (accept_rids flush prop rids s).0.accp
        (accept_rids flush prop rids s).1
unfolding accept_rids answer
accept_rids-Accepted flush prop [] s = record {
  extends = Extends-refl s.accp;
  bids = λ j. refl;
  answers = refl;
  judged = tt;
  holds = tt;
}
accept_rids-Accepted flush prop (rid ∷ rids) s =
    let s1 = (accept_rid flush prop rid s).0 in
    let s2 = accept_rids flush prop rids s1 in
    let turn = accept_rid_turn flush prop rid s in
    let ih = accept_rids-Accepted flush prop rids s1 in
    subst (λ r. Accepted prop (rid ∷ rids) s.accp s2.0.accp (r ++ s2.1)) (sym turn.answer)
      (record {
        extends = Extends-trans (accept-Extends turn) ih.extends;
        bids = λ j. ih.bids j ∙ turn.bids j;
        answers = ap (◌∷◌ rid) ih.answers;
        judged = (Judged-back ih.bids _ (accept-Judged turn), ih.judged);
        holds = (λ e. Holds-later prop _ ih.extends (accept-HoldsYes turn e), ih.holds);
      })

-- An accept message changes no promise, keeps what was accepted, answers each of its rounds in
-- order, yes exactly where the ballot reaches the promise, and stores the proposal under each yes.
pub handle_msg_accept-Accepted :
    (flush : Flush) (local : ℕ) (m : MsgAccept) (s : Store) {t : Store} {rep : MsgReply}
    → handle_msg_accept flush local m s ≡ ok (t, rep)
    → Accepted m.prop m.prop.rids s.accp t.accp rep.ress
unfolding handle_msg_accept
handle_msg_accept-Accepted flush local m s e =
    let (u, e0, k0) = >>=-eq-ok (safe_assert (is_accept m.h.t)) _ e in
    subst (λ x. Accepted m.prop m.prop.rids s.accp x.0.accp x.1.ress) (ok-injective k0)
      (accept_rids-Accepted flush m.prop m.prop.rids s)
