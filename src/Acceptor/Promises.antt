-- ===== src/Acceptor/Promises.antt =====
-- The loop of `handle_msg_prepare` (libmpaxos/acceptor.c), turn by turn.
use mathlib.Core.List.{append-nil}
use mpaxos.Prelude.{
  ℕ, ◌≤◌, ◌<◌, ◌≡◌, refl, sym, ◌∙◌, inl, inr, Bool-cases, List, [], ◌∷◌, ◌++◌, arith, map, ap,
  safe_assert, ok, >>=-eq-ok, ok-injective, subst, All, All-imp,
}
use mpaxos.Types.{
  InstId, same_inst, same_inst_iff, RoundId, inst_of, success, err_bid, Response, MsgPrepare,
  is_prepare, MsgReply,
}
use mpaxos.Acceptor.Defs.{Acceptor, prepare_rid, prepare_rids, handle_msg_prepare}
use mpaxos.Acceptor.Views.{bid_max_of, props_of, Extends, Extends-refl, Extends-trans}
use mpaxos.Acceptor.Turns.{PrepareTurn, prepare_rid_turn}

-- What a promise says, against the table right after it. A yes: the ballot is the one promised, or
-- a later round of the message raised it further. A no: a larger ballot was promised. Either way
-- every proposal accepted in the slot is reported.
pub record Promised (b : Acceptor) (p : Response) : Type 0 where
  pub yes_kept : p.ack ≡ success → p.rid.bid ≤ bid_max_of b (inst_of p.rid)
  pub no_smaller : p.ack ≡ err_bid → p.rid.bid < bid_max_of b (inst_of p.rid)
  pub reports : p.props ≡ props_of b (inst_of p.rid)

-- A yes is to a larger ballot than was promised before.
abbrev pub IsFresh : Acceptor → Response → Type 0
IsFresh a p = p.ack ≡ success → bid_max_of a (inst_of p.rid) < p.rid.bid

-- The effect of a prepare message that is answered.
pub record Prepared (rids : List RoundId) (a b : Acceptor) (ress : List Response) : Type 0 where
  pub extends : Extends a b
  pub kept : (j : InstId) → props_of b j ≡ props_of a j
  pub answers : map (λ p. p.rid) ress ≡ rids
  pub promises : All (Promised b) ress
  pub fresh : All (IsFresh a) ress

module _ {rid : RoundId} {a b : Acceptor} {res : List Response}
    (turn : PrepareTurn rid a b res) where
  open turn use {kept, other, raised}

  bid_raised_at : (j : InstId) → inst_of rid ≡ j → bid_max_of a j ≤ bid_max_of b j
  bid_raised_at j e = subst (λ i. bid_max_of a i ≤ bid_max_of b i) e (omega (arith, raised))

  turn-Extends : Extends a b
  turn-Extends = record {
    bids = λ j. elim (Bool-cases (same_inst (inst_of rid) j)) [
      | inl e ↦ bid_raised_at j ((same_inst_iff _ j).0 e)
      | inr e ↦ omega (arith, other j e)
    ];
    props = λ j. ([], kept j ∙ sym (append-nil _));
  }

  turn-IsFresh : IsFresh a (record { rid = rid; ack = turn.ack; props = props_of a (inst_of rid) })
  turn-IsFresh = λ e. ground (arith, raised)

  turn-Promised :
      Promised b (record { rid = rid; ack = turn.ack; props = props_of a (inst_of rid) })
  turn-Promised = record {
    yes_kept = λ e. ground (arith, raised);
    no_smaller = λ e. ground (arith, raised);
    reports = sym (kept (inst_of rid));
  }

IsFresh-before : {a b : Acceptor} → Extends a b → (p : Response) → IsFresh b p → IsFresh a p
IsFresh-before x p h = λ e. omega (arith, x.bids (inst_of p.rid), h e)

Promised-later :
    {a b : Acceptor}
    → Extends a b
    → ((j : InstId) → props_of b j ≡ props_of a j)
    → (p : Response) → Promised a p
    → Promised b p
Promised-later x kept p h = record {
  yes_kept = λ e. omega (arith, x.bids (inst_of p.rid), h.yes_kept e);
  no_smaller = λ e. omega (arith, x.bids (inst_of p.rid), h.no_smaller e);
  reports = h.reports ∙ sym (kept (inst_of p.rid));
}

prepare_rids-Prepared :
    (rids : List RoundId) (a b : Acceptor) (ress : List Response)
    → prepare_rids rids a ≡ ok (b, ress)
    → Prepared rids a b ress
unfolding prepare_rids
prepare_rids-Prepared [] a b ress e =
    subst (λ x. Prepared [] a x.0 x.1) (ok-injective e)
      (record {
        extends = Extends-refl a;
        kept = λ j. refl;
        answers = refl;
        promises = tt;
        fresh = tt;
      })
prepare_rids-Prepared (rid ∷ rids) a b ress e =
    let ((a1, res), e1, k1) = >>=-eq-ok (prepare_rid rid a) _ e in
    let ((a2, rest), e2, k2) = >>=-eq-ok (prepare_rids rids a1) _ k1 in
    let turn = prepare_rid_turn rid a a1 res e1 in
    let ih = prepare_rids-Prepared rids a1 a2 rest e2 in
    subst (λ x. Prepared (rid ∷ rids) a x.0 x.1) (ok-injective k2)
      (subst (λ r. Prepared (rid ∷ rids) a a2 (r ++ rest)) (sym turn.answer)
        (record {
          extends = Extends-trans (turn-Extends turn) ih.extends;
          kept = λ j. ih.kept j ∙ turn.kept j;
          answers = ap (◌∷◌ rid) ih.answers;
          promises = (Promised-later ih.extends ih.kept _ (turn-Promised turn), ih.promises);
          fresh = (
            turn-IsFresh turn,
            All-imp (IsFresh a1) (IsFresh a) rest (IsFresh-before (turn-Extends turn)) ih.fresh,
          );
        }))

-- A prepare message that is answered raises no ballot back, keeps what was accepted, and answers
-- each of its rounds in order with a promise that the table honours.
pub handle_msg_prepare-Prepared :
    (local : ℕ) (m : MsgPrepare) {a b : Acceptor} {rep : MsgReply}
    → handle_msg_prepare local m a ≡ ok (b, rep)
    → Prepared m.rids a b rep.ress
unfolding handle_msg_prepare
handle_msg_prepare-Prepared local m {a} e =
    let (u, e0, k0) = >>=-eq-ok (safe_assert (is_prepare m.h.t)) _ e in
    let ((a1, ress), e1, k1) = >>=-eq-ok (prepare_rids m.rids a) _ k0 in
    subst (λ x. Prepared m.rids a x.0 x.1.ress) (ok-injective k1)
      (prepare_rids-Prepared m.rids a a1 ress e1)
