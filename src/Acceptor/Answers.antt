-- ===== src/Acceptor/Answers.antt =====
-- When the two handlers of libmpaxos/acceptor.c return: an accept always, a prepare whenever no
-- ballot of it equals the one promised.
use mpaxos.Prelude.{ℕ, ◌≡◌, ◌≢◌, refl, ◌∙◌, true, false, List, [], ◌∷◌, ◌++◌, ok, All}
use mpaxos.Types.{
  same_inst, RoundId, inst_of, Response, MsgType, MsgPrepare, is_prepare, MsgAccept, is_accept,
  MsgReply,
}
use mpaxos.Recorder.{Flush}
use mpaxos.Acceptor.Defs.{
  Acceptor, prepare_rid, prepare_rids, handle_msg_prepare, Store, accept_rids, handle_msg_accept,
}
use mpaxos.Acceptor.Views.{bid_max_of}
use mpaxos.Acceptor.Turns.{
  less, same, more, order, prepare_rid_larger, prepare_rid_smaller, PrepareTurn, prepare_rid_turn,
}
use mpaxos.Acceptor.Promises.{Prepared, handle_msg_prepare-Prepared}
use mpaxos.Acceptor.Accepts.{Accepted, handle_msg_accept-Accepted}

-- The ballot of the round is not the one promised in its slot.
abbrev pub IsUntied : Acceptor → RoundId → Type 0
IsUntied a rid = rid.bid ≢ bid_max_of a (inst_of rid)

-- No two rounds are in one slot.
abbrev pub HasDistinctSlots : List RoundId → Type 0
HasDistinctSlots [] = Unit
HasDistinctSlots (rid ∷ rids) =
    All (λ r. same_inst (inst_of rid) (inst_of r) ≡ false) rids × HasDistinctSlots rids

prepare_rid_returns :
    (rid : RoundId) (a : Acceptor)
    → IsUntied a rid
    → (a' : Acceptor) × (res : List Response) × (prepare_rid rid a ≡ ok (a', res))
prepare_rid_returns rid a untied = elim (order rid.bid (bid_max_of a (inst_of rid))) [
  | less h ↦ (_, _, prepare_rid_smaller rid a h)
  | same h ↦ absurd (untied h)
  | more h ↦ (_, _, prepare_rid_larger rid a h)
]

still-IsUntied :
    (rid : RoundId) (a a' : Acceptor) (res : List Response) (rids : List RoundId)
    → PrepareTurn rid a a' res
    → All (λ r. same_inst (inst_of rid) (inst_of r) ≡ false) rids
    → All (IsUntied a) rids
    → All (IsUntied a') rids
still-IsUntied rid a a' res [] turn apart untied = tt
still-IsUntied rid a a' res (r ∷ rids) turn apart untied = (
  λ e. untied.0 (e ∙ turn.other (inst_of r) apart.0),
  still-IsUntied rid a a' res rids turn apart.1 untied.1,
)

prepare_rids_returns :
    (rids : List RoundId) (a : Acceptor)
    → HasDistinctSlots rids
    → All (IsUntied a) rids
    → (a' : Acceptor) × (ress : List Response) × (prepare_rids rids a ≡ ok (a', ress))
unfolding prepare_rids
prepare_rids_returns [] a apart untied = (a, [], refl)
prepare_rids_returns (rid ∷ rids) a apart untied =
    let (a1, res, e1) = prepare_rid_returns rid a untied.0 in
    let turn = prepare_rid_turn rid a a1 res e1 in
    let (a2, ress, e2) =
      prepare_rids_returns rids a1 apart.1
        (still-IsUntied rid a a1 res rids turn apart.0 untied.1) in
    (a2, res ++ ress, rw (e1, e2))

-- A prepare message whose rounds are in different slots, none with the ballot that is promised there,
-- is answered, and the answer is right.
pub handle_msg_prepare_lem :
    (local : ℕ) (m : MsgPrepare) (a : Acceptor)
    → is_prepare m.h.t ≡ true
    → HasDistinctSlots m.rids
    → All (IsUntied a) m.rids
    → (b : Acceptor) × (rep : MsgReply) × (handle_msg_prepare local m a ≡ ok (b, rep))
      × Prepared m.rids a b rep.ress
unfolding handle_msg_prepare
handle_msg_prepare_lem local m a right apart untied =
    let (b, ress, e) = prepare_rids_returns m.rids a apart untied in
    let rep : MsgReply = record {
      h = record { t = MsgType.promise; nid = local; tid = m.h.tid };
      ress = ress;
    } in
    let run : handle_msg_prepare local m a ≡ ok (b, rep) = rw (right, e) in
    (b, rep, run, handle_msg_prepare-Prepared local m run)

-- Every accept message is answered, and the answer is right.
pub handle_msg_accept_lem :
    (flush : Flush) (local : ℕ) (m : MsgAccept) (s : Store)
    → is_accept m.h.t ≡ true
    → (s' : Store) × (rep : MsgReply) × (handle_msg_accept flush local m s ≡ ok (s', rep))
      × Accepted m.prop m.prop.rids s.accp s'.accp rep.ress
unfolding handle_msg_accept
handle_msg_accept_lem flush local m s right =
    let done = accept_rids flush m.prop m.prop.rids s in
    let rep : MsgReply = record {
      h = record { t = MsgType.accepted; nid = local; tid = m.h.tid };
      ress = done.1;
    } in
    let run : handle_msg_accept flush local m s ≡ ok (done.0, rep) = rw right in
    (done.0, rep, run, handle_msg_accept-Accepted flush local m s run)
