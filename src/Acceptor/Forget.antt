-- ===== src/Acceptor/Forget.antt =====
-- `acceptor_forget` of libmpaxos/acceptor.c, and what a slot that was forgotten answers.
use mpaxos.Prelude.{ℕ, ◌<◌, ◌≡◌, refl, true, [], ◌∷◌, ◌++◌, ap, arith, if◌then◌else◌, ok, get-del}
use mpaxos.Types.{
  InstId, inst_key, same_inst, same_inst_iff, RoundId, inst_of, success, MsgType, MsgPrepare,
  is_prepare, MsgReply,
}
use mpaxos.Acceptor.Defs.{Acceptor, acceptor_forget, prepare_rids, handle_msg_prepare}
use mpaxos.Acceptor.Views.{bid_max_of, props_of}
use mpaxos.Acceptor.Turns.{written, answered, prepare_rid_larger}

-- Forgetting a slot drops its promise and its proposals, and no other's.
pub acceptor_forget_lem :
    (i j : InstId) (a : Acceptor)
    → (bid_max_of (acceptor_forget i a) j ≡ (if same_inst i j then 0 else bid_max_of a j))
      × (props_of (acceptor_forget i a) j ≡ (if same_inst i j then [] else props_of a j))
unfolding acceptor_forget
acceptor_forget_lem i j a = ground (arith, same_inst_iff i j, get-del a i j)

-- After a slot was forgotten, a prepare of the slot alone with any ballot above 0 gets a yes without
-- proposals, whatever was promised and accepted before.
pub forgotten_promise :
    (local : ℕ) (m : MsgPrepare) (rid : RoundId) (a : Acceptor)
    → is_prepare m.h.t ≡ true
    → m.rids ≡ rid ∷ []
    → 0 < rid.bid
    → (b : Acceptor) × (rep : MsgReply) × (handle_msg_prepare local m
          (acceptor_forget (inst_of rid) a)
        ≡ ok (b, rep))
      × (rep.ress ≡ (record { rid = rid; ack = success; props = [] }) ∷ [])
unfolding handle_msg_prepare prepare_rids answered
forgotten_promise local m rid a right one pos =
    let forgot = acceptor_forget_lem (inst_of rid) (inst_of rid) a in
    let same : same_inst (inst_of rid) (inst_of rid) ≡ true =
      (same_inst_iff (inst_of rid) (inst_of rid)).1 refl in
    let none_promised : bid_max_of (acceptor_forget (inst_of rid) a) (inst_of rid) ≡ 0 =
      ground (arith, forgot.0) in
    let none_held : props_of (acceptor_forget (inst_of rid) a) (inst_of rid) ≡ [] =
      ground (arith, forgot.1) in
    let turn =
      prepare_rid_larger rid (acceptor_forget (inst_of rid) a) (omega (arith, none_promised)) in
    let rep : MsgReply = record {
      h = record { t = MsgType.promise; nid = local; tid = m.h.tid };
      ress = answered rid (acceptor_forget (inst_of rid) a) success ++ [];
    } in
    (
      written rid (acceptor_forget (inst_of rid) a) rid.bid,
      rep,
      rw (right, one, turn),
      ap (λ l. (record { rid = rid; ack = success; props = l }) ∷ []) none_held,
    )
