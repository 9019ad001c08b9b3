-- ===== src/Acceptor/Defs.antt =====
-- The state and the handlers of libmpaxos/acceptor.c.
use mpaxos.Prelude.{
  ℕ, Option, none, some, List, [], ◌∷◌, ◌++◌, ltb, leb, if◌then◌else◌, Result, ok, abort, ◌>>=◌,
  ◌>>◌, safe_assert, Dict, get, put, del,
}
use mpaxos.Types.{
  InstId, inst_key, RoundId, inst_of, Proposal, prop_copy, Ack, success, err_bid, Response, MsgType,
  is_prepare, is_accept, MsgPrepare, MsgAccept, MsgReply,
}
use mpaxos.View.{is_in_group}
use mpaxos.Recorder.{Flush, Recorder, record_accepted}

-- `accp_info_t`: the largest ballot promised, and the proposals accepted, oldest first.
pub record AccpInfo : Type 0 where
  pub iid : InstId
  pub bid_max : ℕ
  pub arr_prop : List Proposal

-- `ht_accp_info_`
abbrev pub Acceptor : Type 0
Acceptor = Dict InstId AccpInfo

-- `accp_info_create`
abbrev pub accp_info_create : InstId → AccpInfo
accp_info_create iid = record { iid = iid; bid_max = 0; arr_prop = [] }

abbrev pub info_or_new : InstId → Option AccpInfo → AccpInfo
info_or_new iid none = accp_info_create iid
info_or_new iid (some info) = info

-- `get_accp_info`: the slot's entry, entered anew if it is missing.
unfoldable pub get_accp_info : InstId → Acceptor → Acceptor × AccpInfo
get_accp_info iid a = elim (get a iid) [
  | none ↦ (put a iid (accp_info_create iid), accp_info_create iid)
  | some info ↦ (a, info)
]

-- `acceptor_forget`
unfoldable pub acceptor_forget : InstId → Acceptor → Acceptor
acceptor_forget iid a = elim (get a iid) [ none ↦ a | some _ ↦ del a iid ]

-- The ballot test of `handle_msg_prepare`: the acknowledgement and the new `bid_max`.
unfoldable pub promise_bid : ℕ → ℕ → Result (Ack × ℕ)
promise_bid bid bid_max =
    if ltb bid_max bid
    then ok (success, bid)
    else if ltb bid bid_max
    then ok (err_bid, bid_max)
    else abort

-- One turn of the loop of `handle_msg_prepare`: at most one response.
unfoldable pub prepare_rid : RoundId → Acceptor → Result (Acceptor × List Response)
unfolding is_in_group
prepare_rid rid a =
    if is_in_group rid.gid
    then (do
      let (a', info) = get_accp_info (inst_of rid) a
      (ack, bid) ← promise_bid rid.bid info.bid_max
      ok (
        put a' (inst_of rid) (record info { bid_max = bid }),
        (record { rid = rid; ack = ack; props = info.arr_prop }) ∷ [],
      ))
    else ok (a, [])

unfoldable pub prepare_rids : List RoundId → Acceptor → Result (Acceptor × List Response)
prepare_rids [] a = ok (a, [])
prepare_rids (rid ∷ rids) a = do
  (a', res) ← prepare_rid rid a
  (a'', ress) ← prepare_rids rids a'
  ok (a'', res ++ ress)

-- `handle_msg_prepare` on the node `local`: the new state and the promise that is sent back.
unfoldable pub handle_msg_prepare : ℕ → MsgPrepare → Acceptor → Result (Acceptor × MsgReply)
unfolding prepare_rids
handle_msg_prepare local m a = do
  safe_assert (is_prepare m.h.t)
  (a', ress) ← prepare_rids m.rids a
  ok (a', record { h = record { t = MsgType.promise; nid = local; tid = m.h.tid }; ress = ress })

-- The acceptor's tables with the recorder's, which `handle_msg_accept` writes too.
pub record Store : Type 0 where
  pub accp : Acceptor
  pub rec : Recorder

-- One turn of the loop of `handle_msg_accept`. `bid_max` is left as it is.
unfoldable pub accept_rid : Flush → Proposal → RoundId → Store → Store × List Response
unfolding is_in_group
accept_rid flush prop rid s =
    if is_in_group rid.gid
    then (let (a', info) = get_accp_info (inst_of rid) s.accp in
        if leb info.bid_max rid.bid
        then (
          record {
            accp =
                put a' (inst_of rid)
                  (record info { arr_prop = info.arr_prop ++ prop_copy prop ∷ [] });
            rec = record_accepted flush rid prop s.rec;
          },
          (record { rid = rid; ack = success; props = [] }) ∷ [],
        )
        else (record s { accp = a' }, (record { rid = rid; ack = err_bid; props = [] }) ∷ []))
    else (s, [])

unfoldable pub accept_rids : Flush → Proposal → List RoundId → Store → Store × List Response
accept_rids flush prop [] s = (s, [])
accept_rids flush prop (rid ∷ rids) s =
    let (s', res) = accept_rid flush prop rid s in
    let (s'', ress) = accept_rids flush prop rids s' in (s'', res ++ ress)

-- `handle_msg_accept` on the node `local`.
unfoldable pub handle_msg_accept : Flush → ℕ → MsgAccept → Store → Result (Store × MsgReply)
unfolding accept_rids
handle_msg_accept flush local m s = do
  safe_assert (is_accept m.h.t)
  let (s', ress) = accept_rids flush m.prop m.prop.rids s
  ok (s', record { h = record { t = MsgType.accepted; nid = local; tid = m.h.tid }; ress = ress })
