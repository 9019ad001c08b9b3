-- ===== src/Node/Requests.antt =====
-- The start of a transaction: `mpaxos_start_request` and `attach_txn_info` of libmpaxos/controller.c.
use mpaxos.Prelude.{
  ℕ, ◌+◌, ◌-◌, ◌%◌, ◌^◌, Bool, true, ◌&&◌, none, List, [], ◌∷◌, ltb, if◌then◌else◌, Result, Dict,
  put, nat_key,
}
use mpaxos.Types.{RoundId, Req}
use mpaxos.Recorder.{Recorder, get_newest_sid}
use mpaxos.Proposer.{GroupInfo, init, preparing, accepting, TxnInfo}
use mpaxos.Node.Defs.{Env, Node}
use mpaxos.Node.Send.{mpaxos_prepare, mpaxos_accept}

-- `group_info_create`
abbrev pub group_info_create : ℕ → RoundId → GroupInfo
group_info_create tid rid = record {
  tid = tid;
  gid = rid.gid;
  sid = rid.sid;
  bid = rid.bid;
  ht_prom = [];
  ht_accd = [];
  n_promises_yes = 0;
  n_promises_no = 0;
  n_accepteds_yes = 0;
  n_accepteds_no = 0;
  max_prop = none;
}

-- The loop of `attach_txn_info`: a group that is named twice gets the later round.
unfoldable pub group_table : ℕ → List RoundId → Dict ℕ GroupInfo → Dict ℕ GroupInfo
group_table tid [] d = d
group_table tid (rid ∷ rids) d = group_table tid rids (put d rid.gid (group_info_create tid rid))

-- `txn_info_create` and `attach_txn_info`, less the entry in the table of transactions.
unfoldable pub txn_info_create : List RoundId → Req → TxnInfo
unfolding group_table
txn_info_create rids req = record {
  tid = req.id;
  req = req;
  rids = rids;
  in_phase = init;
  ht_ginfo = group_table req.id rids [];
  prop_max = none;
  prop_self = none;
}

-- The first loop of `mpaxos_start_request`: the next slot of each group, and whether all are ours.
unfoldable pub pick_slots : List ℕ → Bool → Recorder → Recorder × List (ℕ × ℕ) × Bool
pick_slots [] is_saveprep r = (r, [], is_saveprep)
pick_slots (gid ∷ gids) is_saveprep r =
    let (r1, n) = get_newest_sid gid r in
    let (r2, slots, all) = pick_slots gids (is_saveprep && n.is_me) r1 in
    (r2, (gid, n.sid) ∷ slots, all)

-- BID_PRIOR and BID_NORMAL
abbrev pub bid_prior : ℕ
bid_prior = 1

abbrev pub bid_normal : ℕ
bid_normal = 2

-- `int` to `uint64_t`: negative values are extended by sign.
abbrev pub to_ballot : ℕ → ℕ
to_ballot x = if ltb x (2 ^ 31) then x else x + (2 ^ 64 - 2 ^ 32)

-- The second loop: `rids[i]->bid = bid_base += req->n_retry`, in 32 bits.
unfoldable pub assign_bids : ℕ → ℕ → List (ℕ × ℕ) → List RoundId
assign_bids n_retry base [] = []
assign_bids n_retry base ((gid, sid) ∷ slots) =
    let base' = (base + n_retry) % 2 ^ 32 in
    (record { gid = gid; sid = sid; bid = to_ballot base' }) ∷ assign_bids n_retry base' slots

-- `mpaxos_start_request`
unfoldable pub mpaxos_start_request : Env → Req → Node → Result Node
unfolding txn_info_create pick_slots assign_bids
mpaxos_start_request env req s =
    let (r, slots, is_saveprep) = pick_slots req.gids true s.store.rec in
    let rids = assign_bids req.n_retry (if is_saveprep then bid_prior else bid_normal) slots in
    let t = txn_info_create rids req in
    let t' : TxnInfo = record t { in_phase = if is_saveprep then accepting else preparing } in
    let s' : Node = record s { store = record (s.store) { rec = r }; txns = put s.txns t.tid t' } in
    if is_saveprep then mpaxos_accept env t' s' else mpaxos_prepare env t' s'
