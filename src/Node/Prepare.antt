-- ===== src/Node/Prepare.antt =====
-- The prepare message of `broadcast_msg_prepare` in libmpaxos/proposer.c goes to each node of the view.
use mathlib.Core.List.{append-nil, append_assoc}
use mpaxos.Prelude.{
  ℕ, ◌≡◌, refl, sym, ap, ◌∙◌, true, false, List, [], ◌∷◌, ◌++◌, map, ok, length, Bool, subst, arith,
  put, nat_key, ◌==◌,
}
use mpaxos.Types.{RoundId, MsgType, Req}
use mpaxos.Recorder.{Recorder}
use mpaxos.Proposer.{TxnInfo, preparing}
use mpaxos.Node.Defs.{Env, Packet, to_prepare, Node}
use mpaxos.Node.Send.{send_all, send_to_groups, broadcast_msg_prepare, mpaxos_prepare}
use mpaxos.Node.Requests.{
  pick_slots, assign_bids, bid_normal, txn_info_create, mpaxos_start_request,
}
use mpaxos.Node.Broadcast.{HasClients, sent, send_to_known, get_view_ok}

send_all-sent :
    (nids : List ℕ) (q : Packet) (s : Node)
    → HasClients s.view nids
    → send_all nids q s ≡ ok (sent s (map (λ nid. (nid, q)) nids))
unfolding send_all
send_all-sent [] q s known = ap (λ l. ok (record s { out = l })) (sym (append-nil s.out))
send_all-sent (nid ∷ nids) q s known = rw (send_to_known nid q s known.0.0 known.0.1 known.0.2) (
    send_all-sent nids q (sent s ((nid, q) ∷ [])) known.1
    ∙ ap (λ l. ok (record s { out = l }))
        (append_assoc s.out ((nid, q) ∷ []) (map (λ nid. (nid, q)) nids)))

-- The prepare of the rounds of a transaction.
abbrev pub prepare_packet : ℕ → ℕ → List RoundId → Packet
prepare_packet local tid rids =
    to_prepare (record { h = record { t = MsgType.prepare; nid = local; tid = tid }; rids = rids })

send_to_groups-sent :
    (env : Env) (gid : ℕ) (gids : List ℕ) (q : Packet) (s : Node)
    → HasClients s.view s.view.arr_nodes
    → (s' : Node) × (send_to_groups env (gid ∷ gids) q s ≡ ok s')
      × (s'.out ≡ s.out ++ map (λ nid. (nid, q)) s.view.arr_nodes)
unfolding send_to_groups
send_to_groups-sent env gid gids q s known =
    let (views, e) = get_view_ok env.garbage gid s.view in
    let s1 : Node = record s { view = record (s.view) { views = views } } in
    (
      sent s1 (map (λ nid. (nid, q)) s.view.arr_nodes),
      rw e (send_all-sent s.view.arr_nodes q s1 known),
      refl,
    )

mpaxos_prepare-sent :
    (env : Env) (t : TxnInfo) (rid : RoundId) (rids : List RoundId) (s : Node)
    → t.rids ≡ rid ∷ rids
    → HasClients s.view s.view.arr_nodes
    → (s' : Node) × (mpaxos_prepare env t s ≡ ok s')
      × (s'.out
          ≡ s.out
            ++ map (λ nid. (nid, prepare_packet s.view.local_nid t.tid t.rids)) s.view.arr_nodes)
unfolding mpaxos_prepare broadcast_msg_prepare
mpaxos_prepare-sent env t rid rids s some_rid known =
    let some_gid : map (λ r. r.gid) t.rids ≡ rid.gid ∷ map (λ r. r.gid) rids =
      ap (map (λ r. r.gid)) some_rid in
    let checked : (length t.rids == 0) ≡ false = rw some_rid (ground arith) in
    let (s', run, out) =
      send_to_groups-sent env rid.gid (map (λ r. r.gid) rids)
        (prepare_packet s.view.local_nid t.tid t.rids) s known in
    (s', rw (checked, some_gid) run, out)

some_round :
    (n base gid : ℕ) (gids : List ℕ) (b : Bool) (r : Recorder)
    → (rid : RoundId) × (rids : List RoundId) × (assign_bids n base (pick_slots (gid ∷ gids) b r).1
        ≡ rid ∷ rids)
unfolding assign_bids pick_slots
some_round n base gid gids b r = (_, _, refl)

-- The rounds that a request gets when some slot is not kept for this node.
abbrev pub new_rids : Req → Node → List RoundId
new_rids req s = assign_bids req.n_retry bid_normal (pick_slots req.gids true s.store.rec).1

-- A request is started by one prepare to each node.
pub mpaxos_start_request-sent :
    (env : Env) (req : Req) (gid : ℕ) (gids : List ℕ) (s : Node)
    → req.gids ≡ gid ∷ gids
    → (pick_slots req.gids true s.store.rec).2 ≡ false
    → HasClients s.view s.view.arr_nodes
    → (s' : Node) × (mpaxos_start_request env req s ≡ ok s')
      × (s'.out
          ≡ s.out
            ++ map
                (λ nid. (nid, prepare_packet s.view.local_nid req.id (new_rids req s)))
                s.view.arr_nodes)
unfolding mpaxos_start_request txn_info_create
mpaxos_start_request-sent env req gid gids s some_gid not_ours known =
    let rids = new_rids req s in
    let t : TxnInfo = record (txn_info_create rids req) { in_phase = preparing } in
    let s1 : Node = record s {
      store = record (s.store) { rec = (pick_slots req.gids true s.store.rec).0 };
      txns = put s.txns t.tid t;
    } in
    let (rid, rest, some_rid) =
      subst
        (λ l.
          (rid : RoundId) × (rids : List RoundId) × (assign_bids req.n_retry bid_normal
              (pick_slots l true s.store.rec).1
            ≡ rid ∷ rids))
        (sym some_gid) (some_round req.n_retry bid_normal gid gids true s.store.rec) in
    let (s', run, out) = mpaxos_prepare-sent env t rid rest s1 some_rid known in
    (s', rw not_ours run, out)
