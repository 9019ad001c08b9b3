-- ===== src/Node/Tallied.antt =====
-- A new transaction of a node is tallied: `txn_info_create` of libmpaxos/controller.c.
use mpaxos.Prelude.{
  ℕ, ◌≡◌, refl, sym, false, List, [], ◌∷◌, Dict, get, put, AllEntries, put-AllEntries, nat_key,
}
use mpaxos.Types.{RoundId, Req}
use mpaxos.Proposer.{GroupInfo}
use mpaxos.Proposer.Tally.{count, IsTallied}
use mpaxos.Proposer.Quorum.{AllTallied}
use mpaxos.Node.Defs.{Node}
use mpaxos.Node.Requests.{group_info_create, group_table, txn_info_create}

none_passes : (nodes : List ℕ) → count (λ n. false) nodes ≡ 0
none_passes [] = refl
none_passes (x ∷ xs) = none_passes xs

pub new_group :
    (nodes : List ℕ) (tid : ℕ) (rid : RoundId) → IsTallied nodes (group_info_create tid rid)
unfolding get
new_group nodes tid rid = record {
  promises_yes = sym (none_passes nodes);
  promises_no = sym (none_passes nodes);
  accepteds_yes = sym (none_passes nodes);
  accepteds_no = sym (none_passes nodes);
}

-- What holds of every new group holds of every group of a new transaction.
pub group_table-AllEntries :
    (P : GroupInfo → Type 0) (tid : ℕ) (rids : List RoundId) (d : Dict ℕ GroupInfo)
    → ((rid : RoundId) → P (group_info_create tid rid))
    → AllEntries P d
    → AllEntries P (group_table tid rids d)
unfolding group_table
group_table-AllEntries P tid [] d new all = all
group_table-AllEntries P tid (rid ∷ rids) d new all =
    group_table-AllEntries P tid rids (put d rid.gid (group_info_create tid rid)) new
      (put-AllEntries P d rid.gid (group_info_create tid rid) all (new rid))

-- A new transaction is tallied, whatever the view.
pub txn_info_create-AllTallied :
    (nodes : List ℕ) (rids : List RoundId) (req : Req) → AllTallied nodes (txn_info_create rids req)
unfolding txn_info_create get
txn_info_create-AllTallied nodes rids req =
    group_table-AllEntries (IsTallied nodes) req.id rids [] (new_group nodes req.id)
      (λ gid g e. absurd (cc))

-- Every transaction of the node is tallied over the nodes of its view.
abbrev pub NodeTallied : Node → Type 0
NodeTallied s = AllEntries (AllTallied s.view.arr_nodes) s.txns
