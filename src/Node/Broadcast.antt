-- ===== src/Node/Broadcast.antt =====
-- What `mpaxos_accept` sends: one accept message to each node of the view, each with the rounds of
-- one and the same proposal.
use mathlib.Core.List.{append-nil, append_assoc}
use mpaxos.Prelude.{
  ℕ, ◌≤◌, ◌≡◌, refl, sym, ap, ◌∙◌, true, not, inl, inr, some, Option-cases, List, [], ◌∷◌, ◌++◌,
  arith, ◌==◌, ok, Dict, get, put, nat_key, length, All,
}
use mpaxos.Types.{RoundId, Proposal, CodedValue}
use mpaxos.View.{View, Client, get_view}
use mpaxos.Proposer.{TxnInfo}
use mpaxos.Node.Defs.{Env, Packet, Node}
use mpaxos.Node.Send.{send_to, send_shares, accept_packet, broadcast_msg_accept_c}

-- The addressees and the messages of a broadcast of shares.
abbrev pub share_packets : ℕ → ℕ → Proposal → List ℕ → List CodedValue → List (ℕ × Packet)
share_packets local tid p [] cvs = []
share_packets local tid p (nid ∷ nids) [] = []
share_packets local tid p (nid ∷ nids) (cv ∷ cvs) =
    (nid, accept_packet local tid (record p { coded_value = some cv }))
    ∷ share_packets local tid p nids cvs

-- Each of the nodes can be reached.
abbrev pub HasClients : View → List ℕ → Type 0
HasClients v nids =
    All (λ nid. (not (nid == 0) ≡ true) × (c : Client) × (get v.senders nid ≡ some c)) nids

pub send_to_known :
    (nid : ℕ) (q : Packet) (s : Node)
    → not (nid == 0) ≡ true
    → (c : Client) → get s.view.senders nid ≡ some c
    → send_to nid q s ≡ ok (record s { out = s.out ++ (nid, q) ∷ [] })
unfolding send_to
send_to_known nid q s nonzero c e = rw (nonzero, e)

-- The node with messages added to those it has sent.
abbrev pub sent : Node → List (ℕ × Packet) → Node
sent s more = record s { out = s.out ++ more }

send_shares-sent :
    (tid : ℕ) (p : Proposal) (nids : List ℕ) (cvs : List CodedValue) (s : Node)
    → HasClients s.view nids
    → length nids ≤ length cvs
    → send_shares tid p nids cvs s ≡ ok (sent s (share_packets s.view.local_nid tid p nids cvs))
unfolding send_shares
send_shares-sent tid p [] cvs s known enough =
    ap (λ l. ok (record s { out = l })) (sym (append-nil s.out))
send_shares-sent tid p (nid ∷ nids) [] s known enough = absurd (omega arith)
send_shares-sent tid p (nid ∷ nids) (cv ∷ cvs) s known enough =
    let q : ℕ × Packet =
      (nid, accept_packet s.view.local_nid tid (record p { coded_value = some cv })) in
    rw (send_to_known nid q.1 s known.0.0 known.0.1 known.0.2) (
      send_shares-sent tid p nids cvs (sent s (q ∷ [])) known.1 (omega arith)
      ∙ ap (λ l. ok (record s { out = l }))
          (append_assoc s.out (q ∷ []) (share_packets s.view.local_nid tid p nids cvs)))

-- `get_view` gives the nodes, and at most enters a view.
pub get_view_ok :
    (garbage gid : ℕ) (v : View)
    → (views : Dict ℕ (Unit {0})) × (get_view garbage gid v
        ≡ ok (record v { views = views }, v.arr_nodes))
unfolding get_view
get_view_ok garbage gid v = elim (Option-cases (get v.views gid)) [
  | inl miss ↦ (put v.views garbage tt, rw (miss, get_view))
  | inr (u, hit) ↦ (v.views, rw (hit, get_view))
]

-- What a broadcast of shares leaves.
pub record Broadcasted (s s' : Node) (packets : List (ℕ × Packet)) : Type 0 where
  pub out : s'.out ≡ s.out ++ packets
  pub store : s'.store ≡ s.store
  pub txns : s'.txns ≡ s.txns

pub broadcast_sends :
    (env : Env) (t : TxnInfo) (a : ℕ) (cv : CodedValue) (cvs : List CodedValue) (p : Proposal)
    (rid : RoundId) (s : Node)
    → get s.heap.blocks a ≡ some p
    → p.rids ≡ rid ∷ []
    → HasClients s.view s.view.arr_nodes
    → length s.view.arr_nodes ≤ length (cv ∷ cvs)
    → (s' : Node) × (broadcast_msg_accept_c env t a (cv ∷ cvs) s ≡ ok s')
      × Broadcasted s s' (share_packets s.view.local_nid t.tid p s.view.arr_nodes (cv ∷ cvs))
unfolding broadcast_msg_accept_c
broadcast_sends env t a cv cvs p rid s live one known enough =
    let (views, e) = get_view_ok env.garbage rid.gid s.view in
    let s1 : Node = record s { view = record (s.view) { views = views } } in
    let packets = share_packets s.view.local_nid t.tid p s.view.arr_nodes (cv ∷ cvs) in
    (
      record (sent s1 packets) {
        heap = record (s.heap) {
          blocks = put s.heap.blocks a (record p { coded_value = some cv });
        };
      },
      simp (live, one, e, send_shares-sent t.tid p s.view.arr_nodes (cv ∷ cvs) s1 known enough),
      record { out = refl; store = refl; txns = refl },
    )
