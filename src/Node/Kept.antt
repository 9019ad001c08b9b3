-- ===== src/Node/Kept.antt =====
-- What the code that sends messages leaves as it is: `send_to`, the broadcasts and `mpaxos_prepare` of
-- libmpaxos/comm.c and proposer.c.
use mpaxos.Prelude.{
  ℕ, ◌≡◌, refl, sym, ◌∙◌, subst, ap, not, Option, none, some, List, [], ◌∷◌, map, ◌==◌, ok, abort,
  fault, >>=-eq-ok, ok-injective, safe_assert, get, nat_key, length,
}
use mpaxos.Types.{Proposal, CodedValue}
use mpaxos.View.{View, Client, get_view}
use mpaxos.Proposer.{load, TxnInfo}
use mpaxos.Node.Defs.{Env, Packet, Node}
use mpaxos.Node.Send.{
  send_to, send_all, send_to_groups, broadcast_msg_prepare, mpaxos_prepare, send_shares,
  broadcast_msg_accept_c, accept_packet,
}
use mpaxos.Node.Broadcast.{get_view_ok}

-- The nodes of the view, the node's own number, its transactions and its tables stay as they are.
pub record Kept (s s' : Node) : Type 0 where
  pub nodes : s'.view.arr_nodes ≡ s.view.arr_nodes
  pub local : s'.view.local_nid ≡ s.view.local_nid
  pub txns : s'.txns ≡ s.txns
  pub store : s'.store ≡ s.store

Kept-refl : (s : Node) → Kept s s
Kept-refl s = record { nodes = refl; local = refl; txns = refl; store = refl }

Kept-trans : {s u s' : Node} → Kept s u → Kept u s' → Kept s s'
Kept-trans a b = record {
  nodes = b.nodes ∙ a.nodes;
  local = b.local ∙ a.local;
  txns = b.txns ∙ a.txns;
  store = b.store ∙ a.store;
}

send_to-Kept : (nid : ℕ) (q : Packet) (s s' : Node) → send_to nid q s ≡ ok s' → Kept s s'
unfolding send_to
send_to-Kept nid q s s' e =
    let (u, e1, k1) = >>=-eq-ok (safe_assert (not (nid == 0))) _ e in
    subst (Kept s) (client_found (get s.view.senders nid) k1)
      (record { nodes = refl; local = refl; txns = refl; store = refl })
  where
    client_found :
        (o : Option Client) {x : Node} → (elim o [ none ↦ abort | some _ ↦ ok x ]) ≡ ok s' → x ≡ s'
    client_found none k = absurd (cc)
    client_found (some c) k = ok-injective k

send_all-Kept : (nids : List ℕ) (q : Packet) (s s' : Node) → send_all nids q s ≡ ok s' → Kept s s'
unfolding send_all
send_all-Kept [] q s s' e = subst (Kept s) (ok-injective e) (Kept-refl s)
send_all-Kept (nid ∷ nids) q s s' e =
    let (u, e1, k1) = >>=-eq-ok (send_to nid q s) _ e in
    Kept-trans (send_to-Kept nid q s u e1) (send_all-Kept nids q u s' k1)

send_shares-Kept :
    (tid : ℕ) (p : Proposal) (nids : List ℕ) (cvs : List CodedValue) (s s' : Node)
    → send_shares tid p nids cvs s ≡ ok s'
    → Kept s s'
unfolding send_shares
send_shares-Kept tid p [] cvs s s' e = subst (Kept s) (ok-injective e) (Kept-refl s)
send_shares-Kept tid p (nid ∷ nids) [] s s' e = absurd (cc)
send_shares-Kept tid p (nid ∷ nids) (cv ∷ cvs) s s' e =
    let (u, e1, k1) =
      >>=-eq-ok
        (send_to nid (accept_packet s.view.local_nid tid (record p { coded_value = some cv })) s) _
        e in
    Kept-trans (send_to-Kept nid _ s u e1) (send_shares-Kept tid p nids cvs u s' k1)

get_view-Kept :
    (garbage gid : ℕ) (s : Node) (v' : View) (nids : List ℕ)
    → get_view garbage gid s.view ≡ ok (v', nids)
    → Kept s (record s { view = v' })
get_view-Kept garbage gid s v' nids e =
    let (views, f) = get_view_ok garbage gid s.view in
    let same = ok-injective (sym f ∙ e) in
    record {
      nodes = sym (ap (λ x. x.0.arr_nodes) same);
      local = sym (ap (λ x. x.0.local_nid) same);
      txns = refl;
      store = refl;
    }

send_to_groups-Kept :
    (env : Env) (gids : List ℕ) (q : Packet) (s s' : Node)
    → send_to_groups env gids q s ≡ ok s'
    → Kept s s'
unfolding send_to_groups
send_to_groups-Kept env [] q s s' e = absurd (cc)
send_to_groups-Kept env (gid ∷ gids) q s s' e =
    let ((view, nids), e1, k1) = >>=-eq-ok (get_view env.garbage gid s.view) _ e in
    Kept-trans (get_view-Kept env.garbage gid s view nids e1) (send_all-Kept nids q _ s' k1)

pub mpaxos_prepare-Kept :
    (env : Env) (t : TxnInfo) (s s' : Node) → mpaxos_prepare env t s ≡ ok s' → Kept s s'
unfolding mpaxos_prepare broadcast_msg_prepare
mpaxos_prepare-Kept env t s s' e =
    let (u, e1, k1) = >>=-eq-ok (safe_assert (not (length t.rids == 0))) _ e in
    send_to_groups-Kept env (map (λ r. r.gid) t.rids) _ s s' k1

pub broadcast-Kept :
    (env : Env) (t : TxnInfo) (a : ℕ) (cvs : List CodedValue) (s s' : Node)
    → broadcast_msg_accept_c env t a cvs s ≡ ok s'
    → Kept s s'
unfolding broadcast_msg_accept_c
broadcast-Kept env t a cvs s s' e =
    let (p, e1, k1) = >>=-eq-ok (load a s.heap) _ e in
    let (u, e2, k2) = >>=-eq-ok (safe_assert (length p.rids == 1)) _ k1 in
    let (rid, e3, k3) = >>=-eq-ok (elim p.rids [ [] ↦ fault | r ∷ _ ↦ ok r ]) _ k2 in
    let ((view, nids), e4, k4) = >>=-eq-ok (get_view env.garbage rid.gid s.view) _ k3 in
    let (s2, e5, k5) = >>=-eq-ok (send_shares t.tid p nids cvs (record s { view = view })) _ k4 in
    let (cv, e6, k6) = >>=-eq-ok (elim cvs [ [] ↦ fault | cv ∷ _ ↦ ok cv ]) _ k5 in
    let kept =
      Kept-trans (get_view-Kept env.garbage rid.gid s view nids e4)
        (send_shares-Kept t.tid p nids cvs _ s2 e5) in
    let same = ok-injective k6 in
    record {
      nodes = sym (ap (λ x. x.view.arr_nodes) same) ∙ kept.nodes;
      local = sym (ap (λ x. x.view.local_nid) same) ∙ kept.local;
      txns = sym (ap (λ x. x.txns) same) ∙ kept.txns;
      store = sym (ap (λ x. x.store) same) ∙ kept.store;
    }
