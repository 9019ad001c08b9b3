-- ===== src/Cluster/Invariant.antt =====
-- The invariant of several nodes, and that every step keeps it.
use mpaxos.Prelude.{
  ℕ, ◌≡◌, sym, subst, false, Bool-cases, inl, inr, List, All, ◌==◌, ==_iff, get, AllAt, nat_key,
  length,
}
use mpaxos.Types.{InstId, MsgReply}
use mpaxos.Proposer.{TxnInfo, yes_most, check_majority}
use mpaxos.Proposer.Tally.{IsOnce}
use mpaxos.Node.{Env, Node, groups}
use mpaxos.Cluster.Defs.{Cluster, update, IsNew}
use mpaxos.Cluster.Answers.{IsBound, silent-IsBound}
use mpaxos.Cluster.Groups.{AllBacked}

-- A transaction in the table of a node.
abbrev pub IsOurs : List ℕ → List MsgReply → ℕ → TxnInfo → Type 0
IsOurs members sent k t = (t.tid ≡ k) × AllBacked members sent k t

-- A transaction that was decided: a majority accepted it.
pub record Won (env : Env) (members : List ℕ) (sent : List MsgReply) (t : TxnInfo) : Type 0 where
  pub backed : AllBacked members sent t.tid t
  pub accepted : check_majority (λ gid. length members) false (groups env t) ≡ yes_most

pub record Sound (env : Env) (members : List ℕ) (i : InstId) (c : Cluster) : Type 0 where
  pub local : (k : ℕ) → (c.node k).view.local_nid ≡ k
  pub nodes : (k : ℕ) → (c.node k).view.arr_nodes ≡ members
  pub once : All (λ r. IsOnce r.h.nid members) c.sent
  pub bound : IsBound i (λ k. (c.node k).store.accp) c.sent
  pub txns : (k : ℕ) → AllAt (IsOurs members c.sent) (c.node k).txns
  pub won : All (Won env members c.sent) c.decided

module _ (env : Env) (members : List ℕ) (i : InstId) where
  pub IsNew-Sound : (c : Cluster) → IsNew members c → Sound env members i c
  unfolding get
  IsNew-Sound c new = record {
    local = new.local;
    nodes = new.nodes;
    once = subst (All (λ r. IsOnce r.h.nid members)) (sym new.sent) tt;
    bound =
        subst (IsBound i (λ k. (c.node k).store.accp)) (sym new.sent)
          (silent-IsBound i (λ k. (c.node k).store.accp));
    txns = λ k. subst (AllAt (IsOurs members c.sent)) (sym (new.txns k)) (λ j t at. absurd (cc));
    won = subst (All (Won env members c.sent)) (sym new.decided) tt;
  }

-- The nodes after one of them has moved.
pub at_update :
    (Q : ℕ → Node → Type 0) (f : ℕ → Node) (k : ℕ) (w : Node)
    → ((j : ℕ) → Q j (f j))
    → Q k w
    → (j : ℕ) → Q j (update f k w j)
at_update Q f k w all here j = elim (Bool-cases (k == j)) [
  | inl hit ↦ rw hit (subst (λ x. Q x w) ((==_iff k j).0 hit) here)
  | inr miss ↦ rw miss (all j)
]
