-- ===== src/Dag/Requests.antt =====
-- The requests of two states of libmpaxos/utils/mpr_dag.h.
use mpaxos.Prelude.{
  ℕ, ◌≡◌, refl, sym, ap, ◌∙◌, inl, inr, false, Bool-cases, ◌==◌, ==_iff, some, some-injective, get,
  put, get-put_self, get-put, nat_key,
}
use mpaxos.Dag.Defs.{Color, DagNode, Dag}
use mpaxos.Dag.Safe.{is_black, look_put, recolor}

-- The same requests are there, and none that was let go waits again.
pub record SameRequests (d d' : Dag) : Type 0 where
  pub back :
      (x : ℕ) (n' : DagNode)
      → get d'.nodes x ≡ some n'
      → (n : DagNode) × (get d.nodes x ≡ some n)
        × (n.qids ≡ n'.qids)
        × (is_black n.color ≡ false → is_black n'.color ≡ false)
  pub there :
      (x : ℕ) (n : DagNode)
      → get d.nodes x ≡ some n
      → (n' : DagNode) × (get d'.nodes x ≡ some n') × (n'.qids ≡ n.qids)

pub nodes-SameRequests : (d d' : Dag) → d'.nodes ≡ d.nodes → SameRequests d d'
nodes-SameRequests d d' e = record {
  back = λ x n' at. (n', ap (λ t. get t x) (sym e) ∙ at, refl, λ h. h);
  there = λ x n at. (n, ap (λ t. get t x) e ∙ at, refl);
}

pub recolor-SameRequests :
    (node : ℕ) (n : DagNode) (c : Color) (d : Dag)
    → get d.nodes node ≡ some n
    → is_black c ≡ false
    → SameRequests d (recolor node n c d)
recolor-SameRequests node n c d at free = record {
  back = λ x n' found. elim (look_put d.nodes node x (record n { color = c }) n' found) [
    | inl (same, is) ↦ (
      n,
      ap (get d.nodes) (sym same) ∙ at,
      ap (λ r. r.qids) is,
      λ h. ap (λ r. is_black r.color) (sym is) ∙ free,
    )
    | inr (other, found') ↦ (n', found', refl, λ h. h)
  ];
  there = λ x m found. elim (Bool-cases (node == x)) [
    | inl hit ↦
        let same : node ≡ x = (==_iff node x).0 hit in
        (
          record n { color = c },
          ap (get (put d.nodes node (record n { color = c }))) (sym same)
              ∙ get-put_self d.nodes node (record n { color = c }),
          ap (λ r. r.qids) (some-injective n m (sym at ∙ ap (get d.nodes) same ∙ found)),
        )
    | inr miss ↦ (m, get-put d.nodes node x (record n { color = c }) ∙ rw miss found, refl)
  ];
}

pub SameRequests-trans : (a b c : Dag) → SameRequests a b → SameRequests b c → SameRequests a c
SameRequests-trans a b c p q = record {
  back = λ x n'' at.
      let (n', at', same', keeps') = q.back x n'' at in
      let (n, at0, same, keeps) = p.back x n' at' in (n, at0, same ∙ same', λ h. keeps' (keeps h));
  there = λ x n at.
      let (n', at', same) = p.there x n at in
      let (n'', at'', same') = q.there x n' at' in (n'', at'', same' ∙ same);
}
