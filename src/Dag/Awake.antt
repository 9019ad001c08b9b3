-- ===== src/Dag/Awake.antt =====
-- In libmpaxos/utils/mpr_dag.h, a request that is the first of all its queues has been let go.
use mpaxos.Prelude.{
  ℕ, ◌≡◌, refl, sym, ap, ◌∙◌, subst, inl, inr, Bool, true, false, Bool-cases, if◌then◌else◌, Option,
  none, some, some-injective, All-imp, arith, ok, deref, deref_ok, >>=-eq-ok, ok-injective, get,
  get-put_self, nat_key,
}
use mpaxos.Dag.Defs.{Color, white, DagNode, Dag, is_white, whiten, heads_all, promote}
use mpaxos.Dag.Heads.{head_of, HeadsAll, heads_all_lem}
use mpaxos.Dag.Safe.{is_black}
use mpaxos.Dag.Requests.{SameRequests, nodes-SameRequests, recolor-SameRequests, SameRequests-trans}
use mpaxos.Dag.Contents.{contents_of, heads_all-contents, heads_all_yes}

-- A request of the DAG that is the first of all its queues has been let go.
abbrev pub IsUp : Dag → ℕ → Type 0
IsUp d x = (n : DagNode) → get d.nodes x ≡ some n → HeadsAll d x n.qids → is_black n.color ≡ false

abbrev pub IsAwake : Dag → Type 0
IsAwake d = (x : ℕ) → IsUp d x

-- What step 2 of `mpr_dag_pop` does for the first of a queue.
pub record Promoted (o : Option ℕ) (d d' : Dag) : Type 0 where
  pub same_contents : (j : ℕ) → contents_of d' j ≡ contents_of d j
  pub requests : SameRequests d d'
  pub up : (x : ℕ) → o ≡ some x → IsUp d' x

white-IsUp :
    (node : ℕ) (n : DagNode) (d d' : Dag)
    → get d'.nodes node ≡ some n
    → is_black n.color ≡ false
    → (x : ℕ) → some node ≡ some x
    → IsUp d' x
white-IsUp node n d d' at free x is m found first =
    let same : n ≡ m =
      some-injective n m (sym at ∙ ap (get d'.nodes) (some-injective node x is) ∙ found) in
    ap (λ r. is_black r.color) (sym same) ∙ free

white_black : (c : Color) → is_white c ≡ true → is_black c ≡ false
white_black c e = ground arith

decided :
    (node : ℕ) (n : DagNode) (d c d' : Dag) (go : Bool)
    → get c.nodes node ≡ some n
    → SameRequests d c
    → ((j : ℕ) → contents_of c j ≡ contents_of d j)
    → (HeadsAll c node n.qids → go ≡ true)
    → (if go then whiten node n c else c) ≡ d'
    → Promoted (some node) d d'
unfolding whiten
decided node n d c d' true at same same_contents told e =
    let t = recolor-SameRequests node n white c at refl in
    subst (Promoted (some node) d) e (record {
      same_contents = same_contents;
      requests =
          SameRequests-trans d c (whiten node n c) same (record { back = t.back; there = t.there });
      up =
          white-IsUp node (record n { color = white }) d (whiten node n c)
            (get-put_self c.nodes node (record n { color = white })) refl;
    })
decided node n d c d' false at same same_contents told e =
    subst (Promoted (some node) d) e (record {
      same_contents = same_contents;
      requests = same;
      up = λ x is m found first.
          let this : node ≡ x = some-injective node x is in
          let it : n ≡ m = some-injective n m (sym at ∙ ap (get c.nodes) this ∙ found) in
          let all : HeadsAll c node n.qids =
            subst (λ y. HeadsAll c y n.qids) (sym this)
              (subst (λ r. HeadsAll c x r.qids) (sym it) first) in
          absurd (differ (told all));
    })
  where
    differ : false ≡ true → ⊥
    differ e = cc

pub promote_lem : (o : Option ℕ) (d d' : Dag) → promote o d ≡ ok d' → Promoted o d d'
unfolding promote
promote_lem none d d' e =
    let same = ok-injective e in
    record {
      same_contents = λ j. ap (λ c. contents_of c j) (sym same);
      requests = nodes-SameRequests d d' (ap (λ c. c.nodes) (sym same));
      up = λ x is. absurd (no_node is);
    }
  where
    no_node : {x : ℕ} → none ≡ some x → ⊥
    no_node e = cc
promote_lem (some node) d d' e =
    let (n, found, k) = >>=-eq-ok (deref (get d.nodes node)) _ e in
    let at = deref_ok (get d.nodes node) found in
    elim (Bool-cases (is_white n.color)) [
      | inl already ↦
          let same : d ≡ d' = ok-injective (rw already at k) in
          record {
            same_contents = λ j. ap (λ c. contents_of c j) (sym same);
            requests = nodes-SameRequests d d' (ap (λ c. c.nodes) (sym same));
            up =
                white-IsUp node n d d' (ap (λ c. get c.nodes node) (sym same) ∙ at)
                  (white_black n.color already);
          }
      | inr checks ↦
          let ((c, go), run, k') = >>=-eq-ok (heads_all node n.qids true d) _ (rw checks at k) in
          let (same, nodes, qu, next, all) = heads_all_lem node n.qids true go d c run in
          let there : get c.nodes node ≡ some n = ap (λ m. get m node) nodes ∙ at in
          decided node n d c d' go there (nodes-SameRequests d c nodes)
            (heads_all-contents node n.qids true go d c run)
            (λ first.
              heads_all_yes node n.qids true go d c run
                (All-imp (λ j. head_of c j ≡ some node) (λ j. head_of d j ≡ some node) n.qids
                  (λ j h. sym (same j) ∙ h) first)
                refl)
            (ok-injective k')
    ]
