-- ===== src/Dag/Safe.antt =====
-- The invariant of libmpaxos/utils/mpr_dag.h: a node that may go is the first of all its queues.
use mpaxos.Prelude.{
  ℕ, ◌<◌, ◌≡◌, ◌≢◌, refl, sym, ap, subst, ◌∙◌, ◌⊎◌, inl, inr, Bool, true, false, Bool-cases, ◌==◌,
  ==_iff, if◌then◌else◌, Option, none, some, some-injective, [], ◌∷◌, All, All-imp, All-append,
  arith, ok, deref, deref_ok, >>=-eq-ok, ok-injective, Dict, get, put, get-put, nat_key,
}
use mpaxos.Dag.Defs.{white, black, Color, DagNode, Dag, is_white, whiten, heads_all, promote}
use mpaxos.Dag.Heads.{head_of, HeadsAll, heads_all_lem}

-- A request that is in the white queue, or that the daemon has taken out of it.
abbrev pub is_black : Color → Bool
is_black black = true
is_black _ = false

-- A node that waits for the daemon exists no more, or may go.
abbrev pub IsReady : Dag → ℕ → Type 0
IsReady d x = (x < d.next) × ((n : DagNode) → get d.nodes x ≡ some n → is_black n.color ≡ false)

-- Each node that may go, among those that `P` holds of, is the first of all its queues.
pub record SafeFor (P : ℕ → Type 0) (d : Dag) : Type 0 where
  pub heads :
      (x : ℕ) (n : DagNode)
      → P x
      → get d.nodes x ≡ some n
      → is_black n.color ≡ false
      → HeadsAll d x n.qids
  pub fresh : (x : ℕ) (n : DagNode) → get d.nodes x ≡ some n → x < d.next
  pub ready : All (IsReady d) d.qu

-- What a lookup finds after a write, by whether the keys are the same.
pub look_put :
    {V : Type 0} (t : Dict ℕ V) (k j : ℕ) (v w : V)
    → get (put t k v) j ≡ some w
    → ((k ≡ j) × (v ≡ w)) ⊎ ((k ≢ j) × (get t j ≡ some w))
look_put t k j v w e = elim (Bool-cases (k == j)) [
  | inl hit ↦ inl ((==_iff k j).0 hit, some-injective v w (sym (looked hit) ∙ e))
  | inr miss ↦ inr (ground arith, sym (looked miss) ∙ e)
]
  where
    looked : {b : Bool} → (k == j) ≡ b → get (put t k v) j ≡ (if b then some v else get t j)
    looked same = get-put t k j v ∙ ap (λ b. if b then some v else get t j) same

pub SafeFor-moved :
    (P : ℕ → Type 0) (d d' : Dag)
    → ((x j : ℕ) → P x → head_of d j ≡ some x → head_of d' j ≡ some x)
    → d'.nodes ≡ d.nodes
    → d'.qu ≡ d.qu
    → d'.next ≡ d.next
    → SafeFor P d
    → SafeFor P d'
SafeFor-moved P d d' moves nodes qu next s = record {
  heads = λ x n p at free.
      All-imp (λ qid. head_of d qid ≡ some x) (λ qid. head_of d' qid ≡ some x) n.qids
        (λ qid. moves x qid p) (s.heads x n p (ap (λ t. get t x) (sym nodes) ∙ at) free);
  fresh =
      λ x n at. subst (λ k. x < k) (sym next) (s.fresh x n (ap (λ t. get t x) (sym nodes) ∙ at));
  ready = subst (All (IsReady d')) (sym qu) (
      All-imp (IsReady d) (IsReady d') d.qu
        (λ x h.
          (subst (λ k. x < k) (sym next) h.0, λ n at. h.1 n (ap (λ t. get t x) (sym nodes) ∙ at)))
        s.ready);
}

-- A node that is there gets another color.
abbrev pub recolor : ℕ → DagNode → Color → Dag → Dag
recolor node n c d = record d { nodes = put d.nodes node (record n { color = c }) }

module _ (P : ℕ → Type 0) (node : ℕ) (n : DagNode) (c : Color) (d : Dag) (free : is_black c ≡ false)
    (at : get d.nodes node ≡ some n) (first : HeadsAll d node n.qids) (s : SafeFor P d) where
  pub recolor-IsReady : (x : ℕ) → IsReady d x → IsReady (recolor node n c d) x
  recolor-IsReady x h = (
    h.0,
    λ m found. elim (look_put d.nodes node x (record n { color = c }) m found) [
      | inl (same, is) ↦ ap (λ r. is_black r.color) (sym is) ∙ free
      | inr (other, found') ↦ h.1 m found'
    ],
  )

  recolored-IsReady : IsReady (recolor node n c d) node
  recolored-IsReady = (
    s.fresh node n at,
    λ m found. elim (look_put d.nodes node node (record n { color = c }) m found) [
      | inl (same, is) ↦ ap (λ r. is_black r.color) (sym is) ∙ free
      | inr (other, found') ↦ absurd (other refl)
    ],
  )

  pub recolor-SafeFor : SafeFor P (recolor node n c d)
  recolor-SafeFor = record {
    heads = λ x m p found white_m. elim (look_put d.nodes node x (record n { color = c }) m found) [
      | inl (same, is) ↦
          subst (λ y. HeadsAll d y m.qids) same (subst (λ r. HeadsAll d node r.qids) is first)
      | inr (other, found') ↦ s.heads x m p found' white_m
    ];
    fresh = λ x m found. elim (look_put d.nodes node x (record n { color = c }) m found) [
      | inl (same, is) ↦ subst (λ k. k < d.next) same (s.fresh node n at)
      | inr (other, found') ↦ s.fresh x m found'
    ];
    ready = All-imp (IsReady d) (IsReady (recolor node n c d)) d.qu recolor-IsReady s.ready;
  }

-- A node that is the first of all its queues goes to the white queue.
whiten-SafeFor :
    (P : ℕ → Type 0) (node : ℕ) (n : DagNode) (d : Dag)
    → get d.nodes node ≡ some n
    → HeadsAll d node n.qids
    → SafeFor P d
    → SafeFor P (whiten node n d)
unfolding whiten
whiten-SafeFor P node n d at first s =
    let t = recolor-SafeFor P node n white d refl at first s in
    record {
      heads = t.heads;
      fresh = t.fresh;
      ready =
          All-append (IsReady (recolor node n white d)) d.qu (node ∷ []) t.ready
            (recolored-IsReady P node n white d refl at first s, tt);
    }

pub if_whiten-SafeFor :
    (P : ℕ → Type 0) (go : Bool) (node : ℕ) (n : DagNode) (d : Dag)
    → get d.nodes node ≡ some n
    → (go ≡ true → HeadsAll d node n.qids)
    → SafeFor P d
    → SafeFor P (if go then whiten node n d else d)
if_whiten-SafeFor P true node n d at first s = whiten-SafeFor P node n d at (first refl) s
if_whiten-SafeFor P false node n d at first s = s

pub promote-SafeFor :
    (P : ℕ → Type 0) (o : Option ℕ) (d d' : Dag) → promote o d ≡ ok d' → SafeFor P d → SafeFor P d'
unfolding promote
promote-SafeFor P none d d' e s = subst (SafeFor P) (ok-injective e) s
promote-SafeFor P (some node) d d' e s =
    let (n, found, k) = >>=-eq-ok (deref (get d.nodes node)) _ e in
    elim (Bool-cases (is_white n.color)) [
      | inl already ↦ subst (SafeFor P) (ok-injective (rw already at k)) s
      | inr checks ↦
          let ((c, go), run, k') = >>=-eq-ok (heads_all node n.qids true d) _ (rw checks at k) in
          let (same, nodes, qu, next, all) = heads_all_lem node n.qids true go d c run in
          let t = SafeFor-moved P d c (λ x j p h. same j ∙ h) nodes qu next s in
          let there = ap (λ m. get m node) nodes ∙ deref_ok (get d.nodes node) found in
          subst (SafeFor P) (ok-injective k')
            (if_whiten-SafeFor P go node n c there (λ h. (all h).1) t)
    ]
