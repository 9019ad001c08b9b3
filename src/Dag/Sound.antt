-- ===== src/Dag/Sound.antt =====
-- The operations of libmpaxos/utils/mpr_dag.h keep the order of the requests and forget nobody.
use mpaxos.Prelude.{
  ℕ, ◌≡◌, ◌≢◌, ◌+◌, refl, sym, ap, ◌∙◌, subst, inl, inr, Bool, true, false, Bool-cases, ◌==◌,
  ==_iff, if◌then◌else◌, Option, none, some, some-injective, List, [], ◌∷◌, ◌++◌, All-imp, arith,
  head?, ok, deref, deref_ok, >>=-eq-ok, ok-injective, get, put, del, get-put_self, nat_key,
}
use mpaxos.Dag.Queue
use mpaxos.Dag.Queue.{Queue, contents, trypop-peek_refines}
use mpaxos.Dag.Defs.{
  white, gray, black, DagNode, Dag, dag_create, inc32, queue_of, enqueue, whiten, dag_push, popped,
  same_node, promote, dequeue, dag_pop, getwhite_from, dag_getwhite,
}
use mpaxos.Dag.Heads.{head_of, HeadsAll, enqueue_lem, queue_of_found}
use mpaxos.Dag.Safe.{is_black, look_put, recolor}
use mpaxos.Dag.Idle.{Distinct}
use mpaxos.Dag.Contents.{contents_of, names, enqueue-contents, enqueue_yes}
use mpaxos.Dag.Requests.{SameRequests, recolor-SameRequests}
use mpaxos.Dag.Awake.{IsUp, IsAwake}
use mpaxos.Dag.Turns.{dequeue_lem, named_head, popped_ok}
use mpaxos.Dag.Order.{
  IsOrdered, IsOrdered-requests, found_in, added-IsOrdered, was_there, freed-IsOrdered,
}
use mpaxos.Dag.Exclusion.{IsSafe}

-- The order of the requests, and who has been let go.
abbrev pub IsSound : Dag → Type 0
IsSound d = IsOrdered d × IsAwake d

same-IsSound :
    (d d' : Dag)
    → ((j : ℕ) → contents_of d' j ≡ contents_of d j)
    → SameRequests d d'
    → IsSound d
    → IsSound d'
same-IsSound d d' same requests s = (
  IsOrdered-requests d d' same requests s.0,
  λ x n' at' first.
      let (n, at, qids, keeps) = requests.back x n' at' in
      let first' : HeadsAll d x n'.qids =
        All-imp (λ j. head_of d' j ≡ some x) (λ j. head_of d j ≡ some x) n'.qids
          (λ j h. sym (ap head? (same j)) ∙ h) first in
      keeps (s.1 x n at (subst (HeadsAll d x) (sym qids) first')),
)

pub create-IsSound : IsSound dag_create
unfolding get
create-IsSound = (
  record {
    rising = λ j. tt;
    member = λ j x i. absurd i;
    present = λ j x n at. absurd (no_node at);
    distinct = λ x n at. absurd (no_node at);
  },
  λ x n at. absurd (no_node at),
)
  where
    no_node : {n : DagNode} → none ≡ some n → ⊥
    no_node e = cc

head-joins : (xs : List ℕ) (y x : ℕ) → head? (xs ++ y ∷ []) ≡ some x → y ≢ x → head? xs ≡ some x
head-joins [] y x e other = absurd (other (some-injective y x e))
head-joins (z ∷ xs) y x e other = e

-- The end of `mpr_dag_push`.
if_whiten-IsAwake :
    (go : Bool) (node : ℕ) (n : DagNode) (c : Dag)
    → get c.nodes node ≡ some n
    → (HeadsAll c node n.qids → go ≡ true)
    → ((x : ℕ) → node ≢ x → IsUp c x)
    → IsAwake (if go then whiten node n c else c)
unfolding whiten
if_whiten-IsAwake true node n c at told up x m found first =
    elim (look_put c.nodes node x (record n { color = white }) m found) [
      | inl (same, is) ↦ ap (λ r. is_black r.color) (sym is)
      | inr (other, found') ↦ up x other m found' first
    ]
if_whiten-IsAwake false node n c at told up x m found first = elim (Bool-cases (node == x)) [
  | inl hit ↦
      let this : node ≡ x = (==_iff node x).0 hit in
      let it : n ≡ m = some-injective n m (sym at ∙ ap (get c.nodes) this ∙ found) in
      absurd (
        unlike (
          told (
            subst (λ y. HeadsAll c y n.qids) (sym this)
              (subst (λ r. HeadsAll c x r.qids) (sym it) first))))
  | inr miss ↦ up x (ground (arith, miss)) m found first
]
  where
    unlike : false ≡ true → ⊥
    unlike e = cc

if_whiten-IsOrdered :
    (go : Bool) (node : ℕ) (n : DagNode) (c : Dag)
    → get c.nodes node ≡ some n
    → IsOrdered c
    → IsOrdered (if go then whiten node n c else c)
unfolding whiten
if_whiten-IsOrdered true node n c at o =
    let t = recolor-SameRequests node n white c at refl in
    IsOrdered-requests c (whiten node n c) (λ j. refl) (record { back = t.back; there = t.there }) o
if_whiten-IsOrdered false node n c at o = o

pub push-IsSound :
    (qids : List ℕ) (load : ℕ) (d d' : Dag)
    → Distinct qids
    → dag_push qids load d ≡ ok d'
    → IsSafe d
    → IsSound d
    → IsSound d'
unfolding dag_push
push-IsSound qids load d d' once e safe (o, awake) =
    let n : DagNode = record { qids = qids; color = black; load = load } in
    let d1 : Dag = record d {
      nodes = put d.nodes d.next n;
      next = d.next + 1;
      n_push = inc32 d.n_push;
    } in
    let ((c, go), run, k) = >>=-eq-ok (enqueue d.next qids true d1) _ e in
    let (keeps, nodes, qu, counted, all) = enqueue_lem d.next qids true go d1 c run in
    let joined = enqueue-contents d.next qids true go d1 c once run in
    let there : get c.nodes d.next ≡ some n =
      ap (λ t. get t d.next) nodes ∙ get-put_self d.nodes d.next n in
    let old : (j x : ℕ) → d.next ≢ x → head_of c j ≡ some x → head_of d j ≡ some x = λ j x other h.
      elim (Bool-cases (names qids j)) [
        | inl named ↦
            head-joins (contents_of d j) d.next x (sym (ap head? (joined j ∙ rw named refl)) ∙ h)
              other
        | inr unnamed ↦ sym (ap head? (joined j ∙ rw unnamed refl)) ∙ h
      ] in
    let up : (x : ℕ) → d.next ≢ x → IsUp c x = λ x other m found first.
      elim (found_in n d c once safe.fresh nodes joined o x m found) [
        | inl (same, is) ↦ absurd (other same)
        | inr (differs, found') ↦ awake x m found' (
            All-imp (λ j. head_of c j ≡ some x) (λ j. head_of d j ≡ some x) m.qids
              (λ j h. old j x other h) first)
      ] in
    subst IsSound (ok-injective k) (
      if_whiten-IsOrdered go d.next n c there
          (added-IsOrdered n d c once safe.fresh nodes joined o),
      if_whiten-IsAwake go d.next n c there
          (λ first. enqueue_yes d.next qids true go d1 c once run first refl) up,
    )

same_node_eq : (r node : ℕ) {r' : ℕ} → same_node (some r) node ≡ ok r' → r' ≡ r
same_node_eq r node e = ground (arith, e)

-- `mpr_dag_pop` frees the node that it found first.
dequeue_keeps :
    (qids : List ℕ) (r : ℕ) (ret : Option ℕ) (d d' : Dag)
    → dequeue qids (some r) d ≡ ok (d', ret)
    → ret ≡ some r
unfolding dequeue
dequeue_keeps [] r ret d d' e = sym (ap (λ p. p.1) (ok-injective e))
dequeue_keeps (qid ∷ qids) r ret d d' e =
    let (q, is_q, e1) = >>=-eq-ok (popped (get d.ht qid)) _ e in
    let (node, got, e2) = >>=-eq-ok (popped (Queue.trypop q).0) _ e1 in
    let (r', same, e3) = >>=-eq-ok (same_node (some r) node) _ e2 in
    let (c, run, e4) = >>=-eq-ok (promote (Queue.peek (Queue.trypop q).1).0 _) _ e3 in
    dequeue_keeps qids r' ret c d' e4 ∙ ap some (same_node_eq r node same)

dequeue_first :
    (node : ℕ) (qids : List ℕ) {r : ℕ} (d d' : Dag)
    → HeadsAll d node qids
    → dequeue qids none d ≡ ok (d', some r)
    → r ≡ node
unfolding dequeue
dequeue_first node [] d d' first e = cc
dequeue_first node (qid ∷ qids) {r} d d' first e =
    let (q, is_q, e1) = >>=-eq-ok (popped (get d.ht qid)) _ e in
    let (x, got, e2) = >>=-eq-ok (popped (Queue.trypop q).0) _ e1 in
    let (c, run, e4) = >>=-eq-ok (promote (Queue.peek (Queue.trypop q).1).0 _) _ e2 in
    let found : queue_of d qid ≡ q =
      queue_of_found d qid q (ap deref (popped_ok (get d.ht qid) is_q)) in
    let shown : some x ≡ some node =
      sym (popped_ok (Queue.trypop q).0 got)
      ∙ (trypop-peek_refines q).0
      ∙ ap (λ p. head? (contents p)) (sym found)
      ∙ first.0 in
    some-injective r x (dequeue_keeps qids x (some r) c d' e4) ∙ some-injective x node shown

pub pop-IsSound :
    (node load : ℕ) (n : DagNode) (d d' : Dag)
    → get d.nodes node ≡ some n
    → is_black n.color ≡ false
    → dag_pop n.qids d ≡ ok (d', load)
    → IsSafe d
    → IsSound d
    → IsSound d'
unfolding dag_pop
pop-IsSound node load n d d' at free e safe (o, awake) =
    let ((c, ret), run, k) = >>=-eq-ok (dequeue n.qids none d) _ e in
    let (r, is, k1) = >>=-eq-ok (deref ret) _ k in
    let (m, at_c, k2) = >>=-eq-ok (deref (get c.nodes r)) _ k1 in
    let first = safe.heads node n tt at free in
    let this : r ≡ node =
      dequeue_first node n.qids d c first
        (subst (λ p. dequeue n.qids none d ≡ ok (c, p)) (deref_ok ret is) run) in
    let (left, requests, awakes) = dequeue_lem n.qids none ret d c (o.distinct node n at) run in
    let end : IsSound (record c { nodes = del c.nodes node }) = (
      freed-IsOrdered node n d c at (λ j named. named_head d node j n.qids named first) left
          requests o,
      λ x m' found first'.
          let (other, found') =
            was_there node n d c at (λ j named. named_head d node j n.qids named first) left
              requests o x m' found in
          awakes awake x m' found' first',
    ) in
    subst IsSound
      (ap (λ y. record c { nodes = del c.nodes y }) (sym this) ∙ ap (λ p. p.0) (ok-injective k2))
      end

getwhite_from-IsSound :
    (qu : List ℕ) (load : Option ℕ) (d d' : Dag)
    → getwhite_from qu d ≡ ok (d', load)
    → IsSound d
    → IsSound d'
unfolding getwhite_from
getwhite_from-IsSound [] load d d' e s = subst IsSound (ap (λ r. r.0) (ok-injective e)) s
getwhite_from-IsSound (node ∷ rest) load d d' e s =
    let (n, is, k) = >>=-eq-ok (deref (get d.nodes node)) _ e in
    let t = recolor-SameRequests node n gray d (deref_ok (get d.nodes node) is) refl in
    let c : Dag = record (recolor node n gray d) { qu = rest; n_pop = inc32 d.n_pop } in
    subst IsSound (ap (λ r. r.0) (ok-injective k))
      (same-IsSound d c (λ j. refl) (record { back = t.back; there = t.there }) s)

pub getwhite-IsSound :
    (load : Option ℕ) (d d' : Dag) → dag_getwhite d ≡ ok (d', load) → IsSound d → IsSound d'
unfolding dag_getwhite
getwhite-IsSound load d d' e s = getwhite_from-IsSound d.qu load d d' e s
