-- ===== src/Dag/Exclusion.antt =====
-- Requests that libmpaxos/utils/mpr_dag.h has handed out, or is about to, share no group.
use mpaxos.Prelude.{
  ℕ, ◌+◌, ◌≡◌, ◌≢◌, refl, sym, ap, subst, ◌∙◌, inl, inr, true, false, Option, none, some,
  some-injective, List, [], ◌∷◌, All, All-imp, All-get_elem?, get_elem?, arith, ok, deref, deref_ok,
  >>=-eq-ok, ok-injective, get, put, del, get-put_self, get-del, nat_key,
}
use mpaxos.Dag.Defs.{
  gray, black, DagNode, Dag, dag_create, inc32, enqueue, dag_push, dequeue, dag_pop, getwhite_from,
  dag_getwhite,
}
use mpaxos.Dag.Heads.{head_of, enqueue_lem}
use mpaxos.Dag.Safe.{
  is_black, IsReady, SafeFor, look_put, SafeFor-moved, recolor, recolor-IsReady, recolor-SafeFor,
  if_whiten-SafeFor,
}
use mpaxos.Dag.Taken.{Holds, dequeue-Holds}

-- Every node that may go is the first of all its queues.
abbrev pub IsSafe : Dag → Type 0
IsSafe = SafeFor (λ x. Unit {0})

dag_create-IsSafe : IsSafe dag_create
unfolding get
dag_create-IsSafe = record {
  heads = λ x n p at. absurd (no_node at);
  fresh = λ x n at. absurd (no_node at);
  ready = tt;
}
  where
    no_node : {n : DagNode} → none ≡ some n → ⊥
    no_node e = cc

-- The node that `mpr_dag_push` makes is black at first.
new_node-IsSafe :
    (n : DagNode) (n_push : ℕ) (d : Dag)
    → is_black n.color ≡ true
    → IsSafe d
    → IsSafe (record d { nodes = put d.nodes d.next n; next = d.next + 1; n_push = n_push })
new_node-IsSafe n n_push d is_new s = record {
  heads = λ x m p found free. elim (look_put d.nodes d.next x n m found) [
    | inl (same, is) ↦ absurd (differ is free)
    | inr (other, found') ↦ s.heads x m p found' free
  ];
  fresh = λ x m found. elim (look_put d.nodes d.next x n m found) [
    | inl (same, is) ↦ omega (arith, same)
    | inr (other, found') ↦ omega (arith, s.fresh x m found')
  ];
  ready =
      All-imp (IsReady d)
        (IsReady (record d { nodes = put d.nodes d.next n; next = d.next + 1; n_push = n_push }))
        d.qu
        (λ x h. (
          omega (arith, h.0),
          λ m found. elim (look_put d.nodes d.next x n m found) [
            | inl (same, is) ↦ absurd (omega (arith, same, h.0))
            | inr (other, found') ↦ h.1 m found'
          ],
        ))
        s.ready;
}
  where
    differ : {m : DagNode} → n ≡ m → is_black m.color ≡ false → ⊥
    differ is free = cc

dag_push-IsSafe :
    (qids : List ℕ) (load : ℕ) (d d' : Dag) → dag_push qids load d ≡ ok d' → IsSafe d → IsSafe d'
unfolding dag_push
dag_push-IsSafe qids load d d' e s =
    let n : DagNode = record { qids = qids; color = black; load = load } in
    let d1 : Dag = record d {
      nodes = put d.nodes d.next n;
      next = d.next + 1;
      n_push = inc32 d.n_push;
    } in
    let ((c, go), run, k) = >>=-eq-ok (enqueue d.next qids true d1) _ e in
    let (keeps, nodes, qu, next, all) = enqueue_lem d.next qids true go d1 c run in
    let s1 = new_node-IsSafe n (inc32 d.n_push) d refl s in
    let s2 = SafeFor-moved (λ x. Unit {0}) d1 c (λ x j p. keeps j x) nodes qu next s1 in
    let there = ap (λ m. get m d.next) nodes ∙ get-put_self d.nodes d.next n in
    subst IsSafe (ok-injective k)
      (if_whiten-SafeFor (λ x. Unit {0}) go d.next n c there (λ h. (all h).1) s2)

-- The node that leaves is freed.
freed-IsSafe :
    (node : ℕ) (d : Dag)
    → SafeFor (λ x. x ≢ node) d
    → IsSafe (record d { nodes = del d.nodes node })
freed-IsSafe node d s =
    let looked = λ (x : ℕ). get-del d.nodes node x in
    record {
      heads = λ x n p at. s.heads x n (other x n at) (found x n at);
      fresh = λ x n at. s.fresh x n (found x n at);
      ready =
          All-imp (IsReady d) (IsReady (record d { nodes = del d.nodes node })) d.qu
            (λ x h. (h.0, λ n at. h.1 n (found x n at))) s.ready;
    }
  where
    other : (x : ℕ) (n : DagNode) → get (del d.nodes node) x ≡ some n → x ≢ node
    other x n at = ground (arith, get-del d.nodes node x)

    found : (x : ℕ) (n : DagNode) → get (del d.nodes node) x ≡ some n → get d.nodes x ≡ some n
    found x n at = ground (arith, get-del d.nodes node x)

dag_pop-IsSafe :
    (qids : List ℕ) (load : ℕ) (d d' : Dag) → dag_pop qids d ≡ ok (d', load) → IsSafe d → IsSafe d'
unfolding dag_pop
dag_pop-IsSafe qids load d d' e s =
    let ((c, ret), run, k) = >>=-eq-ok (dequeue qids none d) _ e in
    let (node, is, k1) = >>=-eq-ok (deref ret) _ k in
    let (n, at, k2) = >>=-eq-ok (deref (get c.nodes node)) _ k1 in
    let h = subst (λ o. Holds o c) (deref_ok ret is) (dequeue-Holds qids none ret d c run s) in
    subst IsSafe (ap (λ r. r.0) (ok-injective k2)) (freed-IsSafe node c h)

getwhite_from-IsSafe :
    (qu : List ℕ) (load : Option ℕ) (d d' : Dag)
    → getwhite_from qu d ≡ ok (d', load)
    → All (IsReady d) qu
    → IsSafe d
    → IsSafe d'
unfolding getwhite_from
getwhite_from-IsSafe [] load d d' e ready s = subst IsSafe (ap (λ r. r.0) (ok-injective e)) s
getwhite_from-IsSafe (node ∷ rest) load d d' e ready s =
    let (n, is, k) = >>=-eq-ok (deref (get d.nodes node)) _ e in
    let at = deref_ok (get d.nodes node) is in
    let first = s.heads node n tt at (ready.0.1 n at) in
    let t = recolor-SafeFor (λ x. Unit {0}) node n gray d refl at first s in
    let c : Dag = record (recolor node n gray d) { qu = rest; n_pop = inc32 d.n_pop } in
    let u : IsSafe c = record {
      heads = t.heads;
      fresh = t.fresh;
      ready =
          All-imp (IsReady d) (IsReady (recolor node n gray d)) rest
            (recolor-IsReady (λ x. Unit {0}) node n gray d refl at first s) ready.1;
    } in
    subst IsSafe (ap (λ r. r.0) (ok-injective k)) u

dag_getwhite-IsSafe :
    (load : Option ℕ) (d d' : Dag) → dag_getwhite d ≡ ok (d', load) → IsSafe d → IsSafe d'
unfolding dag_getwhite
dag_getwhite-IsSafe load d d' e s = getwhite_from-IsSafe d.qu load d d' e s.ready s

-- One call of an operation that succeeds.
pub data Step (d d' : Dag) : Type 0 where
  pushed : (qids : List ℕ) (load : ℕ) → dag_push qids load d ≡ ok d' → Step d d'
  popped_one : (qids : List ℕ) (load : ℕ) → dag_pop qids d ≡ ok (d', load) → Step d d'
  handed_out : (load : Option ℕ) → dag_getwhite d ≡ ok (d', load) → Step d d'

pub data Reach : Dag → Type 0 where
  created : Reach dag_create
  next : {d d' : Dag} → Reach d → Step d d' → Reach d'

pub Reach-IsSafe : {d : Dag} → Reach d → IsSafe d
Reach-IsSafe created = dag_create-IsSafe
Reach-IsSafe (next r (pushed qids load e)) = dag_push-IsSafe qids load _ _ e (Reach-IsSafe r)
Reach-IsSafe (next r (popped_one qids load e)) = dag_pop-IsSafe qids load _ _ e (Reach-IsSafe r)
Reach-IsSafe (next r (handed_out load e)) = dag_getwhite-IsSafe load _ _ e (Reach-IsSafe r)

-- After any calls of the operations that succeed: two nodes that are in the white queue or were handed
-- out share no group.
pub in_progress_exclusive :
    (d : Dag) (a b : ℕ) (n m : DagNode) (i j qid : ℕ)
    → Reach d
    → a ≢ b
    → get d.nodes a ≡ some n
    → get d.nodes b ≡ some m
    → is_black n.color ≡ false
    → is_black m.color ≡ false
    → get_elem? n.qids i ≡ some qid
    → get_elem? m.qids j ≢ some qid
in_progress_exclusive d a b n m i j qid r differ at_a at_b free_a free_b in_a in_b =
    let s = Reach-IsSafe r in
    let first_a =
      All-get_elem? (λ q. head_of d q ≡ some a) n.qids i (s.heads a n tt at_a free_a) in_a in
    let first_b =
      All-get_elem? (λ q. head_of d q ≡ some b) m.qids j (s.heads b m tt at_b free_b) in_b in
    differ (some-injective a b (sym first_a ∙ first_b))
