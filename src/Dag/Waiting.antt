-- ===== src/Dag/Waiting.antt =====
-- In libmpaxos/utils/mpr_dag.h, a white request is in the white queue.
use mpaxos.Prelude.{
  ℕ, ◌≡◌, ◌+◌, refl, sym, ap, ◌∙◌, subst, inl, inr, Bool, true, false, Bool-cases, if◌then◌else◌,
  Option, none, some, List, [], ◌∷◌, In, In-append_left, In-append_right, arith, ok, deref,
  >>=-eq-ok, ok-injective, get, put, del, get-del, nat_key,
}
use mpaxos.Dag.Queue
use mpaxos.Dag.Defs.{
  white, gray, black, DagNode, Dag, dag_create, is_white, inc32, enqueue, whiten, dag_push,
  heads_all, promote, popped, same_node, dequeue, dag_pop, getwhite_from, dag_getwhite,
}
use mpaxos.Dag.Heads.{enqueue_lem, heads_all_lem, set_queue}
use mpaxos.Dag.Safe.{look_put}

abbrev pub IsWaiting : Dag → Type 0
IsWaiting d = (x : ℕ) (n : DagNode) → get d.nodes x ≡ some n → n.color ≡ white → In x d.qu

moved-IsWaiting : (d d' : Dag) → d'.nodes ≡ d.nodes → d'.qu ≡ d.qu → IsWaiting d → IsWaiting d'
moved-IsWaiting d d' nodes qu w x n at is =
    subst (In x) (sym qu) (w x n (ap (λ t. get t x) (sym nodes) ∙ at) is)

if_whiten-IsWaiting :
    (go : Bool) (node : ℕ) (n : DagNode) (d : Dag)
    → IsWaiting d
    → IsWaiting (if go then whiten node n d else d)
unfolding whiten
if_whiten-IsWaiting true node n d w x m at is =
    elim (look_put d.nodes node x (record n { color = white }) m at) [
      | inl (same, it) ↦ In-append_right x d.qu (node ∷ []) (inl (sym same))
      | inr (other, at') ↦ In-append_left x d.qu (node ∷ []) (w x m at' is)
    ]
if_whiten-IsWaiting false node n d w x m at is = w x m at is

pub create-IsWaiting : IsWaiting dag_create
unfolding get
create-IsWaiting x n at is = absurd (no_node at)
  where
    no_node : {n : DagNode} → none ≡ some n → ⊥
    no_node e = cc

pub push-IsWaiting :
    (qids : List ℕ) (load : ℕ) (d d' : Dag)
    → dag_push qids load d ≡ ok d'
    → IsWaiting d
    → IsWaiting d'
unfolding dag_push
push-IsWaiting qids load d d' e w =
    let n : DagNode = record { qids = qids; color = black; load = load } in
    let d1 : Dag = record d {
      nodes = put d.nodes d.next n;
      next = d.next + 1;
      n_push = inc32 d.n_push;
    } in
    let ((c, go), run, k) = >>=-eq-ok (enqueue d.next qids true d1) _ e in
    let (keeps, nodes, qu, counted, all) = enqueue_lem d.next qids true go d1 c run in
    let w1 : IsWaiting d1 = λ x m at is. elim (look_put d.nodes d.next x n m at) [
      | inl (same, it) ↦ absurd (differ (ap (λ r. r.color) it ∙ is))
      | inr (other, at') ↦ w x m at' is
    ] in
    subst IsWaiting (ok-injective k)
      (if_whiten-IsWaiting go d.next n c (moved-IsWaiting d1 c nodes qu w1))
  where
    differ : black ≡ white → ⊥
    differ e = cc

promote-IsWaiting : (o : Option ℕ) (d d' : Dag) → promote o d ≡ ok d' → IsWaiting d → IsWaiting d'
unfolding promote
promote-IsWaiting none d d' e w = subst IsWaiting (ok-injective e) w
promote-IsWaiting (some node) d d' e w =
    let (n, found, k) = >>=-eq-ok (deref (get d.nodes node)) _ e in
    elim (Bool-cases (is_white n.color)) [
      | inl already ↦ subst IsWaiting (ok-injective (rw already at k)) w
      | inr checks ↦
          let ((c, go), run, k') = >>=-eq-ok (heads_all node n.qids true d) _ (rw checks at k) in
          let (same, nodes, qu, counted, all) = heads_all_lem node n.qids true go d c run in
          subst IsWaiting (ok-injective k')
            (if_whiten-IsWaiting go node n c (moved-IsWaiting d c nodes qu w))
    ]

dequeue-IsWaiting :
    (qids : List ℕ) (o ret : Option ℕ) (d d' : Dag)
    → dequeue qids o d ≡ ok (d', ret)
    → IsWaiting d
    → IsWaiting d'
unfolding dequeue
dequeue-IsWaiting [] o ret d d' e w = subst IsWaiting (ap (λ r. r.0) (ok-injective e)) w
dequeue-IsWaiting (qid ∷ qids) o ret d d' e w =
    let (q, is_q, e1) = >>=-eq-ok (popped (get d.ht qid)) _ e in
    let (node, got, e2) = >>=-eq-ok (popped (Queue.trypop q).0) _ e1 in
    let (r, same, e3) = >>=-eq-ok (same_node o node) _ e2 in
    let (c, run, e4) = >>=-eq-ok (promote (Queue.peek (Queue.trypop q).1).0 _) _ e3 in
    let less = set_queue d qid (Queue.peek (Queue.trypop q).1).1 in
    dequeue-IsWaiting qids (some r) ret c d' e4 (
      promote-IsWaiting (Queue.peek (Queue.trypop q).1).0 less c run
        (moved-IsWaiting d less refl refl w))

pub pop-IsWaiting :
    (qids : List ℕ) (load : ℕ) (d d' : Dag)
    → dag_pop qids d ≡ ok (d', load)
    → IsWaiting d
    → IsWaiting d'
unfolding dag_pop
pop-IsWaiting qids load d d' e w =
    let ((c, ret), run, k) = >>=-eq-ok (dequeue qids none d) _ e in
    let (node, is, k1) = >>=-eq-ok (deref ret) _ k in
    let (n, at, k2) = >>=-eq-ok (deref (get c.nodes node)) _ k1 in
    let w' = dequeue-IsWaiting qids none ret d c run w in
    subst IsWaiting (ap (λ r. r.0) (ok-injective k2)) (λ x m found. w' x m (there node c x m found))
  where
    there :
        (node : ℕ) (c : Dag) (x : ℕ) (m : DagNode)
        → get (del c.nodes node) x ≡ some m
        → get c.nodes x ≡ some m
    there node c x m found = ground (arith, get-del c.nodes node x)

getwhite_from-IsWaiting :
    (qu : List ℕ) (load : Option ℕ) (d d' : Dag)
    → getwhite_from qu d ≡ ok (d', load)
    → d.qu ≡ qu
    → IsWaiting d
    → IsWaiting d'
unfolding getwhite_from
getwhite_from-IsWaiting [] load d d' e is w = subst IsWaiting (ap (λ r. r.0) (ok-injective e)) w
getwhite_from-IsWaiting (node ∷ rest) load d d' e is w =
    let (n, found, k) = >>=-eq-ok (deref (get d.nodes node)) _ e in
    let c : Dag = record d {
      qu = rest;
      nodes = put d.nodes node (record n { color = gray });
      n_pop = inc32 d.n_pop;
    } in
    let w' : IsWaiting c = λ x m at is_white.
      elim (look_put d.nodes node x (record n { color = gray }) m at) [
        | inl (same, it) ↦ absurd (differ (ap (λ r. r.color) it ∙ is_white))
        | inr (other, at') ↦ elim (subst (In x) is (w x m at' is_white)) [
          | inl this ↦ absurd (other (sym this))
          | inr later ↦ later
        ]
      ] in
    subst IsWaiting (ap (λ r. r.0) (ok-injective k)) w'
  where
    differ : gray ≡ white → ⊥
    differ e = cc

pub getwhite-IsWaiting :
    (load : Option ℕ) (d d' : Dag) → dag_getwhite d ≡ ok (d', load) → IsWaiting d → IsWaiting d'
unfolding dag_getwhite
getwhite-IsWaiting load d d' e w = getwhite_from-IsWaiting d.qu load d d' e refl w
