-- ===== src/Dag/Turns.antt =====
-- The loops of `mpr_dag_pop` in libmpaxos/utils/mpr_dag.h let go whoever comes first in all its queues.
use mpaxos.Prelude.{
  ℕ, ◌≡◌, refl, sym, ap, ◌∙◌, subst, inl, inr, true, false, Bool-cases, ◌==◌, ==_iff, if◌then◌else◌,
  Option, none, some, List, [], ◌∷◌, arith, head?, tail, ok, deref, >>=-eq-ok, ok-injective, get,
  nat_key,
}
use mpaxos.Dag.Queue
use mpaxos.Dag.Queue.{Queue, contents, push_refines, trypop-peek_refines}
use mpaxos.Dag.Defs.{Dag, promote, popped, same_node, dequeue}
use mpaxos.Dag.Heads.{head_of, HeadsAll, set_queue, queue_of_found}
use mpaxos.Dag.Idle.{Distinct}
use mpaxos.Dag.Requests.{SameRequests, nodes-SameRequests, SameRequests-trans}
use mpaxos.Dag.Awake.{IsAwake, Promoted, promote_lem}
use mpaxos.Dag.Contents.{contents_of, both_turns, named_once, set-contents, names}

pub popped_ok {ℓ} : {A : Type ℓ} (o : Option A) {a : A} → popped o ≡ ok a → o ≡ some a
popped_ok none e = cc
popped_ok (some b) e = cc

pub named_head :
    (d : Dag) (x j : ℕ) (qids : List ℕ)
    → names qids j ≡ true
    → HeadsAll d x qids
    → head_of d j ≡ some x
named_head d x j [] named h = cc
named_head d x j (qid ∷ qids) named h = elim (Bool-cases (qid == j)) [
  | inl hit ↦ ap (head_of d) (sym ((==_iff qid j).0 hit)) ∙ h.0
  | inr miss ↦ named_head d x j qids (rw miss at named) h.1
]

-- A change of a queue that is not named.
unnamed_heads :
    (d c : Dag) (x j : ℕ) (qids : List ℕ)
    → ((i : ℕ) → (j == i) ≡ false → head_of c i ≡ head_of d i)
    → names qids j ≡ false
    → HeadsAll c x qids
    → HeadsAll d x qids
unnamed_heads d c x j [] same unnamed h = tt
unnamed_heads d c x j (qid ∷ qids) same unnamed h = elim (Bool-cases (qid == j)) [
  | inl hit ↦ absurd (differ (sym (rw hit at unnamed)))
  | inr miss ↦ (
    sym (same qid (ground (arith, miss))) ∙ h.0,
    unnamed_heads d c x j qids same (rw miss at unnamed) h.1,
  )
]
  where
    differ : false ≡ true → ⊥
    differ e = cc

-- One turn of the outer loop of `mpr_dag_pop`: the queue loses its first element, and its next one is
-- promoted.
module _ (qid : ℕ) (q : Queue) (d d' : Dag) (found : get d.ht qid ≡ some q)
    (run : promote
        (Queue.peek (Queue.trypop q).1).0
        (set_queue d qid (Queue.peek (Queue.trypop q).1).1)
      ≡ ok d') where
  less : Dag
  less = set_queue d qid (Queue.peek (Queue.trypop q).1).1

  promoted : Promoted (Queue.peek (Queue.trypop q).1).0 less d'
  unfolding less
  promoted = promote_lem (Queue.peek (Queue.trypop q).1).0 less d' run

  less-contents :
      (j : ℕ) → contents_of less j ≡ (if qid == j then tail (contents_of d j) else contents_of d j)
  unfolding less
  less-contents j = set-contents tail d qid j (Queue.peek (Queue.trypop q).1).1 (
      (trypop-peek_refines (Queue.trypop q).1).3
      ∙ (trypop-peek_refines q).1
      ∙ ap (λ r. tail (contents r)) (sym (queue_of_found d qid q (ap deref found))))

  turn-contents :
      (j : ℕ) → contents_of d' j ≡ (if qid == j then tail (contents_of d j) else contents_of d j)
  turn-contents j = promoted.same_contents j ∙ less-contents j

  turn-SameRequests : SameRequests d d'
  unfolding less
  turn-SameRequests = record { back = promoted.requests.back; there = promoted.requests.there }

  next_head : (Queue.peek (Queue.trypop q).1).0 ≡ head_of d' qid
  next_head =
      let r = (Queue.trypop q).1 in
      (trypop-peek_refines r).2
      ∙ ap head? (
          (trypop-peek_refines q).1
          ∙ ap (λ r. tail (contents r)) (sym (queue_of_found d qid q (ap deref found)))
          ∙ sym (turn-contents qid ∙ rw ((==_iff qid qid).1 refl) refl))

  turn-IsAwake : IsAwake d → IsAwake d'
  turn-IsAwake awake x n' at first = elim (Bool-cases (names n'.qids qid)) [
    | inl named ↦ promoted.up x (next_head ∙ named_head d' x qid n'.qids named first) n' at first
    | inr unnamed ↦
        let (n, at0, same, keeps) = turn-SameRequests.back x n' at in
        let before : HeadsAll d x n'.qids =
          unnamed_heads d d' x qid n'.qids (λ i miss. ap head? (turn-contents i ∙ rw miss refl))
            unnamed first in
        keeps (awake x n at0 (subst (HeadsAll d x) (sym same) before))
  ]

-- The outer loop of `mpr_dag_pop` takes the first element of each queue that it names, and lets go
-- whoever is then the first of all its queues.
pub dequeue_lem :
    (qids : List ℕ) (o ret : Option ℕ) (d d' : Dag)
    → Distinct qids
    → dequeue qids o d ≡ ok (d', ret)
    → ((j : ℕ)
        → contents_of d' j ≡ (if names qids j then tail (contents_of d j) else contents_of d j))
      × SameRequests d d'
      × (IsAwake d → IsAwake d')
unfolding dequeue
dequeue_lem [] o ret d d' once e =
    let same : d ≡ d' = ap (λ r. r.0) (ok-injective e) in
    (
      λ j. ap (λ c. contents_of c j) (sym same),
      nodes-SameRequests d d' (ap (λ c. c.nodes) (sym same)),
      λ awake. subst IsAwake same awake,
    )
dequeue_lem (qid ∷ qids) o ret d d' once e =
    let (q, is_q, e1) = >>=-eq-ok (popped (get d.ht qid)) _ e in
    let (node, got, e2) = >>=-eq-ok (popped (Queue.trypop q).0) _ e1 in
    let (r, same, e3) = >>=-eq-ok (same_node o node) _ e2 in
    let (c, run, e4) = >>=-eq-ok (promote (Queue.peek (Queue.trypop q).1).0 _) _ e3 in
    let found = popped_ok (get d.ht qid) is_q in
    let (rest, requests, awakes) = dequeue_lem qids (some r) ret c d' once.1 e4 in
    (
      λ j.
          both_turns tail qid j qids (contents_of d j) (contents_of c j) (contents_of d' j)
            (turn-contents qid q d c found run j) (rest j) (named_once qid j qids once.0),
      SameRequests-trans d c d' (turn-SameRequests qid q d c found run) requests,
      λ awake. awakes (turn-IsAwake qid q d c found run awake),
    )
