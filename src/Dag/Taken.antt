-- ===== src/Dag/Taken.antt =====
-- The invariant of libmpaxos/utils/mpr_dag.h while `mpr_dag_pop` takes a node out of its queues.
use mpaxos.Prelude.{
  ℕ, ◌≡◌, ◌≢◌, refl, sym, ap, subst, ◌∙◌, inl, inr, Bool-cases, ◌==◌, ==_iff, if◌then◌else◌, Option,
  none, some, some-injective, List, [], ◌∷◌, head?, ok, abort, deref, >>=-eq-ok, ok-injective, get,
  nat_key,
}
use mpaxos.Dag.Queue
use mpaxos.Dag.Queue.{Queue, contents, trypop-peek_refines}
use mpaxos.Dag.Defs.{Dag, promote, same_node, popped, dequeue}
use mpaxos.Dag.Heads.{head_of, set_queue, head_of-set_queue, queue_of_found}
use mpaxos.Dag.Safe.{SafeFor, SafeFor-moved, promote-SafeFor}

-- What holds while `mpr_dag_pop` takes a node out of its queues: of all nodes before the first queue,
-- of the other nodes after it.
abbrev pub Holds : Option ℕ → Dag → Type 0
Holds none d = SafeFor (λ x. Unit {0}) d
Holds (some r) d = SafeFor (λ x. x ≢ r) d

SafeFor-imp : (P Q : ℕ → Type 0) (d : Dag) → ((x : ℕ) → Q x → P x) → SafeFor P d → SafeFor Q d
SafeFor-imp P Q d f s = record {
  heads = λ x n q. s.heads x n (f x q);
  fresh = s.fresh;
  ready = s.ready;
}

same_node_lem :
    (o : Option ℕ) (node : ℕ) (d : Dag) {r : ℕ}
    → same_node o node ≡ ok r
    → Holds o d
    → (r ≡ node) × SafeFor (λ x. x ≢ node) d
same_node_lem none node d e h =
    (sym (ok-injective e), SafeFor-imp (λ x. Unit {0}) (λ x. x ≢ node) d (λ x q. tt) h)
same_node_lem (some x) node d {r} e h = elim (Bool-cases (x == node)) [
  | inl same ↦
      let is : x ≡ node = (==_iff x node).0 same in
      (sym (ok-injective (rw same at e)) ∙ is, subst (λ y. SafeFor (λ z. z ≢ y) d) is h)
  | inr other ↦ absurd (abort_ok (rw other at e))
]
  where
    abort_ok : abort ≡ ok r → ⊥
    abort_ok e = cc

popped_ok {ℓ} : {A : Type ℓ} (o : Option A) {a : A} → popped o ≡ ok a → o ≡ some a
popped_ok none e = cc
popped_ok (some b) e = cc

-- A node that is taken out of one queue was its first, and no other node lost its place.
taken-SafeFor :
    (qid node : ℕ) (q : Queue) (d : Dag)
    → get d.ht qid ≡ some q
    → (Queue.trypop q).0 ≡ some node
    → SafeFor (λ x. x ≢ node) d
    → SafeFor (λ x. x ≢ node) (set_queue d qid (Queue.peek (Queue.trypop q).1).1)
taken-SafeFor qid node q d found got s =
    let c = set_queue d qid (Queue.peek (Queue.trypop q).1).1 in
    let was : head_of d qid ≡ some node =
      ap (λ r. head? (contents r)) (queue_of_found d qid q (ap deref found))
      ∙ sym (trypop-peek_refines q).0
      ∙ got in
    SafeFor-moved (λ x. x ≢ node) d c
      (λ x j other h. elim (Bool-cases (qid == j)) [
        | inl hit ↦
            let here = ap (head_of d) ((==_iff qid j).0 hit) in
            absurd (other (some-injective x node (sym h ∙ sym here ∙ was)))
        | inr miss ↦
            head_of-set_queue d qid j (Queue.peek (Queue.trypop q).1).1
            ∙ ap
                (λ b. if b then head? (contents (Queue.peek (Queue.trypop q).1).1) else head_of d j)
                miss
            ∙ h
      ])
      refl refl refl s

pub dequeue-Holds :
    (qids : List ℕ) (o ret : Option ℕ) (d d' : Dag)
    → dequeue qids o d ≡ ok (d', ret)
    → Holds o d
    → Holds ret d'
unfolding dequeue
dequeue-Holds [] o ret d d' e h = subst (λ r. Holds r.1 r.0) (ok-injective e) h
dequeue-Holds (qid ∷ qids) o ret d d' e h =
    let (q, found, e1) = >>=-eq-ok (popped (get d.ht qid)) _ e in
    let (node, got, e2) = >>=-eq-ok (popped (Queue.trypop q).0) _ e1 in
    let (r, same, e3) = >>=-eq-ok (same_node o node) _ e2 in
    let (is, s) = same_node_lem o node d same h in
    let (c, run, e4) = >>=-eq-ok (promote (Queue.peek (Queue.trypop q).1).0 _) _ e3 in
    let t =
      taken-SafeFor qid node q d (popped_ok (get d.ht qid) found) (popped_ok (Queue.trypop q).0 got)
        s in
    let t' = promote-SafeFor (λ x. x ≢ node) _ _ c run t in
    dequeue-Holds qids (some r) ret c d' e4 (subst (λ y. SafeFor (λ x. x ≢ y) c) (sym is) t')
