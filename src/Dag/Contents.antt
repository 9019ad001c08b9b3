-- ===== src/Dag/Contents.antt =====
-- What the loops of libmpaxos/utils/mpr_dag.h do to the contents of the queues.
use mpaxos.Prelude.{
  ℕ, ◌≡◌, refl, sym, ap, ◌∙◌, subst, inl, inr, Bool, true, false, ◌&&◌, Bool-cases, ◌==◌, ==_iff,
  if◌then◌else◌, Option, none, some, some-injective, List, [], ◌∷◌, ◌++◌, All, All-imp, arith,
  head?, ok, abort, deref, >>=-eq-ok, ok-injective, get, get-put, nat_key,
}
use mpaxos.Dag.Queue
use mpaxos.Dag.Queue.{Queue, contents, push_refines, trypop-peek_refines}
use mpaxos.Dag.Defs.{Dag, is_head, queue_of, enqueue, heads_all}
use mpaxos.Dag.Heads.{head_of, HeadsAll, set_queue, queue_of_found}
use mpaxos.Dag.Idle.{Distinct}

-- The abstract queue of a group.
abbrev pub contents_of : Dag → ℕ → List ℕ
contents_of d qid = contents (queue_of d qid)

-- Is a group named?
abbrev pub names : List ℕ → ℕ → Bool
names [] j = false
names (qid ∷ qids) j = if qid == j then true else names qids j

pub contents_of-set_queue :
    (d : Dag) (qid j : ℕ) (q : Queue)
    → contents_of (set_queue d qid q) j ≡ (if qid == j then contents q else contents_of d j)
contents_of-set_queue d qid j q = ground (arith, get-put d.ht qid j q)

pub not_named : (j : ℕ) (qids : List ℕ) → All (λ y. (j == y) ≡ false) qids → names qids j ≡ false
not_named j [] h = refl
not_named j (q ∷ qids) h = ground (arith, h.0, not_named j qids h.1)

pub named_once :
    (qid j : ℕ) (qids : List ℕ)
    → All (λ y. (qid == y) ≡ false) qids
    → (qid == j) ≡ true
    → names qids j ≡ false
named_once qid j qids h e =
    subst (λ k. names qids k ≡ false) ((==_iff qid j).0 e) (not_named qid qids h)

-- A change of one queue, then the same change of others.
pub both_turns :
    (f : List ℕ → List ℕ) (qid j : ℕ) (qids : List ℕ) (xs ys zs : List ℕ)
    → ys ≡ (if qid == j then f xs else xs)
    → zs ≡ (if names qids j then f ys else ys)
    → ((qid == j) ≡ true → names qids j ≡ false)
    → zs ≡ (if names (qid ∷ qids) j then f xs else xs)
both_turns f qid j qids xs ys zs first rest once = elim (Bool-cases (qid == j)) [
  | inl hit ↦ rest ∙ rw (once hit, hit) (first ∙ rw hit refl)
  | inr miss ↦
      let same : ys ≡ xs = first ∙ rw miss refl in
      subst (λ l. zs ≡ (if names (qid ∷ qids) j then f l else l)) same (rest ∙ rw miss refl)
]

abbrev joins : ℕ → List ℕ → List ℕ
joins node xs = xs ++ node ∷ []

-- A change of the contents of one queue.
pub set-contents :
    (f : List ℕ → List ℕ) (d : Dag) (qid j : ℕ) (q : Queue)
    → contents q ≡ f (contents_of d qid)
    → contents_of (set_queue d qid q) j
      ≡ (if qid == j then f (contents_of d j) else contents_of d j)
set-contents f d qid j q e = elim (Bool-cases (qid == j)) [
  | inl hit ↦
      contents_of-set_queue d qid j q
      ∙ rw hit (e ∙ ap (λ k. f (contents_of d k)) ((==_iff qid j).0 hit))
  | inr miss ↦ contents_of-set_queue d qid j q ∙ rw miss refl
]

pushed_contents :
    (node : ℕ) (q0 : Queue) {q : Queue}
    → Queue.push node q0 ≡ ok q
    → contents (Queue.peek q).1 ≡ contents q0 ++ node ∷ []
pushed_contents node q0 {q} run = elim (push_refines node q0) [
  | inl (room, q1, run1, added) ↦
      (trypop-peek_refines q).3 ∙ ap contents (ok-injective (sym run ∙ run1)) ∙ added
  | inr (full, run1) ↦ absurd (abort_ok (sym run1 ∙ run))
]
  where
    abort_ok : abort ≡ ok q → ⊥
    abort_ok e = cc

-- The loop of `mpr_dag_push` adds the node to the end of each queue that it names.
pub enqueue-contents :
    (node : ℕ) (qids : List ℕ) (go go' : Bool) (d d' : Dag)
    → Distinct qids
    → enqueue node qids go d ≡ ok (d', go')
    → (j : ℕ)
    → contents_of d' j ≡ (if names qids j then contents_of d j ++ node ∷ [] else contents_of d j)
unfolding enqueue
enqueue-contents node [] go go' d d' once e j =
    ap (λ c. contents_of c j) (sym (ap (λ r. r.0) (ok-injective e)))
enqueue-contents node (qid ∷ qids) go go' d d' once e j =
    let (q, pushed, k) = >>=-eq-ok (Queue.push node (queue_of d qid)) _ e in
    let c = set_queue d qid (Queue.peek q).1 in
    both_turns (joins node) qid j qids (contents_of d j) (contents_of c j) (contents_of d' j)
      (set-contents (joins node) d qid j (Queue.peek q).1
        (pushed_contents node (queue_of d qid) pushed))
      (enqueue-contents node qids (go && is_head (Queue.peek q).0 node) go' c d' once.1 k j)
      (named_once qid j qids once.0)

if_same : (b : Bool) (xs : List ℕ) → (if b then xs else xs) ≡ xs
if_same true xs = refl
if_same false xs = refl

-- A peek changes no contents.
pub peek-contents :
    (d : Dag) (qid : ℕ) (q : Queue)
    → deref (get d.ht qid) ≡ ok q
    → (j : ℕ) → contents_of (set_queue d qid (Queue.peek q).1) j ≡ contents_of d j
peek-contents d qid q found j =
    let here : contents (Queue.peek q).1 ≡ contents_of d qid =
      (trypop-peek_refines q).3 ∙ ap contents (sym (queue_of_found d qid q found)) in
    set-contents (λ xs. xs) d qid j (Queue.peek q).1 here ∙ if_same (qid == j) (contents_of d j)

-- The inner loop of `mpr_dag_pop` changes no contents.
pub heads_all-contents :
    (node : ℕ) (qids : List ℕ) (go go' : Bool) (d d' : Dag)
    → heads_all node qids go d ≡ ok (d', go')
    → (j : ℕ) → contents_of d' j ≡ contents_of d j
unfolding heads_all
heads_all-contents node [] go go' d d' e j =
    ap (λ c. contents_of c j) (sym (ap (λ r. r.0) (ok-injective e)))
heads_all-contents node (qid ∷ qids) go go' d d' e j =
    let (q, found, k) = >>=-eq-ok (deref (get d.ht qid)) _ e in
    heads_all-contents node qids (go && is_head (Queue.peek q).0 node) go'
      (set_queue d qid (Queue.peek q).1) d' k j
    ∙ peek-contents d qid q found j

is_head_self : (o : Option ℕ) (node : ℕ) → o ≡ some node → is_head o node ≡ true
is_head_self none node e = cc
is_head_self (some x) node e = (==_iff x node).1 (some-injective x node e)

-- If the node is the first of all its queues, the inner loop of `mpr_dag_pop` says so.
pub heads_all_yes :
    (node : ℕ) (qids : List ℕ) (go go' : Bool) (d d' : Dag)
    → heads_all node qids go d ≡ ok (d', go')
    → HeadsAll d node qids
    → go ≡ true
    → go' ≡ true
unfolding heads_all
heads_all_yes node [] go go' d d' e h going = sym (ap (λ r. r.1) (ok-injective e)) ∙ going
heads_all_yes node (qid ∷ qids) go go' d d' e h going =
    let (q, found, k) = >>=-eq-ok (deref (get d.ht qid)) _ e in
    let c = set_queue d qid (Queue.peek q).1 in
    let same = λ (j : ℕ). ap head? (peek-contents d qid q found j) in
    let shown : (Queue.peek q).0 ≡ some node =
      (trypop-peek_refines q).2
      ∙ ap (λ r. head? (contents r)) (sym (queue_of_found d qid q found))
      ∙ h.0 in
    heads_all_yes node qids (go && is_head (Queue.peek q).0 node) go' c d' k
      (All-imp (λ j. head_of d j ≡ some node) (λ j. head_of c j ≡ some node) qids
        (λ j was. same j ∙ was) h.1)
      (rw (going, is_head_self (Queue.peek q).0 node shown) refl)

-- If the node is the first of all its queues after the loop of `mpr_dag_push`, the loop says so.
pub enqueue_yes :
    (node : ℕ) (qids : List ℕ) (go go' : Bool) (d d' : Dag)
    → Distinct qids
    → enqueue node qids go d ≡ ok (d', go')
    → HeadsAll d' node qids
    → go ≡ true
    → go' ≡ true
unfolding enqueue
enqueue_yes node [] go go' d d' once e h going = sym (ap (λ r. r.1) (ok-injective e)) ∙ going
enqueue_yes node (qid ∷ qids) go go' d d' once e h going =
    let (q, pushed, k) = >>=-eq-ok (Queue.push node (queue_of d qid)) _ e in
    let c = set_queue d qid (Queue.peek q).1 in
    let go1 = go && is_head (Queue.peek q).0 node in
    let later : contents_of d' qid ≡ contents_of c qid =
      enqueue-contents node qids go1 go' c d' once.1 k qid ∙ rw (not_named qid qids once.0) refl in
    let here : contents_of c qid ≡ contents (Queue.peek q).1 =
      contents_of-set_queue d qid qid (Queue.peek q).1 ∙ rw ((==_iff qid qid).1 refl) refl in
    let shown : (Queue.peek q).0 ≡ some node =
      (trypop-peek_refines q).2
      ∙ ap head? (sym (trypop-peek_refines q).3 ∙ sym here ∙ sym later)
      ∙ h.0 in
    enqueue_yes node qids go1 go' c d' once.1 k h.1
      (rw (going, is_head_self (Queue.peek q).0 node shown) refl)
