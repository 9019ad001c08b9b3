-- ===== src/Dag/Heads.antt =====
-- The heads of the queues under the loops of libmpaxos/utils/mpr_dag.h.
use mpaxos.Prelude.{
  ℕ, ◌≡◌, refl, sym, ap, subst, ◌∙◌, inl, inr, Bool, true, false, ◌&&◌, Bool-cases, ◌==◌, ==_iff,
  if◌then◌else◌, Option, none, some, List, [], ◌∷◌, ◌++◌, All, All-imp, arith, head?, ok, abort,
  deref, >>=-eq-ok, ok-injective, get, put, get-put, nat_key,
}
use mpaxos.Dag.Queue
use mpaxos.Dag.Queue.{Queue, contents, push_refines, trypop-peek_refines}
use mpaxos.Dag.Defs.{Dag, is_head, queue_of, enqueue, heads_all}

-- The first element of the queue of a group.
abbrev pub head_of : Dag → ℕ → Option ℕ
head_of d qid = head? (contents (queue_of d qid))

abbrev pub set_queue : Dag → ℕ → Queue → Dag
set_queue d qid q = record d { ht = put d.ht qid q }

pub head_of-set_queue :
    (d : Dag) (qid j : ℕ) (q : Queue)
    → head_of (set_queue d qid q) j ≡ (if qid == j then head? (contents q) else head_of d j)
head_of-set_queue d qid j q = ground (arith, get-put d.ht qid j q)

pub head_of-set_queue_same :
    (d : Dag) (qid : ℕ) (q : Queue) → head_of (set_queue d qid q) qid ≡ head? (contents q)
head_of-set_queue_same d qid q = ground (arith, head_of-set_queue d qid qid q)

-- The queues that had a first element still have it.
abbrev pub KeepsHeads : Dag → Dag → Type 0
KeepsHeads d d' = (j x : ℕ) → head_of d j ≡ some x → head_of d' j ≡ some x

-- A node is the first of all the queues of some groups.
abbrev pub HeadsAll : Dag → ℕ → List ℕ → Type 0
HeadsAll d node qids = All (λ qid. head_of d qid ≡ some node) qids

pub KeepsHeads-HeadsAll :
    (d d' : Dag) (node : ℕ) (qids : List ℕ)
    → KeepsHeads d d'
    → HeadsAll d node qids
    → HeadsAll d' node qids
KeepsHeads-HeadsAll d d' node qids keeps h =
    All-imp (λ qid. head_of d qid ≡ some node) (λ qid. head_of d' qid ≡ some node) qids
      (λ qid e. keeps qid node e) h

is_head_eq : (o : Option ℕ) (node : ℕ) → is_head o node ≡ true → o ≡ some node
is_head_eq none node h = cc
is_head_eq (some x) node h = ap some ((==_iff x node).0 h)

and_true : (a b : Bool) → (a && b) ≡ true → (a ≡ true) × (b ≡ true)
and_true true b h = (refl, h)
and_true false b h = cc

head_append : (xs : List ℕ) (y x : ℕ) → head? xs ≡ some x → head? (xs ++ y ∷ []) ≡ some x
head_append [] y x h = cc
head_append (z ∷ xs) y x h = h

-- A push and a peek of one queue keep the heads, and the peek shows the first element.
turn_lem :
    (d : Dag) (qid node : ℕ) {q : Queue}
    → Queue.push node (queue_of d qid) ≡ ok q
    → KeepsHeads d (set_queue d qid (Queue.peek q).1)
      × ((Queue.peek q).0 ≡ head_of (set_queue d qid (Queue.peek q).1) qid)
turn_lem d qid node {q} pushed = elim (push_refines node (queue_of d qid)) [
  | inl (room, q1, run, added) ↦
      let same : q1 ≡ q = ok-injective (sym run ∙ pushed) in
      let (taken, rest, shown, kept) = trypop-peek_refines q in
      let all : contents (Queue.peek q).1 ≡ contents (queue_of d qid) ++ node ∷ [] =
        kept ∙ ap contents (sym same) ∙ added in
      let looked = λ (j : ℕ). head_of-set_queue d qid j (Queue.peek q).1 in
      (
        λ j x h. elim (Bool-cases (qid == j)) [
          | inl hit ↦
              let h' : head_of d qid ≡ some x =
                subst (λ i. head_of d i ≡ some x) (sym ((==_iff qid j).0 hit)) h in
              looked j
              ∙ ap (λ b. if b then head? (contents (Queue.peek q).1) else head_of d j) hit
              ∙ ap head? all
              ∙ head_append (contents (queue_of d qid)) node x h'
          | inr miss ↦
              looked j
              ∙ ap (λ b. if b then head? (contents (Queue.peek q).1) else head_of d j) miss
              ∙ h
        ],
        shown ∙ ap head? (sym kept) ∙ sym (head_of-set_queue_same d qid (Queue.peek q).1),
      )
  | inr (full, run) ↦ absurd (abort_ok (sym run ∙ pushed))
]
  where
    abort_ok : abort ≡ ok q → ⊥
    abort_ok e = cc

-- A queue that is there.
pub queue_of_found :
    (d : Dag) (qid : ℕ) (q : Queue) → deref (get d.ht qid) ≡ ok q → queue_of d qid ≡ q
queue_of_found d qid q e = ground arith

-- A peek of one queue changes no head, and shows the first element.
peek_lem :
    (d : Dag) (qid : ℕ) (q : Queue)
    → deref (get d.ht qid) ≡ ok q
    → ((j : ℕ) → head_of (set_queue d qid (Queue.peek q).1) j ≡ head_of d j)
      × ((Queue.peek q).0 ≡ head_of (set_queue d qid (Queue.peek q).1) qid)
peek_lem d qid q found =
    let (taken, rest, shown, kept) = trypop-peek_refines q in
    let here : head? (contents (Queue.peek q).1) ≡ head_of d qid =
      ap head? kept ∙ ap (λ r. head? (contents r)) (sym (queue_of_found d qid q found)) in
    (
      λ j. elim (Bool-cases (qid == j)) [
        | inl hit ↦
            head_of-set_queue d qid j (Queue.peek q).1
            ∙ ap (λ b. if b then head? (contents (Queue.peek q).1) else head_of d j) hit
            ∙ here
            ∙ ap (head_of d) ((==_iff qid j).0 hit)
        | inr miss ↦
            head_of-set_queue d qid j (Queue.peek q).1
            ∙ ap (λ b. if b then head? (contents (Queue.peek q).1) else head_of d j) miss
      ],
      shown ∙ ap head? (sym kept) ∙ sym (head_of-set_queue_same d qid (Queue.peek q).1),
    )

-- The loop of `mpr_dag_push` keeps the heads and the nodes, and if it says so, the node is the first of
-- all the queues.
pub enqueue_lem :
    (node : ℕ) (qids : List ℕ) (go go' : Bool) (d d' : Dag)
    → enqueue node qids go d ≡ ok (d', go')
    → KeepsHeads d d'
      × (d'.nodes ≡ d.nodes)
      × (d'.qu ≡ d.qu)
      × (d'.next ≡ d.next)
      × (go' ≡ true → (go ≡ true) × HeadsAll d' node qids)
unfolding enqueue
enqueue_lem node [] go go' d d' e =
    let same : d ≡ d' = ap (λ r. r.0) (ok-injective e) in
    let same_go : go ≡ go' = ap (λ r. r.1) (ok-injective e) in
    (
      λ j x h. subst (λ c. head_of c j ≡ some x) same h,
      ap (λ c. c.nodes) (sym same),
      ap (λ c. c.qu) (sym same),
      ap (λ c. c.next) (sym same),
      λ h. (same_go ∙ h, tt),
    )
enqueue_lem node (qid ∷ qids) go go' d d' e =
    let (q, pushed, k) = >>=-eq-ok (Queue.push node (queue_of d qid)) _ e in
    let (keeps, shown) = turn_lem d qid node pushed in
    let c = set_queue d qid (Queue.peek q).1 in
    let (keeps', nodes, qu, next, all) =
      enqueue_lem node qids (go && is_head (Queue.peek q).0 node) go' c d' k in
    (
      λ j x h. keeps' j x (keeps j x h),
      nodes,
      qu,
      next,
      λ h.
          let (going, rest) = all h in
          let (was, first) = and_true go (is_head (Queue.peek q).0 node) going in
          (was, (keeps' qid node (sym shown ∙ is_head_eq (Queue.peek q).0 node first), rest)),
    )

-- The inner loop of `mpr_dag_pop`, likewise.
pub heads_all_lem :
    (node : ℕ) (qids : List ℕ) (go go' : Bool) (d d' : Dag)
    → heads_all node qids go d ≡ ok (d', go')
    → ((j : ℕ) → head_of d' j ≡ head_of d j)
      × (d'.nodes ≡ d.nodes)
      × (d'.qu ≡ d.qu)
      × (d'.next ≡ d.next)
      × (go' ≡ true → (go ≡ true) × HeadsAll d' node qids)
unfolding heads_all
heads_all_lem node [] go go' d d' e =
    let same : d ≡ d' = ap (λ r. r.0) (ok-injective e) in
    let same_go : go ≡ go' = ap (λ r. r.1) (ok-injective e) in
    (
      λ j. ap (λ c. head_of c j) (sym same),
      ap (λ c. c.nodes) (sym same),
      ap (λ c. c.qu) (sym same),
      ap (λ c. c.next) (sym same),
      λ h. (same_go ∙ h, tt),
    )
heads_all_lem node (qid ∷ qids) go go' d d' e =
    let (q, found, k) = >>=-eq-ok (deref (get d.ht qid)) _ e in
    let c = set_queue d qid (Queue.peek q).1 in
    let (same, shown) = peek_lem d qid q found in
    let (same', nodes, qu, next, all) =
      heads_all_lem node qids (go && is_head (Queue.peek q).0 node) go' c d' k in
    (
      λ j. same' j ∙ same j,
      nodes,
      qu,
      next,
      λ h.
          let (going, rest) = all h in
          let (was, first) = and_true go (is_head (Queue.peek q).0 node) going in
          (was, (same' qid ∙ sym shown ∙ is_head_eq (Queue.peek q).0 node first, rest)),
    )
