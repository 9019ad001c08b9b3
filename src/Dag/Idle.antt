-- ===== src/Dag/Idle.antt =====
-- A request on groups without other requests goes through libmpaxos/utils/mpr_dag.h at once.
use mpaxos.Prelude.{
  ℕ, ◌+◌, ◌≡◌, refl, ap, ◌∙◌, inl, inr, true, false, ◌==◌, ==_iff, some, List, [], ◌∷◌, ◌++◌, All,
  arith, ok, get, put, get-put, nat_key,
}
use mpaxos.Dag.Queue
use mpaxos.Dag.Queue.{Queue, contents, push_refines, trypop-peek_refines}
use mpaxos.Dag.Defs.{
  white, black, DagNode, Dag, is_head, queue_of, enqueue, inc32, whiten, dag_push, gray,
  getwhite_from, dag_getwhite,
}

-- No group is named twice.
abbrev pub Distinct : List ℕ → Type 0
Distinct [] = Unit {0}
Distinct (x ∷ xs) = All (λ y. (x == y) ≡ false) xs × Distinct xs

-- No request waits or runs on the groups.
abbrev pub IsIdle : Dag → List ℕ → Type 0
IsIdle d qids = All (λ qid. contents (queue_of d qid) ≡ []) qids

first_turn :
    (node : ℕ) (q : Queue)
    → contents q ≡ []
    → (q' : Queue) × (Queue.push node q ≡ ok q') × (is_head (Queue.peek q').0 node ≡ true)
first_turn node q idle = elim (push_refines node q) [
  | inl (room, q', run, added) ↦
      (q', run, rw ((trypop-peek_refines q').2, added, idle) ((==_iff node node).1 refl))
  | inr (full, run) ↦ absurd (ground arith)
]

others-IsIdle :
    (d : Dag) (qid : ℕ) (q : Queue) (qids : List ℕ)
    → All (λ y. (qid == y) ≡ false) qids
    → IsIdle d qids
    → IsIdle (record d { ht = put d.ht qid q }) qids
others-IsIdle d qid q [] apart idle = tt
others-IsIdle d qid q (y ∷ qids) apart idle = (
  ground (arith, get-put d.ht qid y q, apart.0, idle.0),
  others-IsIdle d qid q qids apart.1 idle.1,
)

pub enqueue_alone :
    (node : ℕ) (qids : List ℕ) (d : Dag)
    → IsIdle d qids
    → Distinct qids
    → (d' : Dag) × (enqueue node qids true d ≡ ok (d', true))
      × (d'.qu ≡ d.qu)
      × (d'.nodes ≡ d.nodes)
unfolding enqueue
enqueue_alone node [] d idle apart = (d, refl, refl, refl)
enqueue_alone node (qid ∷ qids) d idle apart =
    let (q', run, first) = first_turn node (queue_of d qid) idle.0 in
    let (d', rest, qu, nodes) =
      enqueue_alone node qids (record d { ht = put d.ht qid (Queue.peek q').1 })
        (others-IsIdle d qid (Queue.peek q').1 qids apart.0 idle.1) apart.1 in
    (d', rw (run, first) rest, qu, nodes)

getwhite_one :
    (d : Dag) (node : ℕ) (n : DagNode)
    → d.qu ≡ node ∷ []
    → get d.nodes node ≡ some n
    → (d' : Dag) × (dag_getwhite d ≡ ok (d', some n.load))
unfolding dag_getwhite getwhite_from
getwhite_one d node n one there = (
  record d { qu = []; nodes = put d.nodes node (record n { color = gray }); n_pop = inc32 d.n_pop },
  ap (λ qu. getwhite_from qu d) one ∙ rw there refl,
)

-- A request on idle groups is the next that the daemon gets, when none is before it.
pub push-getwhite_alone :
    (qids : List ℕ) (load : ℕ) (d : Dag)
    → IsIdle d qids
    → Distinct qids
    → d.qu ≡ []
    → (d1 : Dag) × (dag_push qids load d ≡ ok d1)
      × (d2 : Dag) × (dag_getwhite d1 ≡ ok (d2, some load))
unfolding dag_push whiten dag_getwhite getwhite_from
push-getwhite_alone qids load d idle apart empty =
    let n : DagNode = record { qids = qids; color = black; load = load } in
    let d0 : Dag = record d {
      nodes = put d.nodes d.next n;
      next = d.next + 1;
      n_push = inc32 d.n_push;
    } in
    let (d', run, qu, nodes) = enqueue_alone d.next qids d0 idle apart in
    let found : get (put d'.nodes d.next (record n { color = white })) d.next
        ≡ some (record n { color = white }) =
      get-put d'.nodes d.next d.next (record n { color = white })
      ∙ rw ((==_iff d.next d.next).1 refl) refl in
    let (d2, got) =
      getwhite_one (whiten d.next n d') d.next (record n { color = white })
        (ap (λ l. l ++ d.next ∷ []) (qu ∙ empty)) found in
    (whiten d.next n d', rw run refl, d2, got)
