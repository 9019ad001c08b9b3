-- ===== src/Dag/Queue.antt =====
-- libmpaxos/utils/mpr_queue.h: a bounded queue of APR, with the first element set aside by a peek.
use mpaxos.Prelude.{
  ℕ, ◌≤◌, ◌<◌, ◌≡◌, ◌⊎◌, inl, inr, Bool-cases, Option, none, some, List, [], ◌∷◌, ◌++◌, arith, ltb,
  if◌then◌else◌, Result, ok, abort, length, head?, tail,
}

-- `mpr_queue_t`: `head` is NULL, or the element taken out of `queue` by the last peek. The elements
-- are node pointers, which are never NULL.
pub record Queue : Type 0 where
  pub head : Option ℕ
  pub queue : List ℕ

-- The capacity that `mpr_dag_push` asks for.
abbrev pub capacity : ℕ
capacity = 1000

-- `mpr_queue_create`
abbrev pub queue_create : Queue
queue_create = record { head = none; queue = [] }

-- `mpr_queue_trypop`: the element, or none for the status APR_EAGAIN.
unfoldable pub trypop : Queue → Option ℕ × Queue
trypop q = elim q.head [
  | some x ↦ (some x, record q { head = none })
  | none ↦ (head? q.queue, record q { queue = tail q.queue })
]

-- `mpr_queue_push`: `apr_queue_trypush` on a full queue fails, and the assertion with it.
unfoldable pub push : ℕ → Queue → Result Queue
push x q =
    if ltb (length q.queue) capacity then ok (record q { queue = q.queue ++ x ∷ [] }) else abort

-- `mpr_queue_peek`
unfoldable pub peek : Queue → Option ℕ × Queue
peek q = elim q.head [
  | some x ↦ (some x, q)
  | none ↦ (head? q.queue, record { head = head? q.queue; queue = tail q.queue })
]

-- The abstract queue: the element set aside, then the others.
abbrev pub contents : Queue → List ℕ
contents q = elim q.head [ some x ↦ x ∷ q.queue | none ↦ q.queue ]

-- A push adds to the end of the abstract queue if the queue behind the head has room, and aborts if it
-- has not.
pub push_refines :
    (x : ℕ) (q : Queue)
    → ((length q.queue < capacity)
        × (q' : Queue) × (push x q ≡ ok q')
        × (contents q' ≡ contents q ++ x ∷ []))
      ⊎ ((capacity ≤ length q.queue) × (push x q ≡ abort))
unfolding push
push_refines x q = elim (Bool-cases (ltb (length q.queue) capacity)) [
  | inl room ↦ inl (ground arith, record q { queue = q.queue ++ x ∷ [] }, rw room, ground arith)
  | inr full ↦ inr (ground arith, rw full)
]

-- A pop takes the first element of the abstract queue, and a peek shows it and changes nothing.
pub trypop-peek_refines :
    (q : Queue)
    → ((trypop q).0 ≡ head? (contents q))
      × (contents (trypop q).1 ≡ tail (contents q))
      × ((peek q).0 ≡ head? (contents q))
      × (contents (peek q).1 ≡ contents q)
unfolding trypop peek
trypop-peek_refines q = ground arith
