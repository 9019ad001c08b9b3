-- ===== src/Dag/Progress.antt =====
-- While libmpaxos/utils/mpr_dag.h holds requests, one of them has been let go.
use mpaxos.Prelude.{
  ℕ, zero, suc, ◌≡◌, ◌<◌, ◌≤◌, refl, sym, ap, ◌∙◌, ◌⊎◌, inl, inr, true, false, Bool-cases, ◌==◌,
  ==_iff, Option, some, some-injective, List, [], ◌∷◌, All, In, arith, head?, ok, get, nat_key,
}
use mpaxos.Dag.Defs.{
  Color, white, gray, black, DagNode, Dag, dag_create, dag_push, dag_pop, dag_getwhite,
}
use mpaxos.Dag.Heads.{HeadsAll}
use mpaxos.Dag.Safe.{is_black}
use mpaxos.Dag.Idle.{Distinct}
use mpaxos.Dag.Contents.{contents_of, names}
use mpaxos.Dag.Order.{IsOrdered, In-cases, after_head}
use mpaxos.Dag.Exclusion.{Reach, pushed, popped_one, handed_out, created, next, Reach-IsSafe}
use mpaxos.Dag.Waiting.{
  IsWaiting, create-IsWaiting, push-IsWaiting, pop-IsWaiting, getwhite-IsWaiting,
}
use mpaxos.Dag.Sound.{IsSound, create-IsSound, push-IsSound, pop-IsSound, getwhite-IsSound}

-- A run of the DAG as its callers use it: no request names a group twice, and a request is taken out of
-- its own queues after it was handed out.
pub data Run : Dag → Type 0 where
  begins : Run dag_create
  pushes :
      {d d' : Dag}
      → Run d
      → (qids : List ℕ) (load : ℕ) → Distinct qids
      → dag_push qids load d ≡ ok d'
      → Run d'
  finishes :
      {d d' : Dag}
      → Run d
      → (node load : ℕ) (n : DagNode) → get d.nodes node ≡ some n
      → n.color ≡ gray
      → dag_pop n.qids d ≡ ok (d', load)
      → Run d'
  hands_out : {d d' : Dag} → Run d → (load : Option ℕ) → dag_getwhite d ≡ ok (d', load) → Run d'

Run-Reach : {d : Dag} → Run d → Reach d
Run-Reach begins = created
Run-Reach (pushes r qids load once e) = next (Run-Reach r) (pushed qids load e)
Run-Reach (finishes r node load n at is e) = next (Run-Reach r) (popped_one n.qids load e)
Run-Reach (hands_out r load e) = next (Run-Reach r) (handed_out load e)

Run-IsSound : {d : Dag} → Run d → IsSound d
Run-IsSound begins = create-IsSound
Run-IsSound (pushes r qids load once e) =
    push-IsSound qids load _ _ once e (Reach-IsSafe (Run-Reach r)) (Run-IsSound r)
Run-IsSound (finishes r node load n at is e) =
    pop-IsSound node load n _ _ at (ap is_black is) e (Reach-IsSafe (Run-Reach r)) (Run-IsSound r)
Run-IsSound (hands_out r load e) = getwhite-IsSound load _ _ e (Run-IsSound r)

Run-IsWaiting : {d : Dag} → Run d → IsWaiting d
Run-IsWaiting begins = create-IsWaiting
Run-IsWaiting (pushes r qids load once e) = push-IsWaiting qids load _ _ e (Run-IsWaiting r)
Run-IsWaiting (finishes r node load n at is e) = pop-IsWaiting n.qids load _ _ e (Run-IsWaiting r)
Run-IsWaiting (hands_out r load e) = getwhite-IsWaiting load _ _ e (Run-IsWaiting r)

-- A request is the first of all its queues, or an earlier one is the first of one of them.
first_or_earlier :
    (d : Dag) (x : ℕ) (qids : List ℕ)
    → IsOrdered d
    → All (λ j. In x (contents_of d j)) qids
    → HeadsAll d x qids ⊎ ((y : ℕ) × (y < x) × (m : DagNode) × (get d.nodes y ≡ some m))
first_or_earlier d x [] o waits = inl tt
first_or_earlier d x (j ∷ qids) o waits =
    let (y, is) = head_found (contents_of d j) waits.0 in
    elim (In-cases (contents_of d j) y x is waits.0) [
      | inr later ↦
          let (m, at, named) = o.member j y (head_In (contents_of d j) y is) in
          inr (y, after_head (contents_of d j) y x (o.rising j) is later, m, at)
      | inl same ↦ elim (first_or_earlier d x qids o waits.1) [
        | inl firsts ↦ inl (is ∙ ap some (sym same), firsts)
        | inr earlier ↦ inr earlier
      ]
    ]
  where
    head_found : (xs : List ℕ) → In x xs → (y : ℕ) × (head? xs ≡ some y)
    head_found [] i = absurd i
    head_found (z ∷ xs) i = (z, refl)

    head_In : (xs : List ℕ) (y : ℕ) → head? xs ≡ some y → In y xs
    head_In [] y e = cc
    head_In (z ∷ xs) y e = inl (sym (some-injective z y e))

named_all : (qids : List ℕ) (P : ℕ → Type 0) → ((j : ℕ) → names qids j ≡ true → P j) → All P qids
named_all [] P f = tt
named_all (qid ∷ qids) P f = (
  f qid (rw ((==_iff qid qid).1 refl) refl),
  named_all qids P (λ j named. elim (Bool-cases (qid == j)) [
    | inl hit ↦ f j (rw hit refl)
    | inr miss ↦ f j (rw miss named)
  ]),
)

-- By the order of the requests: going from a request to an earlier one ends.
goes :
    (k : ℕ) (d : Dag) (x : ℕ) (n : DagNode)
    → x < k
    → IsSound d
    → get d.nodes x ≡ some n
    → (y : ℕ) × (y ≤ x) × (m : DagNode) × (get d.nodes y ≡ some m) × (is_black m.color ≡ false)
goes zero d x n less s at = absurd (omega (arith, less))
goes (suc k) d x n less (o, awake) at =
    elim (first_or_earlier d x n.qids o
      (named_all n.qids (λ j. In x (contents_of d j)) (λ j. o.present j x n at))) [
        | inl first ↦ (x, omega arith, n, at, awake x n at first)
        | inr (y, before, m, at_y) ↦
            let (z, at_most, l, at_z, free) =
              goes k d y m (omega (arith, less, before)) (o, awake) at_y in
            (z, omega (arith, at_most, before), l, at_z, free)
      ]

-- In any run of the DAG as its callers use it, for each request that it holds, that request or an
-- earlier one waits in the white queue or was handed out.
pub some_request_goes :
    (d : Dag) (x : ℕ) (n : DagNode)
    → Run d
    → get d.nodes x ≡ some n
    → (y : ℕ) × (y ≤ x)
      × (m : DagNode) × (get d.nodes y ≡ some m)
      × ((In y d.qu) ⊎ (m.color ≡ gray))
some_request_goes d x n r at =
    let (y, at_most, m, at_y, free) = goes (suc x) d x n (omega arith) (Run-IsSound r) at in
    (y, at_most, m, at_y, where_it_is y m (m.color) refl at_y free)
  where
    differ : false ≡ true → ⊥
    differ e = cc

    where_it_is :
        (y : ℕ) (m : DagNode) (c : Color)
        → m.color ≡ c
        → get d.nodes y ≡ some m
        → is_black m.color ≡ false
        → (In y d.qu) ⊎ (m.color ≡ gray)
    where_it_is y m white is at_y free = inl (Run-IsWaiting r y m at_y is)
    where_it_is y m gray is at_y free = inr is
    where_it_is y m black is at_y free = absurd (differ (sym free ∙ ap is_black is))
