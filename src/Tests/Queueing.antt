-- ===== src/Tests/Queueing.antt =====
-- Two requests that share group 2: the second is let go when the first has finished.
use mpaxos.Prelude.{
  ℕ, ◌≡◌, ◌≤◌, ◌⊎◌, refl, none, some, [], ◌∷◌, In, ok, fault, get, put, del, nat_key,
}
use mpaxos.Dag.{
  Color, gray, white, black, DagNode, Dag, dag_create, enqueue, whiten, dag_push, heads_all,
  promote, dequeue, dag_pop, getwhite_from, dag_getwhite,
}
use mpaxos.Dag.Queue
use mpaxos.Dag.Queue.{Queue}
use mpaxos.Dag.Progress.{Run, begins, pushes, finishes, hands_out, some_request_goes}
use mpaxos.Dag.Repeats.{repeated_group}

abbrev first : Color → DagNode
first c = record { qids = 1 ∷ 2 ∷ []; color = c; load = 7 }

abbrev second : Color → DagNode
second c = record { qids = 2 ∷ 3 ∷ []; color = c; load = 8 }

abbrev alone : Queue
alone = record { head = some 1; queue = [] }

abbrev one : Dag
one = record {
  ht = (1, alone) ∷ (2, alone) ∷ [];
  qu = 1 ∷ [];
  nodes = (1, first white) ∷ [];
  next = 2;
  n_push = 1;
  n_pop = 0;
}

abbrev both : Dag
both = record one {
  ht =
      (1, alone)
      ∷ (2, record { head = some 1; queue = 2 ∷ [] })
      ∷ (3, record { head = some 2; queue = [] })
      ∷ [];
  nodes = (1, first white) ∷ (2, second black) ∷ [];
  next = 3;
  n_push = 2;
}

abbrev taken : Dag
taken = record both { qu = []; nodes = (1, first gray) ∷ (2, second black) ∷ []; n_pop = 1 }

abbrev finished : Dag
finished = record taken {
  ht =
      (1, record { head = none; queue = [] })
      ∷ (2, record { head = some 2; queue = [] })
      ∷ (3, record { head = some 2; queue = [] })
      ∷ [];
  qu = 2 ∷ [];
  nodes = (2, second white) ∷ [];
}

program : Unit {0}
unfolding get put del Queue.push Queue.peek Queue.trypop enqueue whiten dag_push heads_all promote
    dequeue dag_pop getwhite_from dag_getwhite
program = tt

pushes_first : dag_push (1 ∷ 2 ∷ []) 7 dag_create ≡ ok one
unfolding program
pushes_first = refl

pushes_second : dag_push (2 ∷ 3 ∷ []) 8 one ≡ ok both
unfolding program
pushes_second = refl

hands_out_first : dag_getwhite both ≡ ok (taken, some 7)
unfolding program
hands_out_first = refl

finishes_first : dag_pop (1 ∷ 2 ∷ []) taken ≡ ok (finished, 7)
unfolding program
finishes_first = refl

run : Run finished
unfolding get
run =
    finishes
      (hands_out
        (pushes (pushes begins (1 ∷ 2 ∷ []) 7 ((refl, tt), (tt, tt)) pushes_first) (2 ∷ 3 ∷ []) 8
          ((refl, tt), (tt, tt)) pushes_second)
        (some 7) hands_out_first)
      1 7 (first gray) refl refl finishes_first

some_request_goes_example :
    (y : ℕ) × (y ≤ 2)
    × (m : DagNode) × (get finished.nodes y ≡ some m)
    × ((In y (2 ∷ [])) ⊎ (m.color ≡ gray))
unfolding get
some_request_goes_example = some_request_goes finished 2 (second white) run refl

repeated_group_example :
    (d1 : Dag) × (dag_push (4 ∷ 4 ∷ []) 9 dag_create ≡ ok d1)
    × (d2 : Dag) × (dag_getwhite d1 ≡ ok (d2, some 9))
    × (d3 : Dag) × (dag_pop (4 ∷ 4 ∷ []) d2 ≡ ok (d3, 9))
    × (dag_getwhite d3 ≡ fault)
repeated_group_example = repeated_group 4 9
