-- ===== src/Async/Starts.antt =====
-- From the call of the application, by the daemon of libmpaxos/async.c, to the prepares that are sent.
use mpaxos.Prelude.{
  ℕ, ◌≡◌, refl, ap, ◌∙◌, true, false, ==_iff, some, List, [], ◌∷◌, ◌++◌, map, ok, get, put, get-put,
  nat_key,
}
use mpaxos.Types.{Req}
use mpaxos.Dag.Idle.{Distinct, IsIdle, push-getwhite_alone}
use mpaxos.Node.{Env, pick_slots}
use mpaxos.Node.Broadcast.{HasClients}
use mpaxos.Node.Prepare.{prepare_packet, new_rids, mpaxos_start_request-sent}
use mpaxos.Async.Defs.{
  Async, raw_req, count_txn, mpaxos_async_enlist, mpaxos_commit_raw, daemon_turn, async_commit_job,
}

-- The thread pool starts the one task that it has.
job_sent :
    (env : Env) (req : Req) (gid : ℕ) (gids : List ℕ) (a : Async)
    → a.jobs ≡ req ∷ []
    → req.gids ≡ gid ∷ gids
    → (pick_slots req.gids true a.node.store.rec).2 ≡ false
    → HasClients a.node.view a.node.view.arr_nodes
    → (a' : Async) × (async_commit_job env a ≡ ok a')
      × (a'.node.out
          ≡ a.node.out
            ++ map
                (λ nid. (nid, prepare_packet a.node.view.local_nid req.id (new_rids req a.node)))
                a.node.view.arr_nodes)
unfolding async_commit_job
job_sent env req gid gids a one some_gid not_ours known =
    let (node, run, out) =
      mpaxos_start_request-sent env req gid gids a.node some_gid not_ours known in
    (record a { jobs = []; node = node }, rw (one, run) refl, out)

module _ (env : Env) (gid : ℕ) (gids value value_c : List ℕ) (a : Async)
    (idle : IsIdle a.node.dag (gid ∷ gids)) (apart : Distinct (gid ∷ gids))
    (empty : a.node.dag.qu ≡ []) (free : a.jobs ≡ [])
    (not_ours : (pick_slots (gid ∷ gids) true a.node.store.rec).2 ≡ false)
    (known : HasClients a.node.view a.node.view.arr_nodes) where
  -- The request that is made.
  abbrev made : Req
  made = raw_req (count_txn a).0 (gid ∷ gids) value value_c

  -- The request is enlisted, the daemon's next turn makes it a task, and the task sends a prepare of the
  -- request's rounds to each node of the view.
  abbrev IsStarted : Type 0
  IsStarted =
      (a1 : Async) × (mpaxos_commit_raw (gid ∷ gids) value value_c a ≡ ok a1)
      × (a2 : Async) × (daemon_turn a1 ≡ ok a2)
      × (a3 : Async) × (async_commit_job env a2 ≡ ok a3)
      × (a3.node.out
          ≡ a.node.out
            ++ map
                (λ nid. (nid, prepare_packet a.node.view.local_nid made.id (new_rids made a.node)))
                a.node.view.arr_nodes)

  pub mpaxos_commit_raw-IsStarted : IsStarted
  unfolding mpaxos_commit_raw mpaxos_async_enlist daemon_turn
  mpaxos_commit_raw-IsStarted =
      let (d1, pushed, d2, got) =
        push-getwhite_alone (gid ∷ gids) made.id a.node.dag idle apart empty in
      let a1 : Async = record (count_txn a).1 {
        reqs = put a.reqs made.id made;
        node = record (a.node) { dag = d1 };
      } in
      let a2 : Async = record a1 {
        jobs = a.jobs ++ made ∷ [];
        node = record (a.node) { dag = d2 };
      } in
      let found : get (put a.reqs made.id made) made.id ≡ some made =
        get-put a.reqs made.id made.id made ∙ rw ((==_iff made.id made.id).1 refl) refl in
      let (a3, run, out) =
        job_sent env made gid gids a2 (ap (λ l. l ++ made ∷ []) free) refl not_ours known in
      (a1, rw pushed refl, a2, rw (got, found) refl, a3, run, out)
