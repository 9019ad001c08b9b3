-- ===== src/Rpc/Polling/Jobs.antt =====
-- What the operations of libmpaxos/rpc/polling.c do to a job that is polled.
use mpaxos.Prelude.{
  ℕ, zero, suc, ◌+◌, ◌%◌, ◌<◌, ◌≡◌, refl, sym, ap, subst, ◌∙◌, ◌⊎◌, Option-cases, Bool, Bool-cases,
  inl, inr, true, false, ◌&&◌, ◌||◌, ◌==◌, ◌>>=◌, if◌then◌else◌, Option, none, some, some-injective,
  List, [], ◌∷◌, get_elem?, length, arith, Result, ok,
}
use mpaxos.Rpc.Polling.Defs.{
  Events, same_flag, same_events, Pollset, PollJob, PollMgr, set_elem, at_worker, poll_mgr_add_job,
  poll_mgr_remove_job, poll_mgr_update_job, poll_worker_add_job, poll_worker_remove_job,
  poll_worker_update_job, succeeds,
}

module _ {ℓ} {A : Type ℓ} where
  get-set_elem :
      (xs : List A) (i j : ℕ) {x : A} (y : A)
      → get_elem? xs i ≡ some x
      → get_elem? (set_elem xs i y) j ≡ (if i == j then some y else get_elem? xs j)
  get-set_elem [] i j y h = cc
  get-set_elem (x ∷ xs) zero zero y h = refl
  get-set_elem (x ∷ xs) zero (suc j) y h = ground arith
  get-set_elem (x ∷ xs) (suc i) zero y h = ground arith
  get-set_elem (x ∷ xs) (suc i) (suc j) y h = ground (arith, get-set_elem xs i j y h)

  set_elem_same : (xs : List A) (i : ℕ) {x : A} → get_elem? xs i ≡ some x → set_elem xs i x ≡ xs
  set_elem_same [] i h = refl
  set_elem_same (x ∷ xs) zero h = ap (λ y. y ∷ xs) (sym (some-injective x _ h))
  set_elem_same (x ∷ xs) (suc i) h = ap (◌∷◌ x) (set_elem_same xs i h)

  length-set_elem : (xs : List A) (i : ℕ) (y : A) → length (set_elem xs i y) ≡ length xs
  length-set_elem [] i y = refl
  length-set_elem (x ∷ xs) zero y = refl
  length-set_elem (x ∷ xs) (suc i) y = ap suc (length-set_elem xs i y)

  get_elem?_within : (xs : List A) (i : ℕ) → i < length xs → (x : A) × (get_elem? xs i ≡ some x)
  get_elem?_within [] i h = absurd (omega arith)
  get_elem?_within (x ∷ xs) zero h = (x, refl)
  get_elem?_within (x ∷ xs) (suc i) h = get_elem?_within xs i (omega arith)

same_flag_eq : (a b : Bool) → same_flag a b ≡ true → a ≡ b
same_flag_eq true b h = sym h
same_flag_eq false true h = cc
same_flag_eq false false h = refl

same_events_eq : (a b : Events) → same_events a b ≡ true → a ≡ b
same_events_eq a b h =
    ground (arith, same_flag_eq a.pollin b.pollin, same_flag_eq a.pollout b.pollout)

or_true : (b : Bool) → (b || true) ≡ true
or_true true = refl
or_true false = refl

-- A pollset takes a descriptor that it was just asked to remove: of the descriptors that it was created
-- for, it then holds one less than before.
abbrev pub TakesBack : {S : Type 0} → Pollset S → Type 0
TakesBack {S} set =
    (s s' : S) (fd : ℕ) (e : Events)
    → set.remove s fd ≡ some s'
    → (t : S) × (set.add s' fd e ≡ some t)

module _ {S : Type 0} ⦃set : Pollset S⦄ where
  -- The events that worker `w` polls a descriptor for.
  abbrev pub polled : PollMgr S → ℕ → ℕ → Option Events
  polled mgr w fd = elim (get_elem? mgr.workers w) [ some s ↦ set.polls s fd | none ↦ none ]

  -- The index of the next worker is in the array.
  pub record IsMgr (mgr : PollMgr S) : Type 0 where
    pub counted : length mgr.workers ≡ mgr.n_worker
    pub next : mgr.idx_worker < mgr.n_worker

  -- A job that its worker polls for the events on record.
  pub record IsPolled (mgr : PollMgr S) (job : PollJob) : Type 0 where
    pub w : ℕ
    pub s : S
    pub placed : job.worker ≡ some w
    pub in_array : get_elem? mgr.workers w ≡ some s
    pub in_set : job.ps ≡ some w
    pub waits : set.polls s job.fd ≡ some job.reqevents

  -- Only what worker `w` polls descriptor `fd` for has changed, to `e`.
  abbrev pub Changed : ℕ → ℕ → Option Events → PollMgr S → PollMgr S → Type 0
  Changed w fd e mgr mgr' =
      (v j : ℕ) → polled mgr' v j ≡ (if w == v && fd == j then e else polled mgr v j)

  module _ (mgr : PollMgr S) (job : PollJob) (p : IsPolled mgr job) where
    -- A step on the pollset of the job's worker is a step of the manager, and changes that pollset only.
    at_worker_lem :
        (operation : S → Result (S × PollJob)) (e : Option Events) {s' : S} {job' : PollJob}
        → operation p.s ≡ ok (s', job')
        → ((j : ℕ) → set.polls s' j ≡ (if job.fd == j then e else set.polls p.s j))
        → (mgr' : PollMgr S) × ((succeeds job.worker >>= λ w. at_worker operation w mgr)
            ≡ ok (mgr', job'))
          × (get_elem? mgr'.workers p.w ≡ some s')
          × Changed p.w job.fd e mgr mgr'
    at_worker_lem operation e {s'} {job'} run now =
        let set_elem_at = λ (v : ℕ). get-set_elem mgr.workers p.w v s' p.in_array in
        (
          record mgr { workers = set_elem mgr.workers p.w s' },
          ap (λ o. succeeds o >>= λ w. at_worker operation w mgr) p.placed
              ∙ rw (p.in_array, run) refl,
          ground (arith, set_elem_at p.w),
          λ v j. ground (arith, set_elem_at v, now j, p.in_array),
        )

    -- The pollset takes the descriptor out and not in again.
    abbrev pub IsLost : Events → Type 0
    IsLost mode =
        (t : S) × (set.remove p.s job.fd ≡ some t)
        × (set.add t job.fd mode ≡ none)
        × (same_events job.reqevents mode ≡ false)

    -- The worker polls for the new mode afterwards, or for nothing of the job.
    poll_worker_update_job_lem :
        (mode : Events)
        → (s' : S) × (now : Option Events) × (poll_worker_update_job p.s job mode
            ≡ ok (s', record job { reqevents = mode }))
          × ((j : ℕ) → set.polls s' j ≡ (if job.fd == j then now else set.polls p.s j))
          × ((now ≡ some mode) ⊎ ((now ≡ none) × IsLost mode))
    unfolding poll_worker_update_job
    poll_worker_update_job_lem mode = elim (Bool-cases (same_events job.reqevents mode)) [
      | inl same ↦
          let e = same_events_eq job.reqevents mode same in
          (
            p.s,
            some mode,
            rw same (ap (λ r. ok (p.s, record job { reqevents = r })) e),
            λ j. ground (arith, p.waits, e),
            inl refl,
          )
      | inr other ↦
          let (s', gone) = set.remove_polled p.s job.fd p.waits in
          elim (Option-cases (set.add s' job.fd mode)) [
            | inl full ↦ (
              s',
              none,
              rw (other, p.in_set, gone, full) refl,
              λ j. set.polls-remove p.s s' job.fd j gone,
              inr (refl, (s', gone, full, other)),
            )
            | inr (t, back) ↦ (
              t,
              some mode,
              rw (other, p.in_set, gone, back) refl,
              λ j. ground (
                arith,
                set.polls-add s' t job.fd j mode back,
                set.polls-remove p.s s' job.fd j gone,
              ),
              inl refl,
            )
          ]
    ]

  -- The mode of a job that is polled is changed. Then the job is polled for the new mode, unless the
  -- pollset took its descriptor out and not in again: in that case its worker does not poll the
  -- descriptor any more. Every other descriptor is polled as before.
  pub poll_mgr_update_job_lem :
      (mgr : PollMgr S) (job : PollJob) (mode : Events) (p : IsPolled mgr job)
      → (mgr' : PollMgr S) × (poll_mgr_update_job mgr job mode
          ≡ ok (mgr', record job { reqevents = mode }))
        × ((IsPolled mgr' (record job { reqevents = mode })
              × Changed p.w job.fd (some mode) mgr mgr')
            ⊎ (IsLost mgr job p mode × Changed p.w job.fd none mgr mgr'))
  unfolding poll_mgr_update_job
  poll_mgr_update_job_lem mgr job mode p =
      let (s', now, run, polls, which) = poll_worker_update_job_lem mgr job p mode in
      let (mgr', done, at, changed) =
        at_worker_lem mgr job p (λ s. poll_worker_update_job s job mode) now run polls in
      (
        mgr',
        done,
        elim which [
          | inl still ↦ inl (
            record {
              w = p.w;
              s = s';
              placed = p.placed;
              in_array = at;
              in_set = p.in_set;
              waits = ground (arith, polls job.fd, still);
            },
            subst (λ e. Changed p.w job.fd e mgr mgr') still changed,
          )
          | inr (gone, lost) ↦ inr (lost, subst (λ e. Changed p.w job.fd e mgr mgr') gone changed)
        ],
      )

  -- Over a pollset that takes a descriptor back, a job that is polled gets the new mode, whatever it was,
  -- and stays polled; every other descriptor is polled as before.
  pub poll_mgr_update_job-IsPolled :
      TakesBack set
      → (mgr : PollMgr S) (job : PollJob) (mode : Events) (p : IsPolled mgr job)
      → (mgr' : PollMgr S) × (poll_mgr_update_job mgr job mode
          ≡ ok (mgr', record job { reqevents = mode }))
        × IsPolled mgr' (record job { reqevents = mode })
        × Changed p.w job.fd (some mode) mgr mgr'
  poll_mgr_update_job-IsPolled back mgr job mode p =
      let (mgr', done, which) = poll_mgr_update_job_lem mgr job mode p in
      elim which [
        | inl (polled', changed) ↦ (mgr', done, polled', changed)
        | inr ((t, gone, full, other), changed) ↦
            let (u, taken) = back p.s t job.fd mode gone in absurd (none_some (sym full ∙ taken))
      ]
    where
      none_some : {u : S} → none ≡ some u → ⊥
      none_some e = cc

  -- A job that is polled is polled no more after its removal, and every other descriptor is as before.
  pub poll_mgr_remove_job_lem :
      (mgr : PollMgr S) (job : PollJob) (p : IsPolled mgr job)
      → (mgr' : PollMgr S) × (poll_mgr_remove_job mgr job ≡ ok (mgr', record job { ps = none }))
        × Changed p.w job.fd none mgr mgr'
  unfolding poll_mgr_remove_job poll_worker_remove_job
  poll_mgr_remove_job_lem mgr job p =
      let (s', gone) = set.remove_polled p.s job.fd p.waits in
      let (mgr', done, at, changed) =
        at_worker_lem mgr job p (λ s. poll_worker_remove_job s job) none (rw (p.in_set, gone) refl)
          (λ j. set.polls-remove p.s s' job.fd j gone) in
      (mgr', done, changed)

  -- A new job goes to the worker whose turn it is, which then polls for the job's events, and the turn
  -- passes to the next worker in a circle.
  pub poll_mgr_add_job-IsPolled :
      (mgr : PollMgr S) (job : PollJob) (s s' : S)
      → IsMgr mgr
      → get_elem? mgr.workers mgr.idx_worker ≡ some s
      → set.add s job.fd job.reqevents ≡ some s'
      → job.ps ≡ none
      → let w = mgr.idx_worker in
        let job' = record job { worker = some w; ps = some w } in
        (mgr' : PollMgr S) × (poll_mgr_add_job mgr job ≡ ok (mgr', job'))
        × IsPolled mgr' job'
        × IsMgr mgr'
        × (mgr'.idx_worker ≡ (w + 1) % mgr.n_worker)
        × Changed w job.fd (some job.reqevents) mgr mgr'
  unfolding poll_mgr_add_job poll_worker_add_job
  poll_mgr_add_job-IsPolled mgr job s s' m at added new =
      let w = mgr.idx_worker in
      let now = λ (j : ℕ). set.polls-add s s' job.fd j job.reqevents added in
      let set_elem_at = λ (v : ℕ). get-set_elem mgr.workers w v s' at in
      let mgr' : PollMgr S = record {
        workers = set_elem mgr.workers w s';
        n_worker = mgr.n_worker;
        idx_worker = (w + 1) % mgr.n_worker;
      } in
      let job' : PollJob = record job { worker = some w; ps = some w } in
      let p : IsPolled mgr' job' = record {
        w = w;
        s = s';
        placed = refl;
        in_array = ground (arith, set_elem_at w);
        in_set = refl;
        waits = ground (arith, now job.fd);
      } in
      let m' : IsMgr mgr' = record {
        counted = length-set_elem mgr.workers w s' ∙ m.counted;
        next = omega (arith, m.next);
      } in
      (mgr', rw (at, new, added) refl, p, m', refl, λ v j. ground (arith, set_elem_at v, now j, at))

  -- A job that was taken out is not put back by a change of its mode.
  pub poll_mgr_update_job_removed :
      (mgr : PollMgr S) (job : PollJob) (mode : Events) (w : ℕ) {s : S}
      → job.worker ≡ some w
      → get_elem? mgr.workers w ≡ some s
      → job.ps ≡ none
      → poll_mgr_update_job mgr job mode ≡ ok (mgr, job)
  unfolding poll_mgr_update_job poll_worker_update_job
  poll_mgr_update_job_removed mgr job mode w {s} placed at out =
      ap (λ o. succeeds o >>= λ v. at_worker (λ t. poll_worker_update_job t job mode) v mgr) placed
      ∙ rw (at, out, or_true (same_events job.reqevents mode), set_elem_same mgr.workers w at) refl
