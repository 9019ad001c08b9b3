-- ===== src/Rpc/Polling/Defs.antt =====
-- libmpaxos/rpc/polling.c and polling.h: a manager deals jobs out to workers, each with a pollset of
-- APR, and a job is a descriptor with the events that it waits for.
use mpaxos.Prelude.{
  ℕ, zero, suc, ◌+◌, ◌%◌, ◌≡◌, Bool, true, false, not, ◌&&◌, ◌||◌, ◌==◌, if◌then◌else◌, Option,
  none, some, List, [], ◌∷◌, ◌++◌, get_elem?, length, ltb, Result, ok, abort, ◌>>=◌, ◌>>◌,
  safe_assert, deref,
}

-- A mode: `APR_POLLIN` and `APR_POLLOUT` as two flags.
pub record Events : Type 0 where
  pub pollin : Bool
  pub pollout : Bool

abbrev pub only_in : Events
only_in = record { pollin = true; pollout = false }

abbrev pub in_and_out : Events
in_and_out = record { pollin = true; pollout = true }

abbrev pub same_flag : Bool → Bool → Bool
same_flag true b = b
same_flag false b = not b

abbrev pub same_events : Events → Events → Bool
same_events a b = same_flag a.pollin b.pollin && same_flag a.pollout b.pollout

-- What the code uses of `apr_pollset_t`: `add` and `remove` return none where APR's status is not
-- `APR_SUCCESS`. A descriptor is polled with the events it was added with until it is removed.
pub record Pollset (S : Type 0) : Type 0 where
  pub create : S
  pub add : S → ℕ → Events → Option S
  pub remove : S → ℕ → Option S
  pub polls : S → ℕ → Option Events
  pub polls-create : (fd : ℕ) → polls create fd ≡ none
  pub polls-add :
      (s s' : S) (fd j : ℕ) (e : Events)
      → add s fd e ≡ some s'
      → polls s' j ≡ (if fd == j then some e else polls s j)
  pub polls-remove :
      (s s' : S) (fd j : ℕ)
      → remove s fd ≡ some s'
      → polls s' j ≡ (if fd == j then none else polls s j)
  pub remove_polled :
      (s : S) (fd : ℕ) {e : Events} → polls s fd ≡ some e → (s' : S) × (remove s fd ≡ some s')

-- The functions that `do_read` and `do_write` point to.
pub data Callback : Type 0 where
  handle_server_accept handle_sconn_read handle_sconn_write : Callback
  handle_client_read handle_client_write : Callback

-- `poll_job_t`: a worker, and the pollset of one, is named by the worker's place in `workers`. There is
-- one manager, so the assertions that `mgr` of a job is the manager hold.
pub record PollJob : Type 0 where
  pub worker : Option ℕ
  pub fd : ℕ
  pub reqevents : Events
  pub ps : Option ℕ
  pub do_read : Option Callback
  pub do_write : Option Callback

-- `poll_job_create`: the descriptor and its events are set later, here by the arguments.
abbrev pub poll_job_create : ℕ → Events → PollJob
poll_job_create fd e = record {
  worker = none;
  fd = fd;
  reqevents = e;
  ps = none;
  do_read = none;
  do_write = none;
}

-- `poll_mgr_t`, with the pollset of each worker.
pub record PollMgr (S : Type 0) : Type 0 where
  pub workers : List S
  pub n_worker : ℕ
  pub idx_worker : ℕ

abbrev pub set_elem {ℓ} : {A : Type ℓ} → List A → ℕ → A → List A
set_elem [] i y = []
set_elem (x ∷ xs) zero y = y ∷ xs
set_elem (x ∷ xs) (suc i) y = x ∷ set_elem xs i y

-- An APR call whose status is asserted to be `APR_SUCCESS`.
abbrev pub succeeds {ℓ} : {A : Type ℓ} → Option A → Result A
succeeds (some a) = ok a
succeeds none = abort

abbrev pub or_else {ℓ} : {A : Type ℓ} → Option A → A → A
or_else (some a) b = a
or_else none b = b

abbrev pub is_null {ℓ} : {A : Type ℓ} → Option A → Bool
is_null none = true
is_null (some a) = false

module _ {S : Type 0} ⦃set : Pollset S⦄ where
  -- `poll_worker_create`, as far as the pollset goes
  abbrev pub poll_worker_create : S
  poll_worker_create = set.create

  abbrev pub create_workers : ℕ → List S
  create_workers zero = []
  create_workers (suc n) = poll_worker_create ∷ create_workers n

  -- `poll_mgr_create`
  abbrev pub poll_mgr_create : ℕ → PollMgr S
  poll_mgr_create n = record { workers = create_workers n; n_worker = n; idx_worker = 0 }

  -- `poll_worker_add_job`, on the pollset of worker `w`
  unfoldable pub poll_worker_add_job : ℕ → S → PollJob → Result (S × PollJob)
  poll_worker_add_job w s job = do
    safe_assert (is_null job.ps)
    s' ← succeeds (set.add s job.fd job.reqevents)
    ok (s', record job { ps = some w })

  -- `poll_worker_remove_job`: the return value -1 of a job without a pollset has no user.
  unfoldable pub poll_worker_remove_job : S → PollJob → Result (S × PollJob)
  poll_worker_remove_job s job =
      let removed : Result (S × PollJob) = (do
        s' ← succeeds (set.remove s job.fd)
        ok (s', record job { ps = none })) in
      if is_null job.ps then ok (s, job) else removed

  -- `apr_pollset_add` where a failure is only logged
  abbrev pub readd : S → ℕ → Events → S
  readd s fd e = or_else (set.add s fd e) s

  -- `poll_worker_update_job`
  unfoldable pub poll_worker_update_job : S → PollJob → Events → Result (S × PollJob)
  poll_worker_update_job s job mode =
      let updated : Result (S × PollJob) = (do
        s' ← succeeds (set.remove s job.fd)
        ok (readd s' job.fd mode, record job { reqevents = mode })) in
      if same_events job.reqevents mode || is_null job.ps then ok (s, job) else updated

  -- Runs an operation on the pollset of a worker of the manager.
  abbrev pub at_worker : (S → Result (S × PollJob)) → ℕ → PollMgr S → Result (PollMgr S × PollJob)
  at_worker operation w mgr = do
    s ← deref (get_elem? mgr.workers w)
    (s', job) ← operation s
    ok (record mgr { workers = set_elem mgr.workers w s' }, job)

  -- `poll_mgr_add_job`
  unfoldable pub poll_mgr_add_job : PollMgr S → PollJob → Result (PollMgr S × PollJob)
  unfolding poll_worker_add_job
  poll_mgr_add_job mgr job =
      let w = mgr.idx_worker in
      at_worker (λ s. poll_worker_add_job w s (record job { worker = some w })) w
        (record mgr { idx_worker = (w + 1) % mgr.n_worker })

  -- `poll_mgr_remove_job`
  unfoldable pub poll_mgr_remove_job : PollMgr S → PollJob → Result (PollMgr S × PollJob)
  unfolding poll_worker_remove_job
  poll_mgr_remove_job mgr job = do
    w ← succeeds job.worker
    at_worker (λ s. poll_worker_remove_job s job) w mgr

  -- `poll_mgr_update_job`
  unfoldable pub poll_mgr_update_job : PollMgr S → PollJob → Events → Result (PollMgr S × PollJob)
  unfolding poll_worker_update_job
  poll_mgr_update_job mgr job mode = do
    w ← succeeds job.worker
    at_worker (λ s. poll_worker_update_job s job mode) w mgr

-- The loop of `poll_worker_run` over what a poll returned, with the calls it makes in order.
unfoldable pub run_ready : List (Events × PollJob) → List Callback → Result (List Callback)
run_ready [] calls = ok calls
run_ready ((rtne, job) ∷ ready) calls = do
  safe_assert (rtne.pollin || rtne.pollout)
  calls ← call_if rtne.pollin job.do_read calls
  calls ← call_if rtne.pollout job.do_write calls
  run_ready ready calls
  where
    call_if : Bool → Option Callback → List Callback → Result (List Callback)
    call_if true (some f) calls = ok (calls ++ f ∷ [])
    call_if true none calls = abort
    call_if false f calls = ok calls

-- What `apr_pollset_poll` returns.
pub data PollStatus : Type 0 where
  success eintr timeup other_status : PollStatus

-- One turn of `poll_worker_run`
unfoldable pub poll_turn : PollStatus → List (Events × PollJob) → Result (List Callback)
unfolding run_ready
poll_turn success ready = do safe_assert (ltb 0 (length ready)); run_ready ready []
poll_turn eintr ready = ok []
poll_turn timeup ready = ok []
poll_turn other_status ready = abort
