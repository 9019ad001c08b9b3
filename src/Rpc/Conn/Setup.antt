-- ===== src/Rpc/Conn/Setup.antt =====
-- libmpaxos/rpc/server.c and client.c: how connections come into being, and are polled.
use mpaxos.Prelude.{
  ℕ, Bool, some, List, [], ◌∷◌, Result, ok, abort, fault, ◌>>=◌, ◌>>◌, safe_assert,
}
use mpaxos.Rpc.Buf.{buf_create}
use mpaxos.Rpc.Polling.{
  Callback, only_in, Pollset, PollJob, PollMgr, poll_job_create, poll_mgr_add_job,
}
use mpaxos.Rpc.Conn.Defs.{Conn}

-- What `apr_socket_accept` returns: a descriptor, or a failure.
pub data Accepted : Type 0 where
  new_socket : ℕ → Accepted
  emfile enfile other_failure : Accepted

-- What `apr_socket_connect` returns.
pub data Connected : Type 0 where
  connected connrefused einval other_status : Connected

-- What both sides set up: a job with its callbacks, and two new buffers.
abbrev pub new_conn : Callback → Callback → ℕ → Conn
new_conn do_read do_write fd = record {
  pjob = record (poll_job_create fd only_in) { do_read = some do_read; do_write = some do_write };
  buf_recv = buf_create;
  buf_send = buf_create;
}

-- `sconn_create`, with the descriptor and its events that `handle_server_accept` sets
abbrev pub sconn_create : ℕ → Conn
sconn_create = new_conn Callback.handle_sconn_read Callback.handle_sconn_write

-- `client_create`. The descriptor, here 0, and its events are set by `client_connect`.
abbrev pub client_create : Conn
client_create = new_conn Callback.handle_client_read Callback.handle_client_write 0

-- The job of `server_create`, with what `server_start` sets
abbrev pub server_create : ℕ → PollJob
server_create fd = record (poll_job_create fd only_in) {
  do_read = some Callback.handle_server_accept;
}

-- The loop of `client_connect` over what the attempts return, with those that were not made: where they
-- end, none succeeded yet.
unfoldable pub connect_loop : List Connected → Result (List Connected)
connect_loop [] = fault
connect_loop (connected ∷ attempts) = ok attempts
connect_loop (connrefused ∷ attempts) = connect_loop attempts
connect_loop (einval ∷ attempts) = abort
connect_loop (other_status ∷ attempts) = abort

module _ {S : Type 0} ⦃set : Pollset S⦄ where
  -- A connection whose job is added to the manager.
  unfoldable pub add_conn : PollMgr S → Conn → Result (PollMgr S × Conn)
  add_conn mgr conn = do
    (mgr, pjob) ← poll_mgr_add_job mgr conn.pjob
    ok (mgr, record conn { pjob = pjob })

  -- `server_start`, with whether `server_bind_listen` could bind and listen
  unfoldable pub server_start : Bool → Bool → ℕ → PollMgr S → Result (PollMgr S × PollJob)
  server_start binds listens fd mgr = do
    safe_assert binds
    safe_assert listens
    poll_mgr_add_job mgr (server_create fd)

  -- `handle_server_accept`
  unfoldable pub handle_server_accept : Accepted → PollMgr S → Result (PollMgr S × Conn)
  unfolding add_conn
  handle_server_accept (new_socket fd) mgr = add_conn mgr (sconn_create fd)
  handle_server_accept emfile mgr = abort
  handle_server_accept enfile mgr = abort
  handle_server_accept other_failure mgr = abort

  -- `client_connect` of a client, with whether the calls on the socket before and after the loop succeed,
  -- what the attempts return, and the descriptor of the socket; the attempts that are left are returned.
  unfoldable pub client_connect :
      Bool
      → Bool
      → List Connected
      → ℕ
      → PollMgr S
      → Conn
      → Result (PollMgr S × Conn × List Connected)
  unfolding connect_loop add_conn
  client_connect opens unblocks attempts fd mgr cli = do
    safe_assert opens
    left ← connect_loop attempts
    safe_assert unblocks
    (mgr, cli) ←
        add_conn mgr (record cli { pjob = record (cli.pjob) { fd = fd; reqevents = only_in } })
    ok (mgr, cli, left)
