-- ===== src/Rpc/Conn/Server.antt =====
-- libmpaxos/rpc/server.c: a connection of the server with the functions that its messages call.
use mpaxos.Prelude.{
  ℕ, suc, ◌/◌, ◌%◌, Bool, not, ◌==◌, if◌then◌else◌, none, some, List, [], ◌∷◌, ◌++◌, get_elem?,
  take, drop, Result, ok, ◌>>=◌, deref, Dict, nat_key,
}
use mpaxos.Hash.{mpr_hash_get, mpr_hash_set}
use mpaxos.Rpc.Buf.{Socket, buf_from_sock}
use mpaxos.Rpc.Polling.{Pollset, PollMgr, succeeds}
use mpaxos.Rpc.Conn.Defs.{
  RpcState, RpcFun, Conn, sconn_next, read_loop, write_trigger_poll, after_read,
}

-- `sconn_t` with the manager, the table and the thread pool that it shares with its server. `world` is
-- the state of the process that the functions of the table work on.
pub record Sconn (S W : Type 0) : Type 0 where
  pub ht : Dict ℕ (RpcFun W)
  pub mgr : PollMgr S
  pub conn : Conn
  pub tasks : List RpcState
  pub world : W

-- `server_reg`: a function pointer is never NULL here.
abbrev pub server_reg {ℓ} : {F : Type ℓ} → Dict ℕ F → ℕ → F → Dict ℕ F
server_reg ht msgid fun = mpr_hash_set ht msgid (some fun)

-- `msgid & NEW_THREAD_CALL`
abbrev pub in_new_thread : ℕ → Bool
in_new_thread msgid = not (msgid / 32768 % 2 == 0)

module _ {S W : Type 0} ⦃set : Pollset S⦄ where
  -- `reply_to`, where there is an output
  abbrev pub reply_to : RpcState → Sconn S W → Result (Sconn S W)
  reply_to state sconn = elim state.raw_output [
    | none ↦ ok sconn
    | some output ↦ do
      (mgr, conn) ← write_trigger_poll state.msgid output sconn.mgr sconn.conn
      ok (record sconn { mgr = mgr; conn = conn })
  ]

  -- `msg_call`
  unfoldable pub msg_call : RpcState → Sconn S W → Result (Sconn S W)
  msg_call state sconn = do
    fun ← succeeds (mpr_hash_get sconn.ht state.msgid)
    (state, world) ← fun state sconn.world
    reply_to state (record sconn { world = world })

  -- The dispatch of `handle_sconn_read`
  unfoldable pub sconn_dispatch : ℕ × List ℕ → Sconn S W → Result (Sconn S W)
  unfolding msg_call
  sconn_dispatch (msgid, input) sconn =
      let state : RpcState = record { msgid = msgid; raw_input = input; raw_output = none } in
      let called = msg_call state sconn in
      if in_new_thread msgid
      then ok (record sconn { tasks = sconn.tasks ++ state ∷ [] })
      else called

  -- A thread of the pool takes a task, any of those that wait, and runs it.
  unfoldable pub run_task : ℕ → Sconn S W → Result (Sconn S W)
  unfolding msg_call
  run_task i sconn = do
    state ← deref (get_elem? sconn.tasks i)
    msg_call state (record sconn { tasks = take i sconn.tasks ++ drop (suc i) sconn.tasks })

  -- `handle_sconn_read`; the fuel is for its two loops.
  unfoldable pub handle_sconn_read :
      {K : Type 0} ⦃socket : Socket K⦄ → ℕ → Sconn S W → K → Result (Sconn S W × K)
  handle_sconn_read fuel sconn k = do
    (status, buf, k) ← buf_from_sock fuel sconn.conn.buf_recv k
    (buf, sconn) ← read_loop sconn_next sconn_dispatch fuel buf sconn
    (mgr, pjob) ← after_read status sconn.mgr sconn.conn.pjob
    ok (record sconn { mgr = mgr; conn = record sconn.conn { buf_recv = buf; pjob = pjob } }, k)
