-- ===== src/Rpc/Conn/Client.antt =====
-- libmpaxos/rpc/client.c: a connection of a client with the functions that its messages call.
use mpaxos.Prelude.{ℕ, List, some, Result, ok, ◌>>=◌, Dict, nat_key}
use mpaxos.Hash.{mpr_hash_get, mpr_hash_set}
use mpaxos.Rpc.Buf.{Socket, buf_from_sock}
use mpaxos.Rpc.Polling.{Pollset, PollMgr, succeeds}
use mpaxos.Rpc.Conn.Defs.{Conn, client_next, read_loop, after_read}

-- A function of a client's table sees the data alone: the code sets no other field of `rpc_state`.
abbrev pub ClientFun : Type 0 → Type 0
ClientFun W = List ℕ → W → Result W

-- `client_t` with the manager and the table; `world` is the state of the process.
pub record ClientConn (S W : Type 0) : Type 0 where
  pub ht : Dict ℕ (ClientFun W)
  pub mgr : PollMgr S
  pub conn : Conn
  pub world : W

-- `client_reg`
abbrev pub client_reg {ℓ} : {F : Type ℓ} → Dict ℕ F → ℕ → F → Dict ℕ F
client_reg ht msgid fun = mpr_hash_set ht msgid (some fun)

module _ {S W : Type 0} ⦃set : Pollset S⦄ where
  -- The call of `handle_client_read`
  unfoldable pub client_dispatch : ℕ × List ℕ → ClientConn S W → Result (ClientConn S W)
  client_dispatch (msgid, input) cli = do
    fun ← succeeds (mpr_hash_get cli.ht msgid)
    world ← fun input cli.world
    ok (record cli { world = world })

  -- `handle_client_read`; the fuel is for its two loops.
  unfoldable pub handle_client_read :
      {K : Type 0} ⦃socket : Socket K⦄ → ℕ → ClientConn S W → K → Result (ClientConn S W × K)
  handle_client_read fuel cli k = do
    (status, buf, k) ← buf_from_sock fuel cli.conn.buf_recv k
    (buf, cli) ← read_loop client_next client_dispatch fuel buf cli
    (mgr, pjob) ← after_read status cli.mgr cli.conn.pjob
    ok (record cli { mgr = mgr; conn = record cli.conn { buf_recv = buf; pjob = pjob } }, k)
