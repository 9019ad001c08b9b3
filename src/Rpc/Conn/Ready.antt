-- ===== src/Rpc/Conn/Ready.antt =====
-- New connections of libmpaxos/rpc are polled for input: those that a server accepts, with empty
-- buffers, and those of a client that connects, with what was in its buffers.
use mpaxos.Prelude.{
  ℕ, zero, suc, ◌^◌, ◌≤◌, ◌≡◌, refl, true, none, some, List, [], ◌∷◌, ◌++◌, get_elem?, arith, ok,
  abort,
}
use mpaxos.Rpc.Buf.{content, buf_create}
use mpaxos.Rpc.Buf.Room.{HasRoom}
use mpaxos.Rpc.Polling.{Callback, only_in, Pollset, PollJob, PollMgr}
use mpaxos.Rpc.Polling.Jobs.{IsPolled, IsMgr, poll_mgr_add_job-IsPolled}
use mpaxos.Rpc.Conn.Defs.{Conn}
use mpaxos.Rpc.Conn.Setup.{
  connected, connrefused, einval, other_status, new_socket, Connected, new_conn, add_conn,
  connect_loop, handle_server_accept, client_connect,
}

abbrev pub refusals : ℕ → List Connected
refusals zero = []
refusals (suc n) = connrefused ∷ refusals n

-- Refusals are passed over.
connect_loop_lem :
    (n : ℕ) (attempts : List Connected)
    → connect_loop (refusals n ++ attempts) ≡ connect_loop attempts
unfolding connect_loop
connect_loop_lem zero attempts = refl
connect_loop_lem (suc n) attempts = connect_loop_lem n attempts

buf_create-HasRoom : (k : ℕ) → k ≤ 2 ^ 62 → HasRoom buf_create k
buf_create-HasRoom k h = (
  record {
    front = omega arith;
    back = omega arith;
    bytes = refl;
    small = omega arith;
    large = omega arith;
  },
  omega (arith, h),
)

module _ {S : Type 0} ⦃set : Pollset S⦄ where
  -- A connection on which messages can be called and received at once.
  pub record IsReady (mgr : PollMgr S) (conn : Conn) : Type 0 where
    pub polled : IsPolled mgr conn.pjob
    pub input : conn.pjob.reqevents ≡ only_in
    pub to_send : content conn.buf_send ≡ []
    pub to_read : content conn.buf_recv ≡ []
    pub send_room : (k : ℕ) → k ≤ 2 ^ 62 → HasRoom conn.buf_send k
    pub read_room : (k : ℕ) → k ≤ 2 ^ 62 → HasRoom conn.buf_recv k

  module _ (fd : ℕ) (mgr : PollMgr S) (s s' : S) (m : IsMgr mgr)
      (turn : get_elem? mgr.workers mgr.idx_worker ≡ some s)
      (added : set.add s fd only_in ≡ some s') where
    add_conn-IsReady :
        (do_read do_write : Callback)
        → (mgr' : PollMgr S) × (conn : Conn) × (add_conn mgr (new_conn do_read do_write fd)
            ≡ ok (mgr', conn))
          × IsReady mgr' conn
          × IsMgr mgr'
    unfolding add_conn
    add_conn-IsReady do_read do_write =
        let conn = new_conn do_read do_write fd in
        let (mgr', run, p, m', next, others) =
          poll_mgr_add_job-IsPolled mgr conn.pjob s s' m turn added refl in
        let w = mgr.idx_worker in
        (
          mgr',
          record conn { pjob = record (conn.pjob) { worker = some w; ps = some w } },
          rw run refl,
          record {
            polled = p;
            input = refl;
            to_send = refl;
            to_read = refl;
            send_room = buf_create-HasRoom;
            read_room = buf_create-HasRoom;
          },
          m',
        )

    -- A connection that is accepted is ready.
    pub handle_server_accept-IsReady :
        (mgr' : PollMgr S) × (conn : Conn) × (handle_server_accept (new_socket fd) mgr
          ≡ ok (mgr', conn))
        × IsReady mgr' conn
        × IsMgr mgr'
    unfolding handle_server_accept
    handle_server_accept-IsReady =
        add_conn-IsReady Callback.handle_sconn_read Callback.handle_sconn_write

    -- A client that is not polled, with a manager whose next worker is one of its workers, where the
    -- other calls on its socket succeed, and whose attempts to connect are refused any number of times.
    -- If the next attempt succeeds, it is the last one that is made, and a socket whose descriptor the
    -- pollset takes is polled for input afterwards, by the worker whose turn it is; what the client had to
    -- send and had received stays in its buffers. If the next attempt fails in another way, the process is
    -- stopped.
    pub client_connect_lem :
        (n : ℕ) (later : List Connected) (cli : Conn)
        → cli.pjob.ps ≡ none
        → ((mgr' : PollMgr S) × (conn : Conn) × (client_connect true true
                (refusals n ++ connected ∷ later)
                fd
                mgr
                cli
              ≡ ok (mgr', conn, later))
            × IsPolled mgr' conn.pjob
            × (conn.pjob.fd ≡ fd)
            × (conn.pjob.worker ≡ some mgr.idx_worker)
            × (conn.pjob.reqevents ≡ only_in)
            × (conn.buf_send ≡ cli.buf_send)
            × (conn.buf_recv ≡ cli.buf_recv)
            × IsMgr mgr')
          × (client_connect true true (refusals n ++ einval ∷ later) fd mgr cli ≡ abort)
          × (client_connect true true (refusals n ++ other_status ∷ later) fd mgr cli ≡ abort)
    unfolding client_connect connect_loop add_conn
    client_connect_lem n later cli new =
        let job : PollJob = record (cli.pjob) { fd = fd; reqevents = only_in } in
        let (mgr', run, p, m', next, others) =
          poll_mgr_add_job-IsPolled mgr job s s' m turn added new in
        let w = mgr.idx_worker in
        (
          (
            mgr',
            record cli { pjob = record job { worker = some w; ps = some w } },
            rw (connect_loop_lem n (connected ∷ later), run) refl,
            p,
            refl,
            refl,
            refl,
            refl,
            refl,
            m',
          ),
          rw (connect_loop_lem n (einval ∷ later)) refl,
          rw (connect_loop_lem n (other_status ∷ later)) refl,
        )
