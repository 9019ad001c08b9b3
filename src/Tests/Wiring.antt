-- ===== src/Tests/Wiring.antt =====
-- A client and a server of one connection, over pipes that take three bytes at a time.
use mpaxos.Prelude.{
  ℕ, ◌<◌, ◌≡◌, ◌⊎◌, none, refl, some, List, [], ◌∷◌, ◌++◌, All, arith, Result, ok, abort, ◌>>=◌,
  false, Dict, get, nat_key,
}
use mpaxos.Rpc.Buf.{Buf, content, IsBuf, buf_create, Status, is_success}
use mpaxos.Rpc.Buf.Room.{HasRoom}
use mpaxos.Rpc.Polling.{
  Events, only_in, in_and_out, PollJob, PollMgr, poll_job_create, poll_mgr_update_job,
}
use mpaxos.Rpc.Polling.Jobs.{IsPolled, Changed, IsLost, poll_mgr_update_job_lem}
use mpaxos.Rpc.Buf.{buf_from_sock}
use mpaxos.Rpc.Buf.Flow.{buf_from_sock_lem}
use mpaxos.Rpc.Conn.{
  RpcFun, Conn, Sconn, sconn_dispatch, handle_sconn_read, handle_client_write, sconn_next,
  client_next, read_loop,
}
use mpaxos.Rpc.Conn.Frames.{IsMessage, IsPartial}
use mpaxos.Rpc.Conn.Loops.{frames, run_messages, client_read_loop}
use mpaxos.Rpc.Conn.Wire.{client_calls, sconn_read_loop_empty}
use mpaxos.Rpc.Conn.Delivery.{client_calls-handle_sconn_read}
use mpaxos.Tests.Sockets.{
  table_pollset, table_back, Pipe, pipe_recv, pipe_socket, pipe_up, pipe_open,
}

abbrev job : PollJob
job = poll_job_create 7 only_in

abbrev pub added : PollJob
added = record job { worker = some 0; ps = some 0 }

abbrev pub polling : PollMgr (Dict ℕ Events)
polling = record { workers = ((7, only_in) ∷ []) ∷ [] ∷ []; n_worker = 2; idx_worker = 1 }

pub added-IsPolled : IsPolled polling added
unfolding get
added-IsPolled = record {
  w = 0;
  s = (7, only_in) ∷ [];
  placed = refl;
  in_array = refl;
  in_set = refl;
  waits = refl;
}

poll_mgr_update_job_lem_example :
    (mgr' : PollMgr (Dict ℕ Events)) × (poll_mgr_update_job polling added in_and_out
      ≡ ok (mgr', record added { reqevents = in_and_out }))
    × ((IsPolled mgr' (record added { reqevents = in_and_out })
          × Changed 0 7 (some in_and_out) polling mgr')
        ⊎ (IsLost polling added added-IsPolled in_and_out × Changed 0 7 none polling mgr'))
unfolding added-IsPolled
poll_mgr_update_job_lem_example = poll_mgr_update_job_lem polling added in_and_out added-IsPolled

abbrev pub full_conn : Conn
full_conn = record { pjob = added; buf_recv = buf_create; buf_send = buf_create }

pub buf_create-HasRoom : HasRoom buf_create 1000
buf_create-HasRoom = (
  record {
    front = omega arith;
    back = omega arith;
    bytes = refl;
    small = omega arith;
    large = omega arith;
  },
  omega arith,
)

-- Two messages, of type 1 with two bytes and of type 3 with one.
abbrev messages : List (ℕ × List ℕ)
messages = (1, 10 ∷ 11 ∷ []) ∷ (3, 12 ∷ []) ∷ []

abbrev some_frames : List ℕ
some_frames = 2 ∷ 0 ∷ 0 ∷ 0 ∷ 1 ∷ 0 ∷ 10 ∷ 11 ∷ 1 ∷ 0 ∷ 0 ∷ 0 ∷ 3 ∷ 0 ∷ 12 ∷ []

framed : frames messages ≡ some_frames
framed = refl

abbrev pub pipe : List ℕ → Pipe
pipe bytes = record { arrived = bytes; taken = [] }

-- A function that leaves the bytes it got, in the world and, doubled, as its answer.
abbrev echo : RpcFun (List ℕ)
echo state w =
    ok (record state { raw_output = some (state.raw_input ++ state.raw_input) }, state.raw_input)

abbrev server : Sconn (Dict ℕ Events) (List ℕ)
server = record {
  ht = (1, echo) ∷ (3, echo) ∷ [];
  mgr = polling;
  conn = full_conn;
  tasks = [];
  world = [];
}

buf_from_sock_lem_example :
    (status : Status) × (b' : Buf) × (k' : Pipe) × (buf_from_sock 16 buf_create (pipe some_frames)
      ≡ ok (status, b', k'))
    × IsBuf b'
    × (content b' ++ k'.arrived ≡ some_frames)
    × (is_success status ≡ false)
    × (j : Pipe) × (n : ℕ) × (0 < n)
    × ((pipe_recv j n).0 ≡ status)
    × ((pipe_recv j n).2 ≡ k')
buf_from_sock_lem_example =
    buf_from_sock_lem 16 buf_create (pipe some_frames) (buf_create-HasRoom.0, omega arith)
      (omega arith)

client_calls-handle_sconn_read_example :
    (mgr1 : PollMgr (Dict ℕ Events)) × (conn1 : Conn) × (mgr2 : PollMgr (Dict ℕ Events))
    × (conn2 : Conn) × (k2 : Pipe) × (client_calls messages polling full_conn ≡ ok (mgr1, conn1))
    × (handle_client_write 16 mgr1 conn1 (pipe []) ≡ ok (mgr2, conn2, k2))
    × (k2.taken ≡ some_frames)
    × (b : Buf) × (k' : Pipe) × (content b ≡ [])
    × (handle_sconn_read 16 server (pipe some_frames) ≡ (
        run_messages sconn_dispatch messages server >>= λ s.
        ok (record s { conn = record s.conn { buf_recv = b } }, k')))
client_calls-handle_sconn_read_example =
    client_calls-handle_sconn_read 16 messages polling full_conn (pipe []) server (pipe some_frames)
      table_back pipe_open pipe_up
      (
        (((omega arith, omega arith), omega arith), λ e. omega (arith, e)),
        ((((omega arith, omega arith), omega arith), λ e. omega (arith, e)), tt),
      )
      (buf_create-HasRoom.0, omega arith) refl added-IsPolled (buf_create-HasRoom.0, omega arith)
      refl refl (omega arith)

-- A buffer with a whole frame, one without data and two bytes more.
abbrev mixed : Buf
mixed = record {
  raw = 1 ∷ 0 ∷ 0 ∷ 0 ∷ 5 ∷ 0 ∷ 9 ∷ 0 ∷ 0 ∷ 0 ∷ 0 ∷ 6 ∷ 0 ∷ 1 ∷ 0 ∷ [];
  sz = 20;
  idx_read = 0;
  idx_write = 15;
}

mixed-IsBuf : IsBuf mixed
mixed-IsBuf = record {
  front = omega arith;
  back = omega arith;
  bytes = refl;
  small = omega arith;
  large = omega arith;
}

abbrev note : ℕ × List ℕ → List (ℕ × List ℕ) → Result (List (ℕ × List ℕ))
note m seen = ok (seen ++ m ∷ [])

client_read_loop_example :
    (ms : List (ℕ × List ℕ)) × (b' : Buf) × All IsMessage ms
    × (content mixed ≡ frames ms ++ content b')
    × IsPartial (content b')
    × IsBuf b'
    × ((x : List (ℕ × List ℕ))
        → read_loop client_next note 16 mixed x ≡ (run_messages note ms x >>= λ y. ok (b', y)))
client_read_loop_example = client_read_loop note mixed 16 mixed-IsBuf (ground arith) (omega arith)

sconn_read_loop_empty_example : read_loop sconn_next note 16 mixed [] ≡ abort
sconn_read_loop_empty_example =
    sconn_read_loop_empty note 16 ((5, 9 ∷ []) ∷ []) 6 (1 ∷ 0 ∷ []) mixed [] (omega arith)
      (((omega arith, omega arith), omega arith), tt) (omega arith) mixed-IsBuf refl
